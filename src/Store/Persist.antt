-- ===== src/Store/Persist.antt =====
-- `persist` and `open` of src/store.rs: what a failed or a finished `persist` leaves on the disk.
use jmap2telegram.Prelude.{
  ℕ, zero, suc, ◌≡◌, ◌≢◌, refl, ap, subst, take, drop, ◌⊎◌, inl, inr, [], ◌∷◌, ◌++◌, Option, none,
  some, Option-cases, arith, length, length-append, take-append_left, drop-append_left, Text, ℤ,
  Dict, ok, err, Entries,
}
use jmap2telegram.Account.{
  Account, SharedAccount, AccountVersion, serialize, deserialize, adopt_orphans,
}
use jmap2telegram.Store.{
  Bytes, StoreData, Backend, Error, encryption, Disk, Io, Store, fs_step, fs_partial, run_ops,
  persist_ops, decrypt, parse_accounts, open_store, persist,
}

abbrev pub versions : Dict ℤ Account → Dict ℤ AccountVersion
versions [] = []
versions ((chat_id, account) ∷ d) = (chat_id, serialize account) ∷ versions d

-- What the store relies on: the cipher and the JSON codec read back what they wrote.
pub record IsLawful (b : Backend) : Type 0 where
  pub decrypts :
      (key nonce plaintext ciphertext : Bytes)
      → b.gcm_encrypt key nonce plaintext ≡ some ciphertext
      → b.gcm_decrypt key nonce ciphertext ≡ some plaintext
  pub parses :
      (d : StoreData) (bytes : Bytes)
      → b.to_vec d ≡ some bytes
      → b.from_slice bytes ≡ some (versions d.accounts)

-- Every shared mailbox of every chat names the slot that authorized it.
abbrev pub NamesParent : Text → SharedAccount → Type 0
NamesParent _ shared = shared.parent_slot ≢ none

abbrev pub HasParents : ℤ → Account → Type 0
HasParents _ account = Entries NamesParent account.shared_accounts

adopt_orphans_id : (d : Dict Text SharedAccount) → Entries NamesParent d → adopt_orphans d ≡ d
unfolding adopt_orphans
adopt_orphans_id [] h = refl
adopt_orphans_id ((id, shared) ∷ d) (here, there) = elim (Option-cases shared.parent_slot) [
  | inl e ↦ absurd (here e)
  | inr (p, e) ↦ ground (arith, adopt_orphans_id d there)
]

deserialize-serialize : (a : Account) → HasParents (ℤ.pos 0) a → deserialize (serialize a) ≡ a
unfolding deserialize
deserialize-serialize a h =
    ap (λ d. record a { shared_accounts = d }) (adopt_orphans_id a.shared_accounts h)

parse_accounts-versions :
    (d : Dict ℤ Account) → Entries HasParents d → parse_accounts (versions d) ≡ d
unfolding parse_accounts
parse_accounts-versions [] h = refl
parse_accounts-versions ((chat_id, a) ∷ d) (here, there) =
    ground (arith, deserialize-serialize a here, parse_accounts-versions d there)

module _ (b : Backend) (call : Io) where
  run_ops_cases :
      (fails_at : Option ℕ) (ciphertext : Bytes) (d : Disk)
      → (run_ops call fails_at (persist_ops ciphertext) d
          ≡ (ok tt, record { state_enc = some ciphertext; state_tmp = none }))
        ⊎ ((e : Error) × ((run_ops call fails_at (persist_ops ciphertext) d).0 ≡ err e)
            × ((run_ops call fails_at (persist_ops ciphertext) d).1.state_enc ≡ d.state_enc))
  unfolding run_ops fs_step fs_partial
  run_ops_cases none ciphertext d = inl refl
  run_ops_cases (some zero) ciphertext d = inr (_, refl, refl)
  run_ops_cases (some (suc zero)) ciphertext d = inr (_, refl, refl)
  run_ops_cases (some (suc (suc zero))) ciphertext d = inr (_, refl, refl)
  run_ops_cases (some (suc (suc (suc zero)))) ciphertext d = inr (_, refl, refl)
  run_ops_cases (some (suc (suc (suc (suc zero))))) ciphertext d = inr (_, refl, refl)
  run_ops_cases (some (suc (suc (suc (suc (suc k)))))) ciphertext d = inl refl

  persist_sealed :
      (s : Store) (plaintext ciphertext : Bytes)
      → b.to_vec s.contents ≡ some plaintext
      → b.gcm_encrypt s.key call.nonce plaintext ≡ some ciphertext
      → persist b call s ≡ (
        (run_ops call call.fails_at (persist_ops (call.nonce ++ ciphertext)) s.disk).0,
        record s {
          disk = (run_ops call call.fails_at (persist_ops (call.nonce ++ ciphertext)) s.disk).1;
        },
      )
  unfolding persist
  persist_sealed s plaintext ciphertext e f = ground arith

  persist_unsealed :
      (s : Store) (plaintext : Bytes)
      → b.to_vec s.contents ≡ some plaintext
      → b.gcm_encrypt s.key call.nonce plaintext ≡ none
      → persist b call s ≡ (err encryption, s)
  unfolding persist
  persist_unsealed s plaintext e f = ground arith

  -- `persist` writes the disk, and nothing else.
  pub persist-contents : (s : Store) → (persist b call s).1.contents ≡ s.contents
  unfolding persist
  persist-contents s = ground arith

  pub persist-key : (s : Store) → (persist b call s).1.key ≡ s.key
  unfolding persist
  persist-key s = ground arith

take_nonce : (nonce rest : Bytes) → length nonce ≡ 12 → take 12 (nonce ++ rest) ≡ nonce
take_nonce nonce rest h =
    subst (λ k. take k (nonce ++ rest) ≡ nonce) h (take-append_left nonce rest)

drop_nonce : (nonce rest : Bytes) → length nonce ≡ 12 → drop 12 (nonce ++ rest) ≡ rest
drop_nonce nonce rest h = subst (λ k. drop k (nonce ++ rest) ≡ rest) h (drop-append_left nonce rest)

module _ (b : Backend) (lawful : IsLawful b) where
  decrypt-append :
      (key nonce plaintext ciphertext : Bytes) (d : StoreData)
      → length nonce ≡ 12
      → b.to_vec d ≡ some plaintext
      → b.gcm_encrypt key nonce plaintext ≡ some ciphertext
      → decrypt b key (nonce ++ ciphertext)
        ≡ ok (record { accounts = parse_accounts (versions d.accounts) })
  unfolding decrypt
  decrypt-append key nonce plaintext ciphertext d fits json sealed = ground (
    arith,
    length-append nonce ciphertext,
    take_nonce nonce ciphertext fits,
    drop_nonce nonce ciphertext fits,
    lawful.decrypts key nonce plaintext ciphertext sealed,
    lawful.parses d plaintext json,
  )

  open_store-written :
      (key nonce plaintext ciphertext : Bytes) (d : StoreData)
      → length nonce ≡ 12
      → Entries HasParents d.accounts
      → b.to_vec d ≡ some plaintext
      → b.gcm_encrypt key nonce plaintext ≡ some ciphertext
      → (disk : Disk) → disk.state_enc ≡ some (nonce ++ ciphertext)
      → open_store b key disk ≡ ok (record { key = key; contents = d; disk = disk })
  unfolding open_store
  open_store-written key nonce plaintext ciphertext d fits parents json sealed disk at_disk =
      ground (
        arith,
        decrypt-append key nonce plaintext ciphertext d fits json sealed,
        parse_accounts-versions d.accounts parents,
      )

  -- A call of `persist` either succeeds, and then opening the directory it leaves gives a store
  -- with the same key and contents, or fails, and then `state.enc` is what it was. This holds
  -- whichever file operation fails, for a nonce of twelve bytes and a store whose shared mailboxes
  -- all name the slot that authorized them.
  pub persist_atomic :
      (call : Io) (s : Store)
      → length call.nonce ≡ 12
      → Entries HasParents s.contents.accounts
      → (((persist b call s).0 ≡ ok tt)
          × (open_store b s.key (persist b call s).1.disk ≡ ok (persist b call s).1))
        ⊎ ((e : Error) × ((persist b call s).0 ≡ err e)
            × ((persist b call s).1.disk.state_enc ≡ s.disk.state_enc))
  unfolding persist
  persist_atomic call s fits parents = elim (Option-cases (b.to_vec s.contents)) [
    | inl e ↦ rw (e, persist) (inr (_, refl, refl))
    | inr (plaintext, e) ↦ elim (Option-cases (b.gcm_encrypt s.key call.nonce plaintext)) [
      | inl f ↦ rw (persist_unsealed b call s plaintext e f) (inr (_, refl, refl))
      | inr (ciphertext, f) ↦
          rw (persist_sealed b call s plaintext ciphertext e f)
            (elim (run_ops_cases b call call.fails_at (call.nonce ++ ciphertext) s.disk) [
              | inl ran ↦ rw ran (
                  inl (
                    refl,
                    open_store-written s.key call.nonce plaintext ciphertext s.contents fits parents
                        e f _ refl,
                  ))
              | inr failed ↦ inr failed
            ])
    ]
  ]
