-- ===== src/Store/Laws.antt =====
-- What a reader of the store sees after a call.
use jmap2telegram.Prelude.{
  ◌≡◌, ◌≢◌, refl, sym, ap, ◌∙◌, subst, ◌⊎◌, inl, inr, true, none, some, Bool-cases, Text, ℤ, int_eq,
  int_beq_iff, nat_eq, list_eq, lookup, insert, erase, is_some, Entries, Entries-erase, arith,
  length, ◌==◌, if◌then◌else◌, Result, ok, err, lookup-erase, lookup-insert,
}
use jmap2telegram.Strings.{is_empty}
use jmap2telegram.Account.{Account, AccountSlot}
use jmap2telegram.Store.{Store, Backend, Io, Error, persist, put, get, open_store, and_return}
use jmap2telegram.Store.Persist.{
  IsLawful, HasParents, persist_atomic, persist-contents, persist-key,
}
use jmap2telegram.Store.Losses.{
  Loses, IsLast, HasOther, Loses-without_slot, erase-IsLast, erase-HasOther,
}
use jmap2telegram.Store.Settings.{remove}
use jmap2telegram.Store.Slots.{remove_account, without_slot, drop_if_empty}

module _ (b : Backend) (call : Io) where
  pub get-persist : (chat_id : ℤ) (s : Store) → get chat_id (persist b call s).1 ≡ get chat_id s
  unfolding get
  get-persist chat_id s =
      ap (λ c. lookup chat_id c) (ap (λ r. r.accounts) (persist-contents b call s))

  pub get-and_return {ℓ} :
      {A : Type ℓ} (x : A) (chat_id : ℤ) (r : Result (Unit {0}) Error × Store)
      → get chat_id (and_return x r).1 ≡ get chat_id r.1
  get-and_return x chat_id r = ground arith

  -- After `remove` no account of the chat is left in memory, and those of the other chats are as
  -- they were, also where the write to the disk fails.
  pub get-remove :
      (chat_id other : ℤ) (s : Store)
      → get other (remove b call chat_id s).1 ≡ (if chat_id == other then none else get other s)
  unfolding remove get
  get-remove chat_id other s = elim (Bool-cases (is_some (lookup chat_id s.contents.accounts))) [
    | inl e ↦ rw e (
        get-and_return true other (persist b call _)
        ∙ get-persist other _
        ∙ lookup-erase chat_id other s.contents.accounts)
    | inr e ↦ rw e (ground (arith, int_beq_iff chat_id other))
  ]

  and_return-ok {ℓ} :
      {A : Type ℓ} (x y : A) (r : Result (Unit {0}) Error × Store) (t : Store)
      → and_return x r ≡ (ok y, t)
      → (r.0 ≡ ok tt) × (r.1 ≡ t)
  and_return-ok x y (ok tt, s) t h = ground arith
  and_return-ok x y (err e, s) t h = ground arith

  -- A call that has persisted leaves a directory that opens to the store it leaves.
  open_store-and_return {ℓ} :
      {A : Type ℓ} (x y : A) (s t : Store)
      → IsLawful b
      → length call.nonce ≡ 12
      → Entries HasParents s.contents.accounts
      → and_return x (persist b call s) ≡ (ok y, t)
      → open_store b t.key t.disk ≡ ok t
  open_store-and_return x y s t lawful fits parents h =
      let (ran, left) = and_return-ok x y (persist b call s) t h in
      elim (persist_atomic b lawful call s fits parents) [
        | inl (_, opened) ↦
            subst (λ (u : Store). open_store b u.key u.disk ≡ ok u) left
              (rw (persist-key b call s) opened)
        | inr (e, failed, _) ↦ absurd (ground arith)
      ]

  -- Where `remove` returns `true`, the directory on the disk opens to the store that is left, so
  -- the account of the chat is gone from there too, for a lawful codec and cipher.
  pub open_store-remove :
      IsLawful b
      → (chat_id : ℤ) (s t : Store) → length call.nonce ≡ 12
      → Entries HasParents s.contents.accounts
      → remove b call chat_id s ≡ (ok true, t)
      → (open_store b t.key t.disk ≡ ok t)
        × (get chat_id t ≡ none)
        × ((other : ℤ) → chat_id ≢ other → get other t ≡ get other s)
  unfolding remove
  open_store-remove lawful chat_id s t fits parents h =
      elim (Bool-cases (is_some (lookup chat_id s.contents.accounts))) [
        | inl e ↦
            let ran = rw e at h in
            let left = ap (λ r. r.1) h in
            (
              open_store-and_return true true _ t lawful fits
                  (Entries-erase HasParents chat_id s.contents.accounts parents) ran,
              ap (get chat_id) (sym left)
                  ∙ get-remove chat_id chat_id s
                  ∙ ground (arith, int_beq_iff chat_id chat_id),
              λ other ne.
                  ap (get other) (sym left)
                  ∙ get-remove chat_id other s
                  ∙ ground (arith, int_beq_iff chat_id other),
            )
        | inr e ↦ absurd (ground arith)
      ]

  pub get-put :
      (chat_id : ℤ) (acc : Account) (s : Store) → get chat_id (put chat_id acc s) ≡ some acc
  unfolding get
  get-put chat_id acc s =
      lookup-insert chat_id chat_id acc s.contents.accounts
      ∙ ground (arith, int_beq_iff chat_id chat_id)

  pub get-persist-put {ℓ} :
      {A : Type ℓ} (x : A) (chat_id : ℤ) (acc : Account) (s : Store)
      → get chat_id (and_return x (persist b call (put chat_id acc s))).1 ≡ some acc
  get-persist-put x chat_id acc s =
      get-and_return x chat_id (persist b call _) ∙ get-persist chat_id _ ∙ get-put chat_id acc s

  get-drop_if_empty :
      (chat_id : ℤ) (rest : Account) (s : Store)
      → get chat_id (drop_if_empty chat_id rest (put chat_id rest s))
        ≡ (if is_empty rest.accounts then none else some rest)
  unfolding get drop_if_empty
  get-drop_if_empty chat_id rest s = ground (
    arith,
    get-put chat_id rest s,
    lookup-erase chat_id chat_id (insert chat_id rest s.contents.accounts),
    int_beq_iff chat_id chat_id,
  )

  get-remove_account :
      (chat_id : ℤ) (slot_id : Text) (s : Store) (acc : Account) (slot : AccountSlot)
      → get chat_id s ≡ some acc
      → lookup slot_id acc.accounts ≡ some slot
      → get chat_id (remove_account b call chat_id slot_id s).1 ≡ (
          if is_empty (without_slot slot_id acc).accounts
          then none
          else some (without_slot slot_id acc))
  unfolding remove_account
  get-remove_account chat_id slot_id s acc slot e f =
      ap (λ r. get chat_id r.1) (ran e f)
      ∙ get-and_return true chat_id (persist b call _)
      ∙ get-persist chat_id _
      ∙ get-drop_if_empty chat_id (without_slot slot_id acc) s
    where
      ran :
          get chat_id s ≡ some acc
          → lookup slot_id acc.accounts ≡ some slot
          → remove_account b call chat_id slot_id s
            ≡ and_return true (
                persist b call (
                  drop_if_empty chat_id
                    (without_slot slot_id acc)
                    (put chat_id (without_slot slot_id acc) s)))
      ran e f = unfold get in ground arith

  -- For a slot that the chat has, `remove_account` leaves readers one of two views, whether the write
  -- to the disk succeeds or fails. The slot was the chat's last, and the chat has no record left. Or
  -- the chat has another slot, and its account loses this one with exactly the shared mailboxes that
  -- it authorized: those whose parent it is, and for "default" also those without a parent.
  pub remove_account-Loses :
      (chat_id : ℤ) (slot_id : Text) (s : Store) (acc : Account) (slot : AccountSlot)
      → get chat_id s ≡ some acc
      → lookup slot_id acc.accounts ≡ some slot
      → (IsLast slot_id acc × (get chat_id (remove_account b call chat_id slot_id s).1 ≡ none))
        ⊎ (HasOther slot_id acc
            × ((rest : Account) × (get chat_id (remove_account b call chat_id slot_id s).1
                  ≡ some rest)
                × Loses slot_id acc rest))
  unfolding without_slot
  remove_account-Loses chat_id slot_id s acc slot e f =
      elim (Bool-cases (is_empty (erase slot_id acc.accounts))) [
        | inl last ↦ inl (
          erase-IsLast slot_id acc last,
          get-remove_account chat_id slot_id s acc slot e f ∙ rw last refl,
        )
        | inr more ↦ inr (
          erase-HasOther slot_id acc more,
          (
            without_slot slot_id acc,
            get-remove_account chat_id slot_id s acc slot e f ∙ rw more refl,
            Loses-without_slot slot_id acc,
          ),
        )
      ]
