-- ===== src/Store/Refines/Entries.antt =====
-- The mutators of src/store.rs that write one slot or one shared mailbox of an account.
use jmap2telegram.Prelude.{
  ◌≡◌, refl, sym, ap, inl, inr, true, false, Bool-cases, Option-cases, [], ◌∷◌, Option, none, some,
  is_some, ◌==◌, nat_eq, list_eq, int_eq, Text, ℤ, Dict, lookup, erase, arith,
}
use jmap2telegram.Account.{Account, AccountSlot, SharedAccount}
use jmap2telegram.Store.{Store, Backend, Io}
use jmap2telegram.Store.Slots.{without_slot, drop_if_empty, write_slot, slot_of}
use jmap2telegram.Store.Slots
use jmap2telegram.Store.Shared
use jmap2telegram.Store.Shared.{shared_of, write_shared}
use jmap2telegram.Store.Abstract.{if_stored, on_slot, on_shared}
use jmap2telegram.Store.Refines.{Shows, put-Shows, returned, seen, unchanged, absent}

erase-absent {ℓ} :
    {V : Type ℓ} (k : Text) (d : Dict Text V) → is_some (lookup k d) ≡ false → erase k d ≡ d
unfolding lookup erase
erase-absent k [] h = refl
erase-absent k ((j, v) ∷ d) h = elim (Bool-cases (j == k)) [
  | inl same ↦ ground (arith, rw same at h)
  | inr different ↦ rw different (ap (λ rest. (j, v) ∷ rest) (erase-absent k d (rw different at h)))
]

on_slot-absent :
    (slot_id : Text) (f : AccountSlot → AccountSlot) (acc : Account)
    → lookup slot_id acc.accounts ≡ none
    → on_slot slot_id f acc ≡ acc
on_slot-absent slot_id f acc h = ground arith

on_slot-there :
    (slot_id : Text) (f : AccountSlot → AccountSlot) (acc : Account) (slot : AccountSlot)
    → lookup slot_id acc.accounts ≡ some slot
    → on_slot slot_id f acc ≡ write_slot slot_id (f slot) acc
on_slot-there slot_id f acc slot h = ground arith

on_shared-absent :
    (account_id : Text) (f : SharedAccount → SharedAccount) (acc : Account)
    → lookup account_id acc.shared_accounts ≡ none
    → on_shared account_id f acc ≡ acc
on_shared-absent account_id f acc h = ground arith

on_shared-there :
    (account_id : Text) (f : SharedAccount → SharedAccount) (acc : Account) (sh : SharedAccount)
    → lookup account_id acc.shared_accounts ≡ some sh
    → on_shared account_id f acc ≡ write_shared account_id (f sh) acc
on_shared-there account_id f acc sh h = ground arith

module _ (b : Backend) (lowercase : Text → Text) (call : Io) (chat_id other : ℤ) (s : Store) where
  abbrev Sees : Option Account → Store → Type 0
  Sees = Shows b lowercase call chat_id other s

  pub update_account_state-Shows :
      (slot_id state : Text)
      → Sees
          (if_stored
            (on_slot slot_id (λ x. record x { last_state = some state }))
            (lookup chat_id s.contents.accounts))
          (Slots.update_account_state b call chat_id slot_id state s).1
  unfolding Slots.update_account_state slot_of
  update_account_state-Shows slot_id state =
      elim (Option-cases (lookup chat_id s.contents.accounts)) [
        | inl e ↦
            rw (e, Slots.update_account_state, slot_of) (absent b lowercase call chat_id other s e)
        | inr (acc, e) ↦ elim (Option-cases (lookup slot_id acc.accounts)) [
          | inl missing ↦
              rw (e, missing, Slots.update_account_state, slot_of)
                (seen b lowercase call chat_id other s _
                  (ap some (
                    sym (
                      on_slot-absent slot_id (λ x. record x { last_state = some state }) acc
                        missing)))
                  (unchanged b lowercase call chat_id other s acc e))
          | inr (x, there) ↦
              rw (e, there, Slots.update_account_state, slot_of)
                (seen b lowercase call chat_id other s _
                  (ap some (
                    sym (
                      on_slot-there slot_id (λ x. record x { last_state = some state }) acc x
                        there)))
                  (put-Shows b lowercase call chat_id other s
                    (write_slot slot_id (record x { last_state = some state }) acc)))
        ]
      ]

  pub set_account_thread_id-Shows :
      (slot_id : Text) (thread : Option ℤ)
      → Sees
          (if_stored
            (on_slot slot_id (λ x. record x { thread_id = thread }))
            (lookup chat_id s.contents.accounts))
          (Slots.set_account_thread_id b call chat_id slot_id thread s).1
  unfolding Slots.set_account_thread_id slot_of
  set_account_thread_id-Shows slot_id thread =
      elim (Option-cases (lookup chat_id s.contents.accounts)) [
        | inl e ↦
            rw (e, Slots.set_account_thread_id, slot_of) (absent b lowercase call chat_id other s e)
        | inr (acc, e) ↦ elim (Option-cases (lookup slot_id acc.accounts)) [
          | inl missing ↦
              rw (e, missing, Slots.set_account_thread_id, slot_of)
                (seen b lowercase call chat_id other s _
                  (ap some (
                    sym
                      (on_slot-absent slot_id (λ x. record x { thread_id = thread }) acc missing)))
                  (unchanged b lowercase call chat_id other s acc e))
          | inr (x, there) ↦
              rw (e, there, Slots.set_account_thread_id, slot_of)
                (seen b lowercase call chat_id other s _
                  (ap some (
                    sym (on_slot-there slot_id (λ x. record x { thread_id = thread }) acc x there)))
                  (returned b lowercase call chat_id other s true
                    (write_slot slot_id (record x { thread_id = thread }) acc)))
        ]
      ]

  pub update_shared_account_state-Shows :
      (account_id state : Text)
      → Sees
          (if_stored
            (on_shared account_id (λ x. record x { last_state = some state }))
            (lookup chat_id s.contents.accounts))
          (Shared.update_shared_account_state b call chat_id account_id state s).1
  unfolding Shared.update_shared_account_state shared_of
  update_shared_account_state-Shows account_id state =
      elim (Option-cases (lookup chat_id s.contents.accounts)) [
        | inl e ↦
            rw (e, Shared.update_shared_account_state, shared_of)
              (absent b lowercase call chat_id other s e)
        | inr (acc, e) ↦ elim (Option-cases (lookup account_id acc.shared_accounts)) [
          | inl missing ↦
              rw (e, missing, Shared.update_shared_account_state, shared_of)
                (seen b lowercase call chat_id other s _
                  (ap some (
                    sym (
                      on_shared-absent account_id (λ x. record x { last_state = some state }) acc
                        missing)))
                  (unchanged b lowercase call chat_id other s acc e))
          | inr (x, there) ↦
              rw (e, there, Shared.update_shared_account_state, shared_of)
                (seen b lowercase call chat_id other s _
                  (ap some (
                    sym (
                      on_shared-there account_id (λ x. record x { last_state = some state }) acc x
                        there)))
                  (put-Shows b lowercase call chat_id other s
                    (write_shared account_id (record x { last_state = some state }) acc)))
        ]
      ]

  pub set_shared_account_thread_id-Shows :
      (account_id : Text) (thread : Option ℤ)
      → Sees
          (if_stored
            (on_shared account_id (λ x. record x { thread_id = thread }))
            (lookup chat_id s.contents.accounts))
          (Shared.set_shared_account_thread_id b call chat_id account_id thread s).1
  unfolding Shared.set_shared_account_thread_id shared_of
  set_shared_account_thread_id-Shows account_id thread =
      elim (Option-cases (lookup chat_id s.contents.accounts)) [
        | inl e ↦
            rw (e, Shared.set_shared_account_thread_id, shared_of)
              (absent b lowercase call chat_id other s e)
        | inr (acc, e) ↦ elim (Option-cases (lookup account_id acc.shared_accounts)) [
          | inl missing ↦
              rw (e, missing, Shared.set_shared_account_thread_id, shared_of)
                (seen b lowercase call chat_id other s _
                  (ap some (
                    sym (
                      on_shared-absent account_id (λ x. record x { thread_id = thread }) acc
                        missing)))
                  (unchanged b lowercase call chat_id other s acc e))
          | inr (x, there) ↦
              rw (e, there, Shared.set_shared_account_thread_id, shared_of)
                (seen b lowercase call chat_id other s _
                  (ap some (
                    sym (
                      on_shared-there account_id (λ x. record x { thread_id = thread }) acc x
                        there)))
                  (returned b lowercase call chat_id other s true
                    (write_shared account_id (record x { thread_id = thread }) acc)))
        ]
      ]

  pub remove_shared_account-Shows :
      (account_id : Text)
      → Sees
          (if_stored
            (λ acc. record acc { shared_accounts = erase account_id acc.shared_accounts })
            (lookup chat_id s.contents.accounts))
          (Shared.remove_shared_account b call chat_id account_id s).1
  unfolding Shared.remove_shared_account
  remove_shared_account-Shows account_id =
      elim (Option-cases (lookup chat_id s.contents.accounts)) [
        | inl e ↦ rw (e, Shared.remove_shared_account) (absent b lowercase call chat_id other s e)
        | inr (acc, e) ↦ elim (Bool-cases (is_some (lookup account_id acc.shared_accounts))) [
          | inl there ↦
              rw (e, there, Shared.remove_shared_account)
                (returned b lowercase call chat_id other s true
                  (record acc { shared_accounts = erase account_id acc.shared_accounts }))
          | inr missing ↦
              let same = erase-absent account_id acc.shared_accounts missing in
              rw (e, missing, Shared.remove_shared_account)
                (seen b lowercase call chat_id other s _
                  (ap (λ d. some (record acc { shared_accounts = d })) (sym same))
                  (unchanged b lowercase call chat_id other s acc e))
        ]
      ]
