-- ===== src/Store/Invariant.antt =====
-- The well-formedness of accounts under `persist` and the mutators of slots.
use jmap2telegram.Prelude.{
  ℕ, ◌≡◌, refl, inl, inr, true, List, Option, some, Option-cases, Bool-cases, Text, ℤ, int_eq,
  nat_eq, list_eq, lookup, erase, is_some, Entries, Entries-lookup, Entries-insert,
  Entries-erase-insert, arith, subst, sym, ◌∙◌, Result,
}
use jmap2telegram.Strings.{is_empty}
use jmap2telegram.Account.{Account, AccountSlot}
use jmap2telegram.Account.Valid.{
  IsKeyed, IsWellFormed, IsValid, insert_sorted-connected, insert_sorted-IsWellFormed,
  no_accounts-IsWellFormed, remove_slot-IsWellFormed, update_primary_slot-IsValid,
}
use jmap2telegram.Store.{Store, StoreData, Backend, Io, Error, persist, and_return, put}
use jmap2telegram.Store.Persist.{persist-contents}
use jmap2telegram.Store.Slots.{
  update_state, chosen_slot_id, account_or_new, add_account, add_extra_account, with_slot,
  without_slot, remove_account, drop_if_empty, slot_of, write_slot, update_account_state,
  set_account_thread_id,
}

-- Every stored account is valid.
abbrev pub AllValid : Store → Type 0
AllValid s = Entries IsValid s.contents.accounts

module _ (b : Backend) (call : Io) where
  pub persist-AllValid : (s : Store) → AllValid s → AllValid (persist b call s).1
  persist-AllValid s h =
      subst (λ (c : StoreData). Entries IsValid c.accounts) (sym (persist-contents b call s)) h

  pub and_return-AllValid {ℓ} :
      {A : Type ℓ} (x : A) (r : Result (Unit {0}) Error × Store)
      → AllValid r.1
      → AllValid (and_return x r).1
  and_return-AllValid x r h = ground arith

  -- A valid account is written and persisted.
  pub put-AllValid :
      (chat_id : ℤ) (acc : Account) (s : Store)
      → IsValid chat_id acc
      → AllValid s
      → AllValid (persist b call (put chat_id acc s)).1
  put-AllValid chat_id acc s v h =
      persist-AllValid (put chat_id acc s)
        (Entries-insert IsValid chat_id acc s.contents.accounts v h)

  pub update_state-AllValid :
      (chat_id : ℤ) (state : Text) (s : Store)
      → AllValid s
      → AllValid (update_state b call chat_id state s).1
  unfolding update_state
  update_state-AllValid chat_id state s h =
      elim (Option-cases (lookup chat_id s.contents.accounts)) [
        | inl e ↦ rw (e, update_state) h
        | inr (acc, e) ↦
            rw (e, update_state)
              (put-AllValid chat_id _ s
                (update_primary_slot-IsValid _ chat_id acc (λ _. refl)
                  (Entries-lookup IsValid chat_id s.contents.accounts h e))
                h)
      ]

  -- The slot that a call adds, under its chosen id.
  pub with_slot-IsValid :
      (slot_id : Text) (slot : AccountSlot) (chat_id : ℤ) (acc : Account)
      → IsWellFormed acc
      → IsValid chat_id (with_slot slot_id slot acc)
  with_slot-IsValid slot_id slot chat_id acc h = record {
    formed = insert_sorted-IsWellFormed slot_id _ acc refl h;
    connected = insert_sorted-connected slot_id _ acc.accounts;
  }

  pub account_or_new-IsWellFormed :
      (chat_id : ℤ) (s : Store) → AllValid s → IsWellFormed (account_or_new chat_id s)
  unfolding account_or_new
  account_or_new-IsWellFormed chat_id s h =
      elim (Option-cases (lookup chat_id s.contents.accounts)) [
        | inl e ↦ rw (e, account_or_new) no_accounts-IsWellFormed
        | inr (acc, e) ↦
            rw (e, account_or_new) (Entries-lookup IsValid chat_id s.contents.accounts h e).formed
      ]

  pub add_account-AllValid :
      (draws : List ℕ) (chat_id : ℤ) (slot : AccountSlot) (s : Store)
      → AllValid s
      → AllValid (add_account b call draws chat_id slot s).1
  unfolding add_account
  add_account-AllValid draws chat_id slot s h =
      and_return-AllValid (chosen_slot_id draws slot) (persist b call _) (
        put-AllValid chat_id _ s
          (with_slot-IsValid (chosen_slot_id draws slot) slot chat_id (account_or_new chat_id s)
            (account_or_new-IsWellFormed chat_id s h))
          h)

  pub add_extra_account-AllValid :
      (draws : List ℕ) (chat_id : ℤ) (slot : AccountSlot) (s : Store)
      → AllValid s
      → AllValid (add_extra_account b call draws chat_id slot s).1
  unfolding add_extra_account
  add_extra_account-AllValid draws chat_id slot s h =
      elim (Option-cases (lookup chat_id s.contents.accounts)) [
        | inl e ↦ rw (e, add_extra_account) h
        | inr (acc, e) ↦
            rw (e, add_extra_account)
              (and_return-AllValid (some (chosen_slot_id draws slot)) (persist b call _) (
                put-AllValid chat_id _ s
                  (with_slot-IsValid (chosen_slot_id draws slot) slot chat_id acc
                    (Entries-lookup IsValid chat_id s.contents.accounts h e).formed)
                  h))
      ]

  -- The last slot takes the record of the chat with it; otherwise the rest is valid.
  pub drop_if_empty-AllValid :
      (chat_id : ℤ) (slot_id : Text) (acc : Account) (s : Store)
      → IsValid chat_id acc
      → AllValid s
      → AllValid (
          drop_if_empty chat_id
            (without_slot slot_id acc)
            (put chat_id (without_slot slot_id acc) s))
  unfolding drop_if_empty without_slot
  drop_if_empty-AllValid chat_id slot_id acc s v h =
      elim (Bool-cases (is_empty (erase slot_id acc.accounts))) [
        | inl last ↦ rw last (Entries-erase-insert IsValid chat_id _ s.contents.accounts h)
        | inr more ↦ rw more (
            Entries-insert IsValid chat_id _ s.contents.accounts
              (record {
                formed = remove_slot-IsWellFormed slot_id acc more v.formed;
                connected = more;
              })
              h)
      ]

  pub remove_account-AllValid :
      (chat_id : ℤ) (slot_id : Text) (s : Store)
      → AllValid s
      → AllValid (remove_account b call chat_id slot_id s).1
  unfolding remove_account
  remove_account-AllValid chat_id slot_id s h =
      elim (Option-cases (lookup chat_id s.contents.accounts)) [
        | inl e ↦ rw (e, remove_account) h
        | inr (acc, e) ↦ elim (Bool-cases (is_some (lookup slot_id acc.accounts))) [
          | inl there ↦
              rw (e, remove_account)
                (rw there (
                  and_return-AllValid true (persist b call _) (
                    persist-AllValid _ (
                      drop_if_empty-AllValid chat_id slot_id acc s
                        (Entries-lookup IsValid chat_id s.contents.accounts h e) h))))
          | inr absent ↦ rw (e, remove_account) (rw absent h)
        ]
      ]

  slot_of-some :
      (chat_id : ℤ) (slot_id : Text) (s : Store) (acc : Account) (slot : AccountSlot)
      → slot_of chat_id slot_id s ≡ some (acc, slot)
      → (lookup chat_id s.contents.accounts ≡ some acc) × (lookup slot_id acc.accounts ≡ some slot)
  unfolding slot_of
  slot_of-some chat_id slot_id s acc slot h = ground arith

  -- A slot that is found may be written back with its id unchanged.
  pub write_slot-AllValid :
      (chat_id : ℤ) (slot_id : Text) (s : Store) (acc : Account) (slot changed : AccountSlot)
      → changed.slot_id ≡ slot.slot_id
      → slot_of chat_id slot_id s ≡ some (acc, slot)
      → AllValid s
      → AllValid (persist b call (put chat_id (write_slot slot_id changed acc) s)).1
  write_slot-AllValid chat_id slot_id s acc slot changed same e h =
      let (at_chat, at_slot) = slot_of-some chat_id slot_id s acc slot e in
      let v = Entries-lookup IsValid chat_id s.contents.accounts h at_chat in
      put-AllValid chat_id _ s
        (record {
          formed =
              insert_sorted-IsWellFormed slot_id changed acc
                (same ∙ Entries-lookup IsKeyed slot_id acc.accounts v.formed.keyed at_slot)
                v.formed;
          connected = insert_sorted-connected slot_id changed acc.accounts;
        })
        h

  pub update_account_state-AllValid :
      (chat_id : ℤ) (slot_id state : Text) (s : Store)
      → AllValid s
      → AllValid (update_account_state b call chat_id slot_id state s).1
  unfolding update_account_state
  update_account_state-AllValid chat_id slot_id state s h =
      elim (Option-cases (slot_of chat_id slot_id s)) [
        | inl e ↦ rw (e, update_account_state) h
        | inr ((acc, slot), e) ↦
            rw (e, update_account_state) (write_slot-AllValid chat_id slot_id s acc slot _ refl e h)
      ]

  pub set_account_thread_id-AllValid :
      (chat_id : ℤ) (slot_id : Text) (thread : Option ℤ) (s : Store)
      → AllValid s
      → AllValid (set_account_thread_id b call chat_id slot_id thread s).1
  unfolding set_account_thread_id
  set_account_thread_id-AllValid chat_id slot_id thread s h =
      elim (Option-cases (slot_of chat_id slot_id s)) [
        | inl e ↦ rw (e, set_account_thread_id) h
        | inr ((acc, slot), e) ↦
            rw (e, set_account_thread_id)
              (and_return-AllValid true (persist b call _)
                (write_slot-AllValid chat_id slot_id s acc slot _ refl e h))
      ]
