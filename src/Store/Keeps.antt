-- ===== src/Store/Keeps.antt =====
-- The well-formedness of accounts under the mutators of preferences and of shared mailboxes.
use jmap2telegram.Prelude.{
  ◌≡◌, refl, ap, ◌∙◌, inl, inr, Bool, true, List, Option, none, some, Option-cases, Bool-cases,
  Text, ℤ, int_eq, nat_eq, list_eq, lookup, is_some, Entries-lookup, Entries-erase, arith,
}
use jmap2telegram.Account.{Account, SharedAccount, resolve_parent_slot}
use jmap2telegram.Account.Valid.{HasSlot, IsValid, insert_shared-IsValid, erase_shared-IsValid}
use jmap2telegram.Store.{Store, Backend, Io, persist, put}
use jmap2telegram.Store.Shared.{
  set_shared_account, remove_shared_account, shared_of, write_shared, update_shared_account_state,
  set_shared_account_thread_id,
}
use jmap2telegram.Store.Settings.{set_threads_enabled, set_language, remove}
use jmap2telegram.Store.Invariant.{AllValid, persist-AllValid, and_return-AllValid, put-AllValid}

-- A preference that is written leaves slots and shared mailboxes alone.
pub preferences-IsValid :
    (chat_id : ℤ) (acc : Account) (language : Option Text) (muted : List Text)
    (threads : Option Bool)
    → IsValid chat_id acc
    → IsValid chat_id (record acc { language = language; muted = muted; threads_enabled = threads })
unfolding resolve_parent_slot
preferences-IsValid chat_id acc language muted threads h = record {
  formed = record { keyed = h.formed.keyed; parents = h.formed.parents };
  connected = h.connected;
}

module _ (b : Backend) (call : Io) where
  -- Every account that is found and rewritten to a valid one.
  pub put_found :
      (chat_id : ℤ) (s : Store) (acc changed : Account)
      → (IsValid chat_id acc → IsValid chat_id changed)
      → lookup chat_id s.contents.accounts ≡ some acc
      → AllValid s
      → AllValid (persist b call (put chat_id changed s)).1
  put_found chat_id s acc changed keep e h =
      put-AllValid b call chat_id changed s
        (keep (Entries-lookup IsValid chat_id s.contents.accounts h e)) h

  pub set_threads_enabled-AllValid :
      (chat_id : ℤ) (enabled : Option Bool) (s : Store)
      → AllValid s
      → AllValid (set_threads_enabled b call chat_id enabled s).1
  unfolding set_threads_enabled
  set_threads_enabled-AllValid chat_id enabled s h =
      elim (Option-cases (lookup chat_id s.contents.accounts)) [
        | inl e ↦ rw (e, set_threads_enabled) h
        | inr (acc, e) ↦
            rw (e, set_threads_enabled)
              (and_return-AllValid b call true (persist b call _) (
                put_found chat_id s acc _
                  (preferences-IsValid chat_id acc acc.language acc.muted enabled) e h))
      ]

  pub set_language-AllValid :
      (chat_id : ℤ) (language : Text) (s : Store)
      → AllValid s
      → AllValid (set_language b call chat_id language s).1
  unfolding set_language
  set_language-AllValid chat_id language s h =
      elim (Option-cases (lookup chat_id s.contents.accounts)) [
        | inl e ↦ rw (e, set_language) h
        | inr (acc, e) ↦
            rw (e, set_language)
              (and_return-AllValid b call true (persist b call _) (
                put_found chat_id s acc _
                  (preferences-IsValid chat_id acc (some language) acc.muted acc.threads_enabled) e
                  h))
      ]

  pub remove-AllValid :
      (chat_id : ℤ) (s : Store) → AllValid s → AllValid (remove b call chat_id s).1
  unfolding remove
  remove-AllValid chat_id s h = elim (Bool-cases (is_some (lookup chat_id s.contents.accounts))) [
    | inl e ↦ rw e (
        and_return-AllValid b call true (persist b call _)
          (persist-AllValid b call _ (Entries-erase IsValid chat_id s.contents.accounts h)))
    | inr e ↦ rw e h
  ]

  pub set_shared_account-AllValid :
      (chat_id : ℤ) (account_id name : Text) (last_state parent : Option Text) (s : Store)
      → ((acc : Account)
          → lookup chat_id s.contents.accounts ≡ some acc
          → is_some (
              resolve_parent_slot acc (record {
                name = name;
                last_state = last_state;
                parent_slot = parent;
                thread_id = none;
              }))
            ≡ true)
      → AllValid s
      → AllValid (set_shared_account b call chat_id account_id name last_state parent s).1
  unfolding set_shared_account
  set_shared_account-AllValid chat_id account_id name last_state parent s slot h =
      elim (Option-cases (lookup chat_id s.contents.accounts)) [
        | inl e ↦ rw (e, set_shared_account) h
        | inr (acc, e) ↦
            rw (e, set_shared_account)
              (put_found chat_id s acc _
                (insert_shared-IsValid account_id _ chat_id acc (slot acc e)) e h)
      ]

  pub remove_shared_account-AllValid :
      (chat_id : ℤ) (account_id : Text) (s : Store)
      → AllValid s
      → AllValid (remove_shared_account b call chat_id account_id s).1
  unfolding remove_shared_account
  remove_shared_account-AllValid chat_id account_id s h =
      elim (Option-cases (lookup chat_id s.contents.accounts)) [
        | inl e ↦ rw (e, remove_shared_account) h
        | inr (acc, e) ↦ elim (Bool-cases (is_some (lookup account_id acc.shared_accounts))) [
          | inl there ↦
              rw (e, remove_shared_account)
                (rw there (
                  and_return-AllValid b call true (persist b call _)
                    (put_found chat_id s acc _ (erase_shared-IsValid account_id chat_id acc) e h)))
          | inr absent ↦ rw (e, remove_shared_account) (rw absent h)
        ]
      ]

  shared_of-some :
      (chat_id : ℤ) (account_id : Text) (s : Store) (acc : Account) (sh : SharedAccount)
      → shared_of chat_id account_id s ≡ some (acc, sh)
      → (lookup chat_id s.contents.accounts ≡ some acc)
        × (lookup account_id acc.shared_accounts ≡ some sh)
  unfolding shared_of
  shared_of-some chat_id account_id s acc sh h = ground arith

  -- A shared mailbox that is found may be written back with its parent unchanged.
  pub write_shared-AllValid :
      (chat_id : ℤ) (account_id : Text) (s : Store) (acc : Account) (sh changed : SharedAccount)
      → ((a : Account) → resolve_parent_slot a changed ≡ resolve_parent_slot a sh)
      → shared_of chat_id account_id s ≡ some (acc, sh)
      → AllValid s
      → AllValid (persist b call (put chat_id (write_shared account_id changed acc) s)).1
  write_shared-AllValid chat_id account_id s acc sh changed same e h =
      let (at_chat, at_shared) = shared_of-some chat_id account_id s acc sh e in
      let v = Entries-lookup IsValid chat_id s.contents.accounts h at_chat in
      put_found chat_id s acc _
        (insert_shared-IsValid account_id changed chat_id acc (
          ap is_some (same acc)
          ∙ Entries-lookup (HasSlot acc) account_id acc.shared_accounts v.formed.parents at_shared))
        at_chat h

  pub update_shared_account_state-AllValid :
      (chat_id : ℤ) (account_id state : Text) (s : Store)
      → AllValid s
      → AllValid (update_shared_account_state b call chat_id account_id state s).1
  unfolding update_shared_account_state resolve_parent_slot
  update_shared_account_state-AllValid chat_id account_id state s h =
      elim (Option-cases (shared_of chat_id account_id s)) [
        | inl e ↦ rw (e, update_shared_account_state) h
        | inr ((acc, sh), e) ↦
            rw (e, update_shared_account_state)
              (write_shared-AllValid chat_id account_id s acc sh _ (λ _. refl) e h)
      ]

  pub set_shared_account_thread_id-AllValid :
      (chat_id : ℤ) (account_id : Text) (thread : Option ℤ) (s : Store)
      → AllValid s
      → AllValid (set_shared_account_thread_id b call chat_id account_id thread s).1
  unfolding set_shared_account_thread_id resolve_parent_slot
  set_shared_account_thread_id-AllValid chat_id account_id thread s h =
      elim (Option-cases (shared_of chat_id account_id s)) [
        | inl e ↦ rw (e, set_shared_account_thread_id) h
        | inr ((acc, sh), e) ↦
            rw (e, set_shared_account_thread_id)
              (and_return-AllValid b call true (persist b call _)
                (write_shared-AllValid chat_id account_id s acc sh _ (λ _. refl) e h))
      ]
