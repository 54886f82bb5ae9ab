-- ===== src/Store/Reachable.antt =====
-- What every history of calls keeps, and what a finished call promises a reader.
use jmap2telegram.Prelude.{
  List, [], ◌∷◌, ◌≡◌, inl, inr, true, [], ◌∷◌, none, some, Option-cases, Bool-cases, Text, ℤ,
  int_eq, nat_eq, list_eq, lookup, is_some, length, ◌==◌, ◌++◌,
}
use jmap2telegram.Strings.{trim}
use jmap2telegram.Account.{Account, resolve_parent_slot}
use jmap2telegram.Account.Valid.{IsValid}
use jmap2telegram.Store.{Store, Backend, Io, persist}
use jmap2telegram.Store.Settings.{mute, unmute, drop_term, has_term}
use jmap2telegram.Store.Settings
use jmap2telegram.Store.History.{
  StoreCall, step, run, set, update_state, add_account, add_extra_account, remove_account,
  update_account_state, set_account_thread_id, set_threads_enabled, set_language,
  set_shared_account, remove_shared_account, update_shared_account_state,
  set_shared_account_thread_id, remove,
}
use jmap2telegram.Store.Invariant.{
  AllValid, and_return-AllValid, put-AllValid, update_state-AllValid, add_account-AllValid,
  add_extra_account-AllValid, remove_account-AllValid, update_account_state-AllValid,
  set_account_thread_id-AllValid,
}
use jmap2telegram.Store.Keeps.{
  put_found, preferences-IsValid, set_threads_enabled-AllValid, set_language-AllValid,
  remove-AllValid, set_shared_account-AllValid, remove_shared_account-AllValid,
  update_shared_account_state-AllValid, set_shared_account_thread_id-AllValid,
}

-- What the callers of two mutators see to: an account that replaces another is valid, and a shared
-- mailbox is added under a slot that the chat has.
abbrev pub IsAllowed : StoreCall → Store → Type 0
IsAllowed (set chat_id account) s = IsValid chat_id account
IsAllowed (set_shared_account chat_id account_id name last_state parent) s =
    (acc : Account)
    → lookup chat_id s.contents.accounts ≡ some acc
    → is_some (
        resolve_parent_slot acc
          (record { name = name; last_state = last_state; parent_slot = parent; thread_id = none }))
      ≡ true
IsAllowed _ s = Unit

module _ (b : Backend) (lowercase : Text → Text) where
  mute-AllValid :
      (call : Io) (chat_id : ℤ) (term : Text) (s : Store)
      → AllValid s
      → AllValid (mute b lowercase call chat_id term s).1
  unfolding mute
  mute-AllValid call chat_id term s h = elim (Option-cases (lookup chat_id s.contents.accounts)) [
    | inl e ↦ rw (e, mute) h
    | inr (acc, e) ↦ elim (Bool-cases (has_term (lowercase (trim term)) acc.muted)) [
      | inl there ↦ rw (e, mute) (rw there h)
      | inr absent ↦
          rw (e, mute)
            (rw absent (
              and_return-AllValid b call true (persist b call _) (
                put_found b call chat_id s acc _
                  (preferences-IsValid chat_id acc acc.language
                    (acc.muted ++ lowercase (trim term) ∷ []) acc.threads_enabled)
                  e h)))
    ]
  ]

  unmute-AllValid :
      (call : Io) (chat_id : ℤ) (term : Text) (s : Store)
      → AllValid s
      → AllValid (unmute b lowercase call chat_id term s).1
  unfolding unmute
  unmute-AllValid call chat_id term s h = elim (Option-cases (lookup chat_id s.contents.accounts)) [
    | inl e ↦ rw (e, unmute) h
    | inr (acc, e) ↦
        elim (Bool-cases
          (length (drop_term (lowercase (trim term)) acc.muted) == length acc.muted)) [
            | inl same ↦ rw (e, unmute) (rw same h)
            | inr less ↦
                rw (e, unmute)
                  (rw less (
                    and_return-AllValid b call true (persist b call _) (
                      put_found b call chat_id s acc _
                        (preferences-IsValid chat_id acc acc.language
                          (drop_term (lowercase (trim term)) acc.muted) acc.threads_enabled)
                        e h)))
          ]
  ]

  -- Every call keeps every stored account valid, also where its `persist` fails: a slot stands under
  -- its own id, each shared mailbox has the slot that authorizes it, and no chat is left without a
  -- slot. The replaced account of `set` is to be valid, and the slot of `set_shared_account` there.
  pub step-AllValid :
      (call : Io) (c : StoreCall) (s : Store)
      → IsAllowed c s
      → AllValid s
      → AllValid (step b lowercase call c s)
  unfolding step Settings.set
  step-AllValid call (set chat_id account) s allowed h =
      put-AllValid b call chat_id account s allowed h
  step-AllValid call (update_state chat_id state) s allowed h =
      update_state-AllValid b call chat_id state s h
  step-AllValid call (add_account draws chat_id slot) s allowed h =
      add_account-AllValid b call draws chat_id slot s h
  step-AllValid call (add_extra_account draws chat_id slot) s allowed h =
      add_extra_account-AllValid b call draws chat_id slot s h
  step-AllValid call (remove_account chat_id slot_id) s allowed h =
      remove_account-AllValid b call chat_id slot_id s h
  step-AllValid call (update_account_state chat_id slot_id state) s allowed h =
      update_account_state-AllValid b call chat_id slot_id state s h
  step-AllValid call (set_account_thread_id chat_id slot_id thread) s allowed h =
      set_account_thread_id-AllValid b call chat_id slot_id thread s h
  step-AllValid call (set_threads_enabled chat_id enabled) s allowed h =
      set_threads_enabled-AllValid b call chat_id enabled s h
  step-AllValid call (set_language chat_id language) s allowed h =
      set_language-AllValid b call chat_id language s h
  step-AllValid call (set_shared_account chat_id account_id name last_state parent) s allowed h =
      set_shared_account-AllValid b call chat_id account_id name last_state parent s allowed h
  step-AllValid call (remove_shared_account chat_id account_id) s allowed h =
      remove_shared_account-AllValid b call chat_id account_id s h
  step-AllValid call (update_shared_account_state chat_id account_id state) s allowed h =
      update_shared_account_state-AllValid b call chat_id account_id state s h
  step-AllValid call (set_shared_account_thread_id chat_id account_id thread) s allowed h =
      set_shared_account_thread_id-AllValid b call chat_id account_id thread s h
  step-AllValid call (StoreCall.mute chat_id term) s allowed h = mute-AllValid call chat_id term s h
  step-AllValid call (StoreCall.unmute chat_id term) s allowed h =
      unmute-AllValid call chat_id term s h
  step-AllValid call (remove chat_id) s allowed h = remove-AllValid b call chat_id s h

  -- Each call of a history is allowed in the store where it is made.
  abbrev pub AreAllowed : List (Io × StoreCall) → Store → Type 0
  AreAllowed [] s = Unit
  AreAllowed ((call, c) ∷ calls) s = IsAllowed c s × AreAllowed calls (step b lowercase call c s)

  -- Every history of calls, each of which may fail to persist, leads from a store whose accounts are
  -- valid to one whose accounts are valid, if each call is allowed where it is made.
  pub run-AllValid :
      (calls : List (Io × StoreCall)) (s : Store)
      → AreAllowed calls s
      → AllValid s
      → AllValid (run b lowercase calls s)
  unfolding run
  run-AllValid [] s allowed h = h
  run-AllValid ((call, c) ∷ calls) s (allowed, later) h =
      run-AllValid calls (step b lowercase call c s) later (step-AllValid call c s allowed h)
