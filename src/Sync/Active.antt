-- ===== src/Sync/Active.antt =====
-- Whether the target of a sync of src/watcher.rs is active while its messages are sent.
use mathlib.Core.Option
use jmap2telegram.Prelude.{
  ◌≡◌, refl, subst, length, sym, inl, inr, true, List, [], ◌∷◌, none, some, Bool-cases,
  Option-cases, nat_eq, list_eq, int_eq, Text, text, ℤ, lookup, lookup-insert_sorted, lookup-insert,
  arith,
}
use jmap2telegram.Account.{Account, AccountSlot, SharedAccount}
use jmap2telegram.Account.Valid.{insert_sorted-connected}
use jmap2telegram.Store.{Store, Backend, Io, get}
use jmap2telegram.Store.Slots.{slot_of, write_slot, set_account_thread_id}
use jmap2telegram.Store.Shared.{shared_of, write_shared, set_shared_account_thread_id}
use jmap2telegram.Store.Laws.{get-persist-put}
use jmap2telegram.Jmap.{ChangedEmail}
use jmap2telegram.Watcher.{
  WatchTarget, primary, shared, extra, account, still_active, skip_reason, self_address, is_muted,
}
use jmap2telegram.Sync.{
  World, Sync, Message, SendResult, delivered, thread_not_found, failed, clear_thread, on_sent,
  count_fallback, send_message, notify_email, notify_emails,
}

module _ (chat_id : ℤ) (target : WatchTarget) where
  -- The chat is stored, and the target is active in it.
  abbrev pub IsActive : Store → Type 0
  IsActive s = (acc : Account) × (get chat_id s ≡ some acc) × (still_active target acc ≡ true)

still_active-write_slot :
    (target : WatchTarget) (slot_id : Text) (slot : AccountSlot) (acc : Account)
    → still_active target acc ≡ true
    → still_active target (write_slot slot_id slot acc) ≡ true
unfolding still_active
still_active-write_slot primary slot_id slot acc h =
    ground (arith, insert_sorted-connected slot_id slot acc.accounts)
still_active-write_slot (shared id _) slot_id slot acc h = h
still_active-write_slot (extra id _) slot_id slot acc h =
    ground (arith, lookup-insert_sorted slot_id id slot acc.accounts)
still_active-write_slot (account id _) slot_id slot acc h =
    ground (arith, lookup-insert_sorted slot_id id slot acc.accounts)

still_active-write_shared :
    (target : WatchTarget) (account_id : Text) (sh : SharedAccount) (acc : Account)
    → still_active target acc ≡ true
    → still_active target (write_shared account_id sh acc) ≡ true
unfolding still_active
still_active-write_shared primary account_id sh acc h = h
still_active-write_shared (shared id _) account_id sh acc h =
    ground (arith, lookup-insert account_id id sh acc.shared_accounts)
still_active-write_shared (extra id _) account_id sh acc h = h
still_active-write_shared (account id _) account_id sh acc h = h

pub slot_of-lookup :
    (chat_id : ℤ) (slot_id : Text) (s : Store) (acc : Account)
    → get chat_id s ≡ some acc
    → slot_of chat_id slot_id s ≡ Option.map (λ slot. (acc, slot)) (lookup slot_id acc.accounts)
unfolding slot_of get
slot_of-lookup chat_id slot_id s acc e = elim (Option-cases (lookup slot_id acc.accounts)) [
  | inl f ↦ ground arith
  | inr (slot, f) ↦ ground arith
]

pub shared_of-lookup :
    (chat_id : ℤ) (id : Text) (s : Store) (acc : Account)
    → get chat_id s ≡ some acc
    → shared_of chat_id id s ≡ Option.map (λ sh. (acc, sh)) (lookup id acc.shared_accounts)
unfolding shared_of get
shared_of-lookup chat_id id s acc e = elim (Option-cases (lookup id acc.shared_accounts)) [
  | inl f ↦ ground arith
  | inr (sh, f) ↦ ground arith
]

module _ (b : Backend) (io : Io) (chat_id : ℤ) (target : WatchTarget) (s : Store) where
  set_account_thread_id-IsActive :
      (slot_id : Text)
      → IsActive chat_id target s
      → IsActive chat_id target (set_account_thread_id b io chat_id slot_id none s).1
  unfolding set_account_thread_id
  set_account_thread_id-IsActive slot_id (acc, e, active) =
      elim (Option-cases (lookup slot_id acc.accounts)) [
        | inl f ↦
            rw (set_account_thread_id, slot_of-lookup chat_id slot_id s acc e, f) (acc, e, active)
        | inr (slot, f) ↦
            rw (set_account_thread_id, slot_of-lookup chat_id slot_id s acc e, f)
              (
                _,
                get-persist-put b io true chat_id _ s,
                still_active-write_slot target slot_id _ acc active,
              )
      ]

  set_shared_account_thread_id-IsActive :
      (id : Text)
      → IsActive chat_id target s
      → IsActive chat_id target (set_shared_account_thread_id b io chat_id id none s).1
  unfolding set_shared_account_thread_id
  set_shared_account_thread_id-IsActive id (acc, e, active) =
      elim (Option-cases (lookup id acc.shared_accounts)) [
        | inl f ↦
            rw (set_shared_account_thread_id, shared_of-lookup chat_id id s acc e, f)
              (acc, e, active)
        | inr (sh, f) ↦
            rw (set_shared_account_thread_id, shared_of-lookup chat_id id s acc e, f)
              (
                _,
                get-persist-put b io true chat_id _ s,
                still_active-write_shared target id _ acc active,
              )
      ]

module _ (w : World) (chat_id : ℤ) (target : WatchTarget) where
  clear_thread-IsActive :
      (t : WatchTarget) (io : Io) (s : Store)
      → IsActive chat_id target s
      → IsActive chat_id target (clear_thread w chat_id target t io s)
  unfolding clear_thread
  clear_thread-IsActive primary io s h =
      set_account_thread_id-IsActive w.backend io chat_id target s (text "default") h
  clear_thread-IsActive (shared id _) io s h =
      set_shared_account_thread_id-IsActive w.backend io chat_id target s id h
  clear_thread-IsActive (extra slot_id _) io s h =
      set_account_thread_id-IsActive w.backend io chat_id target s slot_id h
  clear_thread-IsActive (account slot_id _) io s h =
      set_account_thread_id-IsActive w.backend io chat_id target s slot_id h

  store-count_fallback :
      (r : SendResult) (s : Sync) → (count_fallback w chat_id target r s).store ≡ s.store
  unfolding count_fallback
  store-count_fallback delivered s = refl
  store-count_fallback thread_not_found s = refl
  store-count_fallback failed s = refl

  on_sent-IsActive :
      (r : SendResult) (m : Message) (s : Sync)
      → IsActive chat_id target s.store
      → IsActive chat_id target (on_sent w chat_id target r m s).store
  unfolding on_sent
  on_sent-IsActive delivered m s h = h
  on_sent-IsActive failed m s h = h
  on_sent-IsActive thread_not_found m s h =
      subst (IsActive chat_id target) (sym (store-count_fallback _ _))
        (clear_thread-IsActive target (w.io s.writes) s.store h)

  notify_email-IsActive :
      (acc : Account) (email : ChangedEmail) (s : Sync)
      → IsActive chat_id target s.store
      → IsActive chat_id target (notify_email w chat_id target acc email s).store
  unfolding notify_email send_message
  notify_email-IsActive acc email s h =
      elim (Option-cases (skip_reason email (self_address target acc))) [
        | inr (reason, e) ↦ rw (e, notify_email) h
        | inl e ↦ elim (Bool-cases (is_muted w.lowercase email.summary acc.muted)) [
          | inl f ↦ rw (e, notify_email, f) h
          | inr f ↦ rw (e, notify_email, f) (on_sent-IsActive (w.send (length s.outbox)) _ _ h)
        ]
      ]

  pub notify_emails-IsActive :
      (acc : Account) (emails : List ChangedEmail) (s : Sync)
      → IsActive chat_id target s.store
      → IsActive chat_id target (notify_emails w chat_id target acc emails s).store
  unfolding notify_emails
  notify_emails-IsActive acc [] s h = h
  notify_emails-IsActive acc (email ∷ emails) s h =
      notify_emails-IsActive acc emails (notify_email w chat_id target acc email s)
        (notify_email-IsActive acc email s h)
