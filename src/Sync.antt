-- ===== src/Sync.antt =====
-- `sync_and_notify` of src/watcher.rs. `World` is what the call meets outside: the answers of the
-- JMAP server, the outcome of each message to Telegram, and the file system at each write. A message
-- is kept as what its text and keyboard are made from, so the texts themselves are not modelled.
pub mod Notified
pub mod Active
pub mod Cursor
pub mod Round
use jmap2telegram.Prelude.{
  ℕ, ◌+◌, Bool, true, false, not, ◌&&◌, List, [], ◌∷◌, ◌++◌, Option, none, some, if◌then◌else◌,
  is_some, ◌==◌, nat_eq, list_eq, length, Text, text, ℤ,
}
use jmap2telegram.Account.{Account}
use jmap2telegram.Store.{Store, Backend, Io, get}
use jmap2telegram.Store.Slots
use jmap2telegram.Store.Shared
use jmap2telegram.Jmap.{EmailSummary, ChangedEmail}
use jmap2telegram.Health.{
  Health, Metrics, touch, watcher_sync, notification_delivered, notification_send_error,
  notification_skipped,
}
use jmap2telegram.Watcher.{
  WatchTarget, primary, shared, extra, account, since_state, update_state, account_id, label, kind,
  health_key, self_address, reason_label, SkipReason, skip_reason, is_muted,
}
use jmap2telegram.Config.{Config}
use jmap2telegram.Topics.{target_thread_id}

-- `Ok(_)`, an error that `is_thread_not_found_error` accepts, and any other error.
pub data SendResult : Type 0 where
  delivered thread_not_found failed : SendResult

pub record Message : Type 0 where
  pub chat_id : ℤ
  pub summary : EmailSummary
  pub account_label : Option Text
  pub account_ref : Option Text
  pub thread_id : Option ℤ

-- A message that was sent: to the topic at first, or to the main chat after a lost topic.
pub data Sent : Type 0 where
  first_try : Message → Sent
  fallback : Message → Sent

pub record World : Type 0 where
  pub backend : Backend
  pub lowercase : Text → Text
  pub config : Config
  pub now : ℕ
  pub current_email_state : Option Text
  pub fetch_changed_emails : Text → Option (List ChangedEmail × Text)
  -- the outcome of the n-th message, and the file system at the n-th write
  pub send : ℕ → SendResult
  pub io : ℕ → Io

pub record Sync : Type 0 where
  pub store : Store
  pub health : Health
  pub metrics : Metrics
  pub outbox : List Sent
  pub writes : ℕ

abbrev pub count_with : (Metrics → Metrics) → Sync → Sync
count_with f s = record s { metrics = f s.metrics }

module _ (w : World) (chat_id : ℤ) (target : WatchTarget) where
  -- `set_account_thread_id(…, None)` for the target.
  unfoldable pub clear_thread : WatchTarget → Io → Store → Store
  clear_thread primary io s =
      (Slots.set_account_thread_id w.backend io chat_id (text "default") none s).1
  clear_thread (account slot_id _) io s =
      (Slots.set_account_thread_id w.backend io chat_id slot_id none s).1
  clear_thread (extra slot_id _) io s =
      (Slots.set_account_thread_id w.backend io chat_id slot_id none s).1
  clear_thread (shared id _) io s =
      (Shared.set_shared_account_thread_id w.backend io chat_id id none s).1

  unfoldable pub message_of : Account → EmailSummary → Message
  message_of acc summary = record {
    chat_id = chat_id;
    summary = summary;
    account_label = label target;
    account_ref = account_id target;
    thread_id = target_thread_id w.config acc target;
  }

  abbrev push : Sent → Sync → Sync
  push m s = record s { outbox = s.outbox ++ m ∷ [] }

  count_fallback : SendResult → Sync → Sync
  count_fallback delivered s = count_with (notification_delivered (kind target)) s
  count_fallback thread_not_found s = count_with (notification_send_error (kind target)) s
  count_fallback failed s = count_with (notification_send_error (kind target)) s

  -- The answer to the first message.
  unfoldable pub on_sent : SendResult → Message → Sync → Sync
  unfolding count_fallback clear_thread
  on_sent delivered m s = count_with (notification_delivered (kind target)) s
  on_sent failed m s = count_with (notification_send_error (kind target)) s
  on_sent thread_not_found m s = count_fallback (w.send (length s.outbox)) (
      push (fallback (record m { thread_id = none }))
        (record s { store = clear_thread target (w.io s.writes) s.store; writes = s.writes + 1 }))

  unfoldable pub send_message : Message → Sync → Sync
  unfolding on_sent
  send_message m s = on_sent (w.send (length s.outbox)) m (push (first_try m) s)

  -- One turn of the loop over the changed messages.
  unfoldable pub notify_email : Account → ChangedEmail → Sync → Sync
  unfolding send_message message_of
  notify_email acc email s = elim (skip_reason email (self_address target acc)) [
    | some reason ↦ count_with (notification_skipped (kind target) (reason_label reason)) s
    | none ↦
        if is_muted w.lowercase email.summary acc.muted
        then s
        else send_message (message_of acc email.summary) s
  ]

  unfoldable pub notify_emails : Account → List ChangedEmail → Sync → Sync
  unfolding notify_email
  notify_emails acc [] s = s
  notify_emails acc (email ∷ emails) s = notify_emails acc emails (notify_email acc email s)

  unfoldable pub write_cursor : Text → Sync → Sync
  write_cursor state s = record s {
    store = update_state w.backend (w.io s.writes) target chat_id state s.store;
    writes = s.writes + 1;
  }

  unfoldable pub sync_changes : Account → Text → Option (List ChangedEmail × Text) → Sync → Sync
  unfolding notify_emails write_cursor
  sync_changes acc since none s = s
  sync_changes acc since (some (changed, new_state)) s =
      let touched = record s {
        health = touch w.now (health_key target chat_id) s.health;
        metrics = watcher_sync s.metrics;
      } in
      let after = notify_emails acc changed touched in
      if not (new_state == since) then write_cursor new_state after else after

  unfoldable pub start_cursor : Option Text → Sync → Sync
  unfolding write_cursor
  start_cursor none s = s
  start_cursor (some fresh_state) s = write_cursor fresh_state s

  unfoldable pub sync_and_notify : Sync → Sync
  unfolding sync_changes start_cursor
  sync_and_notify s = elim (get chat_id s.store) [
    | none ↦ s
    | some acc ↦ elim (since_state target acc) [
      | none ↦ start_cursor w.current_email_state s
      | some since ↦ sync_changes acc since (w.fetch_changed_emails since) s
    ]
  ]
