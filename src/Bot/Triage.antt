-- ===== src/Bot/Triage.antt =====
-- The actions on a message in src/bot.rs: `perform_triage_action` and the branches "r" and "u" of
-- `callback_handler`.
pub mod Undo
pub mod Failed
use jmap2telegram.Prelude.{
  ℕ, ◌+◌, Bool, true, false, not, ◌&&◌, List, [], ◌∷◌, ◌++◌, Option, none, some, if◌then◌else◌,
  ◌==◌, list_eq, nat_eq, int_eq, option_eq, Text, text, ℤ, lookup, insert, erase, Result, ok, err,
  Step, ◌>>=◌, ◌>>◌, give,
}
use jmap2telegram.Jmap.{JmapError}
use jmap2telegram.Jmap.Mail.{mark_read, mailbox_ids_of, restore_mailboxes}
use jmap2telegram.Jmap.Mail
use jmap2telegram.Health
use jmap2telegram.Format.{notification_keyboard, undo_keyboard}
use jmap2telegram.State.{PendingUndo, is_expired, undo_window, refresh_undo_gauge}
use jmap2telegram.Act.{
  Env, World, Act, edit_message_reply_markup, call_ignored, answer_with, alert, on_app, on_metrics,
  on_server, set_app,
}
use jmap2telegram.Bot.Replies.{t, cross}

pub data TriageAction : Type 0 where
  archive junk delete : TriageAction

unfoldable pub metric_label : TriageAction → Text
metric_label archive = text "archive"
metric_label junk = text "junk"
metric_label delete = text "delete"

unfoldable pub toast_key : TriageAction → Text
toast_key archive = text "triage.archived"
toast_key junk = text "triage.spam"
toast_key delete = text "triage.deleted"

pub record CallbackCtx : Type 0 where
  pub chat_id : ℤ
  pub message_id : ℕ

pub record EmailRef : Type 0 where
  pub account_id : Option Text
  pub email_id : Text

module _ (e : Env) (ctx : CallbackCtx) (client : e.net.Client) (target : EmailRef)
    (lang : Text) where
  -- The call of jmap.rs that an action makes.
  unfoldable pub run_action : TriageAction → Mail.Rpc e.mail client (Unit {0})
  run_action archive = Mail.archive e.mail client target.email_id
  run_action junk = Mail.junk e.mail client target.email_id
  run_action delete = Mail.delete e.mail client target.email_id

  -- `pending_undo.insert(chat_id, PendingUndo { … })`
  remember_undo : List Text → Act e (Unit {0})
  remember_undo ids w = (
    ok tt,
    record w {
      app = record w.app {
        pending_undo =
            insert ctx.chat_id
              (record {
                account_id = target.account_id;
                email_id = target.email_id;
                restore_mailbox_ids = ids;
                expires_at = w.now + undo_window;
              })
              w.app.pending_undo;
      };
    },
  )

  unfoldable pub on_moved :
      TriageAction → List Text → Result (Unit {0}) JmapError → Act e (Unit {0})
  unfolding metric_label toast_key remember_undo
  on_moved action ids (err x) = do
    on_metrics (Health.triage_action (metric_label action) (text "error"))
    alert (cross e lang x)
  on_moved action ids (ok _) = do
    on_metrics (Health.triage_action (metric_label action) (text "ok"))
    answer_with (t e lang (toast_key action))
    remember_undo ids
    on_app refresh_undo_gauge
    call_ignored (
        edit_message_reply_markup ctx.chat_id ctx.message_id
          (undo_keyboard (t e lang) target.email_id target.account_id))

  unfoldable pub on_snapshot : TriageAction → Result (List Text) JmapError → Act e (Unit {0})
  unfolding run_action
  on_snapshot action (err x) = alert (cross e lang x)
  on_snapshot action (ok ids) = do moved ← on_server (run_action action); on_moved action ids moved

  unfoldable pub perform_triage_action : TriageAction → Act e (Unit {0})
  perform_triage_action action = do
    snapshot ← on_server (mailbox_ids_of e.mail client target.email_id)
    on_snapshot action snapshot

  on_restored : Result (Unit {0}) JmapError → Act e (Unit {0})
  on_restored (err x) = do on_metrics (Health.undo (text "error")); alert (cross e lang x)
  on_restored (ok _) = do
    on_metrics (Health.undo (text "restored"))
    answer_with (t e lang (text "bot.undo_done"))
    call_ignored (
        edit_message_reply_markup ctx.chat_id ctx.message_id
          (notification_keyboard (t e lang) target.email_id target.account_id false false))

  -- The undo is of this message, and in time.
  unfoldable pub is_current : ℕ → PendingUndo → Bool
  is_current now p =
      not (is_expired now p) && (p.account_id == target.account_id && p.email_id == target.email_id)

  undo_too_late : Act e (Unit {0})
  undo_too_late = do
    on_metrics (Health.undo (text "expired"))
    alert (t e lang (text "bot.undo_expired"))

  restore : List Text → Act e (Unit {0})
  unfolding on_restored
  restore ids = do
    restored ← on_server (restore_mailboxes e.mail client target.email_id ids)
    on_restored restored

  unfoldable pub on_pending : Option PendingUndo → Act e (Unit {0})
  unfolding undo_too_late restore
  on_pending none w = undo_too_late w
  on_pending (some p) w =
      (if is_current w.now p then restore p.restore_mailbox_ids else undo_too_late) w

  -- `pending_undo.remove(&chat_id)`, and the gauge
  unfoldable pub take_pending : Act e (Option PendingUndo)
  take_pending w = (
    ok (lookup ctx.chat_id w.app.pending_undo),
    set_app
        (refresh_undo_gauge (record w.app { pending_undo = erase ctx.chat_id w.app.pending_undo }))
        w,
  )

  unfoldable pub undo : Act e (Unit {0})
  unfolding take_pending on_pending
  undo = do pending ← take_pending; on_pending pending

  on_marked : Result (Unit {0}) JmapError → Act e (Unit {0})
  on_marked (err x) = do on_metrics (Health.mark_read (text "error")); alert (cross e lang x)
  on_marked (ok _) = do
    on_metrics (Health.mark_read (text "ok"))
    answer_with (t e lang (text "bot.mark_read_done"))
    call_ignored (
        edit_message_reply_markup ctx.chat_id ctx.message_id
          (notification_keyboard (t e lang) target.email_id target.account_id true true))

  unfoldable pub read_message : Act e (Unit {0})
  unfolding on_marked
  read_message = do marked ← on_server (mark_read e.mail client target.email_id); on_marked marked
