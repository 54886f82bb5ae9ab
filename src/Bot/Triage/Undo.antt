-- ===== src/Bot/Triage/Undo.antt =====
-- The undo of a triage action in src/bot.rs.
use jmap2telegram.Prelude.{
  ℕ, ◌+◌, ◌<◌, ◌≡◌, refl, ◌∙◌, true, inl, inr, Bool-cases, List, Option, none, some, nat_eq,
  list_eq, int_eq, option_eq, list_beq_iff, option_beq_iff, ==_refl, length, Text, lookup,
  lookup-insert, lookup-erase, Result, ok, err, ◌>>=◌, ◌>>◌, arith,
}
use jmap2telegram.Jmap.{JmapError}
use jmap2telegram.Jmap.Mail.{mailbox_ids_of, restore_mailboxes}
use jmap2telegram.Jmap.Lawful.{IsLawful, mailbox_ids_of-mailboxes, restore_mailboxes-mailboxes}
use jmap2telegram.State.{PendingUndo, is_expired, undo_window, refresh_undo_gauge}
use jmap2telegram.Act.{Env, World, make_call, call_ignored, on_server, is_accepted}
use jmap2telegram.Bot.Triage.{
  TriageAction, CallbackCtx, EmailRef, run_action, remember_undo, on_moved, on_snapshot,
  perform_triage_action, on_restored, is_current, undo_too_late, restore, on_pending, take_pending,
  undo,
}

module _ (e : Env) (ctx : CallbackCtx) (client : e.net.Client) (target : EmailRef)
    (lang : Text) where
  -- The undo that an action leaves.
  abbrev pub undo_of : List Text → ℕ → PendingUndo
  undo_of ids now = record {
    account_id = target.account_id;
    email_id = target.email_id;
    restore_mailbox_ids = ids;
    expires_at = now + undo_window;
  }

  on_moved-remembers :
      (action : TriageAction) (ids : List Text) (w : World e)
      → (on_moved e ctx client target lang action ids (ok tt) w).0 ≡ ok tt
      → lookup ctx.chat_id
          (on_moved e ctx client target lang action ids (ok tt) w).1.app.pending_undo
        ≡ some (undo_of ids w.now)
  unfolding on_moved make_call call_ignored remember_undo refresh_undo_gauge
  on_moved-remembers action ids w h = elim (Bool-cases (is_accepted (e.answer (length w.calls)))) [
    | inl f ↦
        rw (◌>>=◌, ◌>>◌, f)
          (lookup-insert ctx.chat_id ctx.chat_id (undo_of ids w.now) w.app.pending_undo
            ∙ rw (==_refl ctx.chat_id) refl)
    | inr f ↦ absurd (ground (arith, rw (◌>>=◌, ◌>>◌, f) at h))
  ]

  -- The world once the move has been made.
  abbrev moved_in : TriageAction → World e → World e
  moved_in action w = record w {
    server =
        (run_action e ctx client target lang action
          (mailbox_ids_of e.mail client target.email_id w.server).1).1;
  }

  -- The snapshot and the move succeed.
  abbrev pub Moves : TriageAction → List Text → World e → Type 0
  Moves action ids w =
      ((mailbox_ids_of e.mail client target.email_id w.server).0 ≡ ok ids)
      × ((run_action e ctx client target lang action
            (mailbox_ids_of e.mail client target.email_id w.server).1).0
          ≡ ok tt)

  perform-moved :
      (action : TriageAction) (ids : List Text) (w : World e)
      → Moves action ids w
      → perform_triage_action e ctx client target lang action w
        ≡ on_moved e ctx client target lang action ids (ok tt) (moved_in action w)
  unfolding perform_triage_action on_snapshot
  perform-moved action ids w (read, moved) = rw (◌>>=◌, on_server, read, moved) refl

  perform-remembers :
      (action : TriageAction) (ids : List Text) (w : World e)
      → Moves action ids w
      → (perform_triage_action e ctx client target lang action w).0 ≡ ok tt
      → lookup ctx.chat_id
          (perform_triage_action e ctx client target lang action w).1.app.pending_undo
        ≡ some (undo_of ids w.now)
  perform-remembers action ids w moves h = rw (perform-moved action ids w moves) (
      on_moved-remembers action ids (moved_in action w)
        (rw (perform-moved action ids w moves) at h))

  undo_of-is_current :
      (ids : List Text) (now later : ℕ)
      → later < now + undo_window
      → is_current e ctx client target lang later (undo_of ids now) ≡ true
  unfolding is_current is_expired
  undo_of-is_current ids now later soon = ground (
    arith,
    soon,
    option_beq_iff target.account_id target.account_id,
    list_beq_iff target.email_id target.email_id,
  )

  on_restored-server :
      (r : Result (Unit {0}) JmapError) (w : World e)
      → (on_restored e ctx client target lang r w).1.server ≡ w.server
  unfolding on_restored make_call call_ignored
  on_restored-server (err x) w = refl
  on_restored-server (ok _) w = elim (Bool-cases (is_accepted (e.answer (length w.calls)))) [
    | inl f ↦ rw (◌>>=◌, ◌>>◌, f) refl
    | inr f ↦ rw (◌>>=◌, ◌>>◌, f) refl
  ]

  -- An undo in time asks the server to restore the mailboxes of the snapshot.
  undo-server :
      (ids : List Text) (now : ℕ) (w : World e)
      → lookup ctx.chat_id w.app.pending_undo ≡ some (undo_of ids now)
      → w.now < now + undo_window
      → (undo e ctx client target lang w).1.server
        ≡ (restore_mailboxes e.mail client target.email_id ids w.server).1
  unfolding undo take_pending on_pending restore
  undo-server ids now w found soon =
      rw (◌>>=◌, found, on_pending, undo_of-is_current ids now w.now soon)
        (on_restored-server (restore_mailboxes e.mail client target.email_id ids w.server).0
          (record (take_pending e ctx client target lang w).1 {
            server = (restore_mailboxes e.mail client target.email_id ids w.server).1;
          }))

  -- On a lawful server, a triage action that moves a message and is answered, followed by a tap on
  -- its undo within 30 seconds, puts the message back where it was, in all its mailboxes, when the
  -- server grants the restoration. Between the two, anything may happen that leaves the pending
  -- undos as they are: to the message as well.
  pub undo-perform_triage_action :
      (law : IsLawful e.mail) (action : TriageAction) (ids : List Text) (w v : World e)
      → Moves action ids w
      → (perform_triage_action e ctx client target lang action w).0 ≡ ok tt
      → v.app.pending_undo
        ≡ (perform_triage_action e ctx client target lang action w).1.app.pending_undo
      → v.now < w.now + undo_window
      → (restore_mailboxes e.mail client target.email_id ids v.server).0 ≡ ok tt
      → law.mailboxes client target.email_id (undo e ctx client target lang v).1.server
        ≡ law.mailboxes client target.email_id w.server
  undo-perform_triage_action law action ids w v moves answered kept soon granted =
      let found : lookup ctx.chat_id v.app.pending_undo ≡ some (undo_of ids w.now) =
        rw kept (perform-remembers action ids w moves answered) in
      rw (undo-server ids w.now v found soon) (
        restore_mailboxes-mailboxes law client target.email_id v.server ids granted
        ∙ mailbox_ids_of-mailboxes law client target.email_id w.server ids moves.0)

  on_restored-pending_undo :
      (r : Result (Unit {0}) JmapError) (w : World e)
      → (on_restored e ctx client target lang r w).1.app.pending_undo ≡ w.app.pending_undo
  unfolding on_restored make_call call_ignored
  on_restored-pending_undo (err x) w = refl
  on_restored-pending_undo (ok _) w = elim (Bool-cases (is_accepted (e.answer (length w.calls)))) [
    | inl f ↦ rw (◌>>=◌, ◌>>◌, f) refl
    | inr f ↦ rw (◌>>=◌, ◌>>◌, f) refl
  ]

  on_pending-pending_undo :
      (pending : Option PendingUndo) (w : World e)
      → (on_pending e ctx client target lang pending w).1.app.pending_undo ≡ w.app.pending_undo
  unfolding on_pending undo_too_late restore make_call
  on_pending-pending_undo none w = refl
  on_pending-pending_undo (some p) w =
      elim (Bool-cases (is_current e ctx client target lang w.now p)) [
        | inr f ↦ rw (on_pending, f) refl
        | inl f ↦
            rw (on_pending, f)
              (on_restored-pending_undo
                (restore_mailboxes e.mail client target.email_id p.restore_mailbox_ids w.server).0
                (record w {
                  server =
                      (restore_mailboxes e.mail client target.email_id p.restore_mailbox_ids
                        w.server).1;
                }))
      ]

  -- A tap on an undo closes it, whatever it comes to.
  undo-pending_undo :
      (w : World e) → lookup ctx.chat_id (undo e ctx client target lang w).1.app.pending_undo ≡ none
  unfolding undo take_pending refresh_undo_gauge
  undo-pending_undo w =
      rw
        (on_pending-pending_undo (lookup ctx.chat_id w.app.pending_undo)
          (take_pending e ctx client target lang w).1)
        (lookup-erase ctx.chat_id ctx.chat_id w.app.pending_undo ∙ rw (==_refl ctx.chat_id) refl)

  undo-none :
      (w : World e)
      → lookup ctx.chat_id w.app.pending_undo ≡ none
      → (undo e ctx client target lang w).1.server ≡ w.server
  unfolding undo take_pending on_pending undo_too_late make_call
  undo-none w h = rw (◌>>=◌, h, on_pending) refl

-- Only the first tap on an undo button can restore anything: after a tap in a chat, whatever it came
-- to, a tap in the same chat on this undo or another leaves the servers as they are, at any time
-- before the chat has a new pending undo.
pub undo-undo :
    (e : Env) (ctx again : CallbackCtx) (client other : e.net.Client) (target next : EmailRef)
    (lang : Text) (w v : World e)
    → again.chat_id ≡ ctx.chat_id
    → v.app.pending_undo ≡ (undo e ctx client target lang w).1.app.pending_undo
    → (undo e again other next lang v).1.server ≡ v.server
undo-undo e ctx again client other target next lang w v same kept =
    undo-none e again other next lang v
      (rw (same, kept) (undo-pending_undo e ctx client target lang w))
