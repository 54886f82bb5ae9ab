-- ===== src/Bot/Triage/Failed.antt =====
-- Triage actions of src/bot.rs that fail, between an action and its undo.
use jmap2telegram.Prelude.{
  ◌+◌, ◌<◌, ◌≡◌, refl, sym, ap, ◌∙◌, ◌⊎◌, inl, inr, true, List, [], ◌∷◌, ◌++◌, some, map,
  append-nil, append_assoc, Text, ok, err, ◌>>=◌,
}
use jmap2telegram.Jmap.{JmapError}
use jmap2telegram.Jmap.Mail.{mailbox_ids_of, restore_mailboxes}
use jmap2telegram.Jmap.Lawful.{IsLawful}
use jmap2telegram.State.{undo_window}
use jmap2telegram.Act.{Env, World, Call, answer_callback_query, make_call, on_server}
use jmap2telegram.Bot.Replies.{cross}
use jmap2telegram.Bot.Triage.{
  TriageAction, CallbackCtx, EmailRef, run_action, on_moved, on_snapshot, perform_triage_action,
  undo,
}
use jmap2telegram.Bot.Triage.Undo.{Moves, undo-perform_triage_action}

-- A tap on an action button, with the error that it meets.
pub record Attempt (e : Env) : Type 0 where
  pub ctx : CallbackCtx
  pub client : e.net.Client
  pub target : EmailRef
  pub lang : Text
  pub action : TriageAction
  pub error : JmapError

module _ (e : Env) where
  abbrev pub perform : Attempt e → World e → World e
  perform a w = (perform_triage_action e a.ctx a.client a.target a.lang a.action w).1

  -- The JMAP server refuses the snapshot of the mailboxes, or the move behind it.
  abbrev pub Fails : Attempt e → World e → Type 0
  Fails a w =
      ((mailbox_ids_of e.mail a.client a.target.email_id w.server).0 ≡ err a.error)
      ⊎ ((ids : List Text) × ((mailbox_ids_of e.mail a.client a.target.email_id w.server).0
            ≡ ok ids)
          × ((run_action e a.ctx a.client a.target a.lang a.action
                (mailbox_ids_of e.mail a.client a.target.email_id w.server).1).0
              ≡ err a.error))

  abbrev pub alert_of : Attempt e → Call
  alert_of a = answer_callback_query (some (cross e a.lang a.error)) true

  perform-alert_of :
      (a : Attempt e) (w : World e)
      → Fails a w
      → ((perform a w).calls ≡ w.calls ++ alert_of a ∷ [])
        × ((perform a w).app.pending_undo ≡ w.app.pending_undo)
  unfolding perform_triage_action on_snapshot on_moved make_call
  perform-alert_of a w (inl f) =
      rw (perform, perform_triage_action, ◌>>=◌, on_server, f) (refl, refl)
  perform-alert_of a w (inr (ids, f, g)) =
      rw (perform, perform_triage_action, ◌>>=◌, on_server, f, g) (refl, refl)

  unfoldable pub perform_all : List (Attempt e) → World e → World e
  perform_all [] w = w
  perform_all (a ∷ attempts) w = perform_all attempts (perform a w)

  -- Each attempt fails where it is made.
  unfoldable pub AllFail : List (Attempt e) → World e → Type 0
  AllFail [] w = Unit {0}
  AllFail (a ∷ attempts) w = Fails a w × AllFail attempts (perform a w)

  perform_all-alert_of :
      (attempts : List (Attempt e)) (w : World e)
      → AllFail attempts w
      → ((perform_all attempts w).calls ≡ w.calls ++ map alert_of attempts)
        × ((perform_all attempts w).app.pending_undo ≡ w.app.pending_undo)
  unfolding perform_all AllFail
  perform_all-alert_of [] w h = (sym (append-nil w.calls), refl)
  perform_all-alert_of (a ∷ attempts) w (here, there) =
      let (told, kept) = perform-alert_of a w here in
      let (all_told, all_kept) = perform_all-alert_of attempts (perform a w) there in
      (
        all_told
            ∙ ap (λ calls. calls ++ map alert_of attempts) told
            ∙ append_assoc w.calls (alert_of a ∷ []) (map alert_of attempts),
        all_kept ∙ kept,
      )

  -- An action on a lawful server moves a message and is answered. Then any number of actions, in any
  -- chats and on any messages, fail at their server. Each failure is told by one alert with its error
  -- and nothing else, and a tap on the undo of the first action, within 30 seconds of it, still puts the
  -- message back in all the mailboxes it was in, when the server grants the restoration and nothing
  -- else has changed the pending undos.
  pub undo-perform_all :
      (law : IsLawful e.mail) (first : Attempt e) (ids : List Text) (attempts : List (Attempt e))
      (w v u : World e)
      → Moves e first.ctx first.client first.target first.lang first.action ids w
      → (perform_triage_action e first.ctx first.client first.target first.lang first.action w).0
        ≡ ok tt
      → v.app.pending_undo ≡ (perform first w).app.pending_undo
      → AllFail attempts v
      → u.app.pending_undo ≡ (perform_all attempts v).app.pending_undo
      → u.now < w.now + undo_window
      → (restore_mailboxes e.mail first.client first.target.email_id ids u.server).0 ≡ ok tt
      → ((perform_all attempts v).calls ≡ v.calls ++ map alert_of attempts)
        × (law.mailboxes first.client first.target.email_id
              (undo e first.ctx first.client first.target first.lang u).1.server
            ≡ law.mailboxes first.client first.target.email_id w.server)
  undo-perform_all law first ids attempts w v u moves answered before fail after soon granted =
      let (told, kept) = perform_all-alert_of attempts v fail in
      (
        told,
        undo-perform_triage_action e first.ctx first.client first.target first.lang law first.action
            ids w u moves answered (after ∙ kept ∙ before) soon granted,
      )
