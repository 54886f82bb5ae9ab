-- ===== src/Sync/Round/Stopped.antt =====
-- How the task of a watcher in src/watcher.rs ends.
use jmap2telegram.Prelude.{
  ℕ, ◌≡◌, refl, sym, ap, ◌∙◌, inl, inr, Bool, true, false, Bool-cases, List, [], ◌∷◌, ◌++◌, Option,
  none, some, append-nil, ℤ, arith,
}
use jmap2telegram.Store.{get}
use jmap2telegram.Health.{set_connected, deregister}
use jmap2telegram.Config.{Config}
use jmap2telegram.Watcher.{WatchTarget, health_key}
use jmap2telegram.Watcher.Loop.{Outcome, stopped, round}
use jmap2telegram.Sync.{World, Sync, SendResult, sync_and_notify}
use jmap2telegram.Sync.Round.{
  Translate, Event, state_change, calendar_alert, stream_error, stream_closed, tick, Turn, Session,
  Task, is_watched, on_event, go_on, watch, run_once, after_session, next_session, stop, spawn_loop,
}

-- The events that do not end the connection.
abbrev pub wakes : Event → Bool
wakes state_change = true
wakes calendar_alert = true
wakes tick = true
wakes stream_error = false
wakes stream_closed = false

module _ (chat_id : ℤ) (target : WatchTarget) where
  on_event-gone :
      (w : World) (event : Event) (s : Sync)
      → wakes event ≡ true
      → get chat_id s.store ≡ none
      → on_event chat_id target w event s ≡ (none, s)
  unfolding on_event sync_and_notify
  on_event-gone w state_change s h gone = rw (gone, sync_and_notify) refl
  on_event-gone w calendar_alert s h gone = refl
  on_event-gone w tick s h gone = rw (gone, sync_and_notify) refl
  on_event-gone w stream_error s h gone = absurd (ground (arith, h))
  on_event-gone w stream_closed s h gone = absurd (ground (arith, h))

  is_watched-gone : (s : Sync) → get chat_id s.store ≡ none → is_watched chat_id target s ≡ false
  unfolding is_watched
  is_watched-gone s gone = rw (is_watched, gone) refl

  watch-gone :
      (turns : List Turn) (s : Sync)
      → get chat_id s.store ≡ none
      → watch chat_id target turns s ≡ (some stopped, s)
  unfolding watch
  watch-gone [] s gone = rw (is_watched-gone s gone) refl
  watch-gone (t ∷ ts) s gone = rw (is_watched-gone s gone) refl

  watch-logout :
      (t : Turn) (ts : List Turn) (s : Sync)
      → is_watched chat_id target s ≡ true
      → wakes t.event ≡ true
      → get chat_id (t.meanwhile s).store ≡ none
      → watch chat_id target (t ∷ ts) s ≡ (some stopped, t.meanwhile s)
  unfolding watch go_on
  watch-logout t ts s here h gone =
      rw (here, on_event-gone t.world t.event (t.meanwhile s) h gone)
        (watch-gone ts (t.meanwhile s) gone)

  still_waits :
      (next then_next : Sync → Option Outcome × Sync) (p : Option Outcome × Sync) (end : Sync)
      (rest : Option Outcome × Sync)
      → ((s : Sync) → next s ≡ (none, end) → then_next s ≡ rest)
      → go_on chat_id target next p ≡ (none, end)
      → go_on chat_id target then_next p ≡ rest
  unfolding go_on
  still_waits next then_next (none, s) end rest step h = step s h
  still_waits next then_next (some o, s) end rest step h = absurd (ground (arith, h))

  -- A loop that still waits after some turns goes on from there.
  watch-append :
      (before after : List Turn) (s end : Sync)
      → watch chat_id target before s ≡ (none, end)
      → watch chat_id target (before ++ after) s ≡ watch chat_id target after end
  unfolding watch
  watch-append [] after s end h = elim (Bool-cases (is_watched chat_id target s)) [
    | inr f ↦ absurd (ground (arith, rw f at h))
    | inl f ↦ let same : s ≡ end = ground (arith, rw f at h) in ap (watch chat_id target after) same
  ]
  watch-append (t ∷ ts) after s end h = elim (Bool-cases (is_watched chat_id target s)) [
    | inr f ↦ absurd (ground (arith, rw f at h))
    | inl f ↦ rw f (
        still_waits (watch chat_id target ts) (watch chat_id target (ts ++ after))
          (on_event chat_id target t.world t.event (t.meanwhile s)) end
          (watch chat_id target after end) (λ u e. watch-append ts after u end e) (rw f at h))
  ]

  -- A loop waits only while its target is stored.
  waits-watched :
      (before : List Turn) (s end : Sync)
      → watch chat_id target before s ≡ (none, end)
      → is_watched chat_id target end ≡ true
  unfolding watch
  waits-watched before s end h = elim (Bool-cases (is_watched chat_id target end)) [
    | inl f ↦ f
    | inr f ↦
        let ends : watch chat_id target (before ++ []) s ≡ (some stopped, end) =
          watch-append before [] s end h ∙ rw f refl in
        let waits : watch chat_id target (before ++ []) s ≡ (none, end) =
          ap (λ turns. watch chat_id target turns s) (append-nil before) ∙ h in
        absurd (ground (arith, sym ends ∙ waits))
  ]

  module _ (translate : Translate) (config : Config) (deliver : ℕ → SendResult) where
    -- The state once the connection is open.
    abbrev opened : Sync → Sync
    opened s = record s { health = set_connected (health_key target chat_id) true s.health }

    -- When a chat logs out while the task of one of its watchers waits in an open session, the next
    -- wake-up ends the task: what the other tasks left stays, but for the health entry of the target,
    -- which goes, and neither a message nor a notice is sent. Nothing of what would follow is run.
    pub spawn_loop-logout :
        (session : Session) (sessions : List Session) (before after : List Turn) (t : Turn)
        (task : Task) (s : Sync)
        → session.opens ≡ true
        → session.turns ≡ before ++ t ∷ after
        → watch chat_id target before (opened task.sync) ≡ (none, s)
        → wakes t.event ≡ true
        → get chat_id (t.meanwhile s).store ≡ none
        → spawn_loop chat_id target translate config deliver (session ∷ sessions) task
          ≡ record task {
            sync = record (t.meanwhile s) {
              health = deregister (health_key target chat_id) (t.meanwhile s).health;
            };
          }
    unfolding spawn_loop run_once after_session next_session stop round
    spawn_loop-logout session sessions before after t task s opens turns waits h gone =
        let ends : watch chat_id target (before ++ t ∷ after) (opened task.sync)
            ≡ (some stopped, t.meanwhile s) =
          watch-append before (t ∷ after) (opened task.sync) s waits
          ∙ watch-logout t after s (waits-watched before (opened task.sync) s waits) h gone in
        rw (opens, turns, ends) refl
