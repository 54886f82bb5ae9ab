-- ===== src/Sync/Round.antt =====
-- `run_once`, `notify` and the task of `spawn` in src/watcher.rs. A session is one connection to the
-- event source: whether it opens, and the turns of the loop of `run_once`. In a turn the other tasks
-- change the shared state while the loop waits, then an event or the interval of the fallback poll
-- wakes it up. The list of turns ends where the task still waits.
pub mod Stopped
use jmap2telegram.Prelude.{
  ℕ, Bool, true, false, not, List, [], ◌∷◌, ◌++◌, Option, none, some, if◌then◌else◌, length, Text,
  text, ℤ,
}
use jmap2telegram.Store.{get}
use jmap2telegram.Health.{set_connected, deregister, watcher_reconnect}
use jmap2telegram.Config.{Config}
use jmap2telegram.I18n.{resolve}
use jmap2telegram.State.{stored_language}
use jmap2telegram.Topics.{target_thread_id}
use jmap2telegram.Watcher.{WatchTarget, primary, shared, extra, account, still_active, health_key}
use jmap2telegram.Watcher.Loop.{
  Loop, Notice, broken, recovered, Outcome, stopped, dropped, refused, Round, round,
}
use jmap2telegram.Sync.{
  World, Sync, SendResult, delivered, thread_not_found, failed, sync_and_notify, count_with,
}

abbrev pub Translate : Type 0
Translate = Text → Text → List (Text × Text) → Text

unfoldable pub scope_label : Translate → Text → WatchTarget → Text
scope_label translate lang primary = translate lang (text "watcher.scope_primary") []
scope_label translate lang (shared _ label) =
    translate lang (text "watcher.scope_shared") ((text "label", label) ∷ [])
scope_label translate lang (extra _ label) =
    translate lang (text "watcher.scope_extra") ((text "label", label) ∷ [])
scope_label translate lang (account _ label) =
    translate lang (text "watcher.scope_extra") ((text "label", label) ∷ [])

unfoldable pub connection_broken_text : Translate → Text → WatchTarget → Text
unfolding scope_label
connection_broken_text translate lang target =
    translate lang (text "watcher.broken") ((text "scope", scope_label translate lang target) ∷ [])

unfoldable pub connection_recovered_text : Translate → Text → WatchTarget → Text
unfolding scope_label
connection_recovered_text translate lang target =
    translate lang (text "watcher.recovered")
      ((text "scope", scope_label translate lang target) ∷ [])

pub data Event : Type 0 where
  state_change calendar_alert stream_error stream_closed tick : Event

pub record Turn : Type 0 where
  pub meanwhile : Sync → Sync
  pub event : Event
  pub world : World

pub record Session : Type 0 where
  pub opens : Bool
  pub turns : List Turn
  -- what the other tasks do while the task sleeps after the session
  pub asleep : Sync → Sync

-- A notice about the connection that was sent.
pub record HealthNotice : Type 0 where
  pub chat_id : ℤ
  pub thread_id : Option ℤ
  pub shown : Text

-- The task: the shared state, its variables, its notices and its sleeps.
pub record Task : Type 0 where
  pub sync : Sync
  pub loop : Loop
  pub notices : List HealthNotice
  pub sleeps : List ℕ

module _ (chat_id : ℤ) (target : WatchTarget) where
  unfoldable pub is_watched : Sync → Bool
  is_watched s = elim (get chat_id s.store) [ none ↦ false | some acc ↦ still_active target acc ]

  -- The end of the session, or none, and the state.
  unfoldable pub on_event : World → Event → Sync → Option Outcome × Sync
  on_event w state_change s = (none, sync_and_notify w chat_id target s)
  on_event w calendar_alert s = (none, s)
  on_event w stream_error s = (some dropped, s)
  on_event w stream_closed s = (some dropped, s)
  on_event w tick s = (none, sync_and_notify w chat_id target s)

  unfoldable pub go_on :
      (Sync → Option Outcome × Sync) → Option Outcome × Sync → Option Outcome × Sync
  go_on next (none, s) = next s
  go_on next (some outcome, s) = (some outcome, s)

  unfoldable pub watch : List Turn → Sync → Option Outcome × Sync
  unfolding is_watched on_event go_on
  watch [] s = if is_watched s then (none, s) else (some stopped, s)
  watch (t ∷ ts) s =
      let rest = go_on (watch ts) (on_event t.world t.event (t.meanwhile s)) in
      if is_watched s then rest else (some stopped, s)

  unfoldable pub run_once : Session → Sync → Option Outcome × Sync
  unfolding watch
  run_once session s =
      if session.opens
      then watch session.turns
          (record s { health = set_connected (health_key target chat_id) true s.health })
      else (some refused, s)

  module _ (translate : Translate) (config : Config) (deliver : ℕ → SendResult) where
    notice_text : Notice → Text → Text
    unfolding connection_broken_text connection_recovered_text
    notice_text broken lang = connection_broken_text translate lang target
    notice_text recovered lang = connection_recovered_text translate lang target

    unfoldable pub on_delivery :
        Option ℤ → Text → SendResult → List HealthNotice → List HealthNotice
    on_delivery thread shown thread_not_found sent =
        sent ++ record { chat_id = chat_id; thread_id = none; shown = shown } ∷ []
    on_delivery thread shown delivered sent = sent
    on_delivery thread shown failed sent = sent

    unfoldable pub notify : Text → Task → Task
    unfolding on_delivery
    notify shown t = elim (get chat_id t.sync.store) [
      | none ↦ t
      | some acc ↦
          let thread = target_thread_id config acc target in
          let sent =
            t.notices ++ record { chat_id = chat_id; thread_id = thread; shown = shown } ∷ [] in
          record t { notices = on_delivery thread shown (deliver (length t.notices)) sent }
    ]

    unfoldable pub notify_all : List Notice → Task → Task
    unfolding notify notice_text
    notify_all [] t = t
    notify_all (n ∷ ns) t = notify_all ns (
        notify
          (notice_text n
            (resolve (stored_language (get chat_id t.sync.store)) none config.default_language))
          t)

    -- The state after a failed session: counted, and recorded as not connected.
    unfoldable pub disconnected : Sync → Sync
    disconnected s =
        count_with watcher_reconnect
          (record s { health = set_connected (health_key target chat_id) false s.health })

    unfoldable pub after_failure : (Sync → Sync) → Round → Task → Task
    unfolding notify_all disconnected
    after_failure asleep r t =
        let told = notify_all r.notices (record t { sync = disconnected t.sync }) in
        record told {
          sync = asleep told.sync;
          loop = r.after;
          sleeps = told.sleeps ++ r.sleeps ∷ [];
        }

    unfoldable pub stop : Task → Task
    stop t = record t {
      sync = record t.sync { health = deregister (health_key target chat_id) t.sync.health };
    }

    -- What follows a session: whether the task goes on, and its state.
    unfoldable pub after_session : (Sync → Sync) → Option Outcome × Sync → Task → Bool × Task
    unfolding after_failure stop
    after_session asleep (none, s) t = (false, record t { sync = s })
    after_session asleep (some outcome, s) t = elim (round outcome t.loop) [
      | none ↦ (false, stop (record t { sync = s }))
      | some r ↦ (true, after_failure asleep r (record t { sync = s }))
    ]

    unfoldable pub next_session : (Task → Task) → Bool × Task → Task
    next_session next (true, t) = next t
    next_session next (false, t) = t

    -- The body of the task that `spawn` starts, over its sessions.
    unfoldable pub spawn_loop : List Session → Task → Task
    unfolding run_once after_session next_session
    spawn_loop [] t = t
    spawn_loop (session ∷ sessions) t =
        next_session (spawn_loop sessions)
          (after_session session.asleep (run_once session t.sync) t)
