-- ===== src/Health/Registry.antt =====
-- The registry of watchers (src/health.rs): teardown of one chat, and late updates.
use mathlib.Core.Option
use jmap2telegram.Prelude.{
  ℕ, ◌≡◌, ◌∙◌, inl, inr, Bool, not, Option, none, Option-cases, arith, if◌then◌else◌, ◌==◌, nat_eq,
  list_eq, list_beq_iff, int_eq, int_beq_iff, Text, ℤ, lookup, lookup-insert, lookup-erase,
  lookup-retain_key, starts_with,
}
use jmap2telegram.Health.{
  Health, WatcherStatus, update, deregister, deregister_chat, set_connected, touch, chat_prefix,
}
use jmap2telegram.Watcher.{WatchTarget, health_key}
use jmap2telegram.Watcher.Keys.{starts_with-health_key}

abbrev pub status : Text → Health → Option WatcherStatus
status key h = lookup key h.watchers

starts_with-chat_prefix :
    (t : WatchTarget) (owner chat_id : ℤ)
    → starts_with (health_key t owner) (chat_prefix chat_id) ≡ (owner == chat_id)
starts_with-chat_prefix t owner chat_id =
    ground (arith, starts_with-health_key t owner chat_id, int_beq_iff owner chat_id)

-- `deregister_chat` drops the entry of every target of its chat, and of no other chat, whatever the
-- chat ids are.
pub status-deregister_chat :
    (t : WatchTarget) (owner chat_id : ℤ) (h : Health)
    → status (health_key t owner) (deregister_chat chat_id h)
      ≡ (if owner == chat_id then none else status (health_key t owner) h)
unfolding deregister_chat
status-deregister_chat t owner chat_id h =
    lookup-retain_key (λ key. not (starts_with key (chat_prefix chat_id))) (health_key t owner)
      h.watchers
    ∙ rw (starts_with-chat_prefix t owner chat_id) (ground arith)

-- An update of one watcher's entry: it changes no other entry, and registers none.
status-update :
    (key other : Text) (f : WatcherStatus → WatcherStatus) (h : Health)
    → status other (update key f h)
      ≡ (if key == other then Option.map f (status other h) else status other h)
unfolding update
status-update key other f h = elim (Option-cases (lookup key h.watchers)) [
  | inl e ↦ rw (e, update) (ground (arith, list_beq_iff key other))
  | inr (s, e) ↦
      rw (e, update)
        (ground (arith, list_beq_iff key other, lookup-insert key other (f s) h.watchers))
]

status-deregister :
    (key other : Text) (h : Health)
    → status other (deregister key h) ≡ (if key == other then none else status other h)
unfolding deregister
status-deregister key other h = lookup-erase key other h.watchers

-- Once a watcher is deregistered, neither a late `set_connected` nor a late `touch` for its key
-- brings its entry back, and they leave every other entry as it was.
pub status-deregister_late :
    (key other : Text) (connected : Bool) (now : ℕ) (h : Health)
    → status other (touch now key (set_connected key connected (deregister key h)))
      ≡ (if key == other then none else status other h)
unfolding touch set_connected
status-deregister_late key other connected now h =
    status-update key other _ _
    ∙ rw
        (
          status-update key other (λ s. record s { connected = connected }) (deregister key h),
          status-deregister key other h,
        )
        (ground arith)
