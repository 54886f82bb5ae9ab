-- ===== src/Health.antt =====
-- src/health.rs: the registry of live watchers, the counters and gauges of `Metrics`, and the
-- escaping of label values. Instants are numbers; the lock of each map is held for one call.
pub mod Registry
pub mod Labels
pub mod Render
pub mod Lines
use jmap2telegram.Prelude.{
  ℕ, suc, ◌+◌, ◌%◌, ◌^◌, Bool, true, false, not, List, [], ◌∷◌, ◌++◌, Option, none, some,
  if◌then◌else◌, ◌==◌, nat_eq, list_eq, Text, text, ℤ, Dict, lookup, insert, erase, retain,
  insert_sorted, starts_with, length,
}
use jmap2telegram.Strings.{is_whitespace}
use jmap2telegram.Strings.Decimal.{display_int}

pub record WatcherStatus : Type 0 where
  pub connected : Bool
  pub last_activity : Option ℕ

pub record Health : Type 0 where
  pub watchers : Dict Text WatcherStatus

unfoldable pub update : Text → (WatcherStatus → WatcherStatus) → Health → Health
update key f h = elim (lookup key h.watchers) [
  | none ↦ h
  | some status ↦ record { watchers = insert key (f status) h.watchers }
]

abbrev pub fresh : WatcherStatus
fresh = record { connected = false; last_activity = none }

unfoldable pub register : Text → Health → Health
register key h = record { watchers = insert key fresh h.watchers }

unfoldable pub deregister : Text → Health → Health
deregister key h = record { watchers = erase key h.watchers }

abbrev pub chat_prefix : ℤ → Text
chat_prefix chat_id = display_int chat_id ++ text "/"

unfoldable pub deregister_chat : ℤ → Health → Health
deregister_chat chat_id h = record {
  watchers = retain (λ key _. not (starts_with key (chat_prefix chat_id))) h.watchers;
}

unfoldable pub set_connected : Text → Bool → Health → Health
unfolding update
set_connected key connected h = update key (λ s. record s { connected = connected }) h

unfoldable pub touch : ℕ → Text → Health → Health
unfolding update
touch now key h = update key (λ s. record s { last_activity = some now }) h

-- One family of counters, and the registry of them. A counter is a `u64`; `+= 1` wraps in a release
-- build.
pub record Family : Type 0 where
  pub help : Text
  pub samples : Dict Text ℕ

pub record Metrics : Type 0 where
  pub start_time_seconds : ℕ
  pub counters : Dict Text Family
  pub accounts : ℕ
  pub pending_undos : ℕ

unfoldable pub family_or_new : Text → Option Family → Family
family_or_new help none = record { help = help; samples = [] }
family_or_new help (some f) = f

count_or_zero : Option ℕ → ℕ
count_or_zero none = 0
count_or_zero (some n) = n

unfoldable pub inc_sample : Text → Family → Family
unfolding count_or_zero
inc_sample sample f = record f {
  samples = insert_sorted sample ((count_or_zero (lookup sample f.samples) + 1) % 2 ^ 64) f.samples;
}

-- `escape_prometheus_label`: three replacements one after the other.
unfoldable pub replace : ℕ → Text → Text → Text
replace from to [] = []
replace from to (c ∷ s) = (if c == from then to else c ∷ []) ++ replace from to s

unfoldable pub needs_escape : Text → Bool
needs_escape [] = false
needs_escape (c ∷ s) =
    let rest = needs_escape s in
    if c == b'\\' then true else if c == b'"' then true else if c == b'\n' then true else rest

unfoldable pub escape_prometheus_label : Text → Text
unfolding replace needs_escape
escape_prometheus_label value =
    if not (needs_escape value)
    then value
    else replace b'\n' (b'\\' ∷ b'n' ∷ [])
        (replace b'"' (b'\\' ∷ b'"' ∷ []) (replace b'\\' (b'\\' ∷ b'\\' ∷ []) value))

-- `render_labels`: `k="v"` joined by commas.
unfoldable pub render_label : Text × Text → Text
unfolding escape_prometheus_label
render_label (k, v) = k ++ text "=\"" ++ escape_prometheus_label v ++ text "\""

unfoldable pub render_labels : List (Text × Text) → Text
unfolding render_label
render_labels [] = []
render_labels (l ∷ []) = render_label l
render_labels (l ∷ m ∷ ls) = render_label l ++ b',' ∷ render_labels (m ∷ ls)

unfoldable pub inc : Text → Text → List (Text × Text) → Metrics → Metrics
unfolding inc_sample family_or_new
inc name help labels m = record m {
  counters =
      insert_sorted name
        (inc_sample (render_labels labels) (family_or_new help (lookup name m.counters)))
        m.counters;
}

-- The value of a counter; 0 before its first increment.
unfoldable pub sample_count : Text → Option Family → ℕ
unfolding count_or_zero
sample_count sample none = 0
sample_count sample (some f) = count_or_zero (lookup sample f.samples)

unfoldable pub counter : Text → Text → Metrics → ℕ
counter name sample m = sample_count sample (lookup name m.counters)

unfoldable pub set_accounts : ℕ → Metrics → Metrics
set_accounts n m = record m { accounts = n }

unfoldable pub set_pending_undos : ℕ → Metrics → Metrics
set_pending_undos n m = record m { pending_undos = n }

-- The application's counters.
abbrev pub notification_delivered : Text → Metrics → Metrics
notification_delivered kind =
    inc (text "jmap2telegram_notifications_delivered_total")
      (text "Notifications successfully delivered to Telegram.") ((text "kind", kind) ∷ [])

abbrev pub notification_send_error : Text → Metrics → Metrics
notification_send_error kind =
    inc (text "jmap2telegram_notification_send_errors_total")
      (text "Notifications that failed to send to Telegram.") ((text "kind", kind) ∷ [])

abbrev pub notification_skipped : Text → Text → Metrics → Metrics
notification_skipped kind reason =
    inc (text "jmap2telegram_notifications_skipped_total")
      (text "New messages that were not notified about, by the reason they were skipped.")
      ((text "kind", kind) ∷ (text "reason", reason) ∷ [])

abbrev pub triage_action : Text → Text → Metrics → Metrics
triage_action action outcome =
    inc (text "jmap2telegram_triage_actions_total")
      (text "Triage actions taken from notification buttons.")
      ((text "action", action) ∷ (text "outcome", outcome) ∷ [])

abbrev pub mark_read : Text → Metrics → Metrics
mark_read outcome =
    inc (text "jmap2telegram_mark_read_total")
      (text "Mark-as-read attempts from notification buttons.") ((text "outcome", outcome) ∷ [])

abbrev pub undo : Text → Metrics → Metrics
undo outcome =
    inc (text "jmap2telegram_undo_total") (text "Undo attempts on triage actions, by outcome.")
      ((text "outcome", outcome) ∷ [])

abbrev pub watcher_reconnect : Metrics → Metrics
watcher_reconnect =
    inc (text "jmap2telegram_watcher_reconnects_total")
      (text "Watcher EventSource reconnection attempts.") []

abbrev pub watcher_sync : Metrics → Metrics
watcher_sync =
    inc (text "jmap2telegram_watcher_syncs_total") (text "Successful watcher JMAP syncs.") []
