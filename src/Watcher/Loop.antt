-- ===== src/Watcher/Loop.antt =====
-- The backoff schedule, and the reconnect loop of `spawn` in src/watcher.rs as a machine: a round is
-- one call of `run_once` that has ended. Durations are in seconds. The `u32` counter of failures
-- does not wrap: a round takes two seconds at least.
use jmap2telegram.Prelude.{
  ℕ, ◌+◌, ◌*◌, Bool, true, false, not, ◌&&◌, List, [], ◌∷◌, ◌++◌, Option, none, some, min, leb,
  if◌then◌else◌,
}

abbrev pub initial_backoff : ℕ
initial_backoff = 2

abbrev pub max_backoff : ℕ
max_backoff = 300

unfoldable pub next_backoff : ℕ → ℕ
next_backoff current = min (current * 2) max_backoff

abbrev pub failure_notify_threshold : ℕ
failure_notify_threshold = 5

-- The variables of the loop.
pub record Loop : Type 0 where
  pub backoff : ℕ
  pub failures : ℕ
  pub notified_broken : Bool

unfoldable pub start : Loop
start = record { backoff = initial_backoff; failures = 0; notified_broken = false }

pub data Notice : Type 0 where
  broken recovered : Notice

-- How `run_once` ended: a clean stop, or an error with or without an opened connection before it.
pub data Outcome : Type 0 where
  stopped : Outcome
  dropped : Outcome
  refused : Outcome

-- What a failed round sends and how long it then sleeps, with the variables for the next round.
pub record Round : Type 0 where
  pub notices : List Notice
  pub sleeps : ℕ
  pub after : Loop

after_sleep : List Notice → Loop → Round
after_sleep notices l = record {
  notices = notices;
  sleeps = l.backoff;
  after = record l { backoff = next_backoff l.backoff };
}

on_dropped : Loop → Round
unfolding after_sleep
on_dropped l =
    after_sleep (if l.notified_broken then recovered ∷ [] else [])
      (record { backoff = initial_backoff; failures = 0; notified_broken = false })

on_refused : Loop → Round
unfolding after_sleep
on_refused l =
    let failures = l.failures + 1 in
    if leb failure_notify_threshold failures && not l.notified_broken
    then after_sleep (broken ∷ []) (record l { failures = failures; notified_broken = true })
    else after_sleep [] (record l { failures = failures })

unfoldable pub round : Outcome → Loop → Option Round
unfolding on_dropped on_refused
round stopped l = none
round dropped l = some (on_dropped l)
round refused l = some (on_refused l)

-- The notices of a run, until its rounds end or the watcher stops.
unfoldable pub notices_of : List Outcome → Loop → List Notice
notices_of [] l = []
notices_of (o ∷ os) l = elim (round o l) [ none ↦ [] | some r ↦ r.notices ++ notices_of os r.after ]
