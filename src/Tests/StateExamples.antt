-- ===== src/Tests/StateExamples.antt =====
-- The theorems on the shared state and on a sync, at the chat with two slots.
use jmap2telegram.Prelude.{
  ◌≡◌, refl, list_beq, int_beq, true, [], ◌∷◌, ◌++◌, none, some, if◌then◌else◌, ◌==◌, nat_eq,
  list_eq, int_eq, pair_eq, Text, text, pos, lookup, length,
}
use jmap2telegram.Store.{get}
use jmap2telegram.Jmap.{ChangedEmail, other_role}
use jmap2telegram.Health.Registry.{status}
use jmap2telegram.Watcher.{WatchTarget, primary, account, health_key, since_state, still_active}
use jmap2telegram.State.{AppState, PendingUndo, forget}
use jmap2telegram.State.Forget.{forget-Forgets}
use jmap2telegram.Sync.{World, Sync, thread_not_found, delivered, sync_and_notify}
use jmap2telegram.Sync.Cursor.{HasCursor, sync_and_notify-HasCursor}
use jmap2telegram.Sync.Notified.{first_tries, news, sync_and_notify-Notifies}
use jmap2telegram.Health.{set_connected, deregister}
use jmap2telegram.Watcher.Loop.{start}
use jmap2telegram.Sync.Round.{
  Turn, Session, Task, calendar_alert, state_change, is_watched, on_event, go_on, watch, spawn_loop,
}
use jmap2telegram.Sync.Round.Stopped.{spawn_loop-logout}
use jmap2telegram.Tests.Codec.{backend}
use jmap2telegram.Tests.Inputs.{works, store, config}
use jmap2telegram.Tests.Inputs
use jmap2telegram.Tests.Examples.{metrics, registry}

abbrev undo : PendingUndo
undo = record {
  account_id = none;
  email_id = text "M1";
  restore_mailbox_ids = text "inbox" ∷ [];
  expires_at = 100;
}

abbrev state : AppState Text
state = record {
  allow_private_jmap_hosts = true;
  store = store;
  health = registry;
  metrics = metrics;
  account_clients = ((pos 7, text "work"), text "c1") ∷ ((pos 8, text "work"), text "c2") ∷ [];
  account_watchers = ((pos 7, text "work"), 1) ∷ ((pos 8, text "work"), 2) ∷ [];
  shared_clients = ((pos 7, text "acc9"), text "c3") ∷ [];
  shared_watchers = ((pos 7, text "acc9"), 3) ∷ [];
  pending_undo = (pos 7, undo) ∷ [];
  aborted = [];
}

forget-Forgets_example :
    let after = forget (pos 7) state in
    let gone = pos 8 == pos 7 in
    (lookup (pos 8, text "work") after.account_clients
      ≡ (if gone then none else lookup (pos 8, text "work") state.account_clients))
    × (lookup (pos 8, text "work") after.account_watchers
        ≡ (if gone then none else lookup (pos 8, text "work") state.account_watchers))
    × (lookup (pos 8, text "work") after.shared_clients
        ≡ (if gone then none else lookup (pos 8, text "work") state.shared_clients))
    × (lookup (pos 8, text "work") after.shared_watchers
        ≡ (if gone then none else lookup (pos 8, text "work") state.shared_watchers))
    × (lookup (pos 8) after.pending_undo
        ≡ (if gone then none else lookup (pos 8) state.pending_undo))
    × (status (health_key primary (pos 8)) after.health
        ≡ (if gone then none else status (health_key primary (pos 8)) state.health))
    × (after.metrics.pending_undos ≡ length after.pending_undo)
forget-Forgets_example = forget-Forgets (pos 7) state (pos 8) (text "work") primary

abbrev mail : ChangedEmail
mail = record {
  summary = record {
    id = text "M1";
    subject = text "Hello";
    from_name = none;
    from_addr = some (text "you@there");
    preview = text "Hi";
    received_at = none;
    attachments = [];
  };
  mailbox_roles = other_role ∷ [];
  keywords = [];
}

-- The first message goes to a topic that was deleted.
abbrev world : World
world = record {
  backend = backend;
  lowercase = λ s. s;
  config = config;
  now = 40;
  current_email_state = some (text "s2");
  fetch_changed_emails = λ since. some (mail ∷ [], text "s2");
  send = λ n. if n == 0 then thread_not_found else delivered;
  io = λ n. works;
}

abbrev before : Sync
before = record { store = store; health = registry; metrics = metrics; outbox = []; writes = 0 }

abbrev target : WatchTarget
target = account (text "work") (text "Work")

sync_and_notify-Notifies_example :
    first_tries (sync_and_notify world (pos 7) target before).outbox
    ≡ first_tries [] ++ news world (pos 7) target Inputs.account (mail ∷ [])
unfolding get lookup int_beq list_beq since_state
sync_and_notify-Notifies_example =
    sync_and_notify-Notifies world (pos 7) target Inputs.account (text "s1") before refl refl

sync_and_notify-HasCursor_example :
    HasCursor (pos 7) target (text "s2") (sync_and_notify world (pos 7) target before).store
unfolding get lookup int_beq list_beq since_state
sync_and_notify-HasCursor_example =
    sync_and_notify-HasCursor world (pos 7) target Inputs.account (text "s1") (text "s2")
      (mail ∷ []) before refl refl refl refl

-- The chat logs out while the second turn waits.
abbrev logged_out : Sync → Sync
logged_out s = record s { store = record s.store { contents = record { accounts = [] } } }

abbrev first_turn : Turn
first_turn = record { meanwhile = λ s. s; event = calendar_alert; world = world }

abbrev last_turn : Turn
last_turn = record { meanwhile = logged_out; event = state_change; world = world }

abbrev session : Session
session = record { opens = true; turns = first_turn ∷ last_turn ∷ []; asleep = λ s. s }

abbrev task : Task
task = record { sync = before; loop = start; notices = []; sleeps = [] }

abbrev in_session : Sync
in_session = record before { health = set_connected (health_key target (pos 7)) true registry }

spawn_loop-logout_example :
    spawn_loop (pos 7) target (λ lang key args. key) config (λ n. delivered) (session ∷ []) task
    ≡ record task {
      sync = record (logged_out in_session) {
        health = deregister (health_key target (pos 7)) in_session.health;
      };
    }
unfolding watch is_watched get lookup int_beq list_beq still_active on_event go_on
spawn_loop-logout_example =
    spawn_loop-logout (pos 7) target (λ lang key args. key) config (λ n. delivered) session []
      (first_turn ∷ []) [] last_turn task in_session refl refl refl refl refl
