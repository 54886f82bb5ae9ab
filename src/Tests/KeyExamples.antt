-- ===== src/Tests/KeyExamples.antt =====
-- The theorems on the master key, on the store as a map, on the erasure of a chat and on the end of a
-- resumption, and on a login.
use jmap2telegram.Prelude.{
  ℕ, zero, suc, ◌<◌, ◌≡◌, starts_with, find, refl, inr, true, false, List, [], ◌∷◌, none, some,
  int_eq, pair_eq, list_eq, nat_eq, Text, text, int_beq, list_beq, pos, lookup, ok, err, arith,
}
use jmap2telegram.Strings.{eq_ignore_ascii_case}
use jmap2telegram.Jmap.{unreachable}
use jmap2telegram.Store.{Bytes, Io, get, persist}
use jmap2telegram.Store.History
use jmap2telegram.Store.History.{StoreCall, run}
use jmap2telegram.Store.Abstract.{abstract_run}
use jmap2telegram.Store.Refines.Run.{run-refines}
use jmap2telegram.Store.MasterKey.{
  Mode, KeyFile, KeyIo, HoldsKey, is_wider, owner_only, load_or_create_key, load_key, read_key,
  create_or_load, create_key,
}
use jmap2telegram.Store.MasterKey.Held.{
  content_of, load_or_create_key-HoldsKey, load_or_create_key-content, load_or_create_key-again,
}
use jmap2telegram.Watcher.{account, health_key, still_active}
use jmap2telegram.Watcher.Loop.{initial_backoff}
use jmap2telegram.Accounts.{opted_out, is_stored, slot_adopted, resume_target_with}
use jmap2telegram.Accounts.Resume.{IsWatched, IsWaiting, backoffs}
use jmap2telegram.Accounts.Stops.{world_after, resume_target_with-stops}
use jmap2telegram.Act.{World}
use jmap2telegram.State.{AppState}
use jmap2telegram.Bot.Logout.{logout_all}
use jmap2telegram.Bot.Logout.Erased.{logout_all-Erases}
use jmap2telegram.Jmap.{connect, is_disallowed_host}
use jmap2telegram.Jmap.Mail.{current_email_state}
use jmap2telegram.Store.Slots
use jmap2telegram.Store.Slots.{chosen_slot_id}
use jmap2telegram.Bot.Login.{cmd_login, login_slot_id, new_slot}
use jmap2telegram.Bot.Login.Watched.{cmd_login-IsWatched}
use jmap2telegram.Tests.Codec.{backend}
use jmap2telegram.Tests.Inputs.{works, breaks, store}
use jmap2telegram.Tests.Mailbox.{env, world}

abbrev no_bits : Mode
no_bits = record {
  owner_read = false;
  owner_write = false;
  owner_exec = false;
  group_read = false;
  group_write = false;
  group_exec = false;
  other_read = false;
  other_write = false;
  other_exec = false;
}

abbrev drawn : Bytes
drawn =
    1 ∷ 2 ∷ 3 ∷ 4 ∷ 5 ∷ 6 ∷ 7 ∷ 8 ∷ 1 ∷ 2 ∷ 3 ∷ 4 ∷ 5 ∷ 6 ∷ 7 ∷ 8 ∷ 1 ∷ 2 ∷ 3 ∷ 4 ∷ 5 ∷ 6 ∷ 7 ∷ 8
    ∷ 1 ∷ 2 ∷ 3 ∷ 4 ∷ 5 ∷ 6 ∷ 7 ∷ 8 ∷ []

abbrev calm : KeyIo
calm = record {
  appears = none;
  drawn = drawn;
  umask = no_bits;
  open_fails = false;
  write_fails = none;
  sync_fails = false;
  stat_fails = false;
  chmod_fails = false;
  read_fails = false;
}

-- A key that the group may read.
abbrev wide : KeyFile
wide = record { content = drawn; mode = record owner_only { group_read = true } }

load_or_create_key-HoldsKey_example : HoldsKey drawn (load_or_create_key calm (some wide)).1
unfolding load_or_create_key load_key is_wider read_key
load_or_create_key-HoldsKey_example = load_or_create_key-HoldsKey calm (some wide) drawn refl refl

load_or_create_key-content_example :
    content_of (load_or_create_key (record calm { appears = some wide; stat_fails = true }) none).1
    ≡ some drawn
load_or_create_key-content_example =
    load_or_create_key-content (record calm { appears = some wide; stat_fails = true }) none wide
      (inr (refl, refl))

load_or_create_key-again_example :
    (load_or_create_key calm (load_or_create_key calm none).1).0 ≡ ok drawn
unfolding load_or_create_key create_or_load create_key
load_or_create_key-again_example = load_or_create_key-again calm calm none drawn refl refl refl refl

-- The second call does not persist.
abbrev calls : List (Io × StoreCall)
calls =
    (works, History.mute (pos 7) (text "offers"))
    ∷ (breaks, History.remove_account (pos 7) (text "work"))
    ∷ (works, History.remove (pos 8))
    ∷ []

run-refines_example :
    get (pos 7) (run backend (λ s. s) calls store)
    ≡ abstract_run (λ s. s) calls (λ chat_id. get chat_id store) (pos 7)
run-refines_example = run-refines backend (λ s. s) calls store (pos 7)

abbrev left : AppState Text
left = (logout_all env (pos 7) (text "en") 31 world).1.app

logout_all-Erases_example :
    (get (pos 7) left.store ≡ none)
    × (lookup (pos 7, text "work") left.account_clients ≡ none)
    × (lookup (pos 7, text "work") left.account_watchers ≡ none)
    × (lookup (pos 7, text "work") left.shared_clients ≡ none)
    × (lookup (pos 7, text "work") left.shared_watchers ≡ none)
    × (lookup (pos 7) left.pending_undo ≡ none)
unfolding int_beq
logout_all-Erases_example = logout_all-Erases env (pos 7) (text "en") 31 world (pos 7) (text "work")

abbrev emptied : World env → World env
emptied w = record w {
  app = record w.app { store = record store { contents = record { accounts = [] } } };
}

-- The chat logs out during the second sleep.
abbrev sleeps : ℕ → World env → World env
sleeps zero w = w
sleeps (suc n) w = emptied w

resume_target_with-stops_example :
    let resumed =
      resume_target_with
        (pos 7)
        (account (text "work") (text "Work"))
        (λ n. err unreachable)
        (λ n w. w)
        sleeps
        3
        0
        initial_backoff
        world in
    (resumed.0 ≡ some opted_out)
    × (resumed.1 ≡ backoffs 2 initial_backoff)
    × (lookup
          (health_key (account (text "work") (text "Work")) (pos 7))
          resumed.2.app.health.watchers
        ≡ none)
unfolding is_stored get lookup int_beq list_beq still_active world_after slot_adopted
resume_target_with-stops_example =
    resume_target_with-stops (pos 7) (account (text "work") (text "Work")) (λ n. err unreachable)
      (λ n w. w) sleeps 2 3 world (omega arith) (λ n. (unreachable, refl)) waiting refl
  where
    waiting :
        (n : ℕ)
        → n < 2
        → IsWaiting (pos 7) (account (text "work") (text "Work")) (
            world_after
              (pos 7)
              (account (text "work") (text "Work"))
              (λ n. err unreachable)
              (λ n w. w)
              sleeps
              n
              0
              world)
    waiting zero h = (refl, refl)
    waiting (suc zero) h = (refl, refl)
    waiting (suc (suc n)) h = absurd (omega (arith, h))

cmd_login-IsWatched_example :
    IsWatched
      (pos 7)
      (account (text "default") (text "me@home"))
      (cmd_login env
        (record { id = pos 7; thread_id = none })
        (text "en")
        (text "https://mail.example")
        (text "t")
        world).1
unfolding connect starts_with is_disallowed_host current_email_state login_slot_id Slots.add_account
    persist chosen_slot_id new_slot get lookup int_beq find eq_ignore_ascii_case
cmd_login-IsWatched_example =
    cmd_login-IsWatched env (record { id = pos 7; thread_id = none }) (text "en")
      (text "https://mail.example") (text "t") (text "s1") (text "default") (text "t") world refl
      refl refl
