-- ===== src/Accounts.antt =====
-- src/accounts.rs: the adoption of a connected client, and the resumption of stored accounts after a
-- start. `connect` of the resume loop is the trait `ConnectJmap`, by the number of the attempt, and
-- `between` is what the other tasks do to the world while an attempt or a sleep of the loop waits.
pub mod Resume
pub mod Stops
pub mod Boot
use jmap2telegram.Prelude.{
  ℕ, zero, suc, ◌+◌, Bool, true, false, not, List, [], ◌∷◌, ◌++◌, Option, none, some, if◌then◌else◌,
  is_some, length, map, Text, text, ℤ, Dict, lookup, insert, contains_key, nat_eq, list_eq, int_eq,
  pair_eq, Result, ok, err, Step, ◌>>=◌, ◌>>◌, give, read, ignore,
}
use jmap2telegram.Account.{
  Account, AccountSlot, SharedAccount, default_id, primary_slot, resolve_parent_slot,
}
use jmap2telegram.Store.{get}
use jmap2telegram.Jmap.{Network, JmapError, connect, connect_shared}
use jmap2telegram.Health.{Health, register, deregister}
use jmap2telegram.Config.{Config}
use jmap2telegram.Watcher.{WatchTarget, primary, shared, extra, account, health_key, still_active}
use jmap2telegram.Watcher.Loop.{initial_backoff, next_backoff}
use jmap2telegram.State.{AppState}
use jmap2telegram.Act.{Env, World, Act, Failure, on_app, on_health}
use jmap2telegram.Topics.Ensure.{ensure_slot_topic, ensure_shared_topic}

pub record ResumeTarget : Type 0 where
  pub target : WatchTarget
  pub server_url : Text
  pub token : Text

slot_targets : Dict Text AccountSlot → List ResumeTarget
slot_targets [] = []
slot_targets ((slot_id, slot) ∷ d) =
    record { target = account slot_id slot.email; server_url = slot.server_url; token = slot.token }
    ∷ slot_targets d

shared_target : Text → SharedAccount → AccountSlot → ResumeTarget
shared_target account_id sh slot = record {
  target = shared account_id sh.name;
  server_url = slot.server_url;
  token = slot.token;
}

shared_targets : Account → Dict Text SharedAccount → List ResumeTarget
unfolding shared_target
shared_targets acc [] = []
shared_targets acc ((account_id, sh) ∷ d) = elim (resolve_parent_slot acc sh) [
  | none ↦ shared_targets acc d
  | some slot ↦ shared_target account_id sh slot ∷ shared_targets acc d
]

unfoldable pub persisted_targets : Account → List ResumeTarget
unfolding slot_targets shared_targets
persisted_targets acc = slot_targets acc.accounts ++ shared_targets acc acc.shared_accounts

unfoldable pub register_persisted_targets : ℤ → List ResumeTarget → Health → Health
register_persisted_targets chat_id [] h = h
register_persisted_targets chat_id (t ∷ ts) h =
    register_persisted_targets chat_id ts (register (health_key t.target chat_id) h)

unfoldable pub connect_target :
    (net : Network) → Config → ResumeTarget → Result net.Client JmapError
connect_target net config t = elim t.target [
  | primary ↦ connect net t.server_url t.token config.allow_private_jmap_hosts
  | extra _ _ ↦ connect net t.server_url t.token config.allow_private_jmap_hosts
  | account _ _ ↦ connect net t.server_url t.token config.allow_private_jmap_hosts
  | shared account_id _ ↦
      connect_shared net t.server_url t.token config.allow_private_jmap_hosts account_id
]

unfoldable pub slot_adopted : {Client : Type 0} → ℤ → WatchTarget → AppState Client → Bool
slot_adopted chat_id primary s = contains_key (chat_id, default_id) s.account_watchers
slot_adopted chat_id (account slot_id _) s = contains_key (chat_id, slot_id) s.account_watchers
slot_adopted chat_id (extra slot_id _) s = contains_key (chat_id, slot_id) s.account_watchers
slot_adopted chat_id (shared account_id _) s = contains_key (chat_id, account_id) s.shared_watchers

-- What one turn of the resume loop ends in.
pub data Turn : Type 0 where
  -- the target is no longer stored, or has a watcher already
  opted_out taken : Turn
  -- a client was handed over, and whether it was adopted
  handed_over : Bool → Turn
  retry : Turn

unfoldable pub is_stored : WatchTarget → Option Account → Bool
is_stored target none = false
is_stored target (some acc) = still_active target acc

primary_email : Option Account → Text
primary_email none = []
primary_email (some acc) = elim (primary_slot acc) [ none ↦ [] | some slot ↦ slot.email ]

module _ {e : Env} (chat_id : ℤ) where
  -- `watcher::spawn` up to the spawned task; it gives the task's handle.
  spawn : WatchTarget → Act e ℕ
  spawn target w = (
    ok (length w.tasks),
    record w {
      app = record w.app { health = register (health_key target chat_id) w.app.health };
      tasks = w.tasks ++ (chat_id, target) ∷ [];
    },
  )

  -- The client and the watcher enter the maps.
  unfoldable pub install_shared : Text → Text → e.net.Client → Act e (Unit {0})
  unfolding spawn
  install_shared account_id label client = do
    on_app (λ s. record s { shared_clients = insert (chat_id, account_id) client s.shared_clients })
    handle ← spawn (shared account_id label)
    on_app
        (λ s. record s { shared_watchers = insert (chat_id, account_id) handle s.shared_watchers })

  unfoldable pub adopt_new_shared : Text → Text → e.net.Client → Act e Bool
  unfolding install_shared
  adopt_new_shared account_id label client = do
    install_shared account_id label client
    ignore (ensure_shared_topic chat_id account_id)
    give true

  unfoldable pub adopt_shared : Text → Text → e.net.Client → Act e Bool
  unfolding adopt_new_shared
  adopt_shared account_id label client w =
      if contains_key (chat_id, account_id) w.app.shared_watchers
      then give false w
      else adopt_new_shared account_id label client w

  -- The client and the watcher enter the maps.
  unfoldable pub install_account : Text → Text → e.net.Client → Act e (Unit {0})
  unfolding spawn
  install_account slot_id label client = do
    on_app (λ s. record s { account_clients = insert (chat_id, slot_id) client s.account_clients })
    handle ← spawn (account slot_id label)
    on_app
        (λ s. record s { account_watchers = insert (chat_id, slot_id) handle s.account_watchers })

  unfoldable pub adopt_new_account : Text → Text → e.net.Client → Act e Bool
  unfolding install_account
  adopt_new_account slot_id label client = do
    install_account slot_id label client
    ignore (ensure_slot_topic chat_id slot_id)
    give true

  unfoldable pub adopt_account : Text → Text → e.net.Client → Act e Bool
  unfolding adopt_new_account
  adopt_account slot_id label client w =
      if contains_key (chat_id, slot_id) w.app.account_watchers
      then give false w
      else adopt_new_account slot_id label client w

  unfoldable pub adopt_primary : e.net.Client → Act e Bool
  unfolding adopt_account primary_email
  adopt_primary client = do
    label ← read (λ w. primary_email (get chat_id w.app.store))
    adopt_account default_id label client

  unfoldable pub adopt_target : WatchTarget → e.net.Client → Act e Bool
  unfolding adopt_primary adopt_account adopt_shared
  adopt_target primary client = adopt_primary client
  adopt_target (account slot_id label) client = adopt_account slot_id label client
  adopt_target (extra slot_id label) client = adopt_account slot_id label client
  adopt_target (shared account_id label) client = adopt_shared account_id label client

  unfoldable pub hand_over : WatchTarget → Result e.net.Client JmapError → Act e Turn
  hand_over target (err x) = give retry
  hand_over target (ok client) = do adopted ← adopt_target target client; give (handed_over adopted)

  -- One turn of the loop, up to the sleep.
  unfoldable pub resume_turn :
      WatchTarget → (World e → World e) → Result e.net.Client JmapError → Act e Turn
  unfolding hand_over
  resume_turn target meanwhile connected w =
      if not (is_stored target (get chat_id w.app.store))
      then (do on_health (deregister (health_key target chat_id)); give opted_out) w
      else if slot_adopted chat_id target w.app
      then give taken w
      else hand_over target connected (meanwhile w)

  -- What follows a turn: the loop returns, or sleeps and goes on.
  unfoldable pub conclude :
      ℕ
      → (World e → Option Turn × List ℕ × World e)
      → Result Turn Failure × World e
      → Option Turn × List ℕ × World e
  conclude backoff go_on (err x, after) = (none, [], after)
  conclude backoff go_on (ok retry, after) =
      let (last, sleeps, final) = go_on after in (last, backoff ∷ sleeps, final)
  conclude backoff go_on (ok opted_out, after) = (some opted_out, [], after)
  conclude backoff go_on (ok taken, after) = (some taken, [], after)
  conclude backoff go_on (ok (handed_over adopted), after) = (some (handed_over adopted), [], after)

  -- The loop, with the sleeps it made; `none` when the fuel is spent. `between n` is the world's
  -- change during the n-th call to `connect` and `asleep n` during the sleep behind it.
  unfoldable pub resume_target_with :
      WatchTarget
      → (ℕ → Result e.net.Client JmapError)
      → (between asleep : ℕ → World e → World e) → (fuel attempt backoff : ℕ) → World e
      → Option Turn × List ℕ × World e
  unfolding resume_turn conclude
  resume_target_with target connect between asleep zero attempt backoff w = (none, [], w)
  resume_target_with target connect between asleep (suc fuel) attempt backoff w =
      conclude backoff
        (λ after.
          resume_target_with target connect between asleep fuel (suc attempt) (next_backoff backoff)
            (asleep attempt after))
        (resume_turn target (between attempt) (connect attempt) w)
