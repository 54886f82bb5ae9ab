-- ===== src/Accounts/Resume.antt =====
-- The resumption of a stored account in src/accounts.rs, up to the adoption of its client.
use jmap2telegram.Prelude.{
  ℕ, zero, suc, ◌+◌, ◌<◌, ◌≤◌, ◌≡◌, refl, ap, ◌∙◌, true, false, List, [], ◌∷◌, Option, some,
  is_some, length, Text, ℤ, Dict, lookup, insert, lookup-insert, contains_key, nat_eq, list_eq,
  int_eq, pair_eq, pair_beq_iff, ==_refl, list_beq, ◌>>=◌, Result, ok, err, arith,
}
use jmap2telegram.Account.{default_id}
use jmap2telegram.Store.{get}
use jmap2telegram.Jmap.{JmapError}
use jmap2telegram.Health.{register, fresh}
use jmap2telegram.Watcher.{
  WatchTarget, primary, shared, extra, account, health_key, account_health_key, is_primary_id,
}
use jmap2telegram.Watcher.Loop.{initial_backoff, next_backoff}
use jmap2telegram.State.{Key}
use jmap2telegram.Act.{Env, World, Act}
use jmap2telegram.Topics.Ensure.{ensure_slot_topic, ensure_shared_topic}
use jmap2telegram.Topics.Ensure.Keeps.{
  OnlyStore, ensure_slot_topic-OnlyStore, ensure_shared_topic-OnlyStore,
}
use jmap2telegram.Accounts.{
  Turn, handed_over, conclude, slot_adopted, is_stored, spawn, install_account, install_shared,
  adopt_new_account, adopt_account, adopt_new_shared, adopt_shared, adopt_primary, adopt_target,
  hand_over, resume_turn, resume_target_with,
}

inserted {ℓ} :
    {V : Type ℓ} (chat_id : ℤ) (id : Text) (v : V) (d : Dict Key V)
    → lookup (chat_id, id) (insert (chat_id, id) v d) ≡ some v
inserted chat_id id v d =
    lookup-insert (chat_id, id) (chat_id, id) v d
    ∙ ground (arith, pair_beq_iff (chat_id, id) (chat_id, id))

abbrev installed : {e : Env} → ℤ → Text → Text → e.net.Client → World e → World e
installed chat_id slot_id label client w = (install_account chat_id slot_id label client w).1

abbrev installed_shared : {e : Env} → ℤ → Text → Text → e.net.Client → World e → World e
installed_shared chat_id id label client w = (install_shared chat_id id label client w).1

module _ {e : Env} (chat_id : ℤ) where
  -- The target has a watcher, which the health registry knows as not yet connected.
  abbrev pub IsWatched : WatchTarget → World e → Type 0
  IsWatched target w =
      (slot_adopted chat_id target w.app ≡ true)
      × (lookup (health_key target chat_id) w.app.health.watchers ≡ some fresh)

  -- The creation of a topic keeps a target watched.
  topic_kept :
      (target : WatchTarget) (w : World e) (topic : Act e (Option ℤ))
      → OnlyStore w (topic w).1
      → IsWatched target w
      → IsWatched target (topic w).1
  unfolding slot_adopted
  topic_kept primary w topic f h = rw f h
  topic_kept (account slot_id label) w topic f h = rw f h
  topic_kept (extra slot_id label) w topic f h = rw f h
  topic_kept (shared id label) w topic f h = rw f h

  register-fresh :
      (key : Text) (w : World e) → lookup key (register key w.app.health).watchers ≡ some fresh
  unfolding register
  register-fresh key w = lookup-insert key key fresh w.app.health.watchers ∙ rw (==_refl key) refl

  pub adopt_account-IsWatched :
      (slot_id label : Text) (client : e.net.Client) (w : World e)
      → contains_key (chat_id, slot_id) w.app.account_watchers ≡ false
      → ((adopt_account chat_id slot_id label client w).0 ≡ ok true)
        × IsWatched (account slot_id label) (adopt_account chat_id slot_id label client w).1
  unfolding adopt_account adopt_new_account install_account spawn slot_adopted
  adopt_account-IsWatched slot_id label client w h = rw h (
    refl,
    topic_kept (account slot_id label) (installed chat_id slot_id label client w)
        (ensure_slot_topic chat_id slot_id)
        (ensure_slot_topic-OnlyStore chat_id (installed chat_id slot_id label client w) slot_id)
        (
          ap is_some (inserted chat_id slot_id (length w.tasks) w.app.account_watchers),
          register-fresh (health_key (account slot_id label) chat_id) w,
        ),
  )

  adopt_shared-IsWatched :
      (id label : Text) (client : e.net.Client) (w : World e)
      → contains_key (chat_id, id) w.app.shared_watchers ≡ false
      → ((adopt_shared chat_id id label client w).0 ≡ ok true)
        × IsWatched (shared id label) (adopt_shared chat_id id label client w).1
  unfolding adopt_shared adopt_new_shared install_shared spawn slot_adopted
  adopt_shared-IsWatched id label client w h = rw h (
    refl,
    topic_kept (shared id label) (installed_shared chat_id id label client w)
        (ensure_shared_topic chat_id id)
        (ensure_shared_topic-OnlyStore chat_id (installed_shared chat_id id label client w) id)
        (
          ap is_some (inserted chat_id id (length w.tasks) w.app.shared_watchers),
          register-fresh (health_key (shared id label) chat_id) w,
        ),
  )

  -- A target that has no watcher yet is adopted, and is watched then.
  adopt_target-IsWatched :
      (target : WatchTarget) (client : e.net.Client) (w : World e)
      → slot_adopted chat_id target w.app ≡ false
      → ((adopt_target chat_id target client w).0 ≡ ok true)
        × IsWatched target (adopt_target chat_id target client w).1
  unfolding adopt_target adopt_primary slot_adopted health_key account_health_key is_primary_id
      list_beq
  adopt_target-IsWatched primary client w h = adopt_account-IsWatched default_id _ client w h
  adopt_target-IsWatched (account slot_id label) client w h =
      adopt_account-IsWatched slot_id label client w h
  adopt_target-IsWatched (extra slot_id label) client w h =
      adopt_account-IsWatched slot_id label client w h
  adopt_target-IsWatched (shared id label) client w h = adopt_shared-IsWatched id label client w h

-- The sleeps of k turns.
unfoldable pub backoffs : ℕ → ℕ → List ℕ
backoffs zero backoff = []
backoffs (suc k) backoff = backoff ∷ backoffs k (next_backoff backoff)

module _ {e : Env} (chat_id : ℤ) (target : WatchTarget) where
  -- The target is stored, and nobody has adopted it.
  abbrev pub IsWaiting : World e → Type 0
  IsWaiting w =
      (is_stored target (get chat_id w.app.store) ≡ true)
      × (slot_adopted chat_id target w.app ≡ false)

  -- What the other tasks do leaves the target waiting.
  abbrev pub LeavesWaiting : (ℕ → World e → World e) → Type 0
  LeavesWaiting change = (n : ℕ) (w : World e) → IsWaiting w → IsWaiting (change n w)

  pub resume_turn-waiting :
      (meanwhile : World e → World e) (r : Result e.net.Client JmapError) (w : World e)
      → IsWaiting w
      → resume_turn chat_id target meanwhile r w ≡ hand_over chat_id target r (meanwhile w)
  unfolding resume_turn
  resume_turn-waiting meanwhile r w (stored, free) = rw (stored, free) refl

  hand_over-adopts :
      (client : e.net.Client) (w : World e)
      → slot_adopted chat_id target w.app ≡ false
      → hand_over chat_id target (ok client) w
        ≡ (ok (handed_over true), (adopt_target chat_id target client w).1)
  unfolding hand_over
  hand_over-adopts client w free =
      rw (◌>>=◌, (adopt_target-IsWatched chat_id target client w free).0) refl

  module _ (connect : ℕ → Result e.net.Client JmapError)
      (between asleep : ℕ → World e → World e) where
    abbrev resume : (fuel attempt backoff : ℕ) → World e → Option Turn × List ℕ × World e
    resume = resume_target_with chat_id target connect between asleep

    resume-from :
        (k fuel attempt last backoff : ℕ) (client : e.net.Client) (w : World e)
        → LeavesWaiting between
        → LeavesWaiting asleep
        → k < fuel
        → attempt + k ≡ last
        → ((n : ℕ) → attempt ≤ n → n < last → (x : JmapError) × (connect n ≡ err x))
        → connect last ≡ ok client
        → IsWaiting w
        → ((resume fuel attempt backoff w).0 ≡ some (handed_over true))
          × ((resume fuel attempt backoff w).1 ≡ backoffs k backoff)
          × IsWatched chat_id target (resume fuel attempt backoff w).2
    unfolding resume_target_with conclude backoffs
    resume-from k zero attempt last backoff client w kept slept enough count down up here =
        absurd (omega (arith, enough))
    resume-from zero (suc fuel) attempt last backoff client w kept slept enough count down up here =
        let free = (kept attempt w here).1 in
        let same : attempt ≡ last = omega (arith, count) in
        rw
          (
            resume_turn-waiting (between attempt) (connect attempt) w here,
            ap connect same ∙ up,
            hand_over-adopts client (between attempt w) free,
          )
          (refl, refl, (adopt_target-IsWatched chat_id target client (between attempt w) free).1)
    resume-from (suc k) (suc fuel) attempt last backoff client w kept slept enough count down up
          here =
        let (x, refused) = down attempt (omega arith) (omega (arith, count)) in
        let after = asleep attempt (between attempt w) in
        let (ends, sleeps, watched) =
          resume-from k fuel (suc attempt) last (next_backoff backoff) client after kept slept
            (omega (arith, enough)) (omega (arith, count)) (λ n h. down n (omega (arith, h))) up
            (slept attempt (between attempt w) (kept attempt w here)) in
        rw (resume_turn-waiting (between attempt) (connect attempt) w here, refused)
          (ends, ap (λ rest. backoff ∷ rest) sleeps, watched)

    -- While the target stays stored and nobody else adopts it, and the server refuses the first k
    -- connections and takes the next, the resume loop ends: it makes k sleeps, each the next backoff
    -- of the one before, and then the client is adopted, with a watcher that the health registry
    -- knows. A fuel of more than k turns is enough.
    pub resume_target_with-IsWatched :
        (k fuel : ℕ) (client : e.net.Client) (w : World e)
        → LeavesWaiting between
        → LeavesWaiting asleep
        → k < fuel
        → ((n : ℕ) → n < k → (x : JmapError) × (connect n ≡ err x))
        → connect k ≡ ok client
        → IsWaiting w
        → ((resume fuel 0 initial_backoff w).0 ≡ some (handed_over true))
          × ((resume fuel 0 initial_backoff w).1 ≡ backoffs k initial_backoff)
          × IsWatched chat_id target (resume fuel 0 initial_backoff w).2
    resume_target_with-IsWatched k fuel client w kept slept enough down up here =
        resume-from k fuel 0 k initial_backoff client w kept slept enough (omega arith)
          (λ n _ h. down n h) up here
