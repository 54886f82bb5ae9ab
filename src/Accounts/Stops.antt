-- ===== src/Accounts/Stops.antt =====
-- The resume loop of src/accounts.rs for a target that is no longer stored.
use jmap2telegram.Prelude.{
  ℕ, zero, suc, ◌<◌, ◌≡◌, refl, ◌∙◌, false, List, Option, none, some, list_eq, nat_eq, ℤ, lookup,
  lookup-erase, ==_refl, Result, ok, err, ◌>>=◌, ◌>>◌, arith,
}
use jmap2telegram.Store.{get}
use jmap2telegram.Jmap.{JmapError}
use jmap2telegram.Health.{deregister}
use jmap2telegram.Watcher.{WatchTarget, health_key}
use jmap2telegram.Watcher.Loop.{initial_backoff, next_backoff}
use jmap2telegram.Act.{Env, World}
use jmap2telegram.Accounts.{Turn, opted_out, conclude, is_stored, resume_turn, resume_target_with}
use jmap2telegram.Accounts.Resume.{IsWaiting, backoffs, resume_turn-waiting}

module _ {e : Env} (chat_id : ℤ) (target : WatchTarget)
    (connect : ℕ → Result e.net.Client JmapError) (between asleep : ℕ → World e → World e) where
  -- The world k turns later, when each connection fails.
  unfoldable pub world_after : ℕ → ℕ → World e → World e
  world_after zero attempt w = w
  world_after (suc k) attempt w = world_after k (suc attempt) (asleep attempt (between attempt w))

  -- The world without the target's entry in the health registry.
  abbrev deregistered : World e → World e
  deregistered w = record w {
    app = record w.app { health = deregister (health_key target chat_id) w.app.health };
  }

  resume_turn-opted_out :
      (meanwhile : World e → World e) (r : Result e.net.Client JmapError) (w : World e)
      → is_stored target (get chat_id w.app.store) ≡ false
      → resume_turn chat_id target meanwhile r w ≡ (ok opted_out, deregistered w)
  unfolding resume_turn
  resume_turn-opted_out meanwhile r w gone = rw (gone, ◌>>◌, ◌>>=◌) refl

  abbrev resume : (fuel attempt backoff : ℕ) → World e → Option Turn × List ℕ × World e
  resume = resume_target_with chat_id target connect between asleep

  resume-stops :
      (k fuel attempt backoff : ℕ) (w : World e)
      → k < fuel
      → ((n : ℕ) → (x : JmapError) × (connect n ≡ err x))
      → ((n : ℕ) → n < k → IsWaiting chat_id target (world_after n attempt w))
      → is_stored target (get chat_id (world_after k attempt w).app.store) ≡ false
      → resume fuel attempt backoff w
        ≡ (some opted_out, backoffs k backoff, deregistered (world_after k attempt w))
  unfolding resume_target_with conclude backoffs world_after
  resume-stops k zero attempt backoff w enough down waits gone = absurd (omega (arith, enough))
  resume-stops zero (suc fuel) attempt backoff w enough down waits gone =
      rw (resume_turn-opted_out (between attempt) (connect attempt) w gone) refl
  resume-stops (suc k) (suc fuel) attempt backoff w enough down waits gone =
      let (x, refused) = down attempt in
      rw
        (
          resume_turn-waiting chat_id target (between attempt) (connect attempt) w
              (waits zero (omega arith)),
          refused,
          resume-stops k fuel (suc attempt) (next_backoff backoff)
              (asleep attempt (between attempt w)) (omega (arith, enough)) down
              (λ n h. waits (suc n) (omega (arith, h))) gone,
        )
        refl

  -- While the server refuses every connection, the resume loop ends at the first turn at which the
  -- target is no longer stored, after one sleep for each turn before, and the target has no entry in
  -- the health registry then. A fuel of more than k turns is enough.
  pub resume_target_with-stops :
      (k fuel : ℕ) (w : World e)
      → k < fuel
      → ((n : ℕ) → (x : JmapError) × (connect n ≡ err x))
      → ((n : ℕ) → n < k → IsWaiting chat_id target (world_after n 0 w))
      → is_stored target (get chat_id (world_after k 0 w).app.store) ≡ false
      → ((resume fuel 0 initial_backoff w).0 ≡ some opted_out)
        × ((resume fuel 0 initial_backoff w).1 ≡ backoffs k initial_backoff)
        × (lookup
              (health_key target chat_id)
              (resume fuel 0 initial_backoff w).2.app.health.watchers
            ≡ none)
  unfolding deregister
  resume_target_with-stops k fuel w enough down waits gone =
      let key = health_key target chat_id in
      rw (resume-stops k fuel 0 initial_backoff w enough down waits gone) (
        refl,
        refl,
        lookup-erase key key (world_after k 0 w).app.health.watchers ∙ rw (==_refl key) refl,
      )
