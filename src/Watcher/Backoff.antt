-- ===== src/Watcher/Backoff.antt =====
-- The backoff schedule and the notices of the reconnect loop.
use native.Mathlib.Nat.{pow-suc}
use jmap2telegram.Prelude.{
  ℕ, zero, suc, ◌+◌, ◌*◌, ◌^◌, ◌<◌, ◌≡◌, refl, ◌∙◌, inl, inr, Bool, true, false, List, [], ◌∷◌, min,
  arith, leb, if◌then◌else◌, Bool-cases,
}
use jmap2telegram.Watcher.Loop.{
  initial_backoff, max_backoff, next_backoff, failure_notify_threshold, start, Notice, broken,
  recovered, Outcome, stopped, dropped, refused, round, notices_of,
}

pub iterate : ℕ → ℕ → ℕ
iterate zero current = current
iterate (suc n) current = next_backoff (iterate n current)

-- After n failures in a row the backoff is 2 ^ (n + 1) seconds, and never more than 300.
pub iterate-next_backoff : (n : ℕ) → iterate n initial_backoff ≡ min (2 ^ suc n) max_backoff
unfolding iterate next_backoff
iterate-next_backoff zero = refl
iterate-next_backoff (suc n) =
    let doubled : 2 ^ suc (suc n) ≡ 2 ^ suc n * 2 = pow-suc 2 (suc n) in
    omega (arith, iterate-next_backoff n)

-- Notices that begin with `broken`, or with `recovered` where one is due, and alternate.
abbrev pub Alternate : Bool → List Notice → Type 0
Alternate due [] = Unit
Alternate false (broken ∷ ns) = Alternate true ns
Alternate true (recovered ∷ ns) = Alternate false ns
Alternate _ _ = ⊥

pub replicate : ℕ → Outcome → List Outcome
replicate zero o = []
replicate (suc n) o = o ∷ replicate n o

-- Whatever the rounds, a chat is told alternately that the connection is broken and that it has
-- recovered. From the start it is first told that it is broken.
pub notices_of-Alternate :
    (os : List Outcome) (backoff failures : ℕ) (notified : Bool)
    → Alternate notified (
        notices_of os
          (record { backoff = backoff; failures = failures; notified_broken = notified }))
unfolding notices_of round
notices_of-Alternate [] backoff failures false = tt
notices_of-Alternate [] backoff failures true = tt
notices_of-Alternate (stopped ∷ os) backoff failures false = tt
notices_of-Alternate (stopped ∷ os) backoff failures true = tt
notices_of-Alternate (dropped ∷ os) backoff failures false = notices_of-Alternate os _ _ false
notices_of-Alternate (dropped ∷ os) backoff failures true = notices_of-Alternate os _ _ false
notices_of-Alternate (refused ∷ os) backoff failures true =
    elim (Bool-cases (leb failure_notify_threshold (failures + 1))) [
      | inl e ↦ rw e (notices_of-Alternate os _ _ true)
      | inr e ↦ rw e (notices_of-Alternate os _ _ true)
    ]
notices_of-Alternate (refused ∷ os) backoff failures false =
    elim (Bool-cases (leb failure_notify_threshold (failures + 1))) [
      | inl e ↦ rw e (notices_of-Alternate os _ _ true)
      | inr e ↦ rw e (notices_of-Alternate os _ _ false)
    ]

-- Once the broken connection is told, refused connections send nothing more.
refused_told :
    (n backoff failures : ℕ)
    → notices_of
        (replicate n refused)
        (record { backoff = backoff; failures = failures; notified_broken = true })
      ≡ []
unfolding notices_of round replicate
refused_told zero backoff failures = refl
refused_told (suc n) backoff failures =
    elim (Bool-cases (leb failure_notify_threshold (failures + 1))) [
      | inl e ↦ rw e (refused_told n _ _)
      | inr e ↦ rw e (refused_told n _ _)
    ]

refused_untold :
    (n backoff failures : ℕ)
    → failures < failure_notify_threshold
    → notices_of
        (replicate n refused)
        (record { backoff = backoff; failures = failures; notified_broken = false })
      ≡ (if leb failure_notify_threshold (failures + n) then broken ∷ [] else [])
unfolding notices_of round replicate
refused_untold zero backoff failures h = ground arith
refused_untold (suc n) backoff failures h =
    elim (Bool-cases (leb failure_notify_threshold (failures + 1))) [
      | inl e ↦ rw e (ground (arith, refused_told n (next_backoff backoff) (failures + 1)))
      | inr e ↦
          rw e
            (ground (arith, refused_untold n (next_backoff backoff) (failures + 1) (ground arith)))
    ]

-- Of n refused connections in a row from the start, the fifth sends the one notice that the
-- connection is broken: none is sent for fewer, and one in all for more.
pub notices_of-refused :
    (n : ℕ)
    → notices_of (replicate n refused) start
      ≡ (if leb failure_notify_threshold n then broken ∷ [] else [])
unfolding start
notices_of-refused n = refused_untold n _ 0 (omega arith) ∙ ground arith
