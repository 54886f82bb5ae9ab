-- ===== src/Prelude/Steps.antt =====
-- Code that reads and writes a state and may stop with an error, which leaves the state as it then
-- is. With `◌>>=◌` a `do` block reads as the source's `?` does.
use mathlib.Core.Path.{◌≡◌, refl}
use mathlib.Core.Option.{Option, none, some}
use mathlib.Core.List.{List, [], ◌∷◌}
use jmap2telegram.Prelude.Tests.{Result, ok, err}

abbrev pub Step : Type 0 → Type 0 → Type 0 → Type 0
Step S E A = S → Result A E × S

infixl 5 ◌>>=◌ ◌>>◌
abbrev pub ◌>>=◌ : {S E A B : Type 0} → Step S E A → (A → Step S E B) → Step S E B
◌>>=◌ first next s =
    let (r, after) = first s in elim r [ ok a ↦ next a after | err e ↦ (err e, after) ]

abbrev pub ◌>>◌ : {S E A B : Type 0} → Step S E A → Step S E B → Step S E B
first >> next = first >>= λ _. next

module _ {S E A B : Type 0} (first : Step S E A) (next : A → Step S E B) (s : S) where
  pub bind-ok : (a : A) → (first s).0 ≡ ok a → (first >>= next) s ≡ next a (first s).1
  bind-ok a h = rw (◌>>=◌, h) refl

  pub bind-err : (x : E) → (first s).0 ≡ err x → (first >>= next) s ≡ (err x, (first s).1)
  bind-err x h = rw (◌>>=◌, h) refl

module _ {S E A : Type 0} where
  abbrev pub give : A → Step S E A
  give a s = (ok a, s)

  abbrev pub fail : E → Step S E A
  fail e s = (err e, s)

  -- `ok_or(e)?`
  abbrev pub or_fail : Option A → E → Step S E A
  or_fail none e = fail e
  or_fail (some a) e = give a

  abbrev pub read : (S → A) → Step S E A
  read f s = (ok (f s), s)

-- `let _ = …`: the error is dropped.
abbrev pub ignore : {S E A : Type 0} → Step S E A → Step S E (Unit {0})
ignore step s = let (r, after) = step s in (ok tt, after)

-- `match …`: the result as a value.
abbrev pub attempt : {S E A : Type 0} → Step S E A → Step S E (Result A E)
attempt step s = let (r, after) = step s in (ok r, after)

abbrev pub modify : {S E : Type 0} → (S → S) → Step S E (Unit {0})
modify f s = (ok tt, f s)

-- `for x in xs { … }`
unfoldable pub for_each {ℓ} :
    {A : Type ℓ} {S E : Type 0} → (A → Step S E (Unit {0})) → List A → Step S E (Unit {0})
for_each body [] = give tt
for_each body (x ∷ xs) = do body x; for_each body xs
