-- ===== src/Prelude/Maps.antt =====
-- Maps as association lists: `HashMap`, whose order is never relied on, and `BTreeMap` with text
-- keys, which iterates in the order of its keys.
use mathlib.Core.Path.{◌≡◌, refl, ap}
use mathlib.Core.Logic.{inl, inr}
use mathlib.Core.Bool.{Bool, true, false, ◌&&◌, ◌||◌}
use mathlib.Core.Option.{Option, none, some}
use mathlib.Core.List.{List, [], ◌∷◌}
use native.Mathlib.Omega.{arith}
use jmap2telegram.Prelude.Tests.{ltb, if◌then◌else◌, is_some, Bool-cases}
use jmap2telegram.Prelude.Equality.{Eq, ◌==◌, Text, nat_eq, list_eq, list_beq_iff}

abbrev pub Dict {ℓ κ} : Type ℓ → Type κ → Type (ℓ ⊔ κ)
Dict K V = List (K × V)

module _ {ℓ κ} {K : Type ℓ} {V : Type κ} where
  -- `map.retain(p)`
  unfoldable pub retain : (K → V → Bool) → Dict K V → Dict K V
  retain p [] = []
  retain p ((k, v) ∷ d) = let rest = retain p d in if p k v then (k, v) ∷ rest else rest

  abbrev pub keys : Dict K V → List K
  keys [] = []
  keys ((k, v) ∷ d) = k ∷ keys d

  abbrev pub values : Dict K V → List V
  values [] = []
  values ((k, v) ∷ d) = v ∷ values d

module _ {ℓ κ} {K : Type ℓ} {V : Type κ} ⦃e : Eq K⦄ where
  -- `map.get(k)`
  unfoldable pub lookup : K → Dict K V → Option V
  lookup k [] = none
  lookup k ((j, v) ∷ d) = if j == k then some v else lookup k d

  -- `HashMap::insert`
  unfoldable pub insert : K → V → Dict K V → Dict K V
  insert k v [] = (k, v) ∷ []
  insert k v ((j, w) ∷ d) = if j == k then (k, v) ∷ d else (j, w) ∷ insert k v d

  -- `map.remove(k)`
  unfoldable pub erase : K → Dict K V → Dict K V
  erase k [] = []
  erase k ((j, w) ∷ d) = let rest = erase k d in if j == k then rest else (j, w) ∷ rest

  -- `map.contains_key(k)`
  abbrev pub contains_key : K → Dict K V → Bool
  contains_key k d = is_some (lookup k d)

  pub lookup-insert :
      (k j : K) (v : V) (d : Dict K V)
      → lookup j (insert k v d) ≡ (if k == j then some v else lookup j d)
  unfolding lookup insert
  lookup-insert k j v [] = refl
  lookup-insert k j v ((i, w) ∷ d) =
      ground (arith, e.beq_iff k j, e.beq_iff i k, e.beq_iff i j, lookup-insert k j v d)

  pub lookup-erase :
      (k j : K) (d : Dict K V) → lookup j (erase k d) ≡ (if k == j then none else lookup j d)
  unfolding lookup erase
  lookup-erase k j [] = ground arith
  lookup-erase k j ((i, w) ∷ d) =
      ground (arith, e.beq_iff i k, e.beq_iff i j, e.beq_iff k j, lookup-erase k j d)

module _ {ℓ κ} {K : Type ℓ} {V : Type κ} ⦃e : Eq K⦄ where
  -- A test of the key alone.
  pub lookup-retain_key :
      (q : K → Bool) (j : K) (d : Dict K V)
      → lookup j (retain (λ k _. q k) d) ≡ (if q j then lookup j d else none)
  unfolding lookup retain
  lookup-retain_key q j [] = ground arith
  lookup-retain_key q j ((i, w) ∷ d) = elim (Bool-cases (i == j)) [
    | inl same ↦
        let e' : q i ≡ q j = ap q ((e.beq_iff i j).0 same) in
        ground (arith, e', lookup-retain_key q j d)
    | inr other ↦ ground (arith, lookup-retain_key q j d)
  ]

-- Lexicographic order of texts, which is also the order of their UTF-8 bytes.
unfoldable pub text_lt : Text → Text → Bool
text_lt [] [] = false
text_lt [] (y ∷ ys) = true
text_lt (x ∷ xs) [] = false
text_lt (x ∷ xs) (y ∷ ys) = ltb x y || (x == y && text_lt xs ys)

module _ {ℓ} {V : Type ℓ} where
  -- `BTreeMap::insert`
  unfoldable pub insert_sorted : Text → V → Dict Text V → Dict Text V
  insert_sorted k v [] = (k, v) ∷ []
  insert_sorted k v ((j, w) ∷ d) =
      if j == k
      then (k, v) ∷ d
      else if text_lt k j
      then (k, v) ∷ (j, w) ∷ d
      else (j, w) ∷ insert_sorted k v d

  pub lookup-insert_sorted :
      (k j : Text) (v : V) (d : Dict Text V)
      → lookup j (insert_sorted k v d) ≡ (if k == j then some v else lookup j d)
  unfolding lookup insert_sorted
  lookup-insert_sorted k j v [] = refl
  lookup-insert_sorted k j v ((i, w) ∷ d) =
      ground
        (arith, list_beq_iff k j, list_beq_iff i k, list_beq_iff i j, lookup-insert_sorted k j v d)
