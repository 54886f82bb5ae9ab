-- ===== src/Prelude/MapLaws.antt =====
-- Predicates over the entries of a map, and what the map operations keep of them.
use mathlib.Core.Path.{◌≡◌, refl, subst}
use mathlib.Core.Bool.{Bool, true}
use mathlib.Core.Option.{some}
use mathlib.Core.List.{[], ◌∷◌}
use native.Mathlib.Omega.{arith}
use jmap2telegram.Prelude.Tests.{Bool-cases}
use jmap2telegram.Prelude.Equality.{Eq, ◌==◌, Text, nat_eq, list_eq}
use jmap2telegram.Prelude.Maps.{Dict, lookup, insert, erase, retain, insert_sorted, text_lt}
use mathlib.Core.Logic.{inl, inr}

module _ {ℓ κ μ} {K : Type ℓ} {V : Type κ} (P : K → V → Type μ) where
  -- Every entry satisfies the predicate.
  abbrev pub Entries : Dict K V → Type μ
  Entries [] = Unit
  Entries ((k, v) ∷ d) = P k v × Entries d

  pub Entries-retain : (p : K → V → Bool) (d : Dict K V) → Entries d → Entries (retain p d)
  unfolding retain
  Entries-retain p [] h = h
  Entries-retain p ((k, v) ∷ d) (here, there) = elim (Bool-cases (p k v)) [
    | inl e ↦ rw e (here, Entries-retain p d there)
    | inr e ↦ rw e (Entries-retain p d there)
  ]

module _ {ℓ κ μ ν} {K : Type ℓ} {V : Type κ} (P : K → V → Type μ) (Q : K → V → Type ν) where
  pub Entries-imp : ((k : K) (v : V) → P k v → Q k v) → (d : Dict K V) → Entries P d → Entries Q d
  Entries-imp f [] h = tt
  Entries-imp f ((k, v) ∷ d) (here, there) = (f k v here, Entries-imp f d there)

  -- What `retain` keeps has passed its test.
  pub Entries-retain_imp :
      (p : K → V → Bool)
      → ((k : K) (v : V) → p k v ≡ true → P k v → Q k v)
      → (d : Dict K V) → Entries P d
      → Entries Q (retain p d)
  unfolding retain
  Entries-retain_imp p f [] h = tt
  Entries-retain_imp p f ((k, v) ∷ d) (here, there) = elim (Bool-cases (p k v)) [
    | inl e ↦ rw e (f k v e here, Entries-retain_imp p f d there)
    | inr e ↦ rw e (Entries-retain_imp p f d there)
  ]

module _ {ℓ κ μ} {K : Type ℓ} {V : Type κ} ⦃e : Eq K⦄ (P : K → V → Type μ) where
  pub Entries-lookup : (k : K) (d : Dict K V) {v : V} → Entries P d → lookup k d ≡ some v → P k v
  unfolding lookup
  Entries-lookup k [] h q = absurd (cc)
  Entries-lookup k ((j, w) ∷ d) {v} (here, there) q = elim (Bool-cases (j == k)) [
    | inl same ↦
        let at_k = subst (λ i. P i w) ((e.beq_iff j k).0 same) here in
        let w_eq : w ≡ v = ground arith in subst (λ u. P k u) w_eq at_k
    | inr other ↦ Entries-lookup k d there (ground arith)
  ]

  pub Entries-insert :
      (k : K) (v : V) (d : Dict K V) → P k v → Entries P d → Entries P (insert k v d)
  unfolding insert
  Entries-insert k v [] p h = (p, tt)
  Entries-insert k v ((j, w) ∷ d) p (here, there) = elim (Bool-cases (j == k)) [
    | inl same ↦ rw same (p, there)
    | inr other ↦ rw other (here, Entries-insert k v d p there)
  ]

  pub Entries-erase : (k : K) (d : Dict K V) → Entries P d → Entries P (erase k d)
  unfolding erase
  Entries-erase k [] h = h
  Entries-erase k ((j, w) ∷ d) (here, there) = elim (Bool-cases (j == k)) [
    | inl same ↦ rw same (Entries-erase k d there)
    | inr other ↦ rw other (here, Entries-erase k d there)
  ]

module _ {ℓ μ} {V : Type ℓ} (P : Text → V → Type μ) where
  pub Entries-insert_sorted :
      (k : Text) (v : V) (d : Dict Text V) → P k v → Entries P d → Entries P (insert_sorted k v d)
  unfolding insert_sorted
  Entries-insert_sorted k v [] p h = (p, tt)
  Entries-insert_sorted k v ((j, w) ∷ d) p (here, there) = elim (Bool-cases (j == k)) [
    | inl same ↦ rw same (p, there)
    | inr other ↦ elim (Bool-cases (text_lt k j)) [
      | inl before ↦ rw (other, before) (p, (here, there))
      | inr after ↦ rw (other, after) (here, Entries-insert_sorted k v d p there)
    ]
  ]

module _ {ℓ κ μ} {K : Type ℓ} {V : Type κ} ⦃e : Eq K⦄ (P : K → V → Type μ) where
  -- An entry that is written and then erased leaves the others.
  pub Entries-erase-insert :
      (k : K) (v : V) (d : Dict K V) → Entries P d → Entries P (erase k (insert k v d))
  unfolding insert erase
  Entries-erase-insert k v [] h = rw ((e.beq_iff k k).1 refl) tt
  Entries-erase-insert k v ((j, w) ∷ d) (here, there) = elim (Bool-cases (j == k)) [
    | inl same ↦ rw (same, (e.beq_iff k k).1 refl) (Entries-erase P k d there)
    | inr other ↦ rw (other, other) (here, Entries-erase-insert k v d there)
  ]
