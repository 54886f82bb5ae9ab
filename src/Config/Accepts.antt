-- ===== src/Config/Accepts.antt =====
-- What `Config::parse` reads in AUTHORIZED_CHAT_IDS: the displayed ids, joined by commas.
use jmap2telegram.Prelude.{
  ℕ, suc, ◌+◌, ◌-◌, ◌*◌, ◌^◌, ◌<◌, ◌≡◌, ◌≢◌, refl, sym, ap, ◌∙◌, Bool, true, false, List, [], ◌∷◌,
  ◌++◌, some, ◌==◌, nat_eq, list_eq, int_eq, Text, any, map, ℤ, pos, negsuc, All, ok, arith, inl,
  inr, Bool-cases, int_beq_iff, subst, ◌⊎◌, ◌||◌,
}
use jmap2telegram.Strings.{trim, trim_start, trim_end, is_whitespace, is_empty, split, push_front}
use jmap2telegram.Strings.Decimal.{
  display, display_int, display-IsDigit, IsDigit, value, value-display, display-cons,
}
use jmap2telegram.Config.{
  read_digits, read_nat, within, parse_i64, parse_ids, authorized_ids, add_id,
}

read_digits-value : (acc : ℕ) (s : Text) → All IsDigit s → read_digits acc s ≡ some (value acc s)
unfolding read_digits value
read_digits-value acc [] h = refl
read_digits-value acc (c ∷ s) (here, there) =
    ground (arith, here, read_digits-value (acc * 10 + (c - b'0')) s there)

read_nat-display : (n : ℕ) → read_nat (display n) ≡ some n
unfolding read_nat
read_nat-display n =
    let (c, s, e) = display-cons n in
    rw e (rw e at (read_digits-value 0 (display n) (display-IsDigit n) ∙ ap some (value-display n)))

-- The numbers of an `i64`.
abbrev pub IsI64 : ℤ → Type 0
IsI64 (pos n) = n < 2 ^ 63
IsI64 (negsuc n) = n < 2 ^ 63

parse_i64-unsigned : (n : ℕ) → n < 2 ^ 63 → parse_i64 (display n) ≡ some (pos n)
unfolding parse_i64 within
parse_i64-unsigned n h =
    let (c, s, e) = display-cons n in
    let digit : IsDigit c = (subst (All IsDigit) e (display-IsDigit n)).0 in
    let whole : read_nat (c ∷ s) ≡ some n = ap read_nat (sym e) ∙ read_nat-display n in
    rw e (ground (arith, digit, whole, h))

parse_i64-display_int : (z : ℤ) → IsI64 z → parse_i64 (display_int z) ≡ some z
unfolding display_int parse_i64 within
parse_i64-display_int (pos n) h = parse_i64-unsigned n h
parse_i64-display_int (negsuc n) h = rw (read_nat-display (suc n)) (ground (arith, h))

-- A character of a displayed number.
abbrev IsMark : ℕ → Type 0
IsMark c = (c ≡ b'-') ⊎ IsDigit c

is_whitespace-IsMark : (c : ℕ) → IsMark c → is_whitespace c ≡ false
unfolding is_whitespace
is_whitespace-IsMark c (inl e) = rw e refl
is_whitespace-IsMark c (inr (low, high)) = ground (arith, low, high)

trim_start-marks : (s : Text) → All IsMark s → trim_start s ≡ s
unfolding trim_start
trim_start-marks [] h = refl
trim_start-marks (c ∷ s) (here, there) = rw (is_whitespace-IsMark c here) refl

trim_end-marks : (s : Text) → All IsMark s → trim_end s ≡ s
unfolding trim_end
trim_end-marks [] h = refl
trim_end-marks (c ∷ []) (here, there) = rw (is_whitespace-IsMark c here) refl
trim_end-marks (c ∷ d ∷ s) (here, there) = rw (trim_end-marks (d ∷ s) there) refl

trim-marks : (s : Text) → All IsMark s → trim s ≡ s
unfolding trim
trim-marks s h = rw (trim_start-marks s h) (trim_end-marks s h)

digits-marks : (s : Text) → All IsDigit s → All IsMark s
digits-marks [] h = tt
digits-marks (c ∷ s) (here, there) = (inr here, digits-marks s there)

display_int-marks : (z : ℤ) → All IsMark (display_int z)
unfolding display_int
display_int-marks (pos n) = digits-marks (display n) (display-IsDigit n)
display_int-marks (negsuc n) = (inl refl, digits-marks (display (suc n)) (display-IsDigit (suc n)))

display_int-cons : (z : ℤ) → is_empty (display_int z) ≡ false
unfolding display_int
display_int-cons (pos n) = let (c, s, e) = display-cons n in rw e refl
display_int-cons (negsuc n) = refl

-- The ids, joined by commas.
unfoldable pub join_ids : List ℤ → Text
join_ids [] = []
join_ids (z ∷ []) = display_int z
join_ids (z ∷ y ∷ ids) = display_int z ++ b',' ∷ join_ids (y ∷ ids)

split-mark : (c : ℕ) (s : Text) → IsMark c → split b',' (c ∷ s) ≡ push_front c (split b',' s)
unfolding split
split-mark c s (inl e) = rw e refl
split-mark c s (inr (low, high)) = ground (arith, low, high)

split-marks : (s : Text) → All IsMark s → split b',' s ≡ s ∷ []
unfolding push_front
split-marks [] h = unfold split in refl
split-marks (c ∷ s) (here, there) = rw (split-mark c s here, split-marks s there) refl

split-first : (s t : Text) → All IsMark s → split b',' (s ++ b',' ∷ t) ≡ s ∷ split b',' t
unfolding push_front
split-first [] t h = unfold split in refl
split-first (c ∷ s) t (here, there) =
    rw (split-mark c (s ++ b',' ∷ t) here, split-first s t there) refl

split-join_ids :
    (z : ℤ) (ids : List ℤ) → split b',' (join_ids (z ∷ ids)) ≡ map display_int (z ∷ ids)
unfolding join_ids
split-join_ids z [] = split-marks (display_int z) (display_int-marks z)
split-join_ids z (y ∷ ids) =
    split-first (display_int z) (join_ids (y ∷ ids)) (display_int-marks z)
    ∙ ap (λ rest. display_int z ∷ rest) (split-join_ids y ids)

abbrev add_ids : List ℤ → List ℤ
add_ids [] = []
add_ids (z ∷ ids) = add_id z (add_ids ids)

parse_ids-displayed :
    (ids : List ℤ) → All IsI64 ids → parse_ids (map display_int ids) ≡ ok (add_ids ids)
unfolding parse_ids
parse_ids-displayed [] h = refl
parse_ids-displayed (z ∷ ids) (here, there) =
    rw
      (
        trim-marks (display_int z) (display_int-marks z),
        display_int-cons z,
        parse_i64-display_int z here,
        parse_ids-displayed ids there,
      )
      refl

unfoldable pub member : ℤ → List ℤ → Bool
member id ids = any (λ i. i == id) ids

member-add_id : (z id : ℤ) (ids : List ℤ) → member id (add_id z ids) ≡ (z == id || member id ids)
unfolding member any
member-add_id z id ids = elim (Bool-cases (member z ids)) [
  | inl e ↦ elim (Bool-cases (z == id)) [
    | inl f ↦ rw (e, f) (subst (λ i. member i ids ≡ true) ((int_beq_iff z id).0 f) e)
    | inr f ↦ rw (e, f) refl
  ]
  | inr e ↦ rw e refl
]

member-add_ids : (id : ℤ) (ids : List ℤ) → member id (add_ids ids) ≡ member id ids
unfolding member any
member-add_ids id [] = refl
member-add_ids id (z ∷ ids) = rw (member-add_id z id (add_ids ids), member-add_ids id ids) refl

-- The member that is already there keeps the list from being empty.
is_empty-add_id : (z : ℤ) (ids : List ℤ) → is_empty (add_id z ids) ≡ false
unfolding any
is_empty-add_id z [] = refl
is_empty-add_id z (y ∷ ids) = elim (Bool-cases (any (λ i. i == z) (y ∷ ids))) [
  | inl e ↦ rw e refl
  | inr e ↦ rw e refl
]

-- Every list of 64-bit chat ids that is not empty is read back from its ids joined by commas: the
-- configuration is accepted, and authorizes a chat exactly when it is in the list.
pub authorized_ids-join_ids :
    (ids : List ℤ)
    → ids ≢ []
    → All IsI64 ids
    → (got : List ℤ) × (authorized_ids (join_ids ids) ≡ ok got)
      × ((id : ℤ) → member id got ≡ member id ids)
unfolding authorized_ids
authorized_ids-join_ids [] some_id h = absurd (some_id refl)
authorized_ids-join_ids (z ∷ ids) some_id h = (
  add_ids (z ∷ ids),
  rw
      (
        authorized_ids,
        split-join_ids z ids,
        parse_ids-displayed (z ∷ ids) h,
        is_empty-add_id z (add_ids ids),
      )
      refl,
  λ id. member-add_ids id (z ∷ ids),
)
