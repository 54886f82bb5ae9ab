-- ===== src/Strings/Decimal.antt =====
-- The decimal `Display` of unsigned and signed integers.
use jmap2telegram.Prelude.{
  ℕ, zero, suc, ◌+◌, ◌-◌, ◌*◌, ◌/◌, ◌%◌, ◌≤◌, ◌<◌, ◌≡◌, refl, sym, ap, ◌∙◌, [], ◌∷◌, arith, ◌==◌,
  nat_eq, if◌then◌else◌, Text, text, ℤ, pos, negsuc, All, Bool-cases, inl, inr,
}

-- The fuel `suc n` of `display` is enough: a division by ten makes a positive number smaller.
digits : ℕ → ℕ → Text → Text
digits zero n out = out
digits (suc fuel) n out =
    let next : Text = (b'0' + n % 10) ∷ out in
    let rest = digits fuel (n / 10) next in if n / 10 == 0 then next else rest

unfoldable pub display : ℕ → Text
unfolding digits
display n = digits (suc n) n []

unfoldable pub display_int : ℤ → Text
unfolding display
display_int (pos n) = display n
display_int (negsuc n) = b'-' ∷ display (suc n)

-- The number that a text of digits stands for, read from the left.
unfoldable pub value : ℕ → Text → ℕ
value acc [] = acc
value acc (c ∷ s) = value (acc * 10 + (c - b'0')) s

value-digits : (fuel n : ℕ) (out : Text) → n < fuel → value 0 (digits fuel n out) ≡ value n out
unfolding digits value
value-digits zero n out h = absurd (omega arith)
value-digits (suc fuel) n out h = ground (arith, value-digits fuel (n / 10) ((b'0' + n % 10) ∷ out))

pub value-display : (n : ℕ) → value 0 (display n) ≡ n
unfolding display value
value-display n = value-digits (suc n) n [] (omega arith)

abbrev pub IsDigit : ℕ → Type 0
IsDigit c = (b'0' ≤ c) × (c ≤ b'9')

digits-IsDigit : (fuel n : ℕ) (out : Text) → All IsDigit out → All IsDigit (digits fuel n out)
unfolding digits
digits-IsDigit zero n out h = h
digits-IsDigit (suc fuel) n out h =
    ground
      (arith, digits-IsDigit fuel (n / 10) ((b'0' + n % 10) ∷ out) ((omega arith, omega arith), h))

pub display-IsDigit : (n : ℕ) → All IsDigit (display n)
unfolding display
display-IsDigit n = digits-IsDigit (suc n) n [] tt

pub display_injective : (m n : ℕ) → display m ≡ display n → m ≡ n
display_injective m n h = sym (value-display m) ∙ ap (value 0) h ∙ value-display n

display_example : display_int (negsuc 41) ≡ text "-42"
unfolding display_int
display_example = refl

digits-cons : (fuel n d : ℕ) (out : Text) → (c : ℕ) × (s : Text) × (digits fuel n (d ∷ out) ≡ c ∷ s)
unfolding digits
digits-cons zero n d out = (d, out, refl)
digits-cons (suc fuel) n d out = elim (Bool-cases (n / 10 == 0)) [
  | inl e ↦ (b'0' + n % 10, d ∷ out, rw e refl)
  | inr e ↦ rw e (digits-cons fuel (n / 10) (b'0' + n % 10) (d ∷ out))
]

-- A displayed number is not empty.
pub display-cons : (n : ℕ) → (c : ℕ) × (s : Text) × (display n ≡ c ∷ s)
unfolding display digits
display-cons n = elim (Bool-cases (n / 10 == 0)) [
  | inl e ↦ (b'0' + n % 10, [], rw e refl)
  | inr e ↦ rw e (digits-cons n (n / 10) (b'0' + n % 10) [])
]
