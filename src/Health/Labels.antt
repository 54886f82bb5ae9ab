-- ===== src/Health/Labels.antt =====
-- Label values of the Prometheus text format, and the counters.
use jmap2telegram.Prelude.{
  ℕ, ◌+◌, ◌%◌, ◌^◌, ◌≡◌, refl, sym, inl, inr, Bool, true, false, List, [], ◌∷◌, ◌++◌, Option, none,
  some, Bool-cases, arith, if◌then◌else◌, ◌==◌, nat_eq, list_eq, list_beq_iff, Text, append_assoc,
  lookup, lookup-insert_sorted,
}
use jmap2telegram.Health.{
  replace, needs_escape, escape_prometheus_label, Family, Metrics, inc_sample, render_labels, inc,
  counter, sample_count, family_or_new,
}

-- The escape of one character.
abbrev pub escape_char : ℕ → Text
escape_char c =
    if c == b'\\'
    then b'\\' ∷ b'\\' ∷ []
    else if c == b'"'
    then b'\\' ∷ b'"' ∷ []
    else if c == b'\n'
    then b'\\' ∷ b'n' ∷ []
    else c ∷ []

abbrev pub escape_all : Text → Text
escape_all [] = []
escape_all (c ∷ s) = escape_char c ++ escape_all s

replace-append :
    (from : ℕ) (to xs ys : Text)
    → replace from to (xs ++ ys) ≡ replace from to xs ++ replace from to ys
unfolding replace
replace-append from to [] ys = refl
replace-append from to (x ∷ xs) ys = simp (replace-append from to xs ys, append_assoc)

replace-cons :
    (from : ℕ) (to : Text) (c : ℕ) (s : Text)
    → replace from to (c ∷ s) ≡ (if c == from then to else c ∷ []) ++ replace from to s
unfolding replace
replace-cons from to c s = refl

escape_once :
    (c : ℕ)
    → replace b'\n'
        (b'\\' ∷ b'n' ∷ [])
        (replace b'"' (b'\\' ∷ b'"' ∷ []) (if c == b'\\' then b'\\' ∷ b'\\' ∷ [] else c ∷ []))
      ≡ escape_char c
unfolding replace
escape_once c = ground arith

replaces-escape_all :
    (s : Text)
    → replace b'\n'
        (b'\\' ∷ b'n' ∷ [])
        (replace b'"' (b'\\' ∷ b'"' ∷ []) (replace b'\\' (b'\\' ∷ b'\\' ∷ []) s))
      ≡ escape_all s
replaces-escape_all [] = unfold replace in refl
replaces-escape_all (c ∷ s) =
    rw (
      replace-cons b'\\' _ c s,
      replace-append,
      replace-append,
      escape_once c,
      replaces-escape_all s,
    )

escape_all_id : (s : Text) → needs_escape s ≡ false → escape_all s ≡ s
unfolding needs_escape
escape_all_id [] h = refl
escape_all_id (c ∷ s) h = ground (arith, escape_all_id s)

pub escape_prometheus_label-escape_all : (s : Text) → escape_prometheus_label s ≡ escape_all s
unfolding escape_prometheus_label
escape_prometheus_label-escape_all s = elim (Bool-cases (needs_escape s)) [
  | inl e ↦ rw e (replaces-escape_all s)
  | inr e ↦ rw e (sym (escape_all_id s e))
]

-- A reader of the text format behind the opening quote: the value up to the closing quote, and what
-- follows. A raw newline or the end of the text is an error, and so is an unknown escape.
abbrev read_cons : ℕ → Option (Text × Text) → Option (Text × Text)
read_cons c none = none
read_cons c (some (value, rest)) = some (c ∷ value, rest)

pub read_value : Bool → Text → Option (Text × Text)
read_value escaped [] = none
read_value false (c ∷ s) =
    let escape = read_value true s in
    let more = read_cons c (read_value false s) in
    if c == b'"'
    then some ([], s)
    else if c == b'\\'
    then escape
    else if c == b'\n'
    then none
    else more
read_value true (c ∷ s) =
    let more = read_value false s in
    if c == b'\\'
    then read_cons b'\\' more
    else if c == b'"'
    then read_cons b'"' more
    else if c == b'n'
    then read_cons b'\n' more
    else none

read_value-escape_char :
    (c : ℕ) (s : Text) → read_value false (escape_char c ++ s) ≡ read_cons c (read_value false s)
unfolding read_value
read_value-escape_char c s = ground arith

read_value-escape_all :
    (value rest : Text) → read_value false (escape_all value ++ b'"' ∷ rest) ≡ some (value, rest)
read_value-escape_all [] rest = unfold read_value in refl
read_value-escape_all (c ∷ s) rest =
    rw (append_assoc, read_value-escape_char c, read_value-escape_all s rest)

-- Whatever the value, a reader of the text format behind the opening quote reads exactly the value
-- from its escaped form and the closing quote, and goes on with what follows: no value can end its
-- label early or start another line.
pub read_value-escape_prometheus_label :
    (value rest : Text)
    → read_value false (escape_prometheus_label value ++ b'"' ∷ rest) ≡ some (value, rest)
read_value-escape_prometheus_label value rest =
    rw escape_prometheus_label-escape_all (read_value-escape_all value rest)

sample_count-inc_sample :
    (label sample help : Text) (f : Option Family)
    → sample_count sample (some (inc_sample label (family_or_new help f)))
      ≡ (if label == sample then (sample_count sample f + 1) % 2 ^ 64 else sample_count sample f)
unfolding sample_count inc_sample family_or_new lookup
sample_count-inc_sample label sample help none =
    ground
      (arith, list_beq_iff label sample, lookup-insert_sorted label sample ((0 + 1) % 2 ^ 64) [])
sample_count-inc_sample label sample help (some f) = ground (
  arith,
  list_beq_iff label sample,
  lookup-insert_sorted label sample ((sample_count label (some f) + 1) % 2 ^ 64) f.samples,
)

-- An increment adds one to its own counter, and leaves every other name and label set as it was.
-- The sum is the 64-bit one.
pub counter-inc :
    (name help : Text) (labels : List (Text × Text)) (m : Metrics) (other sample : Text)
    → counter other sample (inc name help labels m) ≡ (
        if name == other
        then (if render_labels labels == sample
            then (counter other sample m + 1) % 2 ^ 64
            else counter other sample m)
        else counter other sample m)
unfolding counter inc
counter-inc name help labels m other sample = ground (
  arith,
  list_beq_iff name other,
  lookup-insert_sorted name other
      (inc_sample (render_labels labels) (family_or_new help (lookup name m.counters))) m.counters,
  sample_count-inc_sample (render_labels labels) sample help (lookup name m.counters),
)
