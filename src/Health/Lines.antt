-- ===== src/Health/Lines.antt =====
-- The line ends of the pieces of /metrics (src/health.rs).
pub mod Page
use jmap2telegram.Prelude.{
  ℕ, suc, ◌+◌, ◌≤◌, ◌≡◌, refl, sym, ap, ◌∙◌, inl, inr, Bool, true, false, Bool-cases, List, [], ◌∷◌,
  ◌++◌, Option, none, some, if◌then◌else◌, ◌==◌, nat_eq, Text, text, Dict, length, arith, Entries,
  All,
}
use jmap2telegram.Strings.{is_empty}
use jmap2telegram.Strings.Decimal.{display, display-IsDigit, IsDigit}
use jmap2telegram.Health.{WatcherStatus, Health, Family, Metrics, escape_prometheus_label}
use jmap2telegram.Health.Labels.{escape_char, escape_all, escape_prometheus_label-escape_all}
use jmap2telegram.Health.Render.{
  push_metric_header, push_metric, sample_line, sample_lines, family_lines, gauge, memory_lines,
  render, age, watcher_lines, connected_count, render_metrics,
}

-- How many line ends a text has.
unfoldable pub newlines : Text → ℕ
newlines [] = 0
newlines (c ∷ s) = let rest = newlines s in if c == b'\n' then suc rest else rest

abbrev pub IsOneLine : Text → Type 0
IsOneLine s = newlines s ≡ 0

pub newlines-append : (s t : Text) → newlines (s ++ t) ≡ newlines s + newlines t
unfolding newlines
newlines-append [] t = omega arith
newlines-append (c ∷ s) t = ground (arith, newlines-append s t)

digits-IsOneLine : (s : Text) → All IsDigit s → IsOneLine s
unfolding newlines
digits-IsOneLine [] h = refl
digits-IsOneLine (c ∷ s) (digit, digits) = ground (arith, digits-IsOneLine s digits)

pub display-IsOneLine : (n : ℕ) → IsOneLine (display n)
display-IsOneLine n = digits-IsOneLine (display n) (display-IsDigit n)

escape_char-IsOneLine : (c : ℕ) → IsOneLine (escape_char c)
unfolding newlines
escape_char-IsOneLine c = ground arith

escape_all-IsOneLine : (s : Text) → IsOneLine (escape_all s)
unfolding newlines
escape_all-IsOneLine [] = refl
escape_all-IsOneLine (c ∷ s) =
    newlines-append (escape_char c) (escape_all s)
    ∙ omega (arith, escape_char-IsOneLine c, escape_all-IsOneLine s)

-- An escaped label value has no line end, whatever the value.
pub escape_prometheus_label-IsOneLine : (s : Text) → IsOneLine (escape_prometheus_label s)
escape_prometheus_label-IsOneLine s = rw escape_prometheus_label-escape_all (escape_all-IsOneLine s)

-- A text whose line ends are counted.
pub record Piece : Type 0 where
  pub shown : Text
  pub count : ℕ
  pub counted : newlines shown ≡ count

abbrev pub literal : Text → Piece
literal s = record { shown = s; count = newlines s; counted = refl }

abbrev pub piece : (s : Text) {n : ℕ} → newlines s ≡ n → Piece
piece s {n = n} h = record { shown = s; count = n; counted = h }

abbrev pub number : ℕ → Piece
number n = piece (display n) (display-IsOneLine n)

abbrev followed_by : Piece → Piece → Piece
followed_by p q = record {
  shown = p.shown ++ q.shown;
  count = p.count + q.count;
  counted = newlines-append p.shown q.shown ∙ omega (arith, p.counted, q.counted);
}

abbrev pub in_turn : Piece → List Piece → Piece
in_turn p [] = p
in_turn p (q ∷ qs) = in_turn (followed_by p q) qs

push_metric_header-lines :
    (name help kind : Text)
    → IsOneLine name
    → IsOneLine help
    → IsOneLine kind
    → newlines (push_metric_header name help kind) ≡ 2
unfolding newlines push_metric_header
push_metric_header-lines name help kind n h k =
    (in_turn (literal (text "# HELP ")) (
      piece name n
      ∷ literal (text " ")
      ∷ piece help h
      ∷ literal (text "\n# TYPE ")
      ∷ piece name n
      ∷ literal (text " ")
      ∷ piece kind k
      ∷ literal (text "\n")
      ∷ [])).counted

pub gauge-lines :
    (name help : Text) (value : ℕ)
    → IsOneLine name
    → IsOneLine help
    → newlines (gauge name help value) ≡ 3
unfolding newlines gauge push_metric
gauge-lines name help value n h =
    (in_turn
      (piece (push_metric_header name help (text "gauge"))
        (push_metric_header-lines name help (text "gauge") n h refl))
      (piece name n ∷ literal (text " ") ∷ number value ∷ literal (text "\n") ∷ [])).counted

sample_line-lines :
    (name labels : Text) (value : ℕ)
    → IsOneLine name
    → IsOneLine labels
    → newlines (sample_line name (labels, value)) ≡ 1
unfolding newlines sample_line
sample_line-lines name labels value n l = elim (Bool-cases (is_empty labels)) [
  | inl e ↦
      rw e
        (in_turn (piece name n)
          (literal (text " ") ∷ number value ∷ literal (text "\n") ∷ [])).counted
  | inr e ↦
      rw e
        (in_turn (piece name n) (
          literal (text "{")
          ∷ piece labels l
          ∷ literal (text "} ")
          ∷ number value
          ∷ literal (text "\n")
          ∷ [])).counted
]

sample_lines-lines :
    (name : Text) (samples : Dict Text ℕ)
    → IsOneLine name
    → Entries (λ labels _. IsOneLine labels) samples
    → newlines (sample_lines name samples) ≡ length samples
unfolding newlines sample_lines
sample_lines-lines name [] n h = refl
sample_lines-lines name ((labels, value) ∷ samples) n (l, h) =
    (in_turn (piece (sample_line name (labels, value)) (sample_line-lines name labels value n l))
      (piece (sample_lines name samples) (sample_lines-lines name samples n h) ∷ [])).counted
    ∙ omega arith

-- The name, the help and the label sets of a family have no line end.
abbrev pub IsPlainFamily : Text → Family → Type 0
IsPlainFamily name family =
    IsOneLine name × IsOneLine family.help × Entries (λ labels _. IsOneLine labels) family.samples

-- Two lines for each family and one for each of its samples.
unfoldable pub family_count : Dict Text Family → ℕ
family_count [] = 0
family_count ((_, family) ∷ fs) = 2 + length family.samples + family_count fs

pub family_lines-lines :
    (fs : Dict Text Family)
    → Entries IsPlainFamily fs
    → newlines (family_lines fs) ≡ family_count fs
unfolding newlines family_lines family_count
family_lines-lines [] h = refl
family_lines-lines ((name, family) ∷ fs) ((n, h, samples), rest) =
    (in_turn
      (piece (push_metric_header name family.help (text "counter"))
        (push_metric_header-lines name family.help (text "counter") n h refl))
      (piece (sample_lines name family.samples) (sample_lines-lines name family.samples n samples)
        ∷ piece (family_lines fs) (family_lines-lines fs rest)
        ∷ [])).counted

pub watcher_lines-lines :
    (elapsed : ℕ → Text) (ws : Dict Text WatcherStatus)
    → ((t : ℕ) → IsOneLine (elapsed t))
    → newlines (watcher_lines elapsed ws) ≡ length ws
unfolding newlines watcher_lines age
watcher_lines-lines elapsed [] h = refl
watcher_lines-lines elapsed ((key, status) ∷ ws) h =
    (in_turn (literal (text "jmap2telegram_last_activity_age_seconds{watcher=\"")) (
      piece (escape_prometheus_label key) (escape_prometheus_label-IsOneLine key)
      ∷ literal (text "\"} ")
      ∷ piece (age elapsed status.last_activity) (age-IsOneLine status.last_activity)
      ∷ literal (text "\n")
      ∷ piece (watcher_lines elapsed ws) (watcher_lines-lines elapsed ws h)
      ∷ [])).counted
    ∙ omega arith
  where
    age-IsOneLine : (last : Option ℕ) → IsOneLine (age elapsed last)
    age-IsOneLine none = refl
    age-IsOneLine (some t) = h t
