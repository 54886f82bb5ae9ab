-- ===== src/I18n/Stable.antt =====
-- The locale that src/i18n.rs resolves.
use jmap2telegram.Prelude.{
  ◌≡◌, refl, ◌⊎◌, inl, inr, Bool-cases, Option, none, some, find, Text, text, arith, list_beq,
}
use jmap2telegram.Strings.{eq_ignore_ascii_case}
use jmap2telegram.I18n.{canonical, detect, primary_subtag, resolve, and_then, or_else, unwrap_or}

-- A locale that is one of ours.
abbrev IsOurs : Text → Type 0
IsOurs t = (t ≡ text "en") ⊎ (t ≡ text "fr")

canonical-IsOurs : (locale t : Text) → canonical locale ≡ some t → IsOurs t
unfolding canonical find
canonical-IsOurs locale t h = elim (Bool-cases (eq_ignore_ascii_case (text "en") locale)) [
  | inl e ↦ inl (ground arith)
  | inr e ↦ elim (Bool-cases (eq_ignore_ascii_case (text "fr") locale)) [
    | inl f ↦ inr (ground arith)
    | inr f ↦ absurd (ground arith)
  ]
]

and_then-IsOurs :
    (f : Text → Option Text) (ours : (a t : Text) → f a ≡ some t → IsOurs t) (o : Option Text)
    (t : Text)
    → and_then f o ≡ some t
    → IsOurs t
and_then-IsOurs f ours none t h = absurd (ground arith)
and_then-IsOurs f ours (some a) t h = ours a t h

or_else-IsOurs :
    (o other : Option Text)
    → ((t : Text) → o ≡ some t → IsOurs t)
    → ((t : Text) → other ≡ some t → IsOurs t)
    → (t : Text) → or_else o other ≡ some t
    → IsOurs t
or_else-IsOurs none other h k t e = k t e
or_else-IsOurs (some a) other h k t e = h t e

unwrap_or-IsOurs :
    (o : Option Text) → ((t : Text) → o ≡ some t → IsOurs t) → IsOurs (unwrap_or (text "en") o)
unwrap_or-IsOurs none h = inl refl
unwrap_or-IsOurs (some t) h = h t refl

detect-IsOurs : (code t : Text) → detect code ≡ some t → IsOurs t
unfolding detect
detect-IsOurs code t h = canonical-IsOurs (primary_subtag code) t h

resolve-IsOurs :
    (stored detected : Option Text) (default : Text) → IsOurs (resolve stored detected default)
unfolding resolve
resolve-IsOurs stored detected default = unwrap_or-IsOurs _ (
    or_else-IsOurs _ _ (and_then-IsOurs canonical canonical-IsOurs stored) (
      or_else-IsOurs _ _ (and_then-IsOurs detect detect-IsOurs detected)
        (canonical-IsOurs default)))

resolve-stored :
    (t : Text) (detected : Option Text) (default : Text)
    → IsOurs t
    → resolve (some t) detected default ≡ t
unfolding resolve canonical find eq_ignore_ascii_case list_beq
resolve-stored t detected default (inl e) = rw e refl
resolve-stored t detected default (inr e) = rw e refl

-- The locale of a chat is "en" or "fr" whatever the inputs are, and once it is stored it stays the
-- same, whatever language a later message or the operator asks for.
pub resolve-resolve :
    (stored detected later : Option Text) (default other : Text)
    → ((resolve stored detected default ≡ text "en")
        ⊎ (resolve stored detected default ≡ text "fr"))
      × (resolve (some (resolve stored detected default)) later other
          ≡ resolve stored detected default)
resolve-resolve stored detected later default other = (
  resolve-IsOurs stored detected default,
  resolve-stored _ later other (resolve-IsOurs stored detected default),
)
