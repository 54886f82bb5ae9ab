-- ===== src/Watcher/Keys.antt =====
-- The keys of the health registry (src/watcher.rs): one for each watched account of each chat, and
-- the prefix by which `deregister_chat` of src/health.rs finds those of one chat.
use jmap2telegram.Prelude.{
  ℕ, suc, ◌≡◌, ◌≢◌, ◌↔◌, refl, sym, ap, ◌∙◌, subst, inl, inr, true, [], ◌∷◌, ◌++◌, arith, nat_eq,
  list_eq, Bool-cases, Text, text, ℤ, pos, negsuc, All, append_assoc, starts_with, if◌then◌else◌,
  ◌==◌,
}
use jmap2telegram.Strings.Decimal.{
  display, display_int, display-IsDigit, display_injective, IsDigit,
}
use jmap2telegram.Watcher.{
  WatchTarget, primary, shared, extra, account, health_key, account_health_key, is_primary_id,
}

abbrev slash : ℕ
slash = b'/'

-- Text before the first slash.
abbrev NoSlash : Text → Type 0
NoSlash = All (λ c. c ≢ slash)

digits-NoSlash : (s : Text) → All IsDigit s → NoSlash s
digits-NoSlash [] h = tt
digits-NoSlash (c ∷ s) (here, there) = (ground arith, digits-NoSlash s there)

display_int-NoSlash : (z : ℤ) → NoSlash (display_int z)
unfolding display_int
display_int-NoSlash (pos n) = digits-NoSlash _ (display-IsDigit n)
display_int-NoSlash (negsuc n) = (ground arith, digits-NoSlash _ (display-IsDigit (suc n)))

-- A text splits at its first slash in one way.
split_unique :
    (xs ys r t : Text)
    → NoSlash xs
    → NoSlash ys
    → xs ++ slash ∷ r ≡ ys ++ slash ∷ t
    → (xs ≡ ys) × (r ≡ t)
split_unique [] [] r t hx hy h = ground arith
split_unique [] (y ∷ ys) r t hx hy h = absurd (ground arith)
split_unique (x ∷ xs) [] r t hx hy h = absurd (ground arith)
split_unique (x ∷ xs) (y ∷ ys) r t hx hy h =
    let (same, rest) = split_unique xs ys r t hx.1 hy.1 (ground arith) in (ground arith, rest)

minus_not_digit : (n : ℕ) (s : Text) → display n ≢ b'-' ∷ s
minus_not_digit n s h = absurd (omega (arith, (subst (All IsDigit) h (display-IsDigit n)).0))

display_int_injective : (a b : ℤ) → display_int a ≡ display_int b → a ≡ b
unfolding display_int
display_int_injective (pos m) (pos n) h = ap pos (display_injective m n h)
display_int_injective (pos m) (negsuc n) h = absurd (minus_not_digit m _ h)
display_int_injective (negsuc m) (pos n) h = absurd (minus_not_digit n _ (sym h))
display_int_injective (negsuc m) (negsuc n) h =
    let same : suc m ≡ suc n = display_injective (suc m) (suc n) (ground arith) in ground arith

starts_with-prefix :
    (xs : Text) (c : ℕ) (r : Text) → starts_with (xs ++ c ∷ r) (xs ++ c ∷ []) ≡ true
unfolding starts_with
starts_with-prefix [] c [] = ground arith
starts_with-prefix [] c (d ∷ r) = ground arith
starts_with-prefix (x ∷ xs) c r = ground (arith, starts_with-prefix xs c r)

starts_with-slash :
    (xs ys r : Text)
    → NoSlash xs
    → NoSlash ys
    → starts_with (xs ++ slash ∷ r) (ys ++ slash ∷ []) ≡ true
    → xs ≡ ys
unfolding starts_with
starts_with-slash [] [] r hx hy h = refl
starts_with-slash [] (y ∷ ys) r hx hy h = absurd (ground arith)
starts_with-slash (x ∷ xs) [] r hx hy h = absurd (ground arith)
starts_with-slash (x ∷ xs) (y ∷ ys) r hx hy h =
    ground (arith, starts_with-slash xs ys r hx.1 hy.1 (ground arith))

-- What the registry tells apart in a chat: the first account, a shared mailbox, or another slot. The
-- target `primary` and the slots named "default" and "primary" stand for the first account, whichever
-- slot sorts first.
pub data Watched : Type 0 where
  first : Watched
  mailbox : Text → Watched
  slot : Text → Watched

unfoldable pub slot_watched : Text → Watched
slot_watched slot_id =
    if slot_id == text "default"
    then first
    else if slot_id == text "primary"
    then first
    else slot slot_id

abbrev pub watched : WatchTarget → Watched
watched primary = first
watched (shared id _) = mailbox id
watched (extra slot_id _) = slot_watched slot_id
watched (account slot_id _) = slot_watched slot_id

suffix : Watched → Text
suffix first = text "primary"
suffix (mailbox id) = text "shared-" ++ id
suffix (slot slot_id) = text "extra-" ++ slot_id

suffix_injective : (v w : Watched) → suffix v ≡ suffix w → v ≡ w
unfolding suffix
suffix_injective first first h = refl
suffix_injective first (mailbox id) h = absurd (ground arith)
suffix_injective first (slot s) h = absurd (ground arith)
suffix_injective (mailbox id) first h = absurd (ground arith)
suffix_injective (mailbox id) (mailbox j) h = ground arith
suffix_injective (mailbox id) (slot s) h = absurd (ground arith)
suffix_injective (slot s) first h = absurd (ground arith)
suffix_injective (slot s) (mailbox id) h = absurd (ground arith)
suffix_injective (slot s) (slot t) h = ground arith

account_health_key-parts :
    (chat_id : ℤ) (slot_id : Text)
    → account_health_key chat_id slot_id
      ≡ display_int chat_id ++ slash ∷ suffix (slot_watched slot_id)
unfolding account_health_key is_primary_id suffix slot_watched
account_health_key-parts chat_id slot_id = elim (Bool-cases (slot_id == text "default")) [
  | inl e ↦ rw (e, slot_watched, suffix) refl
  | inr e ↦ elim (Bool-cases (slot_id == text "primary")) [
    | inl f ↦ rw (e, f, slot_watched, suffix) refl
    | inr f ↦
        rw (e, f, slot_watched, suffix)
          (append_assoc (display_int chat_id) (text "/extra-") slot_id)
  ]
]

health_key-parts :
    (t : WatchTarget) (chat_id : ℤ)
    → health_key t chat_id ≡ display_int chat_id ++ slash ∷ suffix (watched t)
unfolding health_key
health_key-parts primary chat_id = unfold suffix in refl
health_key-parts (shared id _) chat_id =
    unfold suffix in append_assoc (display_int chat_id) (text "/shared-") id
health_key-parts (extra slot_id _) chat_id = account_health_key-parts chat_id slot_id
health_key-parts (account slot_id _) chat_id = account_health_key-parts chat_id slot_id

-- Two targets have the same key in the health registry exactly when they are of the same chat and
-- watch the same shared mailbox, the same slot, or both the first account, which the target `primary`
-- and the slots named "default" and "primary" stand for. Labels do not matter.
pub health_key_injective :
    (t u : WatchTarget) (chat_id other : ℤ)
    → (health_key t chat_id ≡ health_key u other) ↔ ((chat_id ≡ other) × (watched t ≡ watched u))
health_key_injective t u chat_id other = (
  λ h.
      let (same, rest) =
        split_unique (display_int chat_id) (display_int other) (suffix (watched t))
          (suffix (watched u)) (display_int-NoSlash chat_id) (display_int-NoSlash other)
          (sym (health_key-parts t chat_id) ∙ h ∙ health_key-parts u other) in
      (display_int_injective chat_id other same, suffix_injective (watched t) (watched u) rest),
  λ (same, alike). health_key-parts t chat_id ∙ cc (same, alike) ∙ sym (health_key-parts u other),
)

-- The prefix `"{other}/"` finds a target's key exactly when the target is of that chat.
pub starts_with-health_key :
    (t : WatchTarget) (chat_id other : ℤ)
    → (starts_with (health_key t chat_id) (display_int other ++ text "/") ≡ true)
      ↔ (chat_id ≡ other)
starts_with-health_key t chat_id other = (
  λ h. display_int_injective chat_id other (
      starts_with-slash (display_int chat_id) (display_int other) (suffix (watched t))
        (display_int-NoSlash chat_id) (display_int-NoSlash other) (rw health_key-parts at h)),
  λ same.
      rw (health_key-parts, same)
        (starts_with-prefix (display_int other) slash (suffix (watched t))),
)
