-- ===== src/Format/Fits.antt =====
-- The size of the chunks of `chunk_text` (src/format.rs).
use jmap2telegram.Prelude.{
  ℕ, ◌+◌, ◌≤◌, ◌≡◌, refl, inl, inr, ◌⊎◌, true, false, not, ◌&&◌, List, [], ◌∷◌, ◌++◌, Bool-cases,
  ltb, Text, All, All-append, arith,
}
use jmap2telegram.Strings.{is_empty, len_utf16, utf16_count, lines}
use jmap2telegram.Format.Chunks.{
  Chunker, flush, append, push_char, push_chars, make_room, join_line, add_line, add_lines, finish,
  chunk_text,
}

-- A message that Telegram takes: not empty, and at most `max_len` UTF-16 units.
pub record IsMessage (max_len : ℕ) (chunk : Text) : Type 0 where
  pub says : is_empty chunk ≡ false
  pub fits : utf16_count chunk ≤ max_len

record Fits (max_len : ℕ) (s : Chunker) : Type 0 where
  sent : All (IsMessage max_len) s.chunks
  counted : s.current_len ≡ utf16_count s.current
  room : s.current_len ≤ max_len

utf16_count-append : (s t : Text) → utf16_count (s ++ t) ≡ utf16_count s + utf16_count t
unfolding utf16_count
utf16_count-append [] t = omega arith
utf16_count-append (c ∷ s) t = omega (arith, utf16_count-append s t)

is_empty-utf16_count : (s : Text) → is_empty s ≡ true → utf16_count s ≡ 0
unfolding utf16_count
is_empty-utf16_count [] h = refl
is_empty-utf16_count (c ∷ s) h = ground arith

utf16_count_some : (s : Text) → 1 ≤ utf16_count s → is_empty s ≡ false
unfolding utf16_count
utf16_count_some [] h = ground arith
utf16_count_some (c ∷ s) h = refl

units_small : (c : ℕ) → (1 ≤ len_utf16 c) × (len_utf16 c ≤ 2)
unfolding len_utf16
units_small c = ground arith

module _ (max_len : ℕ) where
  flush-Fits : (s : Chunker) → Fits max_len s → is_empty s.current ≡ false → Fits max_len (flush s)
  unfolding flush utf16_count
  flush-Fits s h says = record {
    sent =
        All-append (IsMessage max_len) s.chunks (s.current ∷ []) h.sent
          (record { says = says; fits = omega (arith, h.counted, h.room) }, tt);
    counted = refl;
    room = omega arith;
  }

  append-Fits :
      (piece : Text) (units : ℕ) (s : Chunker)
      → units ≡ utf16_count piece
      → s.current_len + units ≤ max_len
      → Fits max_len s
      → Fits max_len (append piece units s)
  unfolding append
  append-Fits piece units s measured fits h = record {
    sent = h.sent;
    counted = omega (arith, h.counted, utf16_count-append s.current piece);
    room = fits;
  }

  push_char-Fits :
      (c : ℕ) (s : Chunker) → 2 ≤ max_len → Fits max_len s → Fits max_len (push_char max_len c s)
  unfolding push_char
  push_char-Fits c s wide h = elim (Bool-cases (ltb max_len (s.current_len + len_utf16 c))) [
    | inl e ↦ rw e (
        append-Fits (c ∷ []) (len_utf16 c) (flush s) (unfold utf16_count in omega arith)
          (unfold flush in omega (arith, units_small c))
          (flush-Fits s h (utf16_count_some s.current (ground (arith, units_small c, h.counted)))))
    | inr e ↦
        rw e (
          append-Fits (c ∷ []) (len_utf16 c) s (unfold utf16_count in omega arith) (ground arith) h)
  ]

  push_chars-Fits :
      (line : Text) (s : Chunker)
      → 2 ≤ max_len
      → Fits max_len s
      → Fits max_len (push_chars max_len line s)
  unfolding push_chars
  push_chars-Fits [] s wide h = h
  push_chars-Fits (c ∷ line) s wide h =
      push_chars-Fits line (push_char max_len c s) wide (push_char-Fits c s wide h)

  make_room-Fits :
      (line : Text) (s : Chunker) → Fits max_len s → Fits max_len (make_room max_len line s)
  unfolding make_room
  make_room-Fits line s h =
      elim (Bool-cases
        (ltb max_len (s.current_len + utf16_count line + 1) && not (is_empty s.current))) [
          | inl e ↦ rw e (flush-Fits s h (ground arith))
          | inr e ↦ rw e h
        ]

  -- There is room for the line behind a line break, or there is nothing to join it to.
  make_room-room :
      (line : Text) (s : Chunker)
      → (is_empty (make_room max_len line s).current ≡ true)
        ⊎ ((make_room max_len line s).current_len + utf16_count line + 1 ≤ max_len)
  unfolding make_room flush
  make_room-room line s = elim (Bool-cases (is_empty s.current)) [
    | inl e ↦ inl (ground arith)
    | inr e ↦ elim (Bool-cases (ltb max_len (s.current_len + utf16_count line + 1))) [
      | inl f ↦ inl (ground arith)
      | inr f ↦ inr (ground arith)
    ]
  ]

  join_line-Fits :
      (line : Text) (s : Chunker)
      → utf16_count line ≤ max_len
      → (is_empty s.current ≡ true) ⊎ (s.current_len + utf16_count line + 1 ≤ max_len)
      → Fits max_len s
      → Fits max_len (join_line line s)
  unfolding join_line
  join_line-Fits line s fits room h = elim (Bool-cases (is_empty s.current)) [
    | inl e ↦ rw e (
        append-Fits line (utf16_count line) s refl
          (omega (arith, h.counted, is_empty-utf16_count s.current e)) h)
    | inr e ↦ rw e (
        append-Fits line (utf16_count line) (append (b'\n' ∷ []) 1 s) refl
          (unfold append in ground arith)
          (append-Fits (b'\n' ∷ []) 1 s (unfold utf16_count len_utf16 in refl) (ground arith) h))
  ]

  add_line-Fits :
      (line : Text) (s : Chunker)
      → 2 ≤ max_len
      → Fits max_len s
      → Fits max_len (add_line max_len line s)
  unfolding add_line
  add_line-Fits line s wide h = elim (Bool-cases (ltb max_len (utf16_count line))) [
    | inl e ↦ rw e (push_chars-Fits line (make_room max_len line s) wide (make_room-Fits line s h))
    | inr e ↦ rw e (
        join_line-Fits line (make_room max_len line s) (ground arith) (make_room-room line s)
          (make_room-Fits line s h))
  ]

  add_lines-Fits :
      (ls : List Text) (s : Chunker)
      → 2 ≤ max_len
      → Fits max_len s
      → Fits max_len (add_lines max_len ls s)
  unfolding add_lines
  add_lines-Fits [] s wide h = h
  add_lines-Fits (line ∷ ls) s wide h =
      add_lines-Fits ls (add_line max_len line s) wide (add_line-Fits line s wide h)

  finish-Fits : (s : Chunker) → Fits max_len s → All (IsMessage max_len) (finish s)
  unfolding finish flush
  finish-Fits s h = elim (Bool-cases (is_empty s.current)) [
    | inl e ↦ rw e h.sent
    | inr e ↦ rw e ((flush-Fits s h e).sent)
  ]

-- Every chunk of a text that is not empty is a message that Telegram takes: it is not empty itself
-- and has at most `max_len` UTF-16 units, for every limit of two units or more.
pub chunk_text-IsMessage :
    (input : Text) (max_len : ℕ)
    → is_empty input ≡ false
    → 2 ≤ max_len
    → All (IsMessage max_len) (chunk_text input max_len)
unfolding chunk_text utf16_count
chunk_text-IsMessage input max_len says wide = rw says (
    finish-Fits max_len _ (
      add_lines-Fits max_len (lines input) _ wide
        (record { sent = tt; counted = refl; room = omega arith })))
