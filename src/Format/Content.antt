-- ===== src/Format/Content.antt =====
-- What `chunk_text` (src/format.rs) keeps of the text.
use jmap2telegram.Prelude.{
  ℕ, ◌≡◌, refl, sym, ap, ◌∙◌, inl, inr, Bool, true, false, not, ◌&&◌, List, [], ◌∷◌, ◌++◌,
  Bool-cases, if◌then◌else◌, ltb, ◌==◌, nat_eq, Text, arith, append_assoc, append-nil,
}
use jmap2telegram.Strings.{is_empty, len_utf16, utf16_count, lines, at_newline, push_front}
use jmap2telegram.Format.Chunks.{
  Chunker, flush, append, push_char, push_chars, make_room, join_line, add_line, add_lines, finish,
  chunk_text,
}

-- The texts one after the other.
pub joined : List Text → Text
joined [] = []
joined (t ∷ ts) = t ++ joined ts

pub without_newlines : Text → Text
without_newlines [] = []
without_newlines (c ∷ s) = let rest = without_newlines s in if c == b'\n' then rest else c ∷ rest

-- A text without its line ends, "\n" or "\r\n".
pub without_line_ends : Text → Text
without_line_ends [] = []
without_line_ends (c ∷ s) =
    let rest = without_line_ends s in
    if c == b'\n' then rest else if c == b'\r' && at_newline s then rest else c ∷ rest

joined-append : (ts us : List Text) → joined (ts ++ us) ≡ joined ts ++ joined us
unfolding joined
joined-append [] us = refl
joined-append (t ∷ ts) us =
    ap (λ u. t ++ u) (joined-append ts us) ∙ sym (append_assoc t (joined ts) (joined us))

without_newlines-append :
    (s t : Text) → without_newlines (s ++ t) ≡ without_newlines s ++ without_newlines t
unfolding without_newlines
without_newlines-append [] t = refl
without_newlines-append (c ∷ s) t = ground (arith, without_newlines-append s t)

-- What has been written so far.
written : Chunker → Text
unfolding joined
written s = joined s.chunks ++ s.current

visible : Chunker → Text
unfolding written without_newlines
visible s = without_newlines (written s)

written-flush : (s : Chunker) → written (flush s) ≡ written s
unfolding written flush joined
written-flush s =
    append-nil _
    ∙ joined-append s.chunks (s.current ∷ [])
    ∙ ap (λ u. joined s.chunks ++ u) (append-nil s.current)

visible-append :
    (piece : Text) (units : ℕ) (s : Chunker)
    → visible (append piece units s) ≡ visible s ++ without_newlines piece
unfolding visible written append
visible-append piece units s =
    ap without_newlines (sym (append_assoc (joined s.chunks) s.current piece))
    ∙ without_newlines-append (joined s.chunks ++ s.current) piece

visible-flush : (s : Chunker) → visible (flush s) ≡ visible s
unfolding visible
visible-flush s = ap without_newlines (written-flush s)

visible-flush_if : (test : Bool) (s : Chunker) → visible (if test then flush s else s) ≡ visible s
visible-flush_if true s = visible-flush s
visible-flush_if false s = refl

module _ (max_len : ℕ) where
  visible-push_char :
      (c : ℕ) (s : Chunker)
      → visible (push_char max_len c s) ≡ visible s ++ without_newlines (c ∷ [])
  unfolding push_char
  visible-push_char c s =
      visible-append (c ∷ []) (len_utf16 c) _
      ∙ ap (λ t. t ++ without_newlines (c ∷ [])) (visible-flush_if _ s)

  visible-push_chars :
      (line : Text) (s : Chunker)
      → visible (push_chars max_len line s) ≡ visible s ++ without_newlines line
  unfolding push_chars without_newlines
  visible-push_chars [] s = sym (append-nil (visible s))
  visible-push_chars (c ∷ line) s =
      visible-push_chars line (push_char max_len c s)
      ∙ ap (λ t. t ++ without_newlines line) (visible-push_char c s)
      ∙ append_assoc (visible s) (without_newlines (c ∷ [])) (without_newlines line)
      ∙ ap (λ t. visible s ++ t) (sym (without_newlines-append (c ∷ []) line))

  visible-join_line :
      (line : Text) (s : Chunker) → visible (join_line line s) ≡ visible s ++ without_newlines line
  unfolding join_line without_newlines visible
  visible-join_line line s =
      visible-append line (utf16_count line) _
      ∙ ap (λ t. t ++ without_newlines line) (broken (not (is_empty s.current)))
    where
      broken : (test : Bool) → visible (if test then append (b'\n' ∷ []) 1 s else s) ≡ visible s
      broken true = visible-append (b'\n' ∷ []) 1 s ∙ append-nil (visible s)
      broken false = refl

  visible-add_line :
      (line : Text) (s : Chunker)
      → visible (add_line max_len line s) ≡ visible s ++ without_newlines line
  unfolding add_line make_room
  visible-add_line line s = elim (Bool-cases (ltb max_len (utf16_count line))) [
    | inl e ↦ rw e (
        visible-push_chars line (make_room max_len line s)
        ∙ ap (λ t. t ++ without_newlines line) (visible-flush_if _ s))
    | inr e ↦ rw e (
        visible-join_line line (make_room max_len line s)
        ∙ ap (λ t. t ++ without_newlines line) (visible-flush_if _ s))
  ]

  visible-add_lines :
      (ls : List Text) (s : Chunker)
      → visible (add_lines max_len ls s) ≡ visible s ++ without_newlines (joined ls)
  unfolding add_lines joined without_newlines
  visible-add_lines [] s = sym (append-nil (visible s))
  visible-add_lines (line ∷ ls) s =
      visible-add_lines ls (add_line max_len line s)
      ∙ ap (λ t. t ++ without_newlines (joined ls)) (visible-add_line line s)
      ∙ append_assoc (visible s) (without_newlines line) (without_newlines (joined ls))
      ∙ ap (λ t. visible s ++ t) (sym (without_newlines-append line (joined ls)))

is_empty_lem : (t : Text) → is_empty t ≡ true → t ≡ []
is_empty_lem [] h = refl
is_empty_lem (c ∷ t) h = ground arith

joined-finish : (s : Chunker) → joined (finish s) ≡ written s
unfolding finish written joined
joined-finish s = elim (Bool-cases (is_empty s.current)) [
  | inl e ↦ rw e (ground (arith, append-nil (joined s.chunks), is_empty_lem s.current e))
  | inr e ↦ rw e (
      joined-append s.chunks (s.current ∷ [])
      ∙ ap (λ u. joined s.chunks ++ u) (append-nil s.current))
]

joined-nil_first : (ls : List Text) → joined ([] ∷ ls) ≡ joined ls
unfolding joined
joined-nil_first ls = refl

joined-push_front : (c : ℕ) (ls : List Text) → joined (push_front c ls) ≡ c ∷ joined ls
unfolding joined push_front
joined-push_front c [] = refl
joined-push_front c (l ∷ ls) = refl

without_newlines-joined :
    (input : Text) → without_newlines (joined (lines input)) ≡ without_line_ends input
unfolding without_newlines lines without_line_ends
without_newlines-joined [] = unfold joined in refl
without_newlines-joined (c ∷ s) = elim (Bool-cases (c == b'\n')) [
  | inl e ↦ rw (e, joined-nil_first (lines s)) (without_newlines-joined s)
  | inr e ↦ elim (Bool-cases (c == b'\r' && at_newline s)) [
    | inl f ↦ rw (e, f) (without_newlines-joined s)
    | inr f ↦ rw (e, f, joined-push_front c (lines s), e) (ap (◌∷◌ c) (without_newlines-joined s))
  ]
]

-- The chunks of a text, one after the other and without the line breaks in them, are the text
-- without its line ends: no other character is lost, repeated or moved, for every limit.
pub without_newlines-chunk_text :
    (input : Text) (max_len : ℕ)
    → is_empty input ≡ false
    → without_newlines (joined (chunk_text input max_len)) ≡ without_line_ends input
unfolding chunk_text visible
without_newlines-chunk_text input max_len says = rw says (
    ap without_newlines (joined-finish _)
    ∙ visible-add_lines max_len (lines input) fresh
    ∙ unfold visible written joined without_newlines in without_newlines-joined input)
  where
    fresh : Chunker
    fresh = record { chunks = []; current = []; current_len = 0 }
