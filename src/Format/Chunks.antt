-- ===== src/Format/Chunks.antt =====
-- `chunk_text` of src/format.rs as passes over the lines and characters, with `chunks`, `current`
-- and `current_len` of the source as its state. The lengths do not come near 2 ^ 64.
use jmap2telegram.Prelude.{ℕ, ◌+◌, not, ◌&&◌, List, [], ◌∷◌, ◌++◌, if◌then◌else◌, ltb, Text, text}
use jmap2telegram.Strings.{is_empty, len_utf16, utf16_count, lines}

pub record Chunker : Type 0 where
  pub chunks : List Text
  pub current : Text
  pub current_len : ℕ

-- `chunks.push(std::mem::take(&mut current)); current_len = 0;`
unfoldable pub flush : Chunker → Chunker
flush s = record { chunks = s.chunks ++ s.current ∷ []; current = []; current_len = 0 }

unfoldable pub append : Text → ℕ → Chunker → Chunker
append piece units s = record s {
  current = s.current ++ piece;
  current_len = s.current_len + units;
}

unfoldable pub push_char : ℕ → ℕ → Chunker → Chunker
push_char max_len c s =
    append (c ∷ []) (len_utf16 c) (if ltb max_len (s.current_len + len_utf16 c) then flush s else s)

unfoldable pub push_chars : ℕ → Text → Chunker → Chunker
push_chars max_len [] s = s
push_chars max_len (c ∷ line) s = push_chars max_len line (push_char max_len c s)

unfoldable pub make_room : ℕ → Text → Chunker → Chunker
make_room max_len line s =
    if ltb max_len (s.current_len + utf16_count line + 1) && not (is_empty s.current)
    then flush s
    else s

unfoldable pub join_line : Text → Chunker → Chunker
join_line line s =
    append line (utf16_count line) (if not (is_empty s.current) then append (b'\n' ∷ []) 1 s else s)

unfoldable pub add_line : ℕ → Text → Chunker → Chunker
add_line max_len line s =
    if ltb max_len (utf16_count line)
    then push_chars max_len line (make_room max_len line s)
    else join_line line (make_room max_len line s)

unfoldable pub add_lines : ℕ → List Text → Chunker → Chunker
add_lines max_len [] s = s
add_lines max_len (line ∷ ls) s = add_lines max_len ls (add_line max_len line s)

unfoldable pub finish : Chunker → List Text
finish s = if not (is_empty s.current) then s.chunks ++ s.current ∷ [] else s.chunks

unfoldable pub chunk_text : Text → ℕ → List Text
chunk_text input max_len =
    if is_empty input
    then text "(message vide)" ∷ []
    else finish
        (add_lines max_len (lines input) (record { chunks = []; current = []; current_len = 0 }))
