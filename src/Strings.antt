-- ===== src/Strings.antt =====
-- What the program uses of Rust's `char` and `str`: character classes, lengths in UTF-8 and UTF-16,
-- `trim`, ASCII case, `lines`, `split`, and the decimal `Display` of integers (in the child).
pub mod Decimal
use jmap2telegram.Prelude.{
  ℕ, suc, ◌+◌, ◌-◌, ◌/◌, ◌%◌, ◌≡◌, refl, Bool, true, false, ◌&&◌, ◌||◌, List, [], ◌∷◌, ◌++◌, arith,
  ltb, leb, ◌==◌, nat_eq, if◌then◌else◌, Text, text, length, map, Option, none, some,
}

-- `char::is_whitespace`: Unicode's White_Space
unfoldable pub is_whitespace : ℕ → Bool
is_whitespace c =
    leb 9 c && leb c 13
    || c == 32
    || c == 0x85
    || c == 0xa0
    || c == 0x1680
    || leb 0x2000 c && leb c 0x200a
    || c == 0x2028
    || c == 0x2029
    || c == 0x202f
    || c == 0x205f
    || c == 0x3000

-- `char::is_control`: general category Cc
unfoldable pub is_control : ℕ → Bool
is_control c = ltb c 32 || leb 127 c && leb c 159

-- `char::len_utf8` and `char::len_utf16`
unfoldable pub len_utf8 : ℕ → ℕ
len_utf8 c = if ltb c 0x80 then 1 else if ltb c 0x800 then 2 else if ltb c 0x10000 then 3 else 4

unfoldable pub len_utf16 : ℕ → ℕ
len_utf16 c = if ltb c 0x10000 then 1 else 2

-- `s.len()`, and the number of UTF-16 code units of `s.encode_utf16()`
unfoldable pub byte_len : Text → ℕ
unfolding len_utf8
byte_len [] = 0
byte_len (c ∷ s) = len_utf8 c + byte_len s

unfoldable pub utf16_count : Text → ℕ
utf16_count [] = 0
utf16_count (c ∷ s) = len_utf16 c + utf16_count s

unfoldable pub trim_start : Text → Text
unfolding is_whitespace
trim_start [] = []
trim_start (c ∷ s) = let rest = trim_start s in if is_whitespace c then rest else c ∷ s

abbrev pub trim_step : ℕ → Text → Text
trim_step c [] = if is_whitespace c then [] else c ∷ []
trim_step c (d ∷ s) = c ∷ d ∷ s

unfoldable pub trim_end : Text → Text
unfolding is_whitespace
trim_end [] = []
trim_end (c ∷ s) = trim_step c (trim_end s)

unfoldable pub trim : Text → Text
unfolding trim_start trim_end
trim s = trim_end (trim_start s)

abbrev pub is_empty {ℓ} : {A : Type ℓ} → List A → Bool
is_empty [] = true
is_empty (x ∷ xs) = false

-- `to_ascii_lowercase` and `eq_ignore_ascii_case`
unfoldable pub ascii_lower : ℕ → ℕ
ascii_lower c = if leb b'A' c && leb c b'Z' then c + 32 else c

unfoldable pub eq_ignore_ascii_case : Text → Text → Bool
unfolding ascii_lower
eq_ignore_ascii_case [] [] = true
eq_ignore_ascii_case (x ∷ s) (y ∷ t) = ascii_lower x == ascii_lower y && eq_ignore_ascii_case s t
eq_ignore_ascii_case _ _ = false

trim_example : trim (text " a b ") ≡ text "a b"
unfolding trim
trim_example = refl

-- `str::lines`: a line ends at "\n" or "\r\n", and the last one may have no end.
unfoldable pub push_front : ℕ → List Text → List Text
push_front c [] = (c ∷ []) ∷ []
push_front c (l ∷ ls) = (c ∷ l) ∷ ls

abbrev pub at_newline : Text → Bool
at_newline [] = false
at_newline (c ∷ _) = c == b'\n'

unfoldable pub lines : Text → List Text
unfolding push_front
lines [] = []
lines (c ∷ s) =
    let rest = lines s in
    if c == b'\n' then [] ∷ rest else if c == b'\r' && at_newline s then rest else push_front c rest

-- `str::split` at a character
unfoldable pub split : ℕ → Text → List Text
unfolding push_front
split sep [] = [] ∷ []
split sep (c ∷ s) = let rest = split sep s in if c == sep then [] ∷ rest else push_front c rest

-- `char::encode_utf8`, and `str::bytes`
unfoldable pub encode_utf8 : ℕ → List ℕ
encode_utf8 c =
    if ltb c 0x80
    then c ∷ []
    else if ltb c 0x800
    then (0xc0 + c / 64) ∷ (0x80 + c % 64) ∷ []
    else if ltb c 0x10000
    then (0xe0 + c / 4096) ∷ (0x80 + c / 64 % 64) ∷ (0x80 + c % 64) ∷ []
    else (0xf0 + c / 262144) ∷ (0x80 + c / 4096 % 64) ∷ (0x80 + c / 64 % 64) ∷ (0x80 + c % 64) ∷ []

unfoldable pub bytes : Text → List ℕ
unfolding encode_utf8
bytes [] = []
bytes (c ∷ s) = encode_utf8 c ++ bytes s

-- `[T]::join`
unfoldable pub join : Text → List Text → Text
join sep [] = []
join sep (s ∷ []) = s
join sep (s ∷ t ∷ ts) = s ++ sep ++ join sep (t ∷ ts)

-- `str::split_whitespace`
abbrev push_word : ℕ → Bool → List Text → List Text
push_word c true ws = (c ∷ []) ∷ ws
push_word c false ws = push_front c ws

abbrev ends_word : Text → Bool
ends_word [] = true
ends_word (c ∷ _) = is_whitespace c

unfoldable pub words : Text → List Text
unfolding is_whitespace push_front
words [] = []
words (c ∷ s) =
    let rest = words s in if is_whitespace c then rest else push_word c (ends_word s) rest

words_example :
    words (text "GET  /metrics HTTP/1.1\r\n") ≡ text "GET" ∷ text "/metrics" ∷ text "HTTP/1.1" ∷ []
unfolding words is_whitespace push_front
words_example = refl
