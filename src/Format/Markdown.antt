-- ===== src/Format/Markdown.antt =====
-- The escapes of src/format.rs, read back the way MarkdownV2 reads them.
use jmap2telegram.Prelude.{
  ℕ, ◌≡◌, refl, inl, inr, Bool, true, false, [], ◌∷◌, ◌++◌, Option, none, some, Bool-cases,
  if◌then◌else◌, ◌&&◌, ◌||◌, leb, ◌==◌, nat_eq, any, Text, arith,
}
use jmap2telegram.Format.{is_reserved, escape_markdown, escape_markdown_url}

-- The characters that Telegram documents for MarkdownV2: each must be escaped in plain text.
abbrev pub is_markup : ℕ → Bool
is_markup c =
    c == b'_'
    || c == b'*'
    || c == b'['
    || c == b']'
    || c == b'('
    || c == b')'
    || c == b'~'
    || c == b'`'
    || c == b'>'
    || c == b'#'
    || c == b'+'
    || c == b'-'
    || c == b'='
    || c == b'|'
    || c == b'{'
    || c == b'}'
    || c == b'.'
    || c == b'!'

-- The codes that Telegram lets a backslash escape: 1 to 126.
abbrev pub is_escapable : ℕ → Bool
is_escapable c = leb 1 c && leb c 126

-- A reader of plain text in MarkdownV2: a backslash stands before a character that it may escape,
-- and every character of markup stands behind one, or the message is refused. The first argument
-- says whether the last character was such a backslash.
cons_read : ℕ → Option Text → Option Text
cons_read c none = none
cons_read c (some s) = some (c ∷ s)

pub read_plain : Bool → Text → Option Text
read_plain false [] = some []
read_plain true [] = none
read_plain true (c ∷ s) =
    let more = read_plain false s in if is_escapable c then cons_read c more else none
read_plain false (c ∷ s) =
    let escaped = read_plain true s in
    let more = read_plain false s in
    if c == b'\\' then escaped else if is_markup c then none else cons_read c more

is_reserved-is_markup :
    (c : ℕ) → is_reserved c ≡ false → ((c == b'\\') ≡ false) × (is_markup c ≡ false)
unfolding is_reserved any
is_reserved-is_markup c h = (ground arith, ground arith)

is_reserved-is_escapable : (c : ℕ) → is_reserved c ≡ true → is_escapable c ≡ true
unfolding is_reserved any
is_reserved-is_escapable c h = ground arith

-- For every text, Telegram's reader of MarkdownV2 accepts the escaped text as plain text and shows
-- the text itself: no mail can inject formatting or break its notification.
pub read_plain-escape_markdown : (s : Text) → read_plain false (escape_markdown s) ≡ some s
unfolding read_plain cons_read escape_markdown
read_plain-escape_markdown [] = refl
read_plain-escape_markdown (c ∷ s) = elim (Bool-cases (is_reserved c)) [
  | inl e ↦ rw (e, is_reserved-is_escapable c e, read_plain-escape_markdown s) refl
  | inr e ↦
      let (plain, unmarked) = is_reserved-is_markup c e in
      rw (e, plain, unmarked, read_plain-escape_markdown s) refl
]

-- A reader of the URL of an inline link, behind its opening bracket: the URL and what follows.
pub read_url : Bool → Text → Option (Text × Text)
read_url escaped [] = none
read_url true (c ∷ s) = elim (read_url false s) [
  | none ↦ none
  | some (url, rest) ↦ some (c ∷ url, rest)
]
read_url false (c ∷ s) =
    let after = read_url true s in
    let more = read_url false s in
    if c == b')'
    then some ([], s)
    else if c == b'\\'
    then after
    else elim more [ none ↦ none | some (url, rest) ↦ some (c ∷ url, rest) ]

-- An escaped URL behind the opening bracket of a link is read back as it was, up to its own closing
-- bracket: no address can end the link early.
pub read_url-escape_markdown_url :
    (url rest : Text) → read_url false (escape_markdown_url url ++ b')' ∷ rest) ≡ some (url, rest)
unfolding read_url escape_markdown_url
read_url-escape_markdown_url [] rest = refl
read_url-escape_markdown_url (c ∷ url) rest = ground (arith, read_url-escape_markdown_url url rest)
