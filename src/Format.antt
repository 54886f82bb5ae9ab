-- ===== src/Format.antt =====
-- src/format.rs: escaping for MarkdownV2, fields of bounded length, keyboards and their callback
-- data, and `chunk_text` (in the child Chunks). `translate` is the lookup of a key in the reader's
-- locale. `notification_text` is in the child Notification, with the rendering of times and of sizes in
-- floating point as parameters.
pub mod Chunks
pub mod Fits
pub mod Limits
pub mod Markdown
pub mod Content
pub mod Notification
use jmap2telegram.Prelude.{
  ℕ, ◌+◌, Bool, true, false, not, ◌&&◌, ◌||◌, List, [], ◌∷◌, ◌++◌, Option, none, some,
  if◌then◌else◌, ltb, ◌==◌, nat_eq, list_eq, Text, text, length, take, any,
}
use jmap2telegram.Strings.{is_empty, is_whitespace, is_control, byte_len, lines}

abbrev pub telegram_max_message_len : ℕ
telegram_max_message_len = 4096

abbrev pub telegram_callback_data_max_len : ℕ
telegram_callback_data_max_len = 64

unfoldable pub truncate : Text → ℕ → Text
truncate input limit = if ltb limit (length input) then take limit input ++ 0x2026 ∷ [] else input

-- The reserved characters of MarkdownV2.
abbrev reserved : Text
reserved = text "_*[]()~`>#+-=|{}.!\\"

unfoldable pub is_reserved : ℕ → Bool
is_reserved c = any (λ r. c == r) reserved

unfoldable pub escape_markdown : Text → Text
escape_markdown [] = []
escape_markdown (c ∷ s) =
    if is_reserved c then b'\\' ∷ c ∷ escape_markdown s else c ∷ escape_markdown s

unfoldable pub escape_markdown_url : Text → Text
escape_markdown_url [] = []
escape_markdown_url (c ∷ s) =
    let rest = escape_markdown_url s in
    if c == b')' || c == b'\\' then b'\\' ∷ c ∷ rest else c ∷ rest

-- `chars().filter(…)`
unfoldable pub mailto_url : Text → Text
unfolding is_whitespace is_control
mailto_url [] = []
mailto_url (c ∷ s) =
    let rest = mailto_url s in
    if not (is_whitespace c) && not (is_control c) then c ∷ rest else rest

-- `lines().map(|line| format!(">{line}")).join("\n")`
quote_lines : List Text → Text
quote_lines [] = []
quote_lines (l ∷ []) = b'>' ∷ l
quote_lines (l ∷ m ∷ ls) = b'>' ∷ l ++ b'\n' ∷ quote_lines (m ∷ ls)

unfoldable pub blockquote : Text → Text
unfolding quote_lines
blockquote escaped = quote_lines (lines escaped)

-- `format!("{action}:{id}:{email_id}")`
unfoldable pub action_callback_data : ℕ → Option Text → Text → Text
action_callback_data action (some id) email_id = action ∷ b':' ∷ id ++ b':' ∷ email_id
action_callback_data action none email_id = action ∷ b':' ∷ email_id

-- A button's label and callback data; a keyboard is its rows.
pub record Button : Type 0 where
  pub label : Text
  pub callback : Text

abbrev pub Keyboard : Type 0
Keyboard = List (List Button)

module _ (translate : Text → Text) where
  unfoldable pub button : Text → Option Text → Text → ℕ → Button
  button email_id account_id key action = record {
    label = translate key;
    callback = action_callback_data action account_id email_id;
  }

  unfoldable pub expanded_rows : (Text → ℕ → Button) → Bool → Keyboard
  expanded_rows btn already_read =
      (btn (text "button.read_all") b'f'
        ∷ (if already_read
            then btn (text "button.read_done") b'n'
            else btn (text "button.read") b'r')
        ∷ [])
      ∷ (btn (text "button.archive") b'a' ∷ btn (text "button.spam") b'j' ∷ [])
      ∷ (btn (text "button.delete") b'd'
          ∷ btn (text "button.less") (if already_read then b'C' else b'c')
          ∷ [])
      ∷ []

  unfoldable pub collapsed_rows : (Text → ℕ → Button) → Bool → Keyboard
  collapsed_rows btn already_read =
      (btn (text "button.archive") b'a'
        ∷ btn (text "button.delete") b'd'
        ∷ btn (text "button.more") (if already_read then b'E' else b'e')
        ∷ [])
      ∷ []

  unfoldable pub notification_keyboard : Text → Option Text → Bool → Bool → Keyboard
  unfolding expanded_rows collapsed_rows button
  notification_keyboard email_id account_id already_read expanded =
      if ltb telegram_callback_data_max_len
        (byte_len (action_callback_data b'd' account_id email_id))
      then []
      else if expanded
      then expanded_rows (button email_id account_id) already_read
      else collapsed_rows (button email_id account_id) already_read

  unfoldable pub undo_keyboard : Text → Option Text → Keyboard
  unfolding button
  undo_keyboard email_id account_id =
      if ltb telegram_callback_data_max_len
        (byte_len (action_callback_data b'u' account_id email_id))
      then []
      else (button email_id account_id (text "button.undo") b'u' ∷ []) ∷ []

pub record SharedAccountItem : Type 0 where
  pub id : Text
  pub name : Text
  pub parent_slot : Option Text

unfoldable pub shared_callback : SharedAccountItem → Text
shared_callback item = elim item.parent_slot [
  | none ↦ text "s:" ++ item.id
  | some slot ↦ text "s:" ++ slot ++ b':' ∷ item.id
]

-- A bell, with a stroke for an account that is not enabled.
bell : Bool → Text
bell true = text "🔔"
bell false = text "🔕"

unfoldable pub shared_accounts_keyboard : List SharedAccountItem → List Text → Keyboard
unfolding shared_callback bell
shared_accounts_keyboard [] enabled = []
shared_accounts_keyboard (item ∷ items) enabled =
    let rest = shared_accounts_keyboard items enabled in
    let mark = bell (any (λ id. id == item.id) enabled) in
    if ltb telegram_callback_data_max_len (byte_len (shared_callback item))
    then rest
    else (record { label = mark ++ b' ' ∷ item.name; callback = shared_callback item } ∷ []) ∷ rest
