-- ===== src/Format/Limits.antt =====
-- The limits of Telegram that the keyboards and fields of src/format.rs keep.
use jmap2telegram.Prelude.{
  ℕ, ◌≤◌, ◌<◌, ◌≡◌, inl, inr, Bool, true, false, List, [], ◌∷◌, Option, none, some, Bool-cases,
  if◌then◌else◌, ltb, Text, All, arith,
}
use jmap2telegram.Strings.{byte_len, len_utf8}
use jmap2telegram.Format.{
  Button, Keyboard, SharedAccountItem, action_callback_data, button, notification_keyboard,
  undo_keyboard, expanded_rows, collapsed_rows, shared_callback, shared_accounts_keyboard,
  telegram_callback_data_max_len,
}

-- Telegram takes at most 64 bytes of callback data.
abbrev pub FitsCallback : Button → Type 0
FitsCallback b = byte_len b.callback ≤ 64

byte_len-action_callback_data :
    (action : ℕ) (account_id : Option Text) (email_id : Text)
    → action < 128
    → byte_len (action_callback_data action account_id email_id)
      ≡ byte_len (action_callback_data b'd' account_id email_id)
unfolding byte_len len_utf8 action_callback_data
byte_len-action_callback_data action none email_id ascii = ground arith
byte_len-action_callback_data action (some id) email_id ascii = ground arith

module _ (translate : Text → Text) (email_id : Text) (account_id : Option Text) where
  button-FitsCallback :
      byte_len (action_callback_data b'd' account_id email_id) ≤ telegram_callback_data_max_len
      → (key : Text) (action : ℕ) → action < 128
      → FitsCallback (button translate email_id account_id key action)
  unfolding button
  button-FitsCallback fits key action ascii =
      omega (arith, byte_len-action_callback_data action account_id email_id ascii)

  abbrev expanded_keyboard : Bool → Keyboard
  expanded_keyboard = expanded_rows translate (button translate email_id account_id)

  abbrev collapsed_keyboard : Bool → Keyboard
  collapsed_keyboard = collapsed_rows translate (button translate email_id account_id)

  expanded_rows-FitsCallback :
      (is_read : Bool)
      → byte_len (action_callback_data b'd' account_id email_id) ≤ telegram_callback_data_max_len
      → All (All FitsCallback) (expanded_keyboard is_read)
  unfolding expanded_rows
  expanded_rows-FitsCallback true h =
      let fits = button-FitsCallback h in
      (
        (fits _ b'f' (omega arith), (fits _ b'n' (omega arith), tt)),
        (
          (fits _ b'a' (omega arith), (fits _ b'j' (omega arith), tt)),
          ((fits _ b'd' (omega arith), (fits _ b'C' (omega arith), tt)), tt),
        ),
      )
  expanded_rows-FitsCallback false h =
      let fits = button-FitsCallback h in
      (
        (fits _ b'f' (omega arith), (fits _ b'r' (omega arith), tt)),
        (
          (fits _ b'a' (omega arith), (fits _ b'j' (omega arith), tt)),
          ((fits _ b'd' (omega arith), (fits _ b'c' (omega arith), tt)), tt),
        ),
      )

  collapsed_rows-FitsCallback :
      (is_read : Bool)
      → byte_len (action_callback_data b'd' account_id email_id) ≤ telegram_callback_data_max_len
      → All (All FitsCallback) (collapsed_keyboard is_read)
  unfolding collapsed_rows
  collapsed_rows-FitsCallback true h =
      let fits = button-FitsCallback h in
      (
        (fits _ b'a' (omega arith), (fits _ b'd' (omega arith), (fits _ b'E' (omega arith), tt))),
        tt,
      )
  collapsed_rows-FitsCallback false h =
      let fits = button-FitsCallback h in
      (
        (fits _ b'a' (omega arith), (fits _ b'd' (omega arith), (fits _ b'e' (omega arith), tt))),
        tt,
      )

  pub notification_keyboard-FitsCallback :
      (is_read expanded : Bool)
      → All
          (All FitsCallback)
          (notification_keyboard translate email_id account_id is_read expanded)
  unfolding notification_keyboard
  notification_keyboard-FitsCallback is_read expanded =
      elim (Bool-cases (
        ltb telegram_callback_data_max_len
          (byte_len (action_callback_data b'd' account_id email_id)))) [
            | inl e ↦ rw e tt
            | inr e ↦ rw e (layout expanded (ground arith))
          ]
    where
      layout :
          (expanded : Bool)
          → byte_len (action_callback_data b'd' account_id email_id)
            ≤ telegram_callback_data_max_len
          → All
              (All FitsCallback)
              (if expanded then expanded_keyboard is_read else collapsed_keyboard is_read)
      layout true h = expanded_rows-FitsCallback is_read h
      layout false h = collapsed_rows-FitsCallback is_read h

  pub undo_keyboard-FitsCallback :
      All (All FitsCallback) (undo_keyboard translate email_id account_id)
  unfolding undo_keyboard
  undo_keyboard-FitsCallback =
      elim (Bool-cases (
        ltb telegram_callback_data_max_len
          (byte_len (action_callback_data b'u' account_id email_id)))) [
            | inl e ↦ rw e tt
            | inr e ↦ rw e ((ground arith, tt), tt)
          ]

pub shared_accounts_keyboard-FitsCallback :
    (items : List SharedAccountItem) (enabled : List Text)
    → All (All FitsCallback) (shared_accounts_keyboard items enabled)
unfolding shared_accounts_keyboard
shared_accounts_keyboard-FitsCallback [] enabled = tt
shared_accounts_keyboard-FitsCallback (item ∷ items) enabled =
    elim (Bool-cases (ltb telegram_callback_data_max_len (byte_len (shared_callback item)))) [
      | inl e ↦ rw e (shared_accounts_keyboard-FitsCallback items enabled)
      | inr e ↦ rw e ((ground arith, tt), shared_accounts_keyboard-FitsCallback items enabled)
    ]
