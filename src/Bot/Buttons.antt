-- ===== src/Bot/Buttons.antt =====
-- The buttons that src/format.rs writes, as src/bot.rs reads them.
use mathlib.Core.Option
use jmap2telegram.Prelude.{
  ℕ, ◌≡◌, ◌≢◌, refl, inl, inr, Bool, true, false, not, List, [], ◌∷◌, ◌++◌, ◌∙◌, Option, none, some,
  Bool-cases, Option-cases, if◌then◌else◌, ltb, ◌==◌, nat_eq, list_eq, list_beq, list_beq_iff, any,
  Text, text, arith,
}
use jmap2telegram.Strings.{byte_len}
use jmap2telegram.Format.{
  Button, Keyboard, SharedAccountItem, action_callback_data, button, notification_keyboard,
  expanded_rows, collapsed_rows, shared_callback, telegram_callback_data_max_len,
}
use jmap2telegram.Bot.Callback.{
  toggle_shared, menu, email_action, split_colon, split_second, dispatch, callback_of,
  shared_of_parts, email_of_parts,
}

abbrev pub HasNoColon : Text → Type 0
HasNoColon s = any (λ c. c == b':') s ≡ false

split_colon-append :
    (left right : Text) → HasNoColon left → split_colon (left ++ b':' ∷ right) ≡ some (left, right)
unfolding split_colon any
split_colon-append [] right h = refl
split_colon-append (c ∷ left) right h = ground (arith, split_colon-append left right)

split_colon-none : (s : Text) → HasNoColon s → split_colon s ≡ none
unfolding split_colon any
split_colon-none [] h = refl
split_colon-none (c ∷ s) h = ground (arith, split_colon-none s)

-- The part that is not the last of its callback data has no colon in it.
abbrev pub IsRoutable : Option Text → Text → Type 0
IsRoutable none email_id = HasNoColon email_id
IsRoutable (some id) email_id = HasNoColon id

split_once :
    (action : ℕ) (rest : Text)
    → (action == b':') ≡ false
    → split_colon (action ∷ b':' ∷ rest) ≡ some (action ∷ [], rest)
unfolding split_colon
split_once action rest h = rw h refl

split_second-none : (second : Text) → HasNoColon second → split_second second ≡ (second, none)
unfolding split_second
split_second-none second h = rw (split_colon-none second h, split_second) refl

split_second-append :
    (second third : Text)
    → HasNoColon second
    → split_second (second ++ b':' ∷ third) ≡ (second, some third)
unfolding split_second
split_second-append second third h = rw (split_colon-append second third h, split_second) refl

-- Callback data of a one-letter action goes to the dispatch of that action.
callback_of-letter :
    (action : ℕ) (rest : Text)
    → (action == b':') ≡ false
    → callback_of (action ∷ b':' ∷ rest) ≡ dispatch (action ∷ []) (split_second rest)
unfolding callback_of
callback_of-letter action rest letter = rw (split_once action rest letter, callback_of) refl

-- A button that is neither of another kind nor a colon is read as what it says of its message.
callback_of-action_callback_data :
    (action : ℕ) (account_id : Option Text) (email_id : Text)
    → (action == b':') ≡ false
    → (action == b's') ≡ false
    → (action == b'x') ≡ false
    → IsRoutable account_id email_id
    → callback_of (action_callback_data action account_id email_id)
      ≡ email_of_parts (action ∷ []) account_id email_id
unfolding action_callback_data dispatch list_beq
callback_of-action_callback_data action none email_id colon s x h =
    callback_of-letter action email_id colon
    ∙ rw (split_second-none email_id h, s, x) (ground arith)
callback_of-action_callback_data action (some id) email_id colon s x h =
    callback_of-letter action (id ++ b':' ∷ email_id) colon
    ∙ rw (split_second-append id email_id h, s, x) (ground arith)

-- Each action button is read back as its own action on the same message of the same account, for an
-- account id without a colon, or for the first account a message id without one.
pub callback_of-action :
    (action : ℕ) (account_id : Option Text) (email_id : Text)
    → any (λ a. action == a) (text "frajdu") ≡ true
    → IsRoutable account_id email_id
    → callback_of (action_callback_data action account_id email_id)
      ≡ email_action (action ∷ []) account_id email_id
unfolding email_of_parts list_beq any
callback_of-action action account_id email_id letter h =
    callback_of-action_callback_data action account_id email_id (ground arith) (ground arith)
      (ground arith) h
    ∙ ground arith

abbrev last_of_row : List Button → Option Text
last_of_row [] = none
last_of_row (b ∷ []) = some b.callback
last_of_row (_ ∷ b ∷ bs) = last_of_row (b ∷ bs)

-- The callback data of the last button of a keyboard.
abbrev pub last_callback : Keyboard → Option Text
last_callback [] = none
last_callback (row ∷ []) = last_of_row row
last_callback (_ ∷ row ∷ rows) = last_callback (row ∷ rows)

-- The letter of the button that changes a layout, for a message that is read or not.
abbrev toggle_letter : Bool → Bool → ℕ
toggle_letter true true = b'C'
toggle_letter false true = b'c'
toggle_letter true false = b'E'
toggle_letter false false = b'e'

abbrev is_too_long : Option Text → Text → Bool
is_too_long account_id email_id =
    ltb telegram_callback_data_max_len (byte_len (action_callback_data b'd' account_id email_id))

last_callback-notification_keyboard :
    (translate : Text → Text) (account_id : Option Text) (email_id : Text) (is_read expanded : Bool)
    → last_callback (notification_keyboard translate email_id account_id is_read expanded) ≡ (
        if is_too_long account_id email_id
        then none
        else some (action_callback_data (toggle_letter is_read expanded) account_id email_id))
unfolding notification_keyboard
last_callback-notification_keyboard translate account_id email_id is_read expanded =
    elim (Bool-cases (is_too_long account_id email_id)) [
      | inl e ↦ rw e refl
      | inr e ↦ rw e (toggled is_read expanded)
    ]
  where
    rows : Bool → Bool → Keyboard
    rows is_read expanded =
        if expanded
        then expanded_rows translate (button translate email_id account_id) is_read
        else collapsed_rows translate (button translate email_id account_id) is_read

    toggled :
        (is_read expanded : Bool)
        → last_callback (rows is_read expanded)
          ≡ some (action_callback_data (toggle_letter is_read expanded) account_id email_id)
    toggled true true = refl
    toggled false true = refl
    toggled true false = refl
    toggled false false = refl

callback_of-toggle :
    (account_id : Option Text) (email_id : Text) (is_read expanded : Bool)
    → IsRoutable account_id email_id
    → callback_of (action_callback_data (toggle_letter is_read expanded) account_id email_id)
      ≡ menu account_id email_id is_read (not expanded)
unfolding email_of_parts list_beq
callback_of-toggle account_id email_id true true h =
    callback_of-action_callback_data b'C' account_id email_id refl refl refl h
callback_of-toggle account_id email_id false true h =
    callback_of-action_callback_data b'c' account_id email_id refl refl refl h
callback_of-toggle account_id email_id true false h =
    callback_of-action_callback_data b'E' account_id email_id refl refl refl h
callback_of-toggle account_id email_id false false h =
    callback_of-action_callback_data b'e' account_id email_id refl refl refl h

-- The last button of a keyboard asks for the other layout of the same message, with its read state,
-- whichever layout and read state the keyboard has. A message whose callback data is too long has
-- no keyboard.
pub callback_of-last_callback :
    (translate : Text → Text) (account_id : Option Text) (email_id : Text) (is_read expanded : Bool)
    → IsRoutable account_id email_id
    → Option.map callback_of
        (last_callback (notification_keyboard translate email_id account_id is_read expanded))
      ≡ (if is_too_long account_id email_id
          then none
          else some (menu account_id email_id is_read (not expanded)))
callback_of-last_callback translate account_id email_id is_read expanded h =
    rw (last_callback-notification_keyboard translate account_id email_id is_read expanded)
      (ground (arith, callback_of-toggle account_id email_id is_read expanded h))

-- The slot of a shared mailbox has no colon and is not "p", or there is no slot and the id of the
-- mailbox has no colon.
abbrev pub IsItemRoutable : SharedAccountItem → Type 0
IsItemRoutable item = elim item.parent_slot [
  | none ↦ HasNoColon item.id
  | some slot ↦ HasNoColon slot × (slot ≢ text "p")
]

-- A button of the menu of shared mailboxes is read back as its mailbox and the slot that sees it.
pub callback_of-shared_callback :
    (item : SharedAccountItem)
    → IsItemRoutable item
    → callback_of (shared_callback item) ≡ toggle_shared item.id item.parent_slot
unfolding dispatch shared_of_parts list_beq shared_callback
callback_of-shared_callback item h = elim (Option-cases item.parent_slot) [
  | inl e ↦
      rw (e, shared_callback)
        (callback_of-letter b's' item.id refl ∙ rw (split_second-none item.id (rw e at h)) refl)
  | inr (slot, e) ↦
      let named : HasNoColon slot × (slot ≢ text "p") = rw e at h in
      rw (e, shared_callback)
        (callback_of-letter b's' (slot ++ b':' ∷ item.id) refl
          ∙ rw (split_second-append slot item.id named.0)
              (ground (arith, named.1, list_beq_iff slot (text "p"))))
]
