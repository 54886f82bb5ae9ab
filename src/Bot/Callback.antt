-- ===== src/Bot/Callback.antt =====
-- The reading of callback data at the start of `callback_handler` (src/bot.rs): which branch of the
-- handler a tap takes, with the values that the branch reads.
use jmap2telegram.Prelude.{
  ℕ, Bool, true, false, ◌&&◌, [], ◌∷◌, Option, none, some, if◌then◌else◌, ◌==◌, nat_eq, list_eq,
  Text, text,
}

pub data Callback : Type 0 where
  ignored : Callback
  toggle_shared : Text → Option Text → Callback
  disconnect : Text → Callback
  threads : Text → Callback
  logout_all : Callback
  -- the account, the message, whether it is read, and whether the menu is to be expanded
  menu : Option Text → Text → Bool → Bool → Callback
  already_read : Callback
  email_action : Text → Option Text → Text → Callback

put_before : ℕ → Option (Text × Text) → Option (Text × Text)
put_before c none = none
put_before c (some (left, right)) = some (c ∷ left, right)

-- The text before and behind the first colon.
unfoldable pub split_colon : Text → Option (Text × Text)
unfolding put_before
split_colon [] = none
split_colon (c ∷ s) =
    let rest = split_colon s in if c == b':' then some ([], s) else put_before c rest

-- `data.splitn(3, ':')`, where there is a second part
unfoldable pub split_second : Text → Text × Option Text
unfolding split_colon
split_second rest = elim (split_colon rest) [
  | none ↦ (rest, none)
  | some (second, third) ↦ (second, some third)
]

unfoldable pub shared_of_parts : Text → Option Text → Callback
shared_of_parts second none = toggle_shared second none
shared_of_parts second (some id) =
    toggle_shared id (if second == text "p" then none else some second)

unfoldable pub email_of_parts : Text → Option Text → Text → Callback
email_of_parts action account_id email_id =
    if action == text "e"
    then menu account_id email_id false true
    else if action == text "E"
    then menu account_id email_id true true
    else if action == text "c"
    then menu account_id email_id false false
    else if action == text "C"
    then menu account_id email_id true false
    else if action == text "n"
    then already_read
    else email_action action account_id email_id

abbrev pub email_parts : Text → Option Text → Option Text × Text
email_parts second (some email_id) = (some second, email_id)
email_parts second none = (none, second)

unfoldable pub dispatch : Text → Text × Option Text → Callback
unfolding shared_of_parts email_of_parts
dispatch action (second, third) =
    if action == text "s"
    then shared_of_parts second third
    else if action == text "x"
    then disconnect second
    else if action == text "th"
    then threads second
    else if action == text "logout" && second == text "all"
    then logout_all
    else email_of_parts action (email_parts second third).0 (email_parts second third).1

unfoldable pub callback_of : Text → Callback
unfolding split_colon split_second dispatch
callback_of data' = elim (split_colon data') [
  | none ↦ ignored
  | some (action, rest) ↦ dispatch action (split_second rest)
]
