-- ===== src/Tests/FormatExamples.antt =====
-- The theorems on messages and buttons, at small inputs.
use mathlib.Core.Option
use jmap2telegram.Prelude.{
  ◌≡◌, refl, any, true, false, none, some, text, All, arith, nat_eq, list_eq, if◌then◌else◌, ltb,
}
use jmap2telegram.Strings.{byte_len}
use jmap2telegram.Format.{
  SharedAccountItem, action_callback_data, escape_markdown, notification_keyboard, shared_callback,
  telegram_callback_data_max_len,
}
use jmap2telegram.Format.Chunks.{chunk_text}
use jmap2telegram.Format.Fits.{IsMessage, chunk_text-IsMessage}
use jmap2telegram.Format.Content.{
  joined, without_newlines, without_line_ends, without_newlines-chunk_text,
}
use jmap2telegram.Format.Markdown.{read_plain, read_plain-escape_markdown}
use jmap2telegram.Bot.Callback.{callback_of, email_action, menu, toggle_shared}
use jmap2telegram.Bot.Buttons.{
  callback_of-action, callback_of-last_callback, callback_of-shared_callback, last_callback,
}

chunk_text-IsMessage_example : All (IsMessage 4) (chunk_text (text "abc\nde\n\nfghijk") 4)
chunk_text-IsMessage_example = chunk_text-IsMessage (text "abc\nde\n\nfghijk") 4 refl (omega arith)

without_newlines-chunk_text_example :
    without_newlines (joined (chunk_text (text "abc\r\nde\n\nfghijk") 4))
    ≡ without_line_ends (text "abc\r\nde\n\nfghijk")
without_newlines-chunk_text_example =
    without_newlines-chunk_text (text "abc\r\nde\n\nfghijk") 4 refl

read_plain-escape_markdown_example :
    read_plain false (escape_markdown (text "*50%* [off](x)")) ≡ some (text "*50%* [off](x)")
read_plain-escape_markdown_example = read_plain-escape_markdown (text "*50%* [off](x)")

abbrev team : SharedAccountItem
team = record { id = text "acc9"; name = text "Team"; parent_slot = some (text "work") }

callback_of-action_example :
    callback_of (action_callback_data b'a' (some (text "acc9")) (text "M1"))
    ≡ email_action (text "a") (some (text "acc9")) (text "M1")
unfolding any
callback_of-action_example = callback_of-action b'a' (some (text "acc9")) (text "M1") refl refl

callback_of-last_callback_example :
    Option.map callback_of
      (last_callback (notification_keyboard (λ k. k) (text "M1") (some (text "acc9")) true false))
    ≡ (if ltb telegram_callback_data_max_len
          (byte_len (action_callback_data b'd' (some (text "acc9")) (text "M1")))
        then none
        else some (menu (some (text "acc9")) (text "M1") true true))
unfolding any
callback_of-last_callback_example =
    callback_of-last_callback (λ k. k) (some (text "acc9")) (text "M1") true false refl

callback_of-shared_callback_example :
    callback_of (shared_callback team) ≡ toggle_shared (text "acc9") (some (text "work"))
unfolding any
callback_of-shared_callback_example =
    callback_of-shared_callback team (refl, λ same. ground (arith, same))
