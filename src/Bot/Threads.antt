-- ===== src/Bot/Threads.antt =====
-- `cmd_threads` and the taps "th" of src/bot.rs.
use jmap2telegram.Prelude.{
  ℕ, ◌+◌, Bool, true, false, ◌||◌, List, [], ◌∷◌, ◌++◌, Option, none, some, if◌then◌else◌, ltb,
  is_some, ◌==◌, nat_eq, list_eq, length, Text, text, ℤ, Result, ◌>>=◌, ◌>>◌, give, ignore,
}
use jmap2telegram.Strings.{trim}
use jmap2telegram.Strings.Decimal.{display}
use jmap2telegram.Account.{Account}
use jmap2telegram.Store.{Error, get}
use jmap2telegram.Store.Settings
use jmap2telegram.Config.{ThreadedModeConfig, disabled, enabled, auto}
use jmap2telegram.Format.{Keyboard}
use jmap2telegram.Topics.{is_threaded_mode_enabled}
use jmap2telegram.Topics.Ensure.{sync_all_topics}
use jmap2telegram.Act.{
  Env, Act, ChatTarget, send_message, delete_message, make_call, call_ignored, send_to, answer_with,
  on_store, or_storage, get_app,
}
use jmap2telegram.Bot.Replies.{t, t_count}

abbrev is_one_of : Text → Text → Text → Text → Bool
is_one_of word a b c = word == a || word == b || word == c

mode_name : ThreadedModeConfig → Text
mode_name auto = text "auto"
mode_name enabled = text "enabled"
mode_name disabled = text "disabled"

-- `filter(|(_, tid)| tid.is_some()).count()`
unfoldable pub created_count : List (Text × Option ℤ) → ℕ
created_count [] = 0
created_count ((_, tid) ∷ results) =
    let rest = created_count results in if is_some tid then 1 + rest else rest

module _ (e : Env) (target : ChatTarget) (lang : Text) where
  abbrev set_threads : Bool → Act e (Result Bool Error)
  set_threads on = on_store (λ b io. Settings.set_threads_enabled b io target.id (some on))

  enable_threads : Act e (Unit {0})
  unfolding created_count
  enable_threads = do
    r ← set_threads true
    or_storage r
    results ← sync_all_topics target.id
    if ltb 0 (created_count results)
        then send_to target
            (t_count e lang (text "bot.threads_enabled_success") (created_count results))
        else send_to target (t e lang (text "bot.threads_not_forum"))

  disable_threads : Act e (Unit {0})
  disable_threads = do
    r ← set_threads false
    or_storage r
    send_to target (t e lang (text "bot.threads_disabled_success"))

  unfoldable pub overview_keyboard : Bool → Keyboard
  overview_keyboard is_enabled =
      (record {
        label =
            t e lang (
              if is_enabled then text "bot.threads_btn_disable" else text "bot.threads_btn_enable");
        callback = if is_enabled then text "th:off" else text "th:on";
      }
        ∷ [])
      ∷ (record { label = t e lang (text "bot.threads_btn_sync"); callback = text "th:sync" } ∷ [])
      ∷ []

  overview_text : Bool → Account → Text
  unfolding mode_name
  overview_text is_enabled acc = e.translate lang (text "bot.threads_overview") (
      (
        text "status",
        t e lang
            (if is_enabled then text "bot.threads_status_on" else text "bot.threads_status_off"),
      )
      ∷ (text "server_mode", mode_name e.config.telegram_threaded_mode)
      ∷ (text "count", display (length acc.accounts))
      ∷ [])

  send_overview : Account → Act e (Unit {0})
  unfolding overview_text overview_keyboard
  send_overview acc =
      let is_enabled = is_threaded_mode_enabled e.config (some acc) in
      make_call
        (send_message target (overview_text is_enabled acc) (some (overview_keyboard is_enabled)))

  threads_word : Text → Account → Act e (Unit {0})
  unfolding enable_threads disable_threads send_overview
  threads_word word acc =
      if is_one_of word (text "on") (text "enable") (text "activer")
      then enable_threads
      else if is_one_of word (text "off") (text "disable") (text "desactiver")
      then disable_threads
      else send_overview acc

  threads_of : Text → Option Account → Act e (Unit {0})
  unfolding threads_word
  threads_of arg none = send_to target (t e lang (text "bot.no_account"))
  threads_of arg (some acc) = threads_word (e.lowercase (trim arg)) acc

  unfoldable pub cmd_threads : Text → Act e (Unit {0})
  unfolding threads_of
  cmd_threads arg = do app ← get_app; threads_of arg (get target.id app.store)

module _ (e : Env) (chat_id : ℤ) (message_id : ℕ) (lang : Text) where
  abbrev chat : ChatTarget
  chat = record { id = chat_id; thread_id = none }

  -- The toast, the removal of the overview, and a fresh overview.
  show_again : Text → Act e (Unit {0})
  show_again toast = do
    answer_with toast
    call_ignored (delete_message chat_id message_id)
    cmd_threads e chat lang []

  tap_on : Act e (Unit {0})
  unfolding show_again
  tap_on = do
    ignore (set_threads e chat lang true)
    results ← sync_all_topics chat_id
    show_again (
        t e lang (
          if ltb 0 (created_count results)
          then text "bot.threads_toast_enabled"
          else text "bot.threads_toast_not_forum"))

  tap_off : Act e (Unit {0})
  unfolding show_again
  tap_off = do
    ignore (set_threads e chat lang false)
    show_again (t e lang (text "bot.threads_toast_disabled"))

  tap_sync : Act e (Unit {0})
  unfolding show_again
  tap_sync = do
    results ← sync_all_topics chat_id
    show_again (
        t e lang (text "bot.threads_toast_synced")
        ++ text " ("
        ++ display (created_count results)
        ++ text ")")

  unfoldable pub threads_tap : Text → Act e (Unit {0})
  unfolding tap_on tap_off tap_sync
  threads_tap second =
      if second == text "on"
      then tap_on
      else if second == text "off"
      then tap_off
      else if second == text "sync"
      then tap_sync
      else give tt
