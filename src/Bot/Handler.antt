-- ===== src/Bot/Handler.antt =====
-- `message_handler` and `callback_handler` of src/bot.rs. `parse` is `BotCommands::parse`, which
-- teloxide derives from `Command`, with the bot's own name.
pub mod Authorized
use jmap2telegram.Prelude.{
  ℕ, Bool, true, false, not, ◌||◌, List, [], ◌∷◌, Option, none, some, if◌then◌else◌, any, ◌==◌,
  nat_eq, list_eq, int_eq, Text, text, ℤ, Result, ok, err, ◌>>=◌, ◌>>◌, give,
}
use jmap2telegram.Strings.{trim, is_empty}
use jmap2telegram.Jmap.{JmapError}
use jmap2telegram.I18n.{help_text}
use jmap2telegram.Format.{notification_keyboard}
use jmap2telegram.State.{language_for, AppState}
use jmap2telegram.State.Clients.{client_for, client_for_account, client_for_shared}
use jmap2telegram.Act.{
  Env, World, Act, ChatTarget, delete_message, edit_message_reply_markup, call_ignored, try_call,
  send_to, answer_with, alert, answer_quietly, with_app, get_app,
}
use jmap2telegram.Bot.Replies.{t, t_jmap}
use jmap2telegram.Bot.Callback.{
  Callback, ignored, toggle_shared, disconnect, threads, menu, already_read, email_action,
  callback_of,
}
use jmap2telegram.Bot.Callback
use jmap2telegram.Bot.Triage.{
  CallbackCtx, EmailRef, archive, junk, delete, perform_triage_action, undo, read_message,
}
use jmap2telegram.Bot.FullText.{full_text}
use jmap2telegram.Bot.Settings.{cmd_lang, cmd_start, cmd_status, cmd_mute, cmd_unmute}
use jmap2telegram.Bot.Threads.{cmd_threads, threads_tap}
use jmap2telegram.Bot.Login.{cmd_login, cmd_comptes}
use jmap2telegram.Bot.Logout.{cmd_logout, disconnect_account}
use jmap2telegram.Bot.Logout
use jmap2telegram.Bot.Search.{cmd_rechercher}
use jmap2telegram.Bot.Sharing.{cmd_partages, toggle_shared_account}

pub data Command : Type 0 where
  start logout status shared help : Command
  login : Text → Text → Command
  accounts mute unmute search thread_mode lang : Text → Command

pub record Message : Type 0 where
  pub chat_id : ℤ
  pub is_private : Bool
  pub thread_id : Option ℤ
  pub message_id : ℕ
  pub language_code : Option Text
  pub body : Option Text

-- The message of a tap, when Telegram still has it.
pub record TapMessage : Type 0 where
  pub chat_id : ℤ
  pub is_private : Bool
  pub message_id : ℕ

pub record CallbackQuery : Type 0 where
  pub message : Option TapMessage
  pub payload : Option Text
  pub language_code : Option Text

unfoldable pub is_authorized : Env → ℤ → Bool
is_authorized e chat_id = any (λ id. id == chat_id) e.config.authorized_chat_ids

unfoldable pub language_of : (e : Env) → ℤ → Option Text → World e → Text
language_of e chat_id code w = language_for e.config.default_language chat_id code w.app

module _ (e : Env) where
  module _ (parse : Text → Option Command) (msg : Message) (language : Text) where
    abbrev target : ChatTarget
    target = record { id = msg.chat_id; thread_id = msg.thread_id }

    -- `if bot.delete_message(…).await.is_err() { send(…).await? }`
    delete_token : Text → Act e (Unit {0})
    delete_token key = do
      deleted ← try_call (delete_message msg.chat_id msg.message_id)
      if deleted then give tt else send_to target (t e language key)

    unfoldable pub run_command : Command → Act e (Unit {0})
    unfolding delete_token
    run_command start = cmd_start e target language
    run_command help = send_to target (help_text (t e language))
    run_command (login server_url token) = do
      delete_token (text "bot.delete_token_login")
      cmd_login e target language server_url token
    run_command logout = cmd_logout e target language
    run_command status = cmd_status e target language
    run_command shared = cmd_partages e target language
    run_command (accounts args) = do
      if is_empty (trim args) then give tt else delete_token (text "bot.delete_token_accounts")
      cmd_comptes e target language args
    run_command (mute term) = cmd_mute e target language term
    run_command (unmute term) = cmd_unmute e target language term
    run_command (search query) = cmd_rechercher e target language query
    run_command (thread_mode arg) = cmd_threads e target language arg
    run_command (lang requested) = cmd_lang e target language requested

    run_parsed : Option Command → Act e (Unit {0})
    unfolding run_command
    run_parsed none = send_to target (t e language (text "bot.unknown_command"))
    run_parsed (some command) = run_command command

    run_body : Option Text → Act e (Unit {0})
    unfolding run_parsed
    run_body none = give tt
    run_body (some body) = run_parsed (parse body)

    unfoldable pub handle_message : Act e (Unit {0})
    unfolding run_body
    handle_message =
        if not msg.is_private
        then give tt
        else if not (is_authorized e msg.chat_id)
        then send_to target (t e language (text "bot.unauthorized"))
        else run_body msg.body

  unfoldable pub message_handler : (Text → Option Command) → Message → Act e (Unit {0})
  unfolding handle_message
  message_handler parse msg w =
      handle_message parse msg (language_of e msg.chat_id msg.language_code w) w

  module _ (tap : TapMessage) (language : Text) where
    abbrev Lookup : Type 0
    Lookup = Result (Option e.net.Client) JmapError

    or_account : Text → Lookup → Act e Lookup
    or_account acc (ok (some client)) = give (ok (some client))
    or_account acc (ok none) = with_app (client_for_account e.net tap.chat_id acc)
    or_account acc (err x) = give (err x)

    unfoldable pub find_client : Option Text → Act e Lookup
    unfolding or_account
    find_client none = with_app (client_for e.net tap.chat_id)
    find_client (some acc) = do
      found ← with_app (client_for_shared e.net tap.chat_id acc)
      or_account acc found

    abbrev ctx : CallbackCtx
    ctx = record { chat_id = tap.chat_id; message_id = tap.message_id }

    unfoldable pub run_email_action : Text → e.net.Client → EmailRef → Act e (Unit {0})
    run_email_action action client email =
        if action == text "r"
        then read_message e ctx client email language
        else if action == text "a"
        then perform_triage_action e ctx client email language archive
        else if action == text "j"
        then perform_triage_action e ctx client email language junk
        else if action == text "d"
        then perform_triage_action e ctx client email language delete
        else if action == text "u"
        then undo e ctx client email language
        else if action == text "f"
        then full_text e tap.chat_id language client email.email_id
        else answer_quietly

    with_client : Text → EmailRef → Lookup → Act e (Unit {0})
    unfolding run_email_action
    with_client action email (ok (some client)) = run_email_action action client email
    with_client action email (ok none) =
        answer_with (t e language (text "bot.no_account_or_disabled"))
    with_client action email (err x) = alert (t_jmap e language (text "bot.connection_error") x)

    unfoldable pub run_callback : Callback → Act e (Unit {0})
    unfolding find_client with_client
    run_callback ignored = answer_quietly
    run_callback (toggle_shared account_id parent_slot) =
        toggle_shared_account e tap.chat_id tap.message_id language account_id parent_slot
    run_callback (disconnect slot_id) = disconnect_account e tap.chat_id language slot_id
    run_callback (threads second) = threads_tap e tap.chat_id tap.message_id language second
    run_callback Callback.logout_all = Logout.logout_all e tap.chat_id language tap.message_id
    run_callback (menu account_id email_id is_read expanded) = do
      call_ignored (
          edit_message_reply_markup tap.chat_id tap.message_id
            (notification_keyboard (t e language) email_id account_id is_read expanded))
      answer_quietly
    run_callback already_read = answer_with (t e language (text "bot.already_read"))
    run_callback (email_action action account_id email_id) = do
      found ← find_client account_id
      with_client action (record { account_id = account_id; email_id = email_id }) found

    run_payload : Option Text → Act e (Unit {0})
    unfolding run_callback callback_of
    run_payload none = answer_quietly
    run_payload (some payload) = run_callback (callback_of payload)

    unfoldable pub handle_tap : Option Text → Act e (Unit {0})
    unfolding run_payload
    handle_tap payload =
        if not tap.is_private || not (is_authorized e tap.chat_id)
        then answer_quietly
        else run_payload payload

  callback_on : CallbackQuery → Option TapMessage → Act e (Unit {0})
  unfolding handle_tap
  callback_on q none w = answer_quietly w
  callback_on q (some tap) w =
      handle_tap tap (language_of e tap.chat_id q.language_code w) q.payload w

  unfoldable pub callback_handler : CallbackQuery → Act e (Unit {0})
  unfolding callback_on
  callback_handler q = callback_on q q.message
