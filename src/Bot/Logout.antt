-- ===== src/Bot/Logout.antt =====
-- The commands and taps of src/bot.rs that disconnect accounts: `cmd_logout`, `disconnect_account`
-- and "logout:all".
pub mod Erased
use jmap2telegram.Prelude.{
  ℕ, Bool, true, false, [], ◌∷◌, ◌++◌, Option, none, some, if◌then◌else◌, leb, length, values,
  nat_eq, list_eq, Text, text, ℤ, lookup, Result, ok, err, ◌>>=◌, ◌>>◌, give, for_each,
}
use jmap2telegram.Account.{Account, AccountSlot}
use jmap2telegram.Store.{Error, get}
use jmap2telegram.Store.Slots
use jmap2telegram.Store.Settings
use jmap2telegram.Format.{Keyboard}
use jmap2telegram.State.{forget, forget_account, refresh_accounts_gauge}
use jmap2telegram.Topics.Ensure.{delete_topic}
use jmap2telegram.Act.{
  Env, Act, ChatTarget, send_message, edit_message_reply_markup, make_call, call_ignored, send_to,
  answer_with, alert, on_app, on_store, get_app,
}
use jmap2telegram.Bot.Replies.{t, t_storage}
use jmap2telegram.Bot.Login.{disconnect_rows}

module _ (e : Env) (chat_id : ℤ) where
  -- The topics of every slot and shared mailbox go.
  unfoldable pub delete_topics : Account → Act e (Unit {0})
  delete_topics acc = do
    for_each (λ slot. delete_topic chat_id slot.thread_id) (values acc.accounts)
    for_each (λ sh. delete_topic chat_id sh.thread_id) (values acc.shared_accounts)

  unfoldable pub delete_topics_of : Option Account → Act e (Unit {0})
  unfolding delete_topics
  delete_topics_of none = give tt
  delete_topics_of (some acc) = delete_topics acc

module _ (e : Env) (target : ChatTarget) (lang : Text) where
  removed_text : Result Bool Error → Text
  removed_text (ok true) = t e lang (text "bot.logout_done")
  removed_text (ok false) = t e lang (text "bot.logout_nothing")
  removed_text (err x) = t e lang (text "bot.logout_nothing")

  logout_one : Account → Act e (Unit {0})
  unfolding delete_topics removed_text
  logout_one acc = do
    delete_topics e target.id acc
    on_app (forget target.id)
    removed ← on_store (λ b io. Settings.remove b io target.id)
    on_app refresh_accounts_gauge
    send_to target (removed_text removed)

  unfoldable pub logout_keyboard : Account → Keyboard
  unfolding disconnect_rows
  logout_keyboard acc =
      disconnect_rows acc.accounts
      ++ (record {
        label = text "🚪 " ++ t e lang (text "bot.logout_all");
        callback = text "logout:all";
      }
          ∷ [])
        ∷ []

  logout_of : Option Account → Act e (Unit {0})
  unfolding logout_one logout_keyboard
  logout_of none = send_to target (t e lang (text "bot.logout_nothing"))
  logout_of (some acc) =
      if leb (length acc.accounts) 1
      then logout_one acc
      else make_call
          (send_message target (t e lang (text "bot.logout_prompt")) (some (logout_keyboard acc)))

  unfoldable pub cmd_logout : Act e (Unit {0})
  unfolding logout_of
  cmd_logout = do app ← get_app; logout_of (get target.id app.store)

module _ (e : Env) (chat_id : ℤ) (lang : Text) where
  slot_in : Text → Option Account → Option AccountSlot
  slot_in slot_id none = none
  slot_in slot_id (some acc) = lookup slot_id acc.accounts

  delete_slot_topic : Option AccountSlot → Act e (Unit {0})
  delete_slot_topic none = give tt
  delete_slot_topic (some slot) = delete_topic chat_id slot.thread_id

  on_disconnected : Result Bool Error → Act e (Unit {0})
  on_disconnected (ok true) = do
    on_app refresh_accounts_gauge
    answer_with (t e lang (text "bot.disconnect_done"))
  on_disconnected (ok false) = answer_with (t e lang (text "bot.disconnect_already"))
  on_disconnected (err x) = alert (t_storage e lang (text "bot.error_generic") x)

  unfoldable pub disconnect_account : Text → Act e (Unit {0})
  unfolding slot_in delete_slot_topic on_disconnected
  disconnect_account slot_id = do
    app ← get_app
    delete_slot_topic (slot_in slot_id (get chat_id app.store))
    on_app (forget_account chat_id slot_id)
    removed ← on_store (λ b io. Slots.remove_account b io chat_id slot_id)
    on_disconnected removed

  unfoldable pub logout_all : ℕ → Act e (Unit {0})
  unfolding delete_topics_of
  logout_all message_id = do
    app ← get_app
    delete_topics_of e chat_id (get chat_id app.store)
    on_app (forget chat_id)
    on_store (λ b io. Settings.remove b io chat_id)
    on_app refresh_accounts_gauge
    call_ignored (edit_message_reply_markup chat_id message_id [])
    answer_with (t e lang (text "bot.logout_done"))
    send_to (record { id = chat_id; thread_id = none }) (t e lang (text "bot.logout_done"))
