-- ===== src/Bot/Sharing.antt =====
-- The shared mailboxes in src/bot.rs: `cmd_partages`, `refresh_partages_keyboard`,
-- `discover_all_shared_accounts` and `toggle_shared_account`.
use jmap2telegram.Prelude.{
  ℕ, Bool, true, false, not, List, [], ◌∷◌, ◌++◌, Option, none, some, if◌then◌else◌, keys, text_lt,
  nat_eq, list_eq, Text, text, ℤ, Dict, lookup, Result, ok, err, ◌>>=◌, ◌>>◌, give,
}
use jmap2telegram.Strings.{is_empty}
use jmap2telegram.Account.{Account, AccountSlot, SharedAccount, is_default, primary_slot}
use jmap2telegram.Store.{Error, get}
use jmap2telegram.Store.Shared
use jmap2telegram.Jmap.{JmapError, unreachable, connect, connect_shared}
use jmap2telegram.Jmap.Mail.{current_email_state}
use jmap2telegram.Format.{SharedAccountItem, Keyboard, shared_accounts_keyboard}
use jmap2telegram.State.{forget_shared}
use jmap2telegram.Topics.Ensure.{delete_topic}
use jmap2telegram.Accounts.{adopt_shared}
use jmap2telegram.Act.{
  Env, Act, ChatTarget, send_message, edit_message_reply_markup, make_call, call_ignored, send_to,
  answer_with, alert, on_app, on_server, on_store, get_app,
}
use jmap2telegram.Bot.Replies.{t, t_jmap, t_storage}

-- A stable sort by address.
place_by_email : Text × AccountSlot → Dict Text AccountSlot → Dict Text AccountSlot
place_by_email x [] = x ∷ []
place_by_email x (y ∷ ys) =
    let rest = place_by_email x ys in if text_lt y.1.email x.1.email then y ∷ rest else x ∷ y ∷ ys

unfoldable pub by_email : Dict Text AccountSlot → Dict Text AccountSlot
unfolding place_by_email
by_email [] = []
by_email (x ∷ xs) = place_by_email x (by_email xs)

items : Option Text → List (Text × Text) → List SharedAccountItem
items parent_slot [] = []
items parent_slot ((id, name) ∷ found) =
    record { id = id; name = name; parent_slot = parent_slot } ∷ items parent_slot found

module _ (e : Env) where
  -- What one slot adds to the mailboxes discovered, and whether a connection was made.
  discovered_in :
      Text
      → Result e.net.Client JmapError
      → List SharedAccountItem × Bool
      → List SharedAccountItem × Bool
  unfolding items
  discovered_in slot_id (err x) rest = rest
  discovered_in slot_id (ok client) (discovered, any_connected) = (
    items (if is_default slot_id then none else some slot_id) (e.list_shared_accounts client)
        ++ discovered,
    true,
  )

  discover_slots : Dict Text AccountSlot → List SharedAccountItem × Bool
  unfolding discovered_in
  discover_slots [] = ([], false)
  discover_slots ((slot_id, slot) ∷ d) =
      discovered_in slot_id
        (connect e.net slot.server_url slot.token e.config.allow_private_jmap_hosts)
        (discover_slots d)

  unfoldable pub discover_all_shared_accounts : Account → List SharedAccountItem × Bool
  unfolding discover_slots by_email
  discover_all_shared_accounts acc = discover_slots (by_email acc.accounts)

  unfoldable pub sharing_keyboard : Account → Keyboard
  sharing_keyboard acc =
      shared_accounts_keyboard (discover_all_shared_accounts acc).0 (keys acc.shared_accounts)

  module _ (target : ChatTarget) (lang : Text) where
    partages_of : Option Account → Act e (Unit {0})
    unfolding sharing_keyboard discover_all_shared_accounts
    partages_of none = send_to target (t e lang (text "bot.no_account"))
    partages_of (some acc) =
        let (accounts, any_connected) = discover_all_shared_accounts acc in
        if not any_connected
        then send_to target (t_jmap e lang (text "bot.login_failed") unreachable)
        else if is_empty accounts
        then send_to target (t e lang (text "bot.shared_none"))
        else make_call
            (send_message target (t e lang (text "bot.shared_title")) (some (sharing_keyboard acc)))

    unfoldable pub cmd_partages : Act e (Unit {0})
    unfolding partages_of
    cmd_partages = do app ← get_app; partages_of (get target.id app.store)

  module _ (chat_id : ℤ) (message_id : ℕ) (lang : Text) where
    refresh_of : Option Account → Act e (Unit {0})
    unfolding sharing_keyboard discover_all_shared_accounts
    refresh_of none = give tt
    refresh_of (some acc) =
        if not (discover_all_shared_accounts acc).1
        then give tt
        else call_ignored (edit_message_reply_markup chat_id message_id (sharing_keyboard acc))

    unfoldable pub refresh_partages_keyboard : Act e (Unit {0})
    unfolding refresh_of
    refresh_partages_keyboard = do app ← get_app; refresh_of (get chat_id app.store)

    turn_off : Text → SharedAccount → Act e (Unit {0})
    unfolding refresh_partages_keyboard
    turn_off account_id sh = do
      delete_topic chat_id sh.thread_id
      on_app (forget_shared chat_id account_id)
      on_store (λ b io. Shared.remove_shared_account b io chat_id account_id)
      answer_with (t e lang (text "bot.shared_off"))
      refresh_partages_keyboard

    abbrev display_name : Text → e.net.Client → Text
    display_name account_id client = elim (e.account_name client account_id) [
      | none ↦ account_id
      | some name ↦ name
    ]

    on_saved : Text → e.net.Client → Result (Unit {0}) Error → Act e (Unit {0})
    unfolding refresh_partages_keyboard
    on_saved account_id client (err x) = alert (t_storage e lang (text "bot.storage_error") x)
    on_saved account_id client (ok _) = do
      adopt_shared chat_id account_id (display_name account_id client) client
      answer_with (t e lang (text "bot.shared_on"))
      refresh_partages_keyboard

    on_state : Text → Text → e.net.Client → Result Text JmapError → Act e (Unit {0})
    unfolding on_saved
    on_state account_id slot_id client (err x) = alert (t_jmap e lang (text "bot.init_failed") x)
    on_state account_id slot_id client (ok state) = do
      saved ← on_store (λ b io.
          Shared.set_shared_account b io chat_id account_id (display_name account_id client)
            (some state) (some slot_id))
      on_saved account_id client saved

    on_connected : Text → Text → Result e.net.Client JmapError → Act e (Unit {0})
    unfolding on_state
    on_connected account_id slot_id (err x) = alert (t_jmap e lang (text "bot.login_failed") x)
    on_connected account_id slot_id (ok client) = do
      state ← on_server (current_email_state e.mail client)
      on_state account_id slot_id client state

    -- The mailbox is turned on through a slot, under the id by which it is saved.
    turn_on : Text → Option (Text × AccountSlot) → Act e (Unit {0})
    unfolding on_connected
    turn_on account_id none = answer_with (t e lang (text "bot.account_not_connected"))
    turn_on account_id (some (slot_id, slot)) = on_connected account_id slot_id (
        connect_shared e.net slot.server_url slot.token e.config.allow_private_jmap_hosts
          account_id)

    unfoldable pub parent_of : Account → Option Text → Option (Text × AccountSlot)
    parent_of acc (some slot_id) = elim (lookup slot_id acc.accounts) [
      | none ↦ none
      | some slot ↦ some (slot_id, slot)
    ]
    parent_of acc none = elim (primary_slot acc) [
      | none ↦ none
      | some slot ↦ some (slot.slot_id, slot)
    ]

    toggle_in : Text → Option Text → Account → Act e (Unit {0})
    unfolding turn_off turn_on parent_of
    toggle_in account_id parent_slot acc = elim (lookup account_id acc.shared_accounts) [
      | some sh ↦ turn_off account_id sh
      | none ↦ turn_on account_id (parent_of acc parent_slot)
    ]

    toggle_of : Text → Option Text → Option Account → Act e (Unit {0})
    unfolding toggle_in
    toggle_of account_id parent_slot none =
        answer_with (t e lang (text "bot.account_not_connected"))
    toggle_of account_id parent_slot (some acc) = toggle_in account_id parent_slot acc

    unfoldable pub toggle_shared_account : Text → Option Text → Act e (Unit {0})
    unfolding toggle_of
    toggle_shared_account account_id parent_slot = do
      app ← get_app
      toggle_of account_id parent_slot (get chat_id app.store)
