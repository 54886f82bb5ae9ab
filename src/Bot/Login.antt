-- ===== src/Bot/Login.antt =====
-- The commands of src/bot.rs that connect and list the accounts of a chat: `cmd_login`, `cmd_comptes`
-- and `list_accounts`.
pub mod Watched
use jmap2telegram.Prelude.{
  ℕ, suc, Bool, not, ◌&&◌, ◌||◌, List, [], ◌∷◌, ◌++◌, Option, none, some, if◌then◌else◌, leb, find,
  length, values, text_lt, nat_eq, list_eq, Text, text, ℤ, Dict, Result, ok, err, ◌>>=◌, ◌>>◌,
}
use jmap2telegram.Strings.{trim, is_empty, is_whitespace, eq_ignore_ascii_case, join}
use jmap2telegram.Strings.Decimal.{display}
use jmap2telegram.Account.{Account, AccountSlot, default_id, is_default, contains_email}
use jmap2telegram.Store.{Error, get}
use jmap2telegram.Store.Slots
use jmap2telegram.Store.Settings
use jmap2telegram.Jmap.{JmapError, connect}
use jmap2telegram.Jmap.Mail.{account_email, current_email_state}
use jmap2telegram.Format.{Keyboard}
use jmap2telegram.State.{forget_account, refresh_accounts_gauge}
use jmap2telegram.Accounts.{adopt_account}
use jmap2telegram.Act.{
  Env, Act, ChatTarget, send_message, make_call, send_to, on_app, on_server, on_store, get_app,
}
use jmap2telegram.Bot.Replies.{t, t_with, t_jmap, t_storage}

-- `split_once(char::is_whitespace)`
unfoldable pub split_whitespace : Text → Option (Text × Text)
split_whitespace [] = none
split_whitespace (c ∷ s) =
    let rest = split_whitespace s in
    if is_whitespace c
    then some ([], s)
    else elim rest [ none ↦ none | some parts ↦ some (c ∷ parts.0, parts.1) ]

-- The slot of the chat that has this address.
unfoldable pub existing_slot : Text → Option Account → Option Text
existing_slot email none = none
existing_slot email (some acc) =
    elim (find (λ s. eq_ignore_ascii_case s.email email) (values acc.accounts)) [
      | none ↦ none
      | some slot ↦ some slot.slot_id
    ]

-- An empty id lets `add_account` make one.
unfoldable pub login_slot_id : Text → Option Account → Text
unfolding existing_slot
login_slot_id email none = default_id
login_slot_id email (some acc) = elim (existing_slot email (some acc)) [
  | none ↦ []
  | some slot_id ↦ slot_id
]

unfoldable pub new_slot : Text → Text → Text → Text → Text → AccountSlot
new_slot slot_id server_url token email state = record {
  slot_id = slot_id;
  server_url = server_url;
  token = token;
  email = email;
  last_state = some state;
  thread_id = none;
}

-- The order of the list: the default slot, and then by address; a stable sort.
abbrev pub slot_before : Text × AccountSlot → Text × AccountSlot → Bool
slot_before a b = is_default a.0 || not (is_default b.0) && text_lt a.1.email b.1.email

unfoldable pub place : Text × AccountSlot → Dict Text AccountSlot → Dict Text AccountSlot
place x [] = x ∷ []
place x (y ∷ ys) = let rest = place x ys in if slot_before y x then y ∷ rest else x ∷ y ∷ ys

unfoldable pub sorted_slots : Dict Text AccountSlot → Dict Text AccountSlot
unfolding place
sorted_slots [] = []
sorted_slots (x ∷ xs) = place x (sorted_slots xs)

-- One row for each slot.
unfoldable pub disconnect_rows : Dict Text AccountSlot → Keyboard
disconnect_rows [] = []
disconnect_rows ((slot_id, slot) ∷ d) =
    (record { label = text "🗑 " ++ slot.email; callback = text "x:" ++ slot_id } ∷ [])
    ∷ disconnect_rows d

module _ (e : Env) (chat_id : ℤ) where
  unfoldable pub add_slot : AccountSlot → Act e (Result Text Error)
  add_slot slot w = on_store (λ b io. Slots.add_account b io (e.draws w.writes) chat_id slot) w

module _ (e : Env) (target : ChatTarget) (lang : Text) where
  abbrev say : Text → Act e (Unit {0})
  say key = send_to target (t e lang key)

  abbrev say_email : Text → Text → Act e (Unit {0})
  say_email key email = send_to target (t_with e lang key (text "email") email)

  unfoldable pub on_login : e.net.Client → Result Text Error → Act e (Unit {0})
  on_login client (err x) = send_to target (t_storage e lang (text "bot.storage_error") x)
  on_login client (ok slot_id) = do
    on_store (λ b io. Settings.set_language b io target.id lang)
    on_app refresh_accounts_gauge
    on_app (forget_account target.id slot_id)
    adopt_account target.id slot_id (account_email e.mail client) client
    say_email (text "bot.login_success") (account_email e.mail client)

  unfoldable pub login_state : Text → Text → e.net.Client → Result Text JmapError → Act e (Unit {0})
  unfolding login_slot_id new_slot add_slot on_login
  login_state server_url token client (err x) =
      send_to target (t_jmap e lang (text "bot.init_failed") x)
  login_state server_url token client (ok state) = do
    app ← get_app
    let email = account_email e.mail client
    saved ←
        add_slot e target.id
          (new_slot (login_slot_id email (get target.id app.store)) server_url token email state)
    on_login client saved

  unfoldable pub login_client : Text → Text → Result e.net.Client JmapError → Act e (Unit {0})
  unfolding login_state
  login_client server_url token (err x) = send_to target (t_jmap e lang (text "bot.login_failed") x)
  login_client server_url token (ok client) = do
    state ← on_server (current_email_state e.mail client)
    login_state server_url token client state

  unfoldable pub cmd_login : Text → Text → Act e (Unit {0})
  unfolding login_client
  cmd_login server_url token =
      login_client server_url token
        (connect e.net server_url token e.config.allow_private_jmap_hosts)

  numbered : ℕ → Dict Text AccountSlot → List Text
  numbered index [] = []
  numbered index ((slot_id, slot) ∷ d) =
      e.translate lang (text "bot.accounts_list_extra")
        ((text "index", display index) ∷ (text "email", slot.email) ∷ [])
      ∷ numbered (suc index) d

  accounts_text : Account → Text
  unfolding numbered
  accounts_text acc =
      t e lang (text "bot.accounts_list_title")
      ++ b'\n' ∷ join (text "\n") (numbered 1 (sorted_slots acc.accounts))
      ++ text "\n\n"
      ++ t e lang (
          if leb (length acc.accounts) 1
          then text "bot.accounts_no_extra"
          else text "bot.accounts_legend")

  list_of : Option Account → Act e (Unit {0})
  unfolding accounts_text sorted_slots disconnect_rows
  list_of none = say (text "bot.no_account")
  list_of (some acc) =
      if is_empty acc.accounts
      then say (text "bot.no_account")
      else make_call (
          send_message target (accounts_text acc)
            (some (disconnect_rows (sorted_slots acc.accounts))))

  unfoldable pub list_accounts : Act e (Unit {0})
  unfolding list_of
  list_accounts = do app ← get_app; list_of (get target.id app.store)

  on_added : e.net.Client → Result Text Error → Act e (Unit {0})
  on_added client (err x) = send_to target (t_storage e lang (text "bot.storage_error") x)
  on_added client (ok slot_id) = do
    adopt_account target.id slot_id (account_email e.mail client) client
    say_email (text "bot.accounts_added") (account_email e.mail client)

  added_state : Text → Text → e.net.Client → Result Text JmapError → Act e (Unit {0})
  unfolding new_slot add_slot on_added
  added_state server_url token client (err x) =
      send_to target (t_jmap e lang (text "bot.init_failed") x)
  added_state server_url token client (ok state) = do
    saved ← add_slot e target.id (new_slot [] server_url token (account_email e.mail client) state)
    on_added client saved

  add_new_client : Text → Text → e.net.Client → Act e (Unit {0})
  unfolding added_state
  add_new_client server_url token client = do
    state ← on_server (current_email_state e.mail client)
    added_state server_url token client state

  add_client : Account → Text → Text → Result e.net.Client JmapError → Act e (Unit {0})
  unfolding add_new_client
  add_client acc server_url token (err x) =
      send_to target (t_jmap e lang (text "bot.login_failed") x)
  add_client acc server_url token (ok client) =
      if contains_email acc (account_email e.mail client)
      then say_email (text "bot.accounts_already") (account_email e.mail client)
      else add_new_client server_url token client

  add_from : Account → Option (Text × Text) → Act e (Unit {0})
  unfolding add_client
  add_from acc none = say (text "bot.accounts_usage")
  add_from acc (some (server_url, token)) =
      add_client acc (trim server_url) (trim token)
        (connect e.net (trim server_url) (trim token) e.config.allow_private_jmap_hosts)

  add_to : Text → Option Account → Act e (Unit {0})
  unfolding add_from
  add_to args none = say (text "bot.accounts_need_primary")
  add_to args (some acc) = add_from acc (split_whitespace args)

  unfoldable pub cmd_comptes : Text → Act e (Unit {0})
  unfolding list_accounts add_to
  cmd_comptes args = do
    app ← get_app
    if is_empty (trim args) then list_accounts else add_to (trim args) (get target.id app.store)
