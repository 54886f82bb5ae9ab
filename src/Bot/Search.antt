-- ===== src/Bot/Search.antt =====
-- `cmd_rechercher` of src/bot.rs. The searches of the clients follow one another, and the results of
-- those that succeed are sent as notifications.
use jmap2telegram.Prelude.{
  ℕ, Bool, false, List, [], ◌∷◌, ◌++◌, Option, none, some, if◌then◌else◌, ltb, ◌==◌, find, values,
  length, map, nat_eq, list_eq, int_eq, option_eq, Text, text, ℤ, Result, ok, err, ◌>>=◌, ◌>>◌,
  give, for_each,
}
use jmap2telegram.Strings.{trim, is_empty}
use jmap2telegram.Strings.Decimal.{display}
use jmap2telegram.Account.{Account, AccountSlot, is_default}
use jmap2telegram.Store.{get}
use jmap2telegram.Jmap.{EmailSummary, JmapError}
use jmap2telegram.Jmap.Mail.{search}
use jmap2telegram.Format.{notification_keyboard}
use jmap2telegram.Format.Notification.{notification_text}
use jmap2telegram.State.Clients.{all_clients_for_chat, client_for_account}
use jmap2telegram.Act.{
  Env, Act, ChatTarget, send_message, send_chat_action, make_call, call_ignored, send_to, on_server,
  with_app, get_app,
}
use jmap2telegram.Bot.Replies.{t, t_with, t_jmap, cross}

-- The slot of the topic, when the message is of a topic.
unfoldable pub slot_of_thread : Option ℤ → Option Account → Option AccountSlot
slot_of_thread none acc = none
slot_of_thread (some tid) none = none
slot_of_thread (some tid) (some acc) = find (λ s. s.thread_id == some tid) (values acc.accounts)

-- A result, with the slot in which it was found.
abbrev Found : Type 0
Found = AccountSlot × EmailSummary

module _ (e : Env) (target : ChatTarget) (lang : Text) where
  abbrev Clients : Type 0
  Clients = List (AccountSlot × e.net.Client)

  only : AccountSlot → Clients → Result (Option e.net.Client) JmapError → Clients
  only slot all_clients (ok (some client)) = (slot, client) ∷ []
  only slot all_clients (ok none) = all_clients
  only slot all_clients (err x) = all_clients

  choose_clients : Clients → Option AccountSlot → Act e Clients
  unfolding only
  choose_clients all_clients none = give all_clients
  choose_clients all_clients (some slot) = do
    found ← with_app (client_for_account e.net target.id slot.slot_id)
    give (only slot all_clients found)

  -- `all_results` and `last_err` after the results of one client.
  collect :
      AccountSlot
      → Result (List EmailSummary) JmapError
      → List Found × Option JmapError
      → List Found × Option JmapError
  collect slot (ok results) (all_results, last_err) =
      (all_results ++ map (λ summary. (slot, summary)) results, last_err)
  collect slot (err x) (all_results, last_err) = (all_results, some x)

  unfoldable pub search_all :
      Text → Clients → List Found × Option JmapError → Act e (List Found × Option JmapError)
  unfolding collect
  search_all query [] so_far = give so_far
  search_all query ((slot, client) ∷ clients) so_far = do
    results ← on_server (search e.mail client query)
    search_all query clients (collect slot results so_far)

  abbrev no_result : Text → Act e (Unit {0})
  no_result query =
      send_to target (t_with e lang (text "bot.search_no_result") (text "query") query)

  none_found : Text → ℕ → Option JmapError → Act e (Unit {0})
  none_found query client_count none = no_result query
  none_found query client_count (some x) =
      if client_count == 1 then send_to target (cross e lang x) else no_result query

  send_found : Bool → Found → Act e (Unit {0})
  send_found multiple (slot, summary) = make_call (
      send_message target
        (notification_text e.shown (e.translate lang) summary e.config.timezone
          (if multiple then some slot.email else none))
        (some (
          notification_keyboard (t e lang) summary.id
            (if is_default slot.slot_id then none else some slot.slot_id) false false)))

  send_results : Text → ℕ → List Found × Option JmapError → Act e (Unit {0})
  unfolding none_found send_found
  send_results query client_count ([], last_err) = none_found query client_count last_err
  send_results query client_count (found ∷ rest, last_err) = do
    send_to target (
        e.translate lang (text "bot.search_results")
          ((text "count", display (length (found ∷ rest))) ∷ (text "query", query) ∷ []))
    for_each (send_found (ltb 1 client_count)) (found ∷ rest)

  run_search : Text → Clients → Act e (Unit {0})
  unfolding slot_of_thread choose_clients search_all send_results
  run_search query all_clients = do
    app ← get_app
    clients ← choose_clients all_clients (slot_of_thread target.thread_id (get target.id app.store))
    call_ignored (send_chat_action target)
    found ← search_all query clients ([], none)
    send_results query (length clients) found

  on_clients : Text → Result Clients JmapError → Act e (Unit {0})
  unfolding run_search
  on_clients query (err x) = send_to target (t_jmap e lang (text "bot.connection_error") x)
  on_clients query (ok []) = send_to target (t e lang (text "bot.no_account"))
  on_clients query (ok (c ∷ clients)) = run_search query (c ∷ clients)

  search_query : Text → Act e (Unit {0})
  unfolding on_clients
  search_query query = do
    clients ← with_app (all_clients_for_chat e.net target.id)
    on_clients query clients

  unfoldable pub cmd_rechercher : Text → Act e (Unit {0})
  unfolding search_query
  cmd_rechercher query =
      if is_empty (trim query)
      then send_to target (t e lang (text "bot.search_usage"))
      else search_query (trim query)
