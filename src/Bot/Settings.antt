-- ===== src/Bot/Settings.antt =====
-- The commands of src/bot.rs that read or set a chat's preferences: `cmd_lang`, `cmd_start`,
-- `cmd_status`, `cmd_mute` and `cmd_unmute`.
use jmap2telegram.Prelude.{
  ℕ, ◌-◌, Bool, true, false, not, ◌||◌, List, [], ◌∷◌, ◌++◌, Option, none, some, if◌then◌else◌, ltb,
  is_some, ◌==◌, nat_eq, list_eq, int_eq, pair_eq, any, keys, length, map, Text, text, ℤ,
  contains_key, Result, ok, err, ◌>>=◌, give,
}
use jmap2telegram.Strings.{trim, is_empty, join}
use jmap2telegram.Account.{Account, email, last_state, default_id}
use jmap2telegram.Store.{Error, get}
use jmap2telegram.Store.Settings
use jmap2telegram.I18n.{canonical}
use jmap2telegram.State.{AppState}
use jmap2telegram.Act.{Env, Act, ChatTarget, send_to, on_store, get_app}
use jmap2telegram.Bot.Replies.{t, t_with, t_storage, t_count}

unfoldable pub is_watching : {Client : Type 0} → ℤ → AppState Client → Bool
is_watching chat_id s =
    contains_key (chat_id, default_id) s.account_watchers
    || any (λ key. key.0 == chat_id) (keys s.account_watchers)

module _ (e : Env) (target : ChatTarget) (lang : Text) where
  abbrev say : Text → Act e (Unit {0})
  say key = send_to target (t e lang key)

  abbrev say_with : Text → Text → Text → Act e (Unit {0})
  say_with key name value = send_to target (t_with e lang key name value)

  abbrev say_storage : Text → Error → Act e (Unit {0})
  say_storage key x = send_to target (t_storage e lang key x)

  abbrev stored : Act e (Option Account)
  stored = do app ← get_app; give (get target.id app.store)

  on_language : Text → Result Bool Error → Act e (Unit {0})
  on_language target_lang (ok true) = send_to target (t e target_lang (text "bot.lang_set"))
  on_language target_lang (ok false) = say (text "bot.no_account")
  on_language target_lang (err x) = say_storage (text "bot.storage_error") x

  set_lang : Option Text → Act e (Unit {0})
  unfolding on_language
  set_lang none = say (text "bot.lang_invalid")
  set_lang (some target_lang) = do
    r ← on_store (λ b io. Settings.set_language b io target.id target_lang)
    on_language target_lang r

  unfoldable pub cmd_lang : Text → Act e (Unit {0})
  unfolding set_lang
  cmd_lang requested =
      if is_empty (trim requested)
      then say_with (text "bot.lang_usage") (text "current") lang
      else set_lang (canonical (trim requested))

  -- A line of the status that stands only where there is something to count.
  counted : Bool → Text → ℕ → Text
  counted true key n = b'\n' ∷ t_count e lang key n
  counted false key n = []

  unfoldable pub status_text : Bool → Account → Text
  unfolding counted
  status_text watching acc =
      t_with e lang (text "bot.status_title") (text "email") (email acc)
      ++ b'\n'
        ∷ t e lang (if watching then text "bot.status_watch_on" else text "bot.status_watch_off")
      ++ b'\n'
        ∷ t e lang (
            if is_some (last_state acc)
            then text "bot.status_state_synced"
            else text "bot.status_state_init")
      ++ counted (not (is_empty acc.shared_accounts)) (text "bot.status_sharing")
          (length acc.shared_accounts)
      ++ counted (ltb 1 (length acc.accounts)) (text "bot.status_accounts")
          (length acc.accounts - 1)
      ++ counted (not (is_empty acc.muted)) (text "bot.status_filters") (length acc.muted)

  send_status : Option Account → Act e (Unit {0})
  unfolding status_text is_watching
  send_status none = say (text "bot.no_account")
  send_status (some acc) = do
    app ← get_app
    send_to target (status_text (is_watching target.id app) acc)

  unfoldable pub cmd_status : Act e (Unit {0})
  unfolding send_status
  cmd_status = do acc ← stored; send_status acc

  welcome : Option Account → Act e (Unit {0})
  unfolding cmd_status
  welcome none = say (text "bot.welcome")
  welcome (some acc) = cmd_status

  unfoldable pub cmd_start : Act e (Unit {0})
  unfolding welcome
  cmd_start = do acc ← stored; welcome acc

  -- `map(|m| format!("• {m}")).collect().join("\n")`
  bullets : List Text → Text
  bullets muted = join (text "\n") (map (λ m. text "• " ++ m) muted)

  list_muted : Option Account → Act e (Unit {0})
  unfolding bullets
  list_muted none = say (text "bot.no_account")
  list_muted (some acc) =
      if is_empty acc.muted
      then say (text "bot.mute_none")
      else say_with (text "bot.mute_list") (text "list") (bullets acc.muted)

  not_muted : Text → Option Account → Act e (Unit {0})
  not_muted term none = say (text "bot.no_account")
  not_muted term (some acc) = say_with (text "bot.mute_already") (text "term") term

  on_muted : Text → Result Bool Error → Act e (Unit {0})
  unfolding not_muted
  on_muted term (ok true) = say_with (text "bot.mute_added") (text "term") term
  on_muted term (ok false) = do acc ← stored; not_muted term acc
  on_muted term (err x) = say_storage (text "bot.error_generic") x

  mute_term : Text → Act e (Unit {0})
  unfolding on_muted
  mute_term term = do
    r ← on_store (λ b io. Settings.mute b e.lowercase io target.id term)
    on_muted term r

  unfoldable pub cmd_mute : Text → Act e (Unit {0})
  unfolding list_muted mute_term
  cmd_mute term = do
    acc ← stored
    if is_empty (trim term) then list_muted acc else mute_term (trim term)

  on_unmuted : Text → Result Bool Error → Act e (Unit {0})
  on_unmuted term (ok true) = say_with (text "bot.unmute_done") (text "term") term
  on_unmuted term (ok false) = say_with (text "bot.unmute_not_filtered") (text "term") term
  on_unmuted term (err x) = say_storage (text "bot.error_generic") x

  unmute_term : Text → Act e (Unit {0})
  unfolding on_unmuted
  unmute_term term = do
    r ← on_store (λ b io. Settings.unmute b e.lowercase io target.id term)
    on_unmuted term r

  unfoldable pub cmd_unmute : Text → Act e (Unit {0})
  unfolding unmute_term
  cmd_unmute term =
      if is_empty (trim term) then say (text "bot.unmute_usage") else unmute_term (trim term)
