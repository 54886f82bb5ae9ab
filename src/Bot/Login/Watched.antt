-- ===== src/Bot/Login/Watched.antt =====
-- What a login of src/bot.rs that is saved leaves.
use jmap2telegram.Prelude.{
  ◌+◌, ◌≡◌, ap, ◌∙◌, false, none, some, nat_eq, list_eq, int_eq, pair_eq, pair_beq_iff, int_beq_iff,
  contains_key, is_some, Text, lookup, Result, ok, ◌>>=◌, ◌>>◌, arith,
}
use jmap2telegram.Account.{Account, AccountSlot}
use jmap2telegram.Store.{Store, Error, get}
use jmap2telegram.Store.Slots
use jmap2telegram.Store.Slots.{chosen_slot_id}
use jmap2telegram.Store.Settings
use jmap2telegram.Store.Refines.{set_language-Shows, add_account-Shows}
use jmap2telegram.Store.Abstract.{if_stored, or_new}
use jmap2telegram.Jmap.{connect}
use jmap2telegram.Jmap.Mail.{account_email, current_email_state}
use jmap2telegram.Watcher.{account}
use jmap2telegram.State.{AppState, forget_account, refresh_accounts_gauge}
use jmap2telegram.State.Children.{forget_account-Forgets}
use jmap2telegram.Accounts.{slot_adopted}
use jmap2telegram.Accounts.Resume.{IsWatched, adopt_account-IsWatched}
use jmap2telegram.Act.{Env, World, ChatTarget, on_store, on_server, make_call}
use jmap2telegram.Bot.Login.{
  login_slot_id, new_slot, add_slot, on_login, login_state, login_client, cmd_login,
}

module _ (e : Env) (target : ChatTarget) (lang : Text) where
  -- The world with another store, after one more write.
  abbrev written : Store → World e → World e
  written s w = record w { app = record w.app { store = s }; writes = w.writes + 1 }

  -- The world in which the client is adopted.
  abbrev cleared : Text → World e → World e
  cleared slot_id w =
      let s = (Settings.set_language e.backend (e.io w.writes) target.id lang w.app.store).1 in
      record (written s w) {
        app = forget_account target.id slot_id (refresh_accounts_gauge (written s w).app);
      }

  not_watched :
      (slot_id : Text) (acc : Account) (app : AppState e.net.Client)
      → get target.id app.store ≡ some acc
      → contains_key (target.id, slot_id) (forget_account target.id slot_id app).account_watchers
        ≡ false
  not_watched slot_id acc app h = ap is_some {y = none} (
      ((forget_account-Forgets target.id slot_id acc app h).0 (target.id, slot_id)).1
      ∙ ground (arith, pair_beq_iff (target.id, slot_id) (target.id, slot_id)))

  -- The language is set in the account that is there.
  still_stored :
      (acc : Account) (w : World e)
      → get target.id w.app.store ≡ some acc
      → get target.id (Settings.set_language e.backend (e.io w.writes) target.id lang w.app.store).1
        ≡ some (record acc { language = some lang })
  unfolding get
  still_stored acc w h =
      set_language-Shows e.backend e.lowercase (e.io w.writes) target.id target.id w.app.store lang
      ∙ ground (
        arith,
        int_beq_iff target.id target.id,
        ap (if_stored (λ a. record a { language = some lang })) h,
      )

  on_login-IsWatched :
      (client : e.net.Client) (slot_id : Text) (acc : Account) (w : World e)
      → get target.id w.app.store ≡ some acc
      → IsWatched target.id
          (account slot_id (account_email e.mail client))
          (on_login e target lang client (ok slot_id) w).1
  unfolding on_login on_store make_call refresh_accounts_gauge slot_adopted
  on_login-IsWatched client slot_id acc w h =
      let label = account_email e.mail client in
      let free =
        not_watched slot_id _
          (refresh_accounts_gauge
            (written (Settings.set_language e.backend (e.io w.writes) target.id lang w.app.store).1
              w).app)
          (still_stored acc w h) in
      let (adopted, watched) =
        adopt_account-IsWatched target.id slot_id label client (cleared slot_id w) free in
      rw (◌>>=◌, ◌>>◌, adopted) watched

  -- The slot that a login adds, and what the store makes of it.
  abbrev added_slot : Text → Text → e.net.Client → Text → World e → AccountSlot
  added_slot server_url token client state w =
      let email = account_email e.mail client in
      new_slot (login_slot_id email (get target.id w.app.store)) server_url token email state

  abbrev added : Text → Text → e.net.Client → Text → World e → Result Text Error × Store
  added server_url token client state w =
      Slots.add_account e.backend (e.io w.writes) (e.draws w.writes) target.id
        (added_slot server_url token client state w) w.app.store

  added-stored :
      (slot : AccountSlot) (w : World e)
      → get target.id
          (Slots.add_account e.backend
            (e.io w.writes)
            (e.draws w.writes)
            target.id
            slot
            w.app.store).1
        ≡ some (
            Slots.with_slot
              (chosen_slot_id (e.draws w.writes) slot)
              slot
              (or_new (lookup target.id w.app.store.contents.accounts)))
  added-stored slot w =
      add_account-Shows e.backend e.lowercase (e.io w.writes) target.id target.id w.app.store
        (e.draws w.writes) slot
      ∙ ground (arith, int_beq_iff target.id target.id)

  -- When the server is reached and tells its state, and the store saves the account, /login ends with
  -- a new watcher for the slot, which the health registry knows as not yet connected, whatever
  -- Telegram answers and whether or not the slot was watched before.
  pub cmd_login-IsWatched :
      (server_url token state slot_id : Text) (client : e.net.Client) (w : World e)
      → connect e.net server_url token e.config.allow_private_jmap_hosts ≡ ok client
      → (current_email_state e.mail client w.server).0 ≡ ok state
      → (added server_url token client state w).0 ≡ ok slot_id
      → IsWatched target.id
          (account slot_id (account_email e.mail client))
          (cmd_login e target lang server_url token w).1
  unfolding cmd_login login_client login_state add_slot on_store
  cmd_login-IsWatched server_url token state slot_id client w reached told saved =
      let after = record w { server = (current_email_state e.mail client w.server).1 } in
      rw (reached, ◌>>=◌, on_server, told, saved)
        (on_login-IsWatched client slot_id _
          (written (added server_url token client state w).1 after)
          (added-stored (added_slot server_url token client state w) w))
