-- ===== src/State.antt =====
-- src/state.rs: the shared state of the handlers and watchers, with its caches of clients, its tasks
-- and the pending undos. A task handle is a number, and `aborted` lists the handles on which `abort`
-- was called. Instants are numbers. The default language of the configuration is an argument of
-- `language_for`.
pub mod Forget
pub mod Clients
pub mod Children
use jmap2telegram.Prelude.{
  ℕ, Bool, true, false, not, List, [], ◌∷◌, ◌++◌, Option, none, some, if◌then◌else◌, leb, ◌==◌,
  nat_eq, list_eq, int_eq, pair_eq, Text, ℤ, Dict, lookup, insert, erase, retain, keys, length,
  Result, ok, err,
}
use jmap2telegram.Account.{
  Account, AccountSlot, SharedAccount, primary_slot, resolve_parent_slot, is_child_of,
}
use jmap2telegram.Store.{Store, get, count}
use jmap2telegram.Jmap.{Network, JmapError, connect, connect_shared}
use jmap2telegram.Health.{
  Health, Metrics, deregister, deregister_chat, set_pending_undos, set_accounts,
}
use jmap2telegram.I18n.{resolve}
use jmap2telegram.Watcher.{account_health_key, shared_health_key}

abbrev pub Key : Type 0
Key = ℤ × Text

-- Seconds.
abbrev pub undo_window : ℕ
undo_window = 30

pub record PendingUndo : Type 0 where
  pub account_id : Option Text
  pub email_id : Text
  pub restore_mailbox_ids : List Text
  pub expires_at : ℕ

unfoldable pub is_expired : ℕ → PendingUndo → Bool
is_expired now p = leb p.expires_at now

pub record AppState (Client : Type 0) : Type 0 where
  pub allow_private_jmap_hosts : Bool
  pub store : Store
  pub health : Health
  pub metrics : Metrics
  pub account_clients : Dict Key Client
  pub account_watchers : Dict Key ℕ
  pub shared_clients : Dict Key Client
  pub shared_watchers : Dict Key ℕ
  pub pending_undo : Dict ℤ PendingUndo
  pub aborted : List ℕ

-- The handle of a removed task, on which `abort` is called.
abbrev pub handle_of : Option ℕ → List ℕ
handle_of none = []
handle_of (some handle) = handle ∷ []

-- The handles of the tasks of a chat.
unfoldable pub handles_of : ℤ → Dict Key ℕ → List ℕ
handles_of chat_id [] = []
handles_of chat_id (((id, _), handle) ∷ d) =
    let rest = handles_of chat_id d in if id == chat_id then handle ∷ rest else rest

-- `retain(|(id, _), _| *id != chat_id)`
unfoldable pub without_chat {ℓ} : {V : Type ℓ} → ℤ → Dict Key V → Dict Key V
without_chat chat_id d = retain (λ key _. not (key.0 == chat_id)) d

unfoldable pub stored_language : Option Account → Option Text
stored_language none = none
stored_language (some account) = account.language

module _ {Client : Type 0} where
  unfoldable pub refresh_undo_gauge : AppState Client → AppState Client
  refresh_undo_gauge s = record s { metrics = set_pending_undos (length s.pending_undo) s.metrics }

  unfoldable pub refresh_accounts_gauge : AppState Client → AppState Client
  refresh_accounts_gauge s = record s { metrics = set_accounts (count s.store) s.metrics }

  unfoldable pub language_for : Text → ℤ → Option Text → AppState Client → Text
  unfolding resolve stored_language
  language_for default_language chat_id telegram_language_code s =
      resolve (stored_language (get chat_id s.store)) telegram_language_code default_language

  forget_accounts_of_chat : ℤ → AppState Client → AppState Client
  forget_accounts_of_chat chat_id s = record s {
    account_clients = without_chat chat_id s.account_clients;
    account_watchers = without_chat chat_id s.account_watchers;
    aborted = s.aborted ++ handles_of chat_id s.account_watchers;
  }

  forget_shared_of_chat : ℤ → AppState Client → AppState Client
  forget_shared_of_chat chat_id s = record s {
    shared_clients = without_chat chat_id s.shared_clients;
    shared_watchers = without_chat chat_id s.shared_watchers;
    aborted = s.aborted ++ handles_of chat_id s.shared_watchers;
  }

  unfoldable pub forget : ℤ → AppState Client → AppState Client
  unfolding refresh_undo_gauge forget_accounts_of_chat forget_shared_of_chat
  forget chat_id s =
      let undone = refresh_undo_gauge (record s { pending_undo = erase chat_id s.pending_undo }) in
      forget_shared_of_chat chat_id (
        forget_accounts_of_chat chat_id
          (record undone { health = deregister_chat chat_id undone.health }))

  unfoldable pub forget_shared : ℤ → Text → AppState Client → AppState Client
  forget_shared chat_id account_id s = record s {
    health = deregister (shared_health_key chat_id account_id) s.health;
    shared_clients = erase (chat_id, account_id) s.shared_clients;
    shared_watchers = erase (chat_id, account_id) s.shared_watchers;
    aborted = s.aborted ++ handle_of (lookup (chat_id, account_id) s.shared_watchers);
  }

  -- The loop over the shared mailboxes of the chat.
  unfoldable pub forget_children :
      ℤ → Text → Dict Text SharedAccount → AppState Client → AppState Client
  unfolding forget_shared
  forget_children chat_id slot_id [] s = s
  forget_children chat_id slot_id ((account_id, shared) ∷ d) s =
      forget_children chat_id slot_id d
        (if is_child_of shared slot_id then forget_shared chat_id account_id s else s)

  forget_children_of : ℤ → Text → Option Account → AppState Client → AppState Client
  unfolding forget_children
  forget_children_of chat_id slot_id none s = s
  forget_children_of chat_id slot_id (some account) s =
      forget_children chat_id slot_id account.shared_accounts s

  unfoldable pub forget_slot : ℤ → Text → AppState Client → AppState Client
  forget_slot chat_id slot_id s = record s {
    health = deregister (account_health_key chat_id slot_id) s.health;
    account_clients = erase (chat_id, slot_id) s.account_clients;
    account_watchers = erase (chat_id, slot_id) s.account_watchers;
    aborted = s.aborted ++ handle_of (lookup (chat_id, slot_id) s.account_watchers);
  }

  unfoldable pub forget_account : ℤ → Text → AppState Client → AppState Client
  unfolding forget_children_of forget_slot
  forget_account chat_id slot_id s =
      forget_children_of chat_id slot_id (get chat_id s.store) (forget_slot chat_id slot_id s)
