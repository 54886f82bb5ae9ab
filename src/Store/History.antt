-- ===== src/Store/History.antt =====
-- One type for the calls of the mutators, and histories of calls: each call may fail to persist.
use jmap2telegram.Prelude.{ℕ, Bool, List, [], ◌∷◌, Option, Text, ℤ}
use jmap2telegram.Account.{Account, AccountSlot}
use jmap2telegram.Store.{Store, Backend, Io}
use jmap2telegram.Store.Slots
use jmap2telegram.Store.Shared
use jmap2telegram.Store.Settings

pub data StoreCall : Type 0 where
  set : ℤ → Account → StoreCall
  update_state : ℤ → Text → StoreCall
  add_account : List ℕ → ℤ → AccountSlot → StoreCall
  add_extra_account : List ℕ → ℤ → AccountSlot → StoreCall
  remove_account : ℤ → Text → StoreCall
  update_account_state : ℤ → Text → Text → StoreCall
  set_account_thread_id : ℤ → Text → Option ℤ → StoreCall
  set_threads_enabled : ℤ → Option Bool → StoreCall
  set_language : ℤ → Text → StoreCall
  set_shared_account : ℤ → Text → Text → Option Text → Option Text → StoreCall
  remove_shared_account : ℤ → Text → StoreCall
  update_shared_account_state : ℤ → Text → Text → StoreCall
  set_shared_account_thread_id : ℤ → Text → Option ℤ → StoreCall
  mute : ℤ → Text → StoreCall
  unmute : ℤ → Text → StoreCall
  remove : ℤ → StoreCall

module _ (b : Backend) (lowercase : Text → Text) where
  -- The store that a call leaves, whether it succeeds or fails.
  unfoldable pub step : Io → StoreCall → Store → Store
  step io (set chat_id account) s = (Settings.set b io chat_id account s).1
  step io (update_state chat_id state) s = (Slots.update_state b io chat_id state s).1
  step io (add_account draws chat_id slot) s = (Slots.add_account b io draws chat_id slot s).1
  step io (add_extra_account draws chat_id slot) s =
      (Slots.add_extra_account b io draws chat_id slot s).1
  step io (remove_account chat_id slot_id) s = (Slots.remove_account b io chat_id slot_id s).1
  step io (update_account_state chat_id slot_id state) s =
      (Slots.update_account_state b io chat_id slot_id state s).1
  step io (set_account_thread_id chat_id slot_id thread) s =
      (Slots.set_account_thread_id b io chat_id slot_id thread s).1
  step io (set_threads_enabled chat_id enabled) s =
      (Settings.set_threads_enabled b io chat_id enabled s).1
  step io (set_language chat_id language) s = (Settings.set_language b io chat_id language s).1
  step io (set_shared_account chat_id account_id name last_state parent) s =
      (Shared.set_shared_account b io chat_id account_id name last_state parent s).1
  step io (remove_shared_account chat_id account_id) s =
      (Shared.remove_shared_account b io chat_id account_id s).1
  step io (update_shared_account_state chat_id account_id state) s =
      (Shared.update_shared_account_state b io chat_id account_id state s).1
  step io (set_shared_account_thread_id chat_id account_id thread) s =
      (Shared.set_shared_account_thread_id b io chat_id account_id thread s).1
  step io (mute chat_id term) s = (Settings.mute b lowercase io chat_id term s).1
  step io (unmute chat_id term) s = (Settings.unmute b lowercase io chat_id term s).1
  step io (remove chat_id) s = (Settings.remove b io chat_id s).1

  unfoldable pub run : List (Io × StoreCall) → Store → Store
  run [] s = s
  run ((io, c) ∷ calls) s = run calls (step io c s)
