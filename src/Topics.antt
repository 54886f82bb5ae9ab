-- ===== src/Topics.antt =====
-- src/topics.rs: whether topics are used, and the topic of a notification. Names and colours are in
-- the child Names, the creation and deletion of topics in the child Ensure.
pub mod Names
pub mod Ensure
use jmap2telegram.Prelude.{
  Bool, true, false, Option, none, some, if◌then◌else◌, nat_eq, list_eq, ℤ, lookup,
}
use jmap2telegram.Account.{Account, AccountSlot, SharedAccount, primary_slot, resolve_parent_slot}
use jmap2telegram.Watcher.{WatchTarget, primary, shared, extra, account}
use jmap2telegram.Config.{
  Config, ThreadedModeConfig, disabled, enabled, auto, SharedThreadModeConfig, dedicated, parent,
}

threads_override : Option Account → Option Bool
threads_override none = none
threads_override (some acc) = acc.threads_enabled

default_mode : ThreadedModeConfig → Bool
default_mode disabled = false
default_mode enabled = true
default_mode auto = true

unfoldable pub is_threaded_mode_enabled : Config → Option Account → Bool
unfolding threads_override default_mode
is_threaded_mode_enabled config acc = elim (threads_override acc) [
  | some user_override ↦ user_override
  | none ↦ default_mode config.telegram_threaded_mode
]

slot_thread : Option AccountSlot → Option ℤ
slot_thread none = none
slot_thread (some slot) = slot.thread_id

shared_thread : SharedThreadModeConfig → Account → Option SharedAccount → Option ℤ
unfolding slot_thread
shared_thread mode acc none = none
shared_thread dedicated acc (some s) = s.thread_id
shared_thread parent acc (some s) = slot_thread (resolve_parent_slot acc s)

thread_of : SharedThreadModeConfig → Account → WatchTarget → Option ℤ
unfolding slot_thread shared_thread
thread_of mode acc primary = slot_thread (primary_slot acc)
thread_of mode acc (account slot_id _) = slot_thread (lookup slot_id acc.accounts)
thread_of mode acc (extra slot_id _) = slot_thread (lookup slot_id acc.accounts)
thread_of mode acc (shared account_id _) =
    shared_thread mode acc (lookup account_id acc.shared_accounts)

unfoldable pub target_thread_id : Config → Account → WatchTarget → Option ℤ
unfolding is_threaded_mode_enabled thread_of
target_thread_id config acc target =
    if is_threaded_mode_enabled config (some acc)
    then thread_of config.telegram_shared_thread_mode acc target
    else none
