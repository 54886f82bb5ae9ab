-- ===== src/Store/Abstract.antt =====
-- The store of src/store.rs as its callers see it: a map from chats to accounts, that each mutator
-- changes at its own chat. There is no disk, no key and no failure here.
use jmap2telegram.Prelude.{
  List, [], ◌∷◌, ◌++◌, Option, none, some, if◌then◌else◌, is_some, ◌==◌, nat_eq, list_eq, int_eq,
  Text, ℤ, lookup, erase,
}
use jmap2telegram.Strings.{trim, is_empty}
use jmap2telegram.Account.{Account, AccountSlot, SharedAccount, no_accounts, update_primary_slot}
use jmap2telegram.Store.{Io}
use jmap2telegram.Store.Slots.{chosen_slot_id, with_slot, without_slot, write_slot}
use jmap2telegram.Store.Shared.{write_shared}
use jmap2telegram.Store.Settings.{drop_term, has_term}
use jmap2telegram.Store.History.{
  StoreCall, set, update_state, add_account, add_extra_account, remove_account,
  update_account_state, set_account_thread_id, set_threads_enabled, set_language,
  set_shared_account, remove_shared_account, update_shared_account_state,
  set_shared_account_thread_id, mute, unmute, remove,
}

abbrev pub chat_of : StoreCall → ℤ
chat_of (set chat_id _) = chat_id
chat_of (update_state chat_id _) = chat_id
chat_of (add_account _ chat_id _) = chat_id
chat_of (add_extra_account _ chat_id _) = chat_id
chat_of (remove_account chat_id _) = chat_id
chat_of (update_account_state chat_id _ _) = chat_id
chat_of (set_account_thread_id chat_id _ _) = chat_id
chat_of (set_threads_enabled chat_id _) = chat_id
chat_of (set_language chat_id _) = chat_id
chat_of (set_shared_account chat_id _ _ _ _) = chat_id
chat_of (remove_shared_account chat_id _) = chat_id
chat_of (update_shared_account_state chat_id _ _) = chat_id
chat_of (set_shared_account_thread_id chat_id _ _) = chat_id
chat_of (mute chat_id _) = chat_id
chat_of (unmute chat_id _) = chat_id
chat_of (remove chat_id) = chat_id

abbrev pub or_new : Option Account → Account
or_new none = no_accounts
or_new (some acc) = acc

-- A change of an account that is there.
abbrev pub if_stored : (Account → Account) → Option Account → Option Account
if_stored f none = none
if_stored f (some acc) = some (f acc)

abbrev pub on_slot : Text → (AccountSlot → AccountSlot) → Account → Account
on_slot slot_id f acc = elim (lookup slot_id acc.accounts) [
  | none ↦ acc
  | some slot ↦ write_slot slot_id (f slot) acc
]

abbrev pub on_shared : Text → (SharedAccount → SharedAccount) → Account → Account
on_shared account_id f acc = elim (lookup account_id acc.shared_accounts) [
  | none ↦ acc
  | some sh ↦ write_shared account_id (f sh) acc
]

-- An account that loses its last slot goes.
abbrev pub lose_slot : Text → Option Account → Option Account
lose_slot slot_id none = none
lose_slot slot_id (some acc) =
    if is_some (lookup slot_id acc.accounts)
    then (if is_empty (without_slot slot_id acc).accounts
        then none
        else some (without_slot slot_id acc))
    else some acc

abbrev pub opt_in : Text → Text → Option Text → Option Text → Account → Account
opt_in account_id name last_state parent =
    write_shared account_id
      (record { name = name; last_state = last_state; parent_slot = parent; thread_id = none })

abbrev pub add_term : Text → Account → Account
add_term term acc =
    if has_term term acc.muted then acc else record acc { muted = acc.muted ++ term ∷ [] }

-- What a call makes of its chat's account.
unfoldable pub change : (Text → Text) → StoreCall → Option Account → Option Account
change lowercase (set _ account) _ = some account
change lowercase (update_state _ state) found =
    if_stored (update_primary_slot (λ slot. record slot { last_state = some state })) found
change lowercase (add_account draws _ slot) found =
    some (with_slot (chosen_slot_id draws slot) slot (or_new found))
change lowercase (add_extra_account draws _ slot) found =
    if_stored (with_slot (chosen_slot_id draws slot) slot) found
change lowercase (remove_account _ slot_id) found = lose_slot slot_id found
change lowercase (update_account_state _ slot_id state) found =
    if_stored (on_slot slot_id (λ slot. record slot { last_state = some state })) found
change lowercase (set_account_thread_id _ slot_id thread) found =
    if_stored (on_slot slot_id (λ slot. record slot { thread_id = thread })) found
change lowercase (set_threads_enabled _ enabled) found =
    if_stored (λ acc. record acc { threads_enabled = enabled }) found
change lowercase (set_language _ language) found =
    if_stored (λ acc. record acc { language = some language }) found
change lowercase (set_shared_account _ account_id name last_state parent) found =
    if_stored (opt_in account_id name last_state parent) found
change lowercase (remove_shared_account _ account_id) found =
    if_stored (λ acc. record acc { shared_accounts = erase account_id acc.shared_accounts }) found
change lowercase (update_shared_account_state _ account_id state) found =
    if_stored (on_shared account_id (λ sh. record sh { last_state = some state })) found
change lowercase (set_shared_account_thread_id _ account_id thread) found =
    if_stored (on_shared account_id (λ sh. record sh { thread_id = thread })) found
change lowercase (mute _ term) found = if_stored (add_term (lowercase (trim term))) found
change lowercase (unmute _ term) found =
    if_stored (λ acc. record acc { muted = drop_term (lowercase (trim term)) acc.muted }) found
change lowercase (remove _) found = none

abbrev pub View : Type 0
View = ℤ → Option Account

unfoldable pub abstract_step : (Text → Text) → StoreCall → View → View
abstract_step lowercase call view other =
    if chat_of call == other then change lowercase call (view (chat_of call)) else view other

unfoldable pub abstract_run : (Text → Text) → List (Io × StoreCall) → View → View
unfolding abstract_step
abstract_run lowercase [] view = view
abstract_run lowercase ((io, call) ∷ calls) view =
    abstract_run lowercase calls (abstract_step lowercase call view)
