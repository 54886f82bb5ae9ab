-- ===== src/Store/Slots.antt =====
-- The mutators of account slots: `update_state`, `add_account`, `remove_account`,
-- `update_account_state`, `set_account_thread_id`, and the older `add_extra_account`,
-- `remove_extra_account` and `update_extra_account_state`.
use jmap2telegram.Prelude.{
  ℕ, Bool, true, false, not, List, Option, none, some, if◌then◌else◌, nat_eq, list_eq, Text, ℤ,
  int_eq, lookup, insert_sorted, erase, retain, is_some, Result, ok,
}
use jmap2telegram.Strings.{is_empty}
use jmap2telegram.Account.{
  Account, AccountSlot, is_child_of, generate_slot_id, no_accounts, update_primary_slot,
}
use jmap2telegram.Store.{Store, Backend, Io, Error, persist, and_return, put}

-- `draws` are the random numbers of `generate_slot_id`.
unfoldable pub chosen_slot_id : List ℕ → AccountSlot → Text
chosen_slot_id draws slot = if is_empty slot.slot_id then generate_slot_id draws else slot.slot_id

-- `entry(chat_id).or_insert_with(…)`
unfoldable pub account_or_new : ℤ → Store → Account
account_or_new chat_id s = elim (lookup chat_id s.contents.accounts) [
  | none ↦ no_accounts
  | some acc ↦ acc
]

abbrev pub with_slot : Text → AccountSlot → Account → Account
with_slot slot_id slot acc = record acc {
  accounts = insert_sorted slot_id (record slot { slot_id = slot_id }) acc.accounts;
}

-- The slot goes, and the shared mailboxes that were authorized under it.
unfoldable pub without_slot : Text → Account → Account
without_slot slot_id acc = record acc {
  accounts = erase slot_id acc.accounts;
  shared_accounts = retain (λ _ shared. not (is_child_of shared slot_id)) acc.shared_accounts;
}

-- The second lock: a chat with no account left loses its record.
unfoldable pub drop_if_empty : ℤ → Account → Store → Store
drop_if_empty chat_id acc s =
    if is_empty acc.accounts
    then record s { contents = record { accounts = erase chat_id s.contents.accounts } }
    else s

-- `get_mut(&chat_id).and_then(|acc| acc.accounts.get_mut(slot_id))`
unfoldable pub slot_of : ℤ → Text → Store → Option (Account × AccountSlot)
slot_of chat_id slot_id s = elim (lookup chat_id s.contents.accounts) [
  | none ↦ none
  | some acc ↦ elim (lookup slot_id acc.accounts) [ none ↦ none | some slot ↦ some (acc, slot) ]
]

abbrev pub write_slot : Text → AccountSlot → Account → Account
write_slot slot_id slot acc = record acc { accounts = insert_sorted slot_id slot acc.accounts }

module _ (b : Backend) (call : Io) where
  unfoldable pub update_state : ℤ → Text → Store → Result (Unit {0}) Error × Store
  update_state chat_id state s = elim (lookup chat_id s.contents.accounts) [
    | none ↦ (ok tt, s)
    | some acc ↦
        persist b call (
          put chat_id (update_primary_slot (λ slot. record slot { last_state = some state }) acc) s)
  ]

  unfoldable pub add_account : List ℕ → ℤ → AccountSlot → Store → Result Text Error × Store
  unfolding chosen_slot_id account_or_new
  add_account draws chat_id slot s =
      let slot_id = chosen_slot_id draws slot in
      and_return slot_id
        (persist b call (put chat_id (with_slot slot_id slot (account_or_new chat_id s)) s))

  unfoldable pub remove_account : ℤ → Text → Store → Result Bool Error × Store
  unfolding without_slot drop_if_empty
  remove_account chat_id slot_id s = elim (lookup chat_id s.contents.accounts) [
    | none ↦ (ok false, s)
    | some acc ↦
        if is_some (lookup slot_id acc.accounts)
        then (let rest = without_slot slot_id acc in
            and_return true (persist b call (drop_if_empty chat_id rest (put chat_id rest s))))
        else (ok false, s)
  ]

  unfoldable pub update_account_state : ℤ → Text → Text → Store → Result (Unit {0}) Error × Store
  unfolding slot_of
  update_account_state chat_id slot_id state s = elim (slot_of chat_id slot_id s) [
    | none ↦ (ok tt, s)
    | some (acc, slot) ↦
        persist b call
          (put chat_id (write_slot slot_id (record slot { last_state = some state }) acc) s)
  ]

  unfoldable pub set_account_thread_id : ℤ → Text → Option ℤ → Store → Result Bool Error × Store
  unfolding slot_of
  set_account_thread_id chat_id slot_id thread_id s = elim (slot_of chat_id slot_id s) [
    | none ↦ (ok false, s)
    | some (acc, slot) ↦ and_return true (
        persist b call
          (put chat_id (write_slot slot_id (record slot { thread_id = thread_id }) acc) s))
  ]

  unfoldable pub add_extra_account :
      List ℕ → ℤ → AccountSlot → Store → Result (Option Text) Error × Store
  unfolding chosen_slot_id
  add_extra_account draws chat_id account s =
      let slot_id = chosen_slot_id draws account in
      elim (lookup chat_id s.contents.accounts) [
        | none ↦ (ok none, s)
        | some acc ↦
            and_return (some slot_id)
              (persist b call (put chat_id (with_slot slot_id account acc) s))
      ]

  abbrev pub remove_extra_account : ℤ → Text → Store → Result Bool Error × Store
  remove_extra_account = remove_account

  abbrev pub update_extra_account_state : ℤ → Text → Text → Store → Result (Unit {0}) Error × Store
  update_extra_account_state = update_account_state
