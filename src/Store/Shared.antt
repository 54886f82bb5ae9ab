-- ===== src/Store/Shared.antt =====
-- The mutators of opted-in shared mailboxes.
use jmap2telegram.Prelude.{
  Bool, true, false, Option, none, some, if◌then◌else◌, nat_eq, list_eq, Text, ℤ, int_eq, lookup,
  insert, erase, is_some, Result, ok,
}
use jmap2telegram.Account.{Account, SharedAccount}
use jmap2telegram.Store.{Store, Backend, Io, Error, persist, and_return, put}

abbrev pub write_shared : Text → SharedAccount → Account → Account
write_shared account_id shared acc = record acc {
  shared_accounts = insert account_id shared acc.shared_accounts;
}

-- `get_mut(&chat_id).and_then(|acc| acc.shared_accounts.get_mut(account_id))`
unfoldable pub shared_of : ℤ → Text → Store → Option (Account × SharedAccount)
shared_of chat_id account_id s = elim (lookup chat_id s.contents.accounts) [
  | none ↦ none
  | some acc ↦ elim (lookup account_id acc.shared_accounts) [
    | none ↦ none
    | some sh ↦ some (acc, sh)
  ]
]

module _ (b : Backend) (call : Io) where
  unfoldable pub set_shared_account :
      ℤ → Text → Text → Option Text → Option Text → Store → Result (Unit {0}) Error × Store
  set_shared_account chat_id account_id name last_state parent_slot s =
      elim (lookup chat_id s.contents.accounts) [
        | none ↦ (ok tt, s)
        | some acc ↦
            let shared : SharedAccount = record {
              name = name;
              last_state = last_state;
              parent_slot = parent_slot;
              thread_id = none;
            } in
            persist b call (put chat_id (write_shared account_id shared acc) s)
      ]

  unfoldable pub remove_shared_account : ℤ → Text → Store → Result Bool Error × Store
  remove_shared_account chat_id account_id s = elim (lookup chat_id s.contents.accounts) [
    | none ↦ (ok false, s)
    | some acc ↦
        if is_some (lookup account_id acc.shared_accounts)
        then (let rest = record acc { shared_accounts = erase account_id acc.shared_accounts } in
            and_return true (persist b call (put chat_id rest s)))
        else (ok false, s)
  ]

  unfoldable pub update_shared_account_state :
      ℤ → Text → Text → Store → Result (Unit {0}) Error × Store
  unfolding shared_of
  update_shared_account_state chat_id account_id state s = elim (shared_of chat_id account_id s) [
    | none ↦ (ok tt, s)
    | some (acc, sh) ↦
        persist b call
          (put chat_id (write_shared account_id (record sh { last_state = some state }) acc) s)
  ]

  unfoldable pub set_shared_account_thread_id :
      ℤ → Text → Option ℤ → Store → Result Bool Error × Store
  unfolding shared_of
  set_shared_account_thread_id chat_id account_id thread_id s =
      elim (shared_of chat_id account_id s) [
        | none ↦ (ok false, s)
        | some (acc, sh) ↦ and_return true (
            persist b call
              (put chat_id (write_shared account_id (record sh { thread_id = thread_id }) acc) s))
      ]
