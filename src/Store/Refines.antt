-- ===== src/Store/Refines.antt =====
-- What a reader sees after the mutators of src/store.rs that write an account whenever it is there.
pub mod Found
pub mod Entries
pub mod Run
use jmap2telegram.Prelude.{
  ℕ, ◌≡◌, ◌≤◌, refl, sym, ap, subst, ◌∙◌, inl, inr, Bool, true, false, Bool-cases, Option-cases,
  List, [], ◌∷◌, ◌++◌, Option, none, some, if◌then◌else◌, is_some, ◌==◌, nat_eq, list_eq, int_eq,
  int_beq_iff, length, Text, ℤ, lookup, insert, erase, lookup-insert, lookup-erase, Result, ok, err,
  arith,
}
use jmap2telegram.Strings.{trim, is_empty}
use jmap2telegram.Account.{Account, AccountSlot, SharedAccount, no_accounts, update_primary_slot}
use jmap2telegram.Store.{Store, Backend, Io, Error, StoreData, get, put, persist, and_return}
use jmap2telegram.Store.Slots.{
  chosen_slot_id, account_or_new, with_slot, without_slot, drop_if_empty, write_slot, slot_of,
}
use jmap2telegram.Store.Slots
use jmap2telegram.Store.Shared
use jmap2telegram.Store.Settings
use jmap2telegram.Store.Laws.{get-persist, get-and_return, get-remove}
use jmap2telegram.Store.History.{StoreCall, step, run}
use jmap2telegram.Store.History
use jmap2telegram.Store.Abstract.{
  change, chat_of, abstract_step, abstract_run, View, if_stored, or_new, opt_in, on_slot, on_shared,
  lose_slot, add_term,
}

module _ (b : Backend) (lowercase : Text → Text) (call : Io) (chat_id other : ℤ) (s : Store) where
  -- The view of a store that has been given an account of the chat, or has lost it.
  abbrev Shows : Option Account → Store → Type 0
  Shows found t = get other t ≡ (if chat_id == other then found else get other s)

  pub kept : (found : Option Account) → lookup chat_id s.contents.accounts ≡ found → Shows found s
  unfolding get
  kept found e = elim (Bool-cases (chat_id == other)) [
    | inl f ↦ let same : chat_id ≡ other = (int_beq_iff chat_id other).0 f in rw f (rw same at e)
    | inr f ↦ rw f refl
  ]

  pub put-Shows : (acc : Account) → Shows (some acc) (persist b call (put chat_id acc s)).1
  unfolding get
  put-Shows acc =
      get-persist b call other (put chat_id acc s)
      ∙ lookup-insert chat_id other acc s.contents.accounts

  pub returned {ℓ} :
      {A : Type ℓ} (x : A) (acc : Account)
      → Shows (some acc) (and_return x (persist b call (put chat_id acc s))).1
  returned x acc =
      get-and_return b call x other (persist b call (put chat_id acc s)) ∙ put-Shows acc

  set-Shows : (acc : Account) → Shows (some acc) (Settings.set b call chat_id acc s).1
  unfolding Settings.set
  set-Shows acc = put-Shows acc

  pub set_language-Shows :
      (language : Text)
      → Shows
          (if_stored
            (λ acc. record acc { language = some language })
            (lookup chat_id s.contents.accounts))
          (Settings.set_language b call chat_id language s).1
  unfolding Settings.set_language
  set_language-Shows language = elim (Option-cases (lookup chat_id s.contents.accounts)) [
    | inl e ↦ rw (e, Settings.set_language) (kept none e)
    | inr (acc, e) ↦
        rw (e, Settings.set_language) (returned true (record acc { language = some language }))
  ]

  pub set_threads_enabled-Shows :
      (enabled : Option Bool)
      → Shows
          (if_stored
            (λ acc. record acc { threads_enabled = enabled })
            (lookup chat_id s.contents.accounts))
          (Settings.set_threads_enabled b call chat_id enabled s).1
  unfolding Settings.set_threads_enabled
  set_threads_enabled-Shows enabled = elim (Option-cases (lookup chat_id s.contents.accounts)) [
    | inl e ↦ rw (e, Settings.set_threads_enabled) (kept none e)
    | inr (acc, e) ↦
        rw (e, Settings.set_threads_enabled)
          (returned true (record acc { threads_enabled = enabled }))
  ]

  pub update_state-Shows :
      (state : Text)
      → Shows
          (if_stored
            (λ acc. update_primary_slot (λ slot. record slot { last_state = some state }) acc)
            (lookup chat_id s.contents.accounts))
          (Slots.update_state b call chat_id state s).1
  unfolding Slots.update_state
  update_state-Shows state = elim (Option-cases (lookup chat_id s.contents.accounts)) [
    | inl e ↦ rw (e, Slots.update_state) (kept none e)
    | inr (acc, e) ↦
        rw (e, Slots.update_state)
          (put-Shows (update_primary_slot (λ slot. record slot { last_state = some state }) acc))
  ]

  pub add_extra_account-Shows :
      (draws : List ℕ) (slot : AccountSlot)
      → Shows
          (if_stored
            (λ acc. with_slot (chosen_slot_id draws slot) slot acc)
            (lookup chat_id s.contents.accounts))
          (Slots.add_extra_account b call draws chat_id slot s).1
  unfolding Slots.add_extra_account
  add_extra_account-Shows draws slot = elim (Option-cases (lookup chat_id s.contents.accounts)) [
    | inl e ↦ rw (e, Slots.add_extra_account) (kept none e)
    | inr (acc, e) ↦
        rw (e, Slots.add_extra_account)
          (returned (some (chosen_slot_id draws slot))
            (with_slot (chosen_slot_id draws slot) slot acc))
  ]

  pub set_shared_account-Shows :
      (account_id name : Text) (last_state parent : Option Text)
      → Shows
          (if_stored
            (λ acc. opt_in account_id name last_state parent acc)
            (lookup chat_id s.contents.accounts))
          (Shared.set_shared_account b call chat_id account_id name last_state parent s).1
  unfolding Shared.set_shared_account
  set_shared_account-Shows account_id name last_state parent =
      elim (Option-cases (lookup chat_id s.contents.accounts)) [
        | inl e ↦ rw (e, Shared.set_shared_account) (kept none e)
        | inr (acc, e) ↦
            rw (e, Shared.set_shared_account)
              (put-Shows (opt_in account_id name last_state parent acc))
      ]

  pub remove-Shows : Shows none (Settings.remove b call chat_id s).1
  remove-Shows = get-remove b call chat_id other s

  pub add_account-Shows :
      (draws : List ℕ) (slot : AccountSlot)
      → Shows
          (some (
            with_slot
              (chosen_slot_id draws slot)
              slot
              (or_new (lookup chat_id s.contents.accounts))))
          (Slots.add_account b call draws chat_id slot s).1
  unfolding Slots.add_account account_or_new
  add_account-Shows draws slot = elim (Option-cases (lookup chat_id s.contents.accounts)) [
    | inl e ↦
        rw (e, account_or_new)
          (returned (chosen_slot_id draws slot)
            (with_slot (chosen_slot_id draws slot) slot no_accounts))
    | inr (acc, e) ↦
        rw (e, account_or_new)
          (returned (chosen_slot_id draws slot) (with_slot (chosen_slot_id draws slot) slot acc))
  ]

  pub seen : (t : Store) {found made : Option Account} → found ≡ made → Shows found t → Shows made t
  seen t e h = subst (λ found. Shows found t) e h

  pub unchanged :
      (acc : Account) → lookup chat_id s.contents.accounts ≡ some acc → Shows (some acc) s
  unchanged acc e = kept (some acc) e

  pub absent : lookup chat_id s.contents.accounts ≡ none → Shows none s
  absent e = kept none e
