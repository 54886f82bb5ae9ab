-- ===== src/Tests/StoreExamples.antt =====
-- The theorems on the store, at the chat with two slots.
use jmap2telegram.Prelude.{
  [], ◌∷◌, ◌≡◌, ◌≢◌, refl, any, list_beq, int_beq, ◌⊎◌, true, false, none, some, text, ℤ, pos, ok,
  err, Entries, arith, erase, list_eq, nat_eq, lookup, is_some,
}
use jmap2telegram.Strings.{trim}
use jmap2telegram.Account.{Account, resolve_parent_slot}
use jmap2telegram.Store.{Store, Error, open_store, persist, get, encrypt, run_ops, fs_step}
use jmap2telegram.Store.Slots.{remove_account}
use jmap2telegram.Store.Settings.{mute, unmute, has_term}
use jmap2telegram.Store.Settings
use jmap2telegram.Store.History
use jmap2telegram.Store.History.{step, run}
use jmap2telegram.Store.Persist.{HasParents, persist_atomic}
use jmap2telegram.Store.Invariant.{AllValid}
use jmap2telegram.Store.Reachable.{run-AllValid}
use jmap2telegram.Store.Laws.{open_store-remove, remove_account-Loses}
use jmap2telegram.Store.Losses.{Loses, IsLast, HasOther}
use jmap2telegram.Store.Mutes.{unmute-mute}
use jmap2telegram.Tests.Codec.{backend, backend-IsLawful}
use jmap2telegram.Tests.Inputs.{account, team, slot_named, works, breaks, store}

store-HasParents : Entries HasParents store.contents.accounts
store-HasParents = (((λ none_is. ground arith), tt), tt)

store-AllValid : AllValid store
unfolding resolve_parent_slot lookup list_beq
store-AllValid = (
  record {
    formed = record { keyed = (refl, (refl, tt)); parents = (resolved, tt) };
    connected = refl;
  },
  tt,
)
  where
    resolved : is_some (resolve_parent_slot account team) ≡ true
    resolved = refl

persist_atomic_example :
    (((persist backend breaks store).0 ≡ ok tt)
      × (open_store backend store.key (persist backend breaks store).1.disk
          ≡ ok (persist backend breaks store).1))
    ⊎ ((e : Error) × ((persist backend breaks store).0 ≡ err e)
        × ((persist backend breaks store).1.disk.state_enc ≡ none))
persist_atomic_example = persist_atomic backend backend-IsLawful breaks store refl store-HasParents

abbrev emptied : Store
emptied = (Settings.remove backend works (pos 7) store).1

open_store-remove_example :
    (open_store backend emptied.key emptied.disk ≡ ok emptied)
    × (get (pos 7) emptied ≡ none)
    × ((other : ℤ) → pos 7 ≢ other → get other emptied ≡ get other store)
unfolding Settings.remove lookup erase int_beq persist encrypt run_ops fs_step
open_store-remove_example =
    open_store-remove backend works backend-IsLawful (pos 7) store emptied refl store-HasParents
      removes
  where
    removes : Settings.remove backend works (pos 7) store ≡ (ok true, emptied)
    removes = refl

remove_account-Loses_example :
    (IsLast (text "work") account
      × (get (pos 7) (remove_account backend breaks (pos 7) (text "work") store).1 ≡ none))
    ⊎ (HasOther (text "work") account
        × ((rest : Account) × (get
                (pos 7)
                (remove_account backend breaks (pos 7) (text "work") store).1
              ≡ some rest)
            × Loses (text "work") account rest))
unfolding get lookup int_beq list_beq
remove_account-Loses_example =
    remove_account-Loses backend breaks (pos 7) (text "work") store account
      (slot_named (text "work") (text "me@work")) found slot_found
  where
    found : get (pos 7) store ≡ some account
    found = refl

    slot_found :
        lookup (text "work") account.accounts ≡ some (slot_named (text "work") (text "me@work"))
    slot_found = refl

unmute-mute_example :
    get
      (pos 7)
      (unmute backend
        (λ s. s)
        breaks
        (pos 7)
        (text " spam ")
        (mute backend (λ s. s) works (pos 7) (text " spam ") store).1).1
    ≡ some account
unfolding get lookup int_beq list_beq trim any
unmute-mute_example =
    unmute-mute backend (λ s. s) works breaks (pos 7) (text " spam ") store account found new
  where
    found : get (pos 7) store ≡ some account
    found = refl

    new : has_term (trim (text " spam ")) account.muted ≡ false
    new = refl

run-AllValid_example : AllValid (
    run backend
      (λ s. s)
      ((breaks, History.remove_account (pos 7) (text "work"))
        ∷ (works, History.mute (pos 7) (text "spam"))
        ∷ [])
      store)
run-AllValid_example =
    run-AllValid backend (λ s. s)
      ((breaks, History.remove_account (pos 7) (text "work"))
        ∷ (works, History.mute (pos 7) (text "spam"))
        ∷ [])
      store (tt, (tt, tt)) store-AllValid
