-- ===== src/Store/Refines/Run.antt =====
-- The store after a history of calls, against the map of chats to accounts (Store/Abstract).
use jmap2telegram.Prelude.{◌≡◌, refl, ◌∙◌, List, [], ◌∷◌, Text, ℤ, int_eq}
use jmap2telegram.Store.{Store, Backend, Io, get}
use jmap2telegram.Store.History.{
  StoreCall, step, run, set, update_state, add_account, add_extra_account, remove_account,
  update_account_state, set_account_thread_id, set_threads_enabled, set_language,
  set_shared_account, remove_shared_account, update_shared_account_state,
  set_shared_account_thread_id, mute, unmute, remove,
}
use jmap2telegram.Store.Abstract.{change, chat_of, abstract_step, abstract_run, View}
use jmap2telegram.Store.Refines
use jmap2telegram.Store.Refines.Found
use jmap2telegram.Store.Refines.Entries

module _ (b : Backend) (lowercase : Text → Text) where
  -- What a reader sees of a store.
  abbrev pub view_of : Store → View
  view_of s chat_id = get chat_id s

  pub step-view :
      (io : Io) (call : StoreCall) (s : Store) (other : ℤ)
      → view_of (step b lowercase io call s) other ≡ abstract_step lowercase call (view_of s) other
  unfolding step change abstract_step get
  step-view io (set c account) s other = Refines.set-Shows b lowercase io c other s account
  step-view io (update_state c state) s other =
      Refines.update_state-Shows b lowercase io c other s state
  step-view io (add_account draws c slot) s other =
      Refines.add_account-Shows b lowercase io c other s draws slot
  step-view io (add_extra_account draws c slot) s other =
      Refines.add_extra_account-Shows b lowercase io c other s draws slot
  step-view io (remove_account c slot) s other =
      Found.remove_account-Shows b lowercase io c other s slot
  step-view io (update_account_state c slot state) s other =
      Entries.update_account_state-Shows b lowercase io c other s slot state
  step-view io (set_account_thread_id c slot thread) s other =
      Entries.set_account_thread_id-Shows b lowercase io c other s slot thread
  step-view io (set_threads_enabled c enabled) s other =
      Refines.set_threads_enabled-Shows b lowercase io c other s enabled
  step-view io (set_language c language) s other =
      Refines.set_language-Shows b lowercase io c other s language
  step-view io (set_shared_account c i n l p) s other =
      Refines.set_shared_account-Shows b lowercase io c other s i n l p
  step-view io (remove_shared_account c i) s other =
      Entries.remove_shared_account-Shows b lowercase io c other s i
  step-view io (update_shared_account_state c i state) s other =
      Entries.update_shared_account_state-Shows b lowercase io c other s i state
  step-view io (set_shared_account_thread_id c i thread) s other =
      Entries.set_shared_account_thread_id-Shows b lowercase io c other s i thread
  step-view io (mute c raw) s other = Found.mute-Shows b lowercase io c other s raw
  step-view io (unmute c raw) s other = Found.unmute-Shows b lowercase io c other s raw
  step-view io (remove c) s other = Refines.remove-Shows b lowercase io c other s

  pub abstract_run-cong :
      (calls : List (Io × StoreCall)) (v w : View)
      → ((other : ℤ) → v other ≡ w other)
      → (other : ℤ) → abstract_run lowercase calls v other ≡ abstract_run lowercase calls w other
  unfolding abstract_run abstract_step
  abstract_run-cong [] v w same other = same other
  abstract_run-cong ((io, call) ∷ calls) v w same other =
      abstract_run-cong calls _ _ (λ chat_id. rw (same (chat_of call), same chat_id) refl) other

  -- For any calls of the mutators, whether each persists or fails, and any store: what `get` returns
  -- of any chat after them is what the map of chats to accounts holds after the same calls.
  pub run-refines :
      (calls : List (Io × StoreCall)) (s : Store) (other : ℤ)
      → get other (run b lowercase calls s)
        ≡ abstract_run lowercase calls (λ chat_id. get chat_id s) other
  unfolding run abstract_run
  run-refines [] s other = refl
  run-refines ((io, call) ∷ calls) s other =
      run-refines calls (step b lowercase io call s) other
      ∙ abstract_run-cong calls (view_of (step b lowercase io call s))
          (abstract_step lowercase call (view_of s)) (step-view io call s) other
