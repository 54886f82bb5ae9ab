-- ===== src/Topics/Ensure/Keeps.antt =====
-- What the creation of a topic in src/topics.rs leaves as it is.
use jmap2telegram.Prelude.{
  ◌≡◌, refl, inl, inr, Option, none, some, Bool-cases, Result-cases, Text, ℤ, lookup, list_eq,
  nat_eq, length,
}
use jmap2telegram.Account.{Account, AccountSlot, SharedAccount}
use jmap2telegram.Store.{get}
use jmap2telegram.Store.Slots
use jmap2telegram.Store.Shared
use jmap2telegram.Act.{
  Env, World, Answer, accepted, not_a_forum, refused, on_store, ask_telegram, call_ignored,
}
use jmap2telegram.Topics.{is_threaded_mode_enabled}
use jmap2telegram.Topics.Ensure.{
  on_slot_answer, create_slot_topic, slot_topic, slot_topic_of, ensure_slot_topic, on_shared_answer,
  create_shared_topic, shared_topic, shared_topic_of, ensure_shared_topic, is_dedicated,
}

-- Of the shared state, at most the store differs.
abbrev pub OnlyStore : {e : Env} → World e → World e → Type 0
OnlyStore w v = v.app ≡ record w.app { store = v.app.store }

module _ {e : Env} (chat_id : ℤ) (w : World e) where
  on_slot_answer-OnlyStore :
      (slot_id : Text) (slot : AccountSlot) (answer : Answer)
      → OnlyStore w (on_slot_answer chat_id slot_id slot answer w).1
  unfolding on_slot_answer on_store call_ignored
  on_slot_answer-OnlyStore slot_id slot not_a_forum = refl
  on_slot_answer-OnlyStore slot_id slot refused = refl
  on_slot_answer-OnlyStore slot_id slot (accepted tid) =
      elim (Result-cases
        (Slots.set_account_thread_id e.backend (e.io w.writes) chat_id slot_id (some tid)
          w.app.store).0) [ inl (done, f) ↦ rw f refl | inr (x, f) ↦ rw f refl ]

  on_shared_answer-OnlyStore :
      (account_id : Text) (sh : SharedAccount) (answer : Answer)
      → OnlyStore w (on_shared_answer chat_id account_id sh answer w).1
  unfolding on_shared_answer on_store call_ignored
  on_shared_answer-OnlyStore account_id sh not_a_forum = refl
  on_shared_answer-OnlyStore account_id sh refused = refl
  on_shared_answer-OnlyStore account_id sh (accepted tid) =
      elim (Result-cases
        (Shared.set_shared_account_thread_id e.backend (e.io w.writes) chat_id account_id (some tid)
          w.app.store).0) [ inl (done, f) ↦ rw f refl | inr (x, f) ↦ rw f refl ]

module _ {e : Env} (chat_id : ℤ) (w : World e) where
  create_slot_topic-OnlyStore :
      (slot_id : Text) (slot : AccountSlot) (known : Option ℤ)
      → OnlyStore w (create_slot_topic chat_id slot_id slot known w).1
  unfolding create_slot_topic ask_telegram
  create_slot_topic-OnlyStore slot_id slot (some tid) = refl
  create_slot_topic-OnlyStore slot_id slot none =
      on_slot_answer-OnlyStore chat_id _ slot_id slot (e.answer (length w.calls))

  slot_topic-OnlyStore :
      (slot_id : Text) (found : Option AccountSlot)
      → OnlyStore w (slot_topic chat_id slot_id found w).1
  unfolding slot_topic
  slot_topic-OnlyStore slot_id none = refl
  slot_topic-OnlyStore slot_id (some slot) = create_slot_topic-OnlyStore slot_id slot slot.thread_id

  slot_topic_of-OnlyStore :
      (slot_id : Text) (found : Option Account)
      → OnlyStore w (slot_topic_of chat_id slot_id found w).1
  unfolding slot_topic_of
  slot_topic_of-OnlyStore slot_id none = refl
  slot_topic_of-OnlyStore slot_id (some acc) =
      elim (Bool-cases (is_threaded_mode_enabled e.config (some acc))) [
        | inl f ↦ rw f (slot_topic-OnlyStore slot_id (lookup slot_id acc.accounts))
        | inr f ↦ rw f refl
      ]

  pub ensure_slot_topic-OnlyStore :
      (slot_id : Text) → OnlyStore w (ensure_slot_topic chat_id slot_id w).1
  unfolding ensure_slot_topic
  ensure_slot_topic-OnlyStore slot_id = slot_topic_of-OnlyStore slot_id (get chat_id w.app.store)

  create_shared_topic-OnlyStore :
      (account_id : Text) (sh : SharedAccount) (known : Option ℤ)
      → OnlyStore w (create_shared_topic chat_id account_id sh known w).1
  unfolding create_shared_topic ask_telegram
  create_shared_topic-OnlyStore account_id sh (some tid) = refl
  create_shared_topic-OnlyStore account_id sh none =
      on_shared_answer-OnlyStore chat_id _ account_id sh (e.answer (length w.calls))

  shared_topic-OnlyStore :
      (account_id : Text) (found : Option SharedAccount)
      → OnlyStore w (shared_topic chat_id account_id found w).1
  unfolding shared_topic
  shared_topic-OnlyStore account_id none = refl
  shared_topic-OnlyStore account_id (some sh) =
      create_shared_topic-OnlyStore account_id sh sh.thread_id

  shared_topic_of-OnlyStore :
      (account_id : Text) (found : Option Account)
      → OnlyStore w (shared_topic_of chat_id account_id found w).1
  unfolding shared_topic_of
  shared_topic_of-OnlyStore account_id none = refl
  shared_topic_of-OnlyStore account_id (some acc) =
      elim (Bool-cases (is_threaded_mode_enabled e.config (some acc))) [
        | inl f ↦ rw f (shared_topic-OnlyStore account_id (lookup account_id acc.shared_accounts))
        | inr f ↦ rw f refl
      ]

  pub ensure_shared_topic-OnlyStore :
      (account_id : Text) → OnlyStore w (ensure_shared_topic chat_id account_id w).1
  unfolding ensure_shared_topic
  ensure_shared_topic-OnlyStore account_id =
      elim (Bool-cases (is_dedicated e.config.telegram_shared_thread_mode)) [
        | inl f ↦ rw f (shared_topic_of-OnlyStore account_id (get chat_id w.app.store))
        | inr f ↦ rw f refl
      ]
