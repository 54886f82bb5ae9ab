-- ===== src/Topics/Ensure.antt =====
-- The creation and removal of topics in src/topics.rs.
pub mod Keeps
use jmap2telegram.Prelude.{
  Bool, true, false, not, List, [], ◌∷◌, ◌++◌, Option, none, some, if◌then◌else◌, Text, text, ℤ,
  Dict, lookup, keys, list_eq, nat_eq, Result, ok, err, Step, ◌>>=◌, ◌>>◌, give,
}
use jmap2telegram.Strings.{bytes}
use jmap2telegram.Account.{Account, AccountSlot, SharedAccount}
use jmap2telegram.Store.{get}
use jmap2telegram.Store.Slots
use jmap2telegram.Store.Shared
use jmap2telegram.Config.{SharedThreadModeConfig, dedicated, parent}
use jmap2telegram.State.{language_for}
use jmap2telegram.Act.{
  Env, World, Act, Answer, accepted, not_a_forum, refused, send_message, create_forum_topic,
  delete_forum_topic, ask_telegram, call_ignored, on_store, or_storage, get_app,
}
use jmap2telegram.Topics.{is_threaded_mode_enabled}
use jmap2telegram.Topics.Names.{slot_topic_name, shared_topic_name, pick_topic_color}

abbrev pub is_dedicated : SharedThreadModeConfig → Bool
is_dedicated dedicated = true
is_dedicated parent = false

module _ {e : Env} (chat_id : ℤ) where
  -- The introductory message in a new topic.
  abbrev introduce : ℤ → Text → List (Text × Text) → Act e (Unit {0})
  introduce tid key args = do
    app ← get_app
    call_ignored (
        send_message (record { id = chat_id; thread_id = some tid })
          (e.translate (language_for e.config.default_language chat_id none app) key args) none)

  on_slot_answer : Text → AccountSlot → Answer → Act e (Option ℤ)
  on_slot_answer slot_id slot not_a_forum = give none
  on_slot_answer slot_id slot refused = give none
  on_slot_answer slot_id slot (accepted tid) = do
    r ← on_store (λ b io. Slots.set_account_thread_id b io chat_id slot_id (some tid))
    or_storage r
    introduce tid (text "topics.welcome_slot") ((text "email", slot.email) ∷ [])
    give (some tid)

  unfoldable pub create_slot_topic : Text → AccountSlot → Option ℤ → Act e (Option ℤ)
  unfolding on_slot_answer
  create_slot_topic slot_id slot (some tid) = give (some tid)
  create_slot_topic slot_id slot none = do
    answer ← ask_telegram (
        create_forum_topic chat_id
          (slot_topic_name e.host e.config.telegram_thread_strategy slot.email slot.server_url)
          (pick_topic_color (bytes slot.email)))
    on_slot_answer slot_id slot answer

  slot_topic : Text → Option AccountSlot → Act e (Option ℤ)
  unfolding create_slot_topic
  slot_topic slot_id none = give none
  slot_topic slot_id (some slot) = create_slot_topic slot_id slot slot.thread_id

  unfoldable pub slot_topic_of : Text → Option Account → Act e (Option ℤ)
  unfolding slot_topic
  slot_topic_of slot_id none = give none
  slot_topic_of slot_id (some acc) =
      if not (is_threaded_mode_enabled e.config (some acc))
      then give none
      else slot_topic slot_id (lookup slot_id acc.accounts)

  unfoldable pub ensure_slot_topic : Text → Act e (Option ℤ)
  unfolding slot_topic_of
  ensure_slot_topic slot_id = do app ← get_app; slot_topic_of slot_id (get chat_id app.store)

  on_shared_answer : Text → SharedAccount → Answer → Act e (Option ℤ)
  on_shared_answer account_id sh not_a_forum = give none
  on_shared_answer account_id sh refused = give none
  on_shared_answer account_id sh (accepted tid) = do
    r ← on_store (λ b io. Shared.set_shared_account_thread_id b io chat_id account_id (some tid))
    or_storage r
    introduce tid (text "topics.welcome_shared") ((text "name", sh.name) ∷ [])
    give (some tid)

  unfoldable pub create_shared_topic : Text → SharedAccount → Option ℤ → Act e (Option ℤ)
  unfolding on_shared_answer
  create_shared_topic account_id sh (some tid) = give (some tid)
  create_shared_topic account_id sh none = do
    answer ←
        ask_telegram (
          create_forum_topic chat_id (shared_topic_name sh.name) (pick_topic_color (bytes sh.name)))
    on_shared_answer account_id sh answer

  shared_topic : Text → Option SharedAccount → Act e (Option ℤ)
  unfolding create_shared_topic
  shared_topic account_id none = give none
  shared_topic account_id (some sh) = create_shared_topic account_id sh sh.thread_id

  unfoldable pub shared_topic_of : Text → Option Account → Act e (Option ℤ)
  unfolding shared_topic
  shared_topic_of account_id none = give none
  shared_topic_of account_id (some acc) =
      if not (is_threaded_mode_enabled e.config (some acc))
      then give none
      else shared_topic account_id (lookup account_id acc.shared_accounts)

  unfoldable pub ensure_shared_topic : Text → Act e (Option ℤ)
  unfolding shared_topic_of
  ensure_shared_topic account_id =
      if not (is_dedicated e.config.telegram_shared_thread_mode)
      then give none
      else do app ← get_app; shared_topic_of account_id (get chat_id app.store)

  unfoldable pub delete_topic : Option ℤ → Act e (Unit {0})
  delete_topic none = give tt
  delete_topic (some tid) = call_ignored (delete_forum_topic chat_id tid)

  -- `for id in … { results.push((id, ensure(id)?)) }`
  unfoldable pub ensure_all : (Text → Act e (Option ℤ)) → List Text → Act e (List (Text × Option ℤ))
  ensure_all ensure [] = give []
  ensure_all ensure (id ∷ ids) = do
    tid ← ensure id
    rest ← ensure_all ensure ids
    give ((id, tid) ∷ rest)

  ensure_all_of : Option Account → Act e (List (Text × Option ℤ))
  unfolding ensure_slot_topic ensure_shared_topic ensure_all
  ensure_all_of none = give []
  ensure_all_of (some acc) = do
    slots ← ensure_all ensure_slot_topic (keys acc.accounts)
    mailboxes ←
        ensure_all ensure_shared_topic (
          if is_dedicated e.config.telegram_shared_thread_mode
          then keys acc.shared_accounts
          else [])
    give (slots ++ mailboxes)

  unfoldable pub sync_all_topics : Act e (List (Text × Option ℤ))
  unfolding ensure_all_of
  sync_all_topics = do app ← get_app; ensure_all_of (get chat_id app.store)
