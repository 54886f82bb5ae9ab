-- ===== src/Bot/Logout/Erased.antt =====
-- What the tap "logout:all" of src/bot.rs leaves of a chat.
use jmap2telegram.Prelude.{
  ℕ, ◌≡◌, refl, ◌∙◌, inl, inr, Bool-cases, List, [], ◌∷◌, ◌++◌, Option, none, some, if◌then◌else◌,
  ◌==◌, nat_eq, list_eq, int_eq, pair_eq, length, values, Text, ℤ, lookup, ok, ◌>>=◌, ◌>>◌,
  for_each, arith, int_beq_iff,
}
use jmap2telegram.Account.{Account}
use jmap2telegram.Store.{get}
use jmap2telegram.Store.Settings
use jmap2telegram.Store.Laws.{get-remove}
use jmap2telegram.Watcher.{WatchTarget}
use jmap2telegram.State.{AppState, forget, refresh_accounts_gauge}
use jmap2telegram.State.Forget.{forget-Forgets}
use jmap2telegram.Topics.Ensure.{delete_topic}
use jmap2telegram.Act.{
  Env, World, Act, Call, delete_forum_topic, edit_message_reply_markup, make_call, call_ignored,
  on_store, is_accepted,
}
use jmap2telegram.Bot.Logout.{delete_topics, delete_topics_of, logout_all}

module _ {e : Env} where
  -- A step that ends without an error and at most makes calls to Telegram.
  abbrev IsQuiet : Act e (Unit {0}) → Type 0
  IsQuiet step =
      (w : World e) → (calls : List Call) × (step w ≡ (ok tt, record w { calls = calls }))

  for_each-IsQuiet :
      {A : Type 0} (body : A → Act e (Unit {0})) (xs : List A)
      → ((x : A) → IsQuiet (body x))
      → IsQuiet (for_each body xs)
  unfolding for_each
  for_each-IsQuiet body [] quiet w = (w.calls, refl)
  for_each-IsQuiet body (x ∷ xs) quiet w =
      let (calls, first) = quiet x w in
      let (after, rest) = for_each-IsQuiet body xs quiet (record w { calls = calls }) in
      (after, rw (◌>>◌, ◌>>=◌, first, first) rest)

  delete_topic-IsQuiet : (chat_id : ℤ) (tid : Option ℤ) → IsQuiet (delete_topic chat_id tid)
  unfolding delete_topic call_ignored
  delete_topic-IsQuiet chat_id none w = (w.calls, refl)
  delete_topic-IsQuiet chat_id (some tid) w = (w.calls ++ delete_forum_topic chat_id tid ∷ [], refl)

module _ (e : Env) (chat_id : ℤ) where
  delete_topics_of-IsQuiet : (found : Option Account) → IsQuiet (delete_topics_of e chat_id found)
  unfolding delete_topics_of delete_topics
  delete_topics_of-IsQuiet none w = (w.calls, refl)
  delete_topics_of-IsQuiet (some acc) w =
      let (calls, first) =
        for_each-IsQuiet (λ slot. delete_topic chat_id slot.thread_id) (values acc.accounts)
          (λ slot. delete_topic-IsQuiet chat_id slot.thread_id) w in
      let (after, rest) =
        for_each-IsQuiet (λ sh. delete_topic chat_id sh.thread_id) (values acc.shared_accounts)
          (λ sh. delete_topic-IsQuiet chat_id sh.thread_id) (record w { calls = calls }) in
      (after, rw (◌>>◌, ◌>>=◌, first, first) rest)

  -- The shared state after the tap, whatever Telegram answers.
  abbrev erased : World e → AppState e.net.Client
  erased w = refresh_accounts_gauge (record (forget chat_id w.app) {
    store = (Settings.remove e.backend (e.io w.writes) chat_id (forget chat_id w.app).store).1;
  })

  logout_all-app :
      (lang : Text) (message_id : ℕ) (w : World e)
      → (logout_all e chat_id lang message_id w).1.app ≡ erased w
  unfolding logout_all on_store call_ignored make_call
  logout_all-app lang message_id w =
      let (calls, quiet) = delete_topics_of-IsQuiet (get chat_id w.app.store) w in
      let at_answer = calls ++ edit_message_reply_markup chat_id message_id [] ∷ [] in
      elim (Bool-cases (is_accepted (e.answer (length at_answer)))) [
        | inl f ↦ rw (◌>>=◌, ◌>>◌, quiet, quiet, f, quiet) refl
        | inr f ↦ rw (◌>>=◌, ◌>>◌, quiet, quiet, f, quiet) refl
      ]

  removed :
      (other : ℤ) (w : World e)
      → get other (erased w).store ≡ (if other == chat_id then none else get other w.app.store)
  unfolding refresh_accounts_gauge forget
  removed other w =
      get-remove e.backend (e.io w.writes) chat_id other w.app.store
      ∙ ground (arith, int_beq_iff chat_id other, int_beq_iff other chat_id)

  -- The tap "logout:all" leaves a chat no stored account, no client, no watcher and no pending undo,
  -- and every other chat what it had, whatever Telegram answers and whether or not the store could be
  -- written.
  pub logout_all-Erases :
      (lang : Text) (message_id : ℕ) (w : World e) (other : ℤ) (id : Text)
      → let after = (logout_all e chat_id lang message_id w).1.app in
        let gone = other == chat_id in
        (get other after.store ≡ (if gone then none else get other w.app.store))
        × (lookup (other, id) after.account_clients
            ≡ (if gone then none else lookup (other, id) w.app.account_clients))
        × (lookup (other, id) after.account_watchers
            ≡ (if gone then none else lookup (other, id) w.app.account_watchers))
        × (lookup (other, id) after.shared_clients
            ≡ (if gone then none else lookup (other, id) w.app.shared_clients))
        × (lookup (other, id) after.shared_watchers
            ≡ (if gone then none else lookup (other, id) w.app.shared_watchers))
        × (lookup other after.pending_undo
            ≡ (if gone then none else lookup other w.app.pending_undo))
  unfolding refresh_accounts_gauge forget
  logout_all-Erases lang message_id w other id =
      let (clients, watchers, shared_clients, shared_watchers, undos, _, _) =
        forget-Forgets chat_id w.app other id (WatchTarget.primary) in
      rw (logout_all-app lang message_id w)
        (removed other w, clients, watchers, shared_clients, shared_watchers, undos)
