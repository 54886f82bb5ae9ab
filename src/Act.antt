-- ===== src/Act.antt =====
-- What the handlers of src/bot.rs, src/accounts.rs and src/topics.rs run in. `Env` is what does not
-- change: the configuration, and the code outside the program. `World` is the shared state, the
-- state of the JMAP servers, the clock, and the calls made so far to Telegram. A `?` on a call that
-- fails ends the handler, which keeps what it has changed.
use jmap2telegram.Prelude.{
  ℕ, ◌+◌, Bool, true, false, List, [], ◌∷◌, ◌++◌, Option, none, some, if◌then◌else◌, length, Text,
  ℤ, Result, ok, err, Step, read, modify,
}
use jmap2telegram.Store.{Store, Backend, Io, Error}
use jmap2telegram.Jmap.{Network, JmapError, IpAddr}
use jmap2telegram.Jmap.Mail.{MailServer}
use jmap2telegram.Health.{Metrics, Health}
use jmap2telegram.Config.{Config}
use jmap2telegram.Format.{Keyboard}
use jmap2telegram.Format.Notification.{Display}
use jmap2telegram.Watcher.{WatchTarget}
use jmap2telegram.State.{AppState}

-- Where a message goes: a chat, and a topic of it.
pub record ChatTarget : Type 0 where
  pub id : ℤ
  pub thread_id : Option ℤ

-- The calls to Telegram; no keyboard, or no text, is `none`. The callback answered is always the one
-- that is handled.
pub data Call : Type 0 where
  send_message : ChatTarget → Text → Option Keyboard → Call
  -- the text, and `show_alert`
  answer_callback_query : Option Text → Bool → Call
  edit_message_reply_markup : ℤ → ℕ → Keyboard → Call
  delete_message : ℤ → ℕ → Call
  send_chat_action : ChatTarget → Call
  create_forum_topic : ℤ → Text → Option ℕ → Call
  delete_forum_topic : ℤ → ℤ → Call

-- The answer of Telegram to a call, with the thread of a new topic.
pub data Answer : Type 0 where
  accepted : ℤ → Answer
  -- an error that `is_not_a_forum_error` accepts, and any other error
  not_a_forum refused : Answer

-- What ends a handler early.
pub data Failure : Type 0 where
  telegram : Failure
  storage : Error → Failure

pub record Env : Type 1 where
  pub net : Network
  pub mail : MailServer net.Client
  pub backend : Backend
  pub config : Config
  pub lowercase : Text → Text
  -- `t!`: the locale, the key, and the arguments by name
  pub translate : Text → Text → List (Text × Text) → Text
  -- the `Display` of a storage error
  pub storage_message : Error → Text
  -- the rendering of times and sizes
  pub shown : Display
  -- the `Display` of an address
  pub ip_text : IpAddr → Text
  -- the host in the URL of a server, for the name of a topic
  pub host : Text → Option Text
  -- the name of an account in the session of a client, and the accounts shared with it
  pub account_name : net.Client → Text → Option Text
  pub list_shared_accounts : net.Client → List (Text × Text)
  -- the answer to the n-th call, and the file system and the random numbers of the n-th write
  pub answer : ℕ → Answer
  pub io : ℕ → Io
  pub draws : ℕ → List ℕ

pub record World (e : Env) : Type 0 where
  pub app : AppState e.net.Client
  pub server : e.mail.Server
  pub now : ℕ
  pub calls : List Call
  pub writes : ℕ
  -- the watchers that were spawned; the handle of a watcher is its place
  pub tasks : List (ℤ × WatchTarget)

abbrev pub is_accepted : Answer → Bool
is_accepted (accepted tid) = true
is_accepted not_a_forum = false
is_accepted refused = false

abbrev pub Act : Env → Type 0 → Type 0
Act e A = Step (World e) Failure A

module _ {e : Env} where
  abbrev with_call : Call → World e → World e
  with_call call w = record w { calls = w.calls ++ call ∷ [] }

  -- `call.await`, with its answer
  unfoldable pub ask_telegram : Call → Act e Answer
  ask_telegram call w = (ok (e.answer (length w.calls)), with_call call w)

  -- `call.await.is_ok()`
  unfoldable pub try_call : Call → Act e Bool
  try_call call w = (ok (is_accepted (e.answer (length w.calls))), with_call call w)

  -- `call.await?`
  unfoldable pub make_call : Call → Act e (Unit {0})
  make_call call w =
      (if is_accepted (e.answer (length w.calls)) then ok tt else err telegram, with_call call w)

  -- `let _ = call.await`
  unfoldable pub call_ignored : Call → Act e (Unit {0})
  call_ignored call w = (ok tt, with_call call w)

  abbrev pub send_to : ChatTarget → Text → Act e (Unit {0})
  send_to target message = make_call (send_message target message none)

  abbrev pub answer_with : Text → Act e (Unit {0})
  answer_with message = make_call (answer_callback_query (some message) false)

  abbrev pub alert : Text → Act e (Unit {0})
  alert message = make_call (answer_callback_query (some message) true)

  abbrev pub answer_quietly : Act e (Unit {0})
  answer_quietly = make_call (answer_callback_query none false)

  abbrev pub set_app : AppState e.net.Client → World e → World e
  set_app app w = record w { app = app }

  abbrev pub on_app : (AppState e.net.Client → AppState e.net.Client) → Act e (Unit {0})
  on_app f = modify (λ w. set_app (f w.app) w)

  abbrev pub on_metrics : (Metrics → Metrics) → Act e (Unit {0})
  on_metrics f = on_app (λ app. record app { metrics = f app.metrics })

  abbrev pub on_health : (Health → Health) → Act e (Unit {0})
  on_health f = on_app (λ app. record app { health = f app.health })

  abbrev pub get_app : Act e (AppState e.net.Client)
  get_app = read (λ w. w.app)

  -- A lookup that may connect and fill the cache.
  abbrev pub with_app : {A : Type 0} → (AppState e.net.Client → A × AppState e.net.Client) → Act e A
  with_app f w = let (a, app) = f w.app in (ok a, set_app app w)

  -- A mutation of the store, with its result as a value.
  unfoldable pub on_store :
      {A : Type 0} → (Backend → Io → Store → Result A Error × Store) → Act e (Result A Error)
  on_store f w =
      let (r, store) = f e.backend (e.io w.writes) w.app.store in
      (ok r, record w { app = record w.app { store = store }; writes = w.writes + 1 })

  -- `…?` on a result of the store
  abbrev pub or_storage : {A : Type 0} → Result A Error → Act e A
  or_storage (ok a) w = (ok a, w)
  or_storage (err x) w = (err (storage x), w)

  -- A call to a JMAP server, with its result as a value.
  abbrev pub on_server : {A : Type 0} → Step e.mail.Server JmapError A → Act e (Result A JmapError)
  on_server rpc w = let (r, server) = rpc w.server in (ok r, record w { server = server })
