-- ===== src/Tests/HandlerExamples.antt =====
-- The theorems on the handlers, at a mail server that grants every call.
use jmap2telegram.Prelude.{
  ℕ, zero, suc, ◌<◌, ◌≡◌, refl, inl, inr, true, false, List, [], ◌∷◌, ◌++◌, Option, none, some,
  Text, text, int_beq, Result, ℤ, pos, negsuc, insert, lookup, list_beq, length, ok, err, arith,
  map,
}
use jmap2telegram.Jmap.{JmapError, unreachable, message_not_found}
use jmap2telegram.Jmap.Mail
use jmap2telegram.Jmap.Mail.{mailbox_ids_of, restore_mailboxes}
use jmap2telegram.Config.{Vars, authorized_ids}
use jmap2telegram.Config.Accepts.{join_ids, member, authorized_ids-join_ids}
use jmap2telegram.Watcher.{account, still_active}
use jmap2telegram.Store.{get}
use jmap2telegram.Watcher.Loop.{initial_backoff}
use jmap2telegram.Accounts.{Turn, is_stored, slot_adopted, handed_over, resume_target_with}
use jmap2telegram.Accounts.Resume.{IsWatched, backoffs, resume_target_with-IsWatched}
use jmap2telegram.Act.{World, ChatTarget, make_call, call_ignored, answer_callback_query}
use jmap2telegram.Bot.Replies.{cross}
use jmap2telegram.Bot.Triage.{
  on_snapshot, on_moved, run_action, CallbackCtx, EmailRef, archive, perform_triage_action, undo,
}
use jmap2telegram.Bot.Triage.Undo.{undo-perform_triage_action, undo-undo}
use jmap2telegram.Bot.Triage.Failed.{Attempt, perform_all, AllFail, undo-perform_all}
use jmap2telegram.Bot.FullText.{send_full_text, to_chat, chunks_of}
use jmap2telegram.Bot.FullText.Sent.{notices, refused_parts, send_full_text-calls}
use jmap2telegram.Bot.Handler.{Message, TapMessage, CallbackQuery}
use jmap2telegram.Bot.Handler.Authorized.{message}
use jmap2telegram.Bot.Replies.{t}
use jmap2telegram.Account.{Account, generate_slot_id, letter}
use jmap2telegram.Format.{notification_keyboard, undo_keyboard}
use jmap2telegram.Bot.Login.{sorted_slots, disconnect_rows}
use jmap2telegram.Bot.Logout.{logout_keyboard}
use jmap2telegram.Bot.Threads.{overview_keyboard}
use jmap2telegram.Bot.Sharing.{sharing_keyboard}
use jmap2telegram.Bot.Keyboards.{AllFit, keyboards-AllFit}
use jmap2telegram.Tests.Inputs
use jmap2telegram.Tests.Inputs.{slot_named}
use jmap2telegram.Tests.Mailbox.{mail-IsLawful, env, world}

authorized_ids-join_ids_example :
    (got : List ℤ) × (authorized_ids (join_ids (pos 7 ∷ negsuc 2 ∷ [])) ≡ ok got)
    × ((id : ℤ) → member id got ≡ member id (pos 7 ∷ negsuc 2 ∷ []))
authorized_ids-join_ids_example =
    authorized_ids-join_ids (pos 7 ∷ negsuc 2 ∷ []) (ground arith) (omega arith, (omega arith, tt))

abbrev ctx : CallbackCtx
ctx = record { chat_id = pos 7; message_id = 31 }

abbrev email : EmailRef
email = record { account_id = none; email_id = text "M1" }

abbrev archived : World env
archived = (perform_triage_action env ctx (text "c") email (text "en") archive world).1

undo-perform_triage_action_example :
    mail-IsLawful.mailboxes
      (text "c")
      (text "M1")
      (undo env ctx (text "c") email (text "en") (record archived { now = 20 })).1.server
    ≡ mail-IsLawful.mailboxes (text "c") (text "M1") world.server
unfolding perform_triage_action run_action restore_mailboxes mailbox_ids_of lookup list_beq
    make_call Mail.archive on_snapshot on_moved call_ignored
undo-perform_triage_action_example =
    undo-perform_triage_action env ctx (text "c") email (text "en") mail-IsLawful archive
      (text "inbox" ∷ text "work" ∷ []) world (record archived { now = 20 }) (refl, refl) refl refl
      (omega arith) refl

abbrev undone : World env
undone = (undo env ctx (text "c") email (text "en") archived).1

undo-undo_example : (undo env ctx (text "c") email (text "en") undone).1.server ≡ undone.server
undo-undo_example =
    undo-undo env ctx ctx (text "c") (text "c") email email (text "en") archived undone refl refl

abbrev gone : EmailRef
gone = record { account_id = none; email_id = text "M9" }

abbrev first : Attempt env
first = record {
  ctx = ctx;
  client = text "c";
  target = email;
  lang = text "en";
  action = archive;
  error = message_not_found;
}

-- Two taps on the buttons of a message that is gone.
abbrev lost : Attempt env
lost = record first { target = gone }

undo-perform_all_example :
    ((perform_all env (lost ∷ lost ∷ []) archived).calls
      ≡ archived.calls
        ++ answer_callback_query (some (cross env (text "en") message_not_found)) true
          ∷ answer_callback_query (some (cross env (text "en") message_not_found)) true
          ∷ [])
    × (mail-IsLawful.mailboxes
          (text "c")
          (text "M1")
          (undo env ctx
            (text "c")
            email
            (text "en")
            (record (perform_all env (lost ∷ lost ∷ []) archived) { now = 20 })).1.server
        ≡ mail-IsLawful.mailboxes (text "c") (text "M1") world.server)
unfolding perform_triage_action run_action restore_mailboxes mailbox_ids_of lookup list_beq
    make_call Mail.archive on_snapshot on_moved call_ignored perform_all AllFail insert
undo-perform_all_example =
    undo-perform_all env mail-IsLawful first (text "inbox" ∷ text "work" ∷ []) (lost ∷ lost ∷ [])
      world archived (record (perform_all env (lost ∷ lost ∷ []) archived) { now = 20 })
      (refl, refl) refl refl (inl refl, (inl refl, tt)) refl (omega arith) refl

send_full_text-calls_example :
    let chunks = chunks_of env (pos 7) (text "en") (text "Hello") in
    send_full_text env (pos 7) (text "en") (text "Hello") world ≡ (
      ok tt,
      record world {
        calls =
            answer_callback_query none false ∷ map (to_chat (pos 7)) chunks
            ++ notices env
                (pos 7)
                (text "en")
                (length chunks)
                (refused_parts env (pos 7) (text "en") 1 1 chunks);
      },
    )
send_full_text-calls_example =
    send_full_text-calls env (pos 7) (text "en") (text "Hello") world refl

abbrev stranger : Message
stranger = record {
  chat_id = pos 99;
  is_private = true;
  thread_id = none;
  message_id = 3;
  language_code = none;
  body = some (text "/logout");
}

abbrev stray : TapMessage
stray = record { chat_id = pos 7; is_private = false; message_id = 3 }

abbrev tapped : CallbackQuery
tapped = record { message = some stray; payload = some (text "logout:all"); language_code = none }

abbrev vars : Vars
vars = record {
  telegram_token = some (text "123:abc");
  raw_ids = some (text "7,-3");
  data_dir = some (text "/data");
  allow_private_jmap_hosts = none;
  timezone = none;
  default_language = none;
  telegram_threaded_mode = none;
  telegram_thread_strategy = none;
  telegram_shared_thread_mode = some (text "dedicated");
}

-- The first two connections fail.
abbrev connections : ℕ → Result Text JmapError
connections zero = err unreachable
connections (suc zero) = err unreachable
connections (suc (suc n)) = ok (text "c")

abbrev resumed : Option Turn × List ℕ × World env
resumed =
    resume_target_with (pos 7) (account (text "work") (text "Work")) connections (λ n w. w)
      (λ n w. w) 3 0 initial_backoff world

refused_before : (n : ℕ) → n < 2 → (x : JmapError) × (connections n ≡ err x)
refused_before zero h = (unreachable, refl)
refused_before (suc zero) h = (unreachable, refl)
refused_before (suc (suc n)) h = absurd (omega (arith, h))

resume_target_with-IsWatched_example :
    (resumed.0 ≡ some (handed_over true))
    × (resumed.1 ≡ backoffs 2 initial_backoff)
    × IsWatched (pos 7) (account (text "work") (text "Work")) resumed.2
unfolding is_stored slot_adopted get lookup int_beq list_beq still_active
resume_target_with-IsWatched_example =
    resume_target_with-IsWatched (pos 7) (account (text "work") (text "Work")) connections
      (λ n w. w) (λ n w. w) 2 3 (text "c") world (λ n w h. h) (λ n w h. h) (omega arith)
      refused_before refl (refl, refl)

abbrev here : ChatTarget
here = record { id = pos 7; thread_id = none }

-- The chat's account with a slot of a generated id.
abbrev one_account : Account
one_account = record Inputs.account {
  accounts =
      (text "default", slot_named (text "default") (text "me@home"))
      ∷ (text "abcdefg9", slot_named (text "abcdefg9") (text "me@work"))
      ∷ [];
}

keyboards-AllFit_example :
    AllFit (notification_keyboard (t env (text "en")) (text "M1") (some (text "acc9")) true true)
    × AllFit (undo_keyboard (t env (text "en")) (text "M1") (some (text "acc9")))
    × AllFit (sharing_keyboard env one_account)
    × AllFit (disconnect_rows (sorted_slots one_account.accounts))
    × AllFit (logout_keyboard env here (text "en") one_account)
    × AllFit (overview_keyboard env here (text "en") true)
unfolding generate_slot_id letter
keyboards-AllFit_example =
    keyboards-AllFit env here (text "en") (some (text "acc9")) (text "M1") true true true
      one_account (inl refl, (inr (0 ∷ 1 ∷ 2 ∷ 3 ∷ 4 ∷ 5 ∷ 6 ∷ 35 ∷ [], refl, refl), tt))
