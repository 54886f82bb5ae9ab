-- ===== src/Bot/FullText.antt =====
-- The branch "f" of `callback_handler` in src/bot.rs: the whole text of a message, in chunks.
pub mod Sent
use jmap2telegram.Prelude.{
  ℕ, zero, suc, ◌+◌, ◌-◌, ◌≡◌, refl, sym, ap, ◌∙◌, Bool, true, false, inl, inr, Bool-cases, List,
  [], ◌∷◌, ◌++◌, Option, none, some, if◌then◌else◌, length, map, append_assoc, append-nil, Text,
  text, ℤ, Result, ok, err, Step, ◌>>=◌, ◌>>◌, give, arith,
}
use jmap2telegram.Strings.{trim, is_empty, join}
use jmap2telegram.Strings.Decimal.{display}
use jmap2telegram.Jmap.{JmapError}
use jmap2telegram.Jmap.Mail.{fetch_full_text}
use jmap2telegram.Format.{telegram_max_message_len}
use jmap2telegram.Format.Chunks.{chunk_text}
use jmap2telegram.Act.{
  Env, World, Act, Call, send_message, answer_callback_query, send_chat_action, try_call, make_call,
  call_ignored, answer_quietly, alert, on_server, is_accepted,
}
use jmap2telegram.Bot.Replies.{t, cross}

abbrev pub to_chat : ℤ → Text → Call
to_chat chat_id message = send_message (record { id = chat_id; thread_id = none }) message none

unfoldable pub push_failed : ℕ → Bool → List ℕ → List ℕ
push_failed part true failed = failed
push_failed part false failed = part ∷ failed

-- `format!("{p}/{total}")`
unfoldable pub part_names : ℕ → List ℕ → List Text
part_names total [] = []
part_names total (p ∷ ps) = (display p ++ b'/' ∷ display total) ∷ part_names total ps

module _ (e : Env) (chat_id : ℤ) (lang : Text) where
  -- The loop over the chunks, with the parts that were not sent; `part` is `index + 1`.
  unfoldable pub send_chunks : ℕ → List Text → Act e (List ℕ)
  unfolding push_failed
  send_chunks part [] = give []
  send_chunks part (chunk ∷ chunks) = do
    sent ← try_call (to_chat chat_id chunk)
    failed ← send_chunks (suc part) chunks
    give (push_failed part sent failed)

  unfoldable pub partial_notice : ℕ → List ℕ → Call
  unfolding part_names
  partial_notice total failed = to_chat chat_id (
      e.translate lang (text "bot.full_text_partial") (
        (text "count", display (length failed))
        ∷ (text "listing", join (text ", ") (part_names total failed))
        ∷ []))

  unfoldable pub report_failed : ℕ → List ℕ → Act e (Unit {0})
  unfolding partial_notice
  report_failed total [] = give tt
  report_failed total (p ∷ ps) = call_ignored (partial_notice total (p ∷ ps))

  unfoldable pub shown_text : Text → Text
  shown_text body = if is_empty (trim body) then t e lang (text "notif.empty_message") else body

  unfoldable pub chunks_of : Text → List Text
  unfolding shown_text chunk_text
  chunks_of body = chunk_text (shown_text body) (telegram_max_message_len - 16)

  unfoldable pub send_full_text : Text → Act e (Unit {0})
  unfolding send_chunks report_failed chunks_of
  send_full_text body = do
    answer_quietly
    failed ← send_chunks 1 (chunks_of body)
    report_failed (length (chunks_of body)) failed

  unfoldable pub on_fetched : Result Text JmapError → Act e (Unit {0})
  unfolding send_full_text
  on_fetched (err x) = alert (cross e lang x)
  on_fetched (ok body) = send_full_text body

  unfoldable pub full_text : e.net.Client → Text → Act e (Unit {0})
  unfolding on_fetched
  full_text client email_id = do
    call_ignored (send_chat_action (record { id = chat_id; thread_id = none }))
    fetched ← on_server (fetch_full_text e.mail client email_id)
    on_fetched fetched
