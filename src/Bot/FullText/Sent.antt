-- ===== src/Bot/FullText/Sent.antt =====
-- The calls to Telegram of the branch "f" of `callback_handler` in src/bot.rs.
use jmap2telegram.Prelude.{
  ℕ, suc, ◌≡◌, refl, ap, true, false, inl, inr, Bool-cases, List, [], ◌∷◌, ◌++◌, none,
  if◌then◌else◌, length, map, append_assoc, append-nil, Text, ℤ, ok, ◌>>=◌, ◌>>◌,
}
use jmap2telegram.Act.{
  Env, World, Call, answer_callback_query, try_call, make_call, call_ignored, is_accepted,
}
use jmap2telegram.Bot.FullText.{
  to_chat, push_failed, send_chunks, partial_notice, report_failed, chunks_of, send_full_text,
}

module _ (e : Env) (chat_id : ℤ) (lang : Text) where
  -- The parts whose message Telegram refuses, where the first is the n-th call.
  unfoldable pub refused_parts : ℕ → ℕ → List Text → List ℕ
  refused_parts n part [] = []
  refused_parts n part (chunk ∷ chunks) =
      let rest = refused_parts (suc n) (suc part) chunks in
      if is_accepted (e.answer n) then rest else part ∷ rest

  push_failed-refused :
      (n part : ℕ) (chunk : Text) (chunks : List Text)
      → push_failed part (is_accepted (e.answer n)) (refused_parts (suc n) (suc part) chunks)
        ≡ refused_parts n part (chunk ∷ chunks)
  unfolding push_failed refused_parts
  push_failed-refused n part chunk chunks = elim (Bool-cases (is_accepted (e.answer n))) [
    | inl f ↦ rw f refl
    | inr f ↦ rw f refl
  ]

  length-snoc : (calls : List Call) (call : Call) → length (calls ++ call ∷ []) ≡ suc (length calls)
  length-snoc [] call = refl
  length-snoc (c ∷ calls) call = ap suc (length-snoc calls call)

  send_chunks-calls :
      (chunks : List Text) (part : ℕ) (w : World e)
      → send_chunks e chat_id lang part chunks w ≡ (
        ok (refused_parts (length w.calls) part chunks),
        record w { calls = w.calls ++ map (to_chat chat_id) chunks },
      )
  unfolding send_chunks refused_parts try_call
  send_chunks-calls [] part w = rw (append-nil w.calls) refl
  send_chunks-calls (chunk ∷ chunks) part w =
      let next : World e = record w { calls = w.calls ++ to_chat chat_id chunk ∷ [] } in
      rw
        (
          ◌>>=◌,
          send_chunks-calls chunks (suc part) next,
          length-snoc w.calls (to_chat chat_id chunk),
          push_failed-refused (length w.calls) part chunk chunks,
          send_chunks-calls chunks (suc part) next,
          append_assoc w.calls (to_chat chat_id chunk ∷ []) (map (to_chat chat_id) chunks),
        )
        refl

  -- The notice that lists the parts that were refused, if there are any.
  unfoldable pub notices : ℕ → List ℕ → List Call
  notices total [] = []
  notices total (p ∷ ps) = partial_notice e chat_id lang total (p ∷ ps) ∷ []

  report_failed-calls :
      (total : ℕ) (failed : List ℕ) (w : World e)
      → report_failed e chat_id lang total failed w
        ≡ (ok tt, record w { calls = w.calls ++ notices total failed })
  unfolding report_failed notices call_ignored
  report_failed-calls total [] w = rw (append-nil w.calls) refl
  report_failed-calls total (p ∷ ps) w = refl

  -- Once the tap is answered, every chunk of the text is sent, in order, whether or not the chunks
  -- before it were refused; a last message lists the refused parts, when there are any. The handler
  -- ends without an error.
  pub send_full_text-calls :
      (body : Text) (w : World e)
      → is_accepted (e.answer (length w.calls)) ≡ true
      → let chunks = chunks_of e chat_id lang body in
        let answered = w.calls ++ answer_callback_query none false ∷ [] in
        send_full_text e chat_id lang body w ≡ (
          ok tt,
          record w {
            calls =
                answered
                ++ map (to_chat chat_id) chunks
                ++ notices (length chunks) (refused_parts (suc (length w.calls)) 1 chunks);
          },
        )
  unfolding send_full_text make_call
  send_full_text-calls body w h =
      let chunks = chunks_of e chat_id lang body in
      let answer = answer_callback_query none false in
      let next : World e = record w { calls = w.calls ++ answer ∷ [] } in
      rw
        (
          ◌>>=◌,
          ◌>>◌,
          h,
          send_chunks-calls chunks 1 next,
          length-snoc w.calls answer,
          send_chunks-calls chunks 1 next,
          report_failed-calls,
          append_assoc (w.calls ++ answer ∷ []) (map (to_chat chat_id) chunks),
        )
        refl
