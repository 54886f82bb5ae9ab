-- ===== src/Sync/Notified.antt =====
-- Which messages one sync of src/watcher.rs sends.
use jmap2telegram.Prelude.{
  ◌≡◌, refl, ◌∙◌, ap, sym, inl, inr, Bool, true, false, not, ◌&&◌, List, [], ◌∷◌, ◌++◌,
  append_assoc, append-nil, Option, none, some, Bool-cases, Option-cases, if◌then◌else◌, is_some,
  ◌==◌, nat_eq, list_eq, length, Text, ℤ,
}
use jmap2telegram.Account.{Account}
use jmap2telegram.Store.{get}
use jmap2telegram.Jmap.{ChangedEmail}
use jmap2telegram.Watcher.{WatchTarget, since_state, self_address, skip_reason, is_muted}
use jmap2telegram.Sync.{
  World, Sync, Message, Sent, first_try, fallback, SendResult, delivered, thread_not_found, failed,
  message_of, on_sent, count_fallback, send_message, notify_email, notify_emails, write_cursor,
  sync_changes, start_cursor, sync_and_notify,
}

-- The messages of an outbox that are not repeats.
pub first_tries : List Sent → List Message
first_tries [] = []
first_tries (first_try m ∷ sent) = m ∷ first_tries sent
first_tries (fallback m ∷ sent) = first_tries sent

first_tries-append : (xs ys : List Sent) → first_tries (xs ++ ys) ≡ first_tries xs ++ first_tries ys
unfolding first_tries
first_tries-append [] ys = refl
first_tries-append (first_try m ∷ xs) ys = ap (◌∷◌ m) (first_tries-append xs ys)
first_tries-append (fallback m ∷ xs) ys = first_tries-append xs ys

module _ (w : World) (chat_id : ℤ) (target : WatchTarget) (acc : Account) where
  -- A message is news when it is neither skipped nor muted.
  abbrev pub is_news : ChangedEmail → Bool
  is_news email =
      not (is_some (skip_reason email (self_address target acc)))
      && not (is_muted w.lowercase email.summary acc.muted)

  -- The messages for the news among the changed ones, in their order.
  pub news : List ChangedEmail → List Message
  news [] = []
  news (email ∷ emails) =
      let rest = news emails in
      if is_news email then message_of w chat_id target acc email.summary ∷ rest else rest

  outbox-count_fallback :
      (r : SendResult) (s : Sync) → (count_fallback w chat_id target r s).outbox ≡ s.outbox
  unfolding count_fallback
  outbox-count_fallback delivered s = refl
  outbox-count_fallback thread_not_found s = refl
  outbox-count_fallback failed s = refl

  first_tries-on_sent :
      (r : SendResult) (m : Message) (s : Sync)
      → first_tries (on_sent w chat_id target r m s).outbox ≡ first_tries s.outbox
  unfolding on_sent
  first_tries-on_sent delivered m s = refl
  first_tries-on_sent failed m s = refl
  first_tries-on_sent thread_not_found m s =
      ap first_tries (outbox-count_fallback (w.send (length s.outbox)) _)
      ∙ first_tries-append s.outbox _
      ∙ unfold first_tries in append-nil (first_tries s.outbox)

  first_tries-notify_email :
      (email : ChangedEmail) (s : Sync)
      → first_tries (notify_email w chat_id target acc email s).outbox
        ≡ first_tries s.outbox ++ news (email ∷ [])
  unfolding notify_email send_message news
  first_tries-notify_email email s =
      elim (Option-cases (skip_reason email (self_address target acc))) [
        | inr (reason, e) ↦ rw (e, notify_email) (sym (append-nil (first_tries s.outbox)))
        | inl e ↦ elim (Bool-cases (is_muted w.lowercase email.summary acc.muted)) [
          | inl f ↦ rw (e, notify_email, f) (sym (append-nil (first_tries s.outbox)))
          | inr f ↦
              rw (e, notify_email, f)
                (first_tries-on_sent (w.send (length s.outbox)) _ _
                  ∙ first_tries-append s.outbox _
                  ∙ unfold first_tries in refl)
        ]
      ]

  news-cons :
      (email : ChangedEmail) (emails : List ChangedEmail)
      → news (email ∷ emails) ≡ news (email ∷ []) ++ news emails
  unfolding news
  news-cons email emails = elim (Bool-cases (is_news email)) [
    | inl e ↦ rw e refl
    | inr e ↦ rw e refl
  ]

  first_tries-notify_emails :
      (emails : List ChangedEmail) (s : Sync)
      → first_tries (notify_emails w chat_id target acc emails s).outbox
        ≡ first_tries s.outbox ++ news emails
  unfolding notify_emails
  first_tries-notify_emails [] s = unfold news in sym (append-nil (first_tries s.outbox))
  first_tries-notify_emails (email ∷ emails) s =
      first_tries-notify_emails emails (notify_email w chat_id target acc email s)
      ∙ ap (λ t. t ++ news emails) (first_tries-notify_email email s)
      ∙ append_assoc (first_tries s.outbox) (news (email ∷ [])) (news emails)
      ∙ ap (λ t. first_tries s.outbox ++ t) (sym (news-cons email emails))

  outbox-write_cursor_if :
      (test : Bool) (state : Text) (s : Sync)
      → (if test then write_cursor w chat_id target state s else s).outbox ≡ s.outbox
  unfolding write_cursor
  outbox-write_cursor_if true state s = refl
  outbox-write_cursor_if false state s = refl

  outbox-start_cursor :
      (o : Option Text) (s : Sync) → (start_cursor w chat_id target o s).outbox ≡ s.outbox
  unfolding start_cursor write_cursor
  outbox-start_cursor none s = refl
  outbox-start_cursor (some state) s = refl

  -- A sync of an account with a cursor sends one message for each changed message that is neither
  -- skipped nor muted, in their order, and sends nothing where the changes cannot be read. Repeats
  -- to the main chat after a lost topic are not counted.
  pub sync_and_notify-Notifies :
      (since : Text) (s : Sync)
      → get chat_id s.store ≡ some acc
      → since_state target acc ≡ some since
      → first_tries (sync_and_notify w chat_id target s).outbox
        ≡ first_tries s.outbox ++ (elim (w.fetch_changed_emails since) [
          | none ↦ []
          | some (changed, new_state) ↦ news changed
        ])
  unfolding sync_and_notify sync_changes write_cursor
  sync_and_notify-Notifies since s found cursor =
      rw (found, sync_and_notify, cursor)
        (elim (Option-cases (w.fetch_changed_emails since)) [
          | inl e ↦ rw (e, sync_changes) (sym (append-nil (first_tries s.outbox)))
          | inr ((changed, new_state), e) ↦
              rw (e, sync_changes)
                (ap first_tries (outbox-write_cursor_if (not (new_state == since)) new_state _)
                  ∙ first_tries-notify_emails changed _)
        ])

  -- A sync of an account without a cursor sends nothing, so nobody is told of the messages that a
  -- mailbox had before.
  pub sync_and_notify-Quiet :
      (s : Sync)
      → get chat_id s.store ≡ some acc
      → since_state target acc ≡ none
      → (sync_and_notify w chat_id target s).outbox ≡ s.outbox
  unfolding sync_and_notify
  sync_and_notify-Quiet s found no_cursor =
      rw (found, sync_and_notify, no_cursor) (outbox-start_cursor w.current_email_state s)
