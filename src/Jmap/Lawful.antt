-- ===== src/Jmap/Lawful.antt =====
-- What the undo of src/bot.rs relies on in a JMAP server (RFC 8621), through the calls of jmap.rs.
use jmap2telegram.Prelude.{
  ◌≡◌, sym, ◌∙◌, inl, inr, List, none, some, Option-cases, Text, ok, ◌>>=◌, arith,
}
use jmap2telegram.Jmap.Mail.{MailServer, Email, ask, mailbox_ids_of, restore_mailboxes}

-- `mailboxes` is where a message is. `Email/get` reads it, and setting it succeeds as it should.
pub record IsLawful {Client : Type 0} (mail : MailServer Client) : Type 0 where
  pub mailboxes : Client → Text → mail.Server → List Text
  pub get_answer :
      (client : Client) (id : Text) (s : mail.Server) (email : Email)
      → (mail.email_get client id s).0 ≡ some (some email)
      → email.mailbox_ids ≡ mailboxes client id s
  pub set_answer :
      (client : Client) (id : Text) (ids : List Text) (s : mail.Server)
      → (mail.email_set_mailboxes client id ids s).0 ≡ some tt
      → mailboxes client id (mail.email_set_mailboxes client id ids s).1 ≡ ids

module _ {Client : Type 0} {mail : MailServer Client} (law : IsLawful mail) (client : Client)
    (id : Text) (s : mail.Server) where
  -- A snapshot that succeeds is where the message is.
  pub mailbox_ids_of-mailboxes :
      (ids : List Text)
      → (mailbox_ids_of mail client id s).0 ≡ ok ids
      → ids ≡ law.mailboxes client id s
  unfolding mailbox_ids_of
  mailbox_ids_of-mailboxes ids h = elim (Option-cases (mail.email_get client id s).0) [
    | inl f ↦ absurd (ground (arith, rw (◌>>=◌, f) at h))
    | inr (some email, f) ↦
        let got : email.mailbox_ids ≡ ids = ground (arith, rw (◌>>=◌, f) at h) in
        sym got ∙ law.get_answer client id s email f
    | inr (none, f) ↦ absurd (ground (arith, rw (◌>>=◌, f) at h))
  ]

  -- A restoration that succeeds puts the message there.
  pub restore_mailboxes-mailboxes :
      (ids : List Text)
      → (restore_mailboxes mail client id ids s).0 ≡ ok tt
      → law.mailboxes client id (restore_mailboxes mail client id ids s).1 ≡ ids
  unfolding restore_mailboxes
  restore_mailboxes-mailboxes ids h =
      elim (Option-cases (mail.email_set_mailboxes client id ids s).0) [
        | inl f ↦ absurd (ground (arith, rw (ask, f) at h))
        | inr (_, f) ↦ rw (ask, f) (law.set_answer client id ids s f)
      ]
