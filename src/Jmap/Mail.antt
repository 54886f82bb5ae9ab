-- ===== src/Jmap/Mail.antt =====
-- The calls to a connected JMAP server in src/jmap.rs, from `account_email` to `delete`. The
-- requests of the crate jmap_client are the fields of `MailServer`: each reads and changes the state
-- of the server and of the connection, and gives `none` where the crate gives an error. `Email` has
-- the getters of the crate's type.
use jmap2telegram.Prelude.{
  ℕ, Bool, true, List, [], ◌∷◌, ◌++◌, Option, none, some, if◌then◌else◌, list_eq, nat_eq, Text,
  text, ℤ, Dict, lookup, insert, ok, err, Step, ◌>>=◌, give, or_fail,
}
use jmap2telegram.Strings.{trim, is_empty}
use jmap2telegram.Jmap.{
  EmailSummary, ChangedEmail, Role, JmapError, protocol, message_not_found, no_archive_mailbox,
  no_junk_mailbox, no_trash_mailbox,
}
use jmap2telegram.Jmap

pub record Email : Type 0 where
  pub id : Option Text
  pub subject : Option Text
  pub preview : Option Text
  pub from : Option (List (Option Text × Text))
  pub received_at : Option ℤ
  pub attachments : Option (List (Option Text × ℕ))
  pub mailbox_ids : List Text
  pub keywords : List Text
  pub text_body : Option (List (Option Text))
  pub body_values : Dict Text Text

pub record MailServer (Client : Type 0) : Type 1 where
  pub Server : Type 0
  -- `client.session().username()`
  pub username : Client → Text
  -- `Email/get` of one message, and of a list, with the state of the account
  pub email_get : Client → Text → Server → Option (Option Email) × Server
  pub send_get_email : Client → List Text → Server → Option (List Email × Text) × Server
  pub email_changes : Client → Text → ℕ → Server → Option (List Text × Text) × Server
  -- a full-text query, newest first, with a limit
  pub query_email : Client → Text → ℕ → Server → Option (List Text) × Server
  pub send_get_mailbox : Client → Server → Option (List (Option Text × Role)) × Server
  pub mailbox_query : Client → Role → Server → Option (List Text) × Server
  pub email_set_mailboxes : Client → Text → List Text → Server → Option (Unit {0}) × Server
  pub email_set_keyword : Client → Text → Text → Bool → Server → Option (Unit {0}) × Server

-- How many results `search` returns at most.
abbrev pub search_result_limit : ℕ
search_result_limit = 10

or_empty : Option Text → Text
or_empty none = []
or_empty (some t) = t

named_attachments : List (Option Text × ℕ) → List (Text × ℕ)
unfolding or_empty
named_attachments [] = []
named_attachments ((name, size) ∷ parts) = (or_empty name, size) ∷ named_attachments parts

unfoldable pub attachments_of : Email → List (Text × ℕ)
unfolding named_attachments
attachments_of email = elim email.attachments [ none ↦ [] | some parts ↦ named_attachments parts ]

-- `addrs.first()`, as a name and an address
first_sender : Option (List (Option Text × Text)) → Option Text × Option Text
first_sender none = (none, none)
first_sender (some []) = (none, none)
first_sender (some ((name, address) ∷ rest)) = (name, some address)

unfoldable pub summary_of : Text → Email → EmailSummary
unfolding first_sender or_empty attachments_of
summary_of id email = record {
  id = id;
  subject = or_empty email.subject;
  from_name = (first_sender email.from).0;
  from_addr = (first_sender email.from).1;
  preview = or_empty email.preview;
  received_at = email.received_at;
  attachments = attachments_of email;
}

-- `filter_map(|mailbox_id| roles.get(mailbox_id).cloned())`
known_roles : Dict Text Role → List Text → List Role
known_roles roles [] = []
known_roles roles (id ∷ ids) = elim (lookup id roles) [
  | none ↦ known_roles roles ids
  | some role ↦ role ∷ known_roles roles ids
]

unfoldable pub changed_of : Dict Text Role → Text → Email → ChangedEmail
unfolding summary_of known_roles
changed_of roles id email = record {
  summary = summary_of id email;
  mailbox_roles = known_roles roles email.mailbox_ids;
  keywords = email.keywords;
}

-- `collect` into a map: a later entry of the same id wins.
roles_from : Dict Text Role → List (Option Text × Role) → Dict Text Role
roles_from roles [] = roles
roles_from roles ((none, role) ∷ mailboxes) = roles_from roles mailboxes
roles_from roles ((some id, role) ∷ mailboxes) = roles_from (insert id role roles) mailboxes

-- The messages that have an id.
summaries : List Email → List EmailSummary
unfolding summary_of
summaries [] = []
summaries (email ∷ emails) = elim email.id [
  | none ↦ summaries emails
  | some id ↦ summary_of id email ∷ summaries emails
]

-- `take_list().pop()`
last_of : List Email → Option Email
last_of [] = none
last_of (email ∷ []) = some email
last_of (email ∷ next ∷ emails) = last_of (next ∷ emails)

part_text : Dict Text Text → Option Text → Text
unfolding or_empty
part_text values none = []
part_text values (some part_id) = or_empty (lookup part_id values)

-- The loop over the parts of the text body.
parts_text : Dict Text Text → List (Option Text) → Text
unfolding part_text
parts_text values [] = []
parts_text values (part ∷ parts) = part_text values part ++ parts_text values parts

unfoldable pub body_text : Email → Text
unfolding parts_text
body_text email = elim email.text_body [
  | none ↦ []
  | some parts ↦ parts_text email.body_values parts
]

unfoldable pub full_text : Email → Text
unfolding body_text or_empty
full_text email =
    if is_empty (trim (body_text email)) then or_empty email.preview else body_text email

abbrev first_id : List Text → Option Text
first_id [] = none
first_id (id ∷ ids) = some id

module _ {Client : Type 0} (mail : MailServer Client) (client : Client) where
  abbrev pub Rpc : Type 0 → Type 0
  Rpc A = Step mail.Server JmapError A

  -- `.await.map_err(|_| JmapError::Protocol { operation })`
  abbrev pub ask : {A : Type 0} → Text → (mail.Server → Option A × mail.Server) → Rpc A
  ask operation request s =
      let (answer, after) = request s in
      elim answer [ none ↦ (err (protocol operation), after) | some a ↦ (ok a, after) ]

  abbrev pub account_email : Text
  account_email = mail.username client

  unfoldable pub current_email_state : Rpc Text
  current_email_state = do
    response ← ask (text "Email/get (state baseline)") (mail.send_get_email client [])
    give response.1

  unfoldable pub mailbox_roles : Rpc (Dict Text Role)
  unfolding roles_from
  mailbox_roles = do
    mailboxes ← ask (text "Mailbox/get (roles)") (mail.send_get_mailbox client)
    give (roles_from [] mailboxes)

  abbrev push_changed : Dict Text Role → Text → Option Email → List ChangedEmail → List ChangedEmail
  push_changed roles id none changed = changed
  push_changed roles id (some email) changed = changed_of roles id email ∷ changed

  -- The loop over the created messages; one that is gone by now is left out.
  unfoldable pub fetch_created : Dict Text Role → List Text → Rpc (List ChangedEmail)
  unfolding changed_of
  fetch_created roles [] = give []
  fetch_created roles (id ∷ ids) = do
    email ← ask (text "Email/get") (mail.email_get client id)
    changed ← fetch_created roles ids
    give (push_changed roles id email changed)

  classify : List Text → Text → Rpc (List ChangedEmail × Text)
  unfolding mailbox_roles fetch_created
  classify [] new_state = give ([], new_state)
  classify (id ∷ ids) new_state = do
    roles ← mailbox_roles
    changed ← fetch_created roles (id ∷ ids)
    give (changed, new_state)

  unfoldable pub fetch_changed_emails : Text → Rpc (List ChangedEmail × Text)
  unfolding classify
  fetch_changed_emails since_state = do
    changes ← ask (text "Email/changes") (mail.email_changes client since_state 50)
    classify changes.0 changes.1

  fetch_summaries : List Text → Rpc (List EmailSummary)
  unfolding summaries
  fetch_summaries [] = give []
  fetch_summaries (id ∷ ids) = do
    response ← ask (text "Email/get (search)") (mail.send_get_email client (id ∷ ids))
    give (summaries response.0)

  unfoldable pub search : Text → Rpc (List EmailSummary)
  unfolding fetch_summaries
  search query = do
    ids ← ask (text "Email/query") (mail.query_email client query search_result_limit)
    fetch_summaries ids

  unfoldable pub fetch_full_text : Text → Rpc Text
  unfolding last_of full_text
  fetch_full_text id = do
    response ← ask (text "Email/get (full body)") (mail.send_get_email client (id ∷ []))
    email ← or_fail (last_of response.0) message_not_found
    give (full_text email)

  unfoldable pub mailbox_with_role : Role → Rpc (Option Text)
  mailbox_with_role role = do
    ids ← ask (text "Mailbox/query") (mail.mailbox_query client role)
    give (first_id ids)

  unfoldable pub mark_read : Text → Rpc (Unit {0})
  mark_read id =
      ask (text "Email/set keyword") (mail.email_set_keyword client id (text "$seen") true)

  unfoldable pub mailbox_ids_of : Text → Rpc (List Text)
  mailbox_ids_of id = do
    answer ← ask (text "Email/get (undo snapshot)") (mail.email_get client id)
    email ← or_fail answer message_not_found
    give email.mailbox_ids

  unfoldable pub restore_mailboxes : Text → List Text → Rpc (Unit {0})
  restore_mailboxes id mailbox_ids =
      ask (text "Email/set mailboxes (undo)") (mail.email_set_mailboxes client id mailbox_ids)

  unfoldable pub archive : Text → Rpc (Unit {0})
  unfolding mailbox_with_role
  archive id = do
    found ← mailbox_with_role Jmap.archive
    archive_id ← or_fail found no_archive_mailbox
    ask (text "Email/set mailboxes (archive)")
        (mail.email_set_mailboxes client id (archive_id ∷ []))

  unfoldable pub junk : Text → Rpc (Unit {0})
  unfolding mailbox_with_role
  junk id = do
    found ← mailbox_with_role Jmap.junk
    junk_id ← or_fail found no_junk_mailbox
    ask (text "Email/set mailboxes (junk)") (mail.email_set_mailboxes client id (junk_id ∷ []))

  unfoldable pub delete : Text → Rpc (Unit {0})
  unfolding mailbox_with_role
  delete id = do
    found ← mailbox_with_role Jmap.trash
    trash_id ← or_fail found no_trash_mailbox
    ask (text "Email/set mailboxes (trash)") (mail.email_set_mailboxes client id (trash_id ∷ []))
