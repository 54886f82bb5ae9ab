-- ===== src/Tests/Mailbox.antt =====
-- A JMAP server that holds the mailboxes of messages, and the environment of the handlers with it.
use jmap2telegram.Prelude.{
  ◌≡◌, refl, sym, ap, ◌∙◌, List, [], ◌∷◌, Option, none, some, nat_eq, list_eq, Text, text, pos,
  Dict, lookup, insert, lookup-insert, ==_refl, arith, false,
}
use jmap2telegram.Jmap.Mail.{MailServer, Email}
use jmap2telegram.Jmap.Lawful.{IsLawful}
use jmap2telegram.State.{AppState}
use jmap2telegram.Act.{Env, World, accepted}
use jmap2telegram.Tests.Codec.{backend}
use jmap2telegram.Tests.Inputs.{works, config, store}
use jmap2telegram.Tests.Examples.{net, metrics}

abbrev pub in_mailboxes : List Text → Email
in_mailboxes ids = record {
  id = none;
  subject = none;
  preview = none;
  from = none;
  received_at = none;
  attachments = none;
  mailbox_ids = ids;
  keywords = [];
  text_body = none;
  body_values = [];
}

abbrev answer_of : Option (List Text) → Option (Option Email)
answer_of none = some none
answer_of (some ids) = some (some (in_mailboxes ids))

abbrev pub mail : MailServer Text
mail = record {
  Server = Dict Text (List Text);
  username = λ client. text "me@home";
  email_get = λ client id s. (answer_of (lookup id s), s);
  send_get_email = λ client ids s. (some ([], text "s1"), s);
  email_changes = λ client since limit s. (some ([], text "s2"), s);
  query_email = λ client query limit s. (some [], s);
  send_get_mailbox = λ client s. (some [], s);
  mailbox_query = λ client role s. (some (text "archive" ∷ []), s);
  email_set_mailboxes = λ client id ids s. (some tt, insert id ids s);
  email_set_keyword = λ client id keyword on s. (some tt, s);
}

abbrev ids_or_none : Option (List Text) → List Text
ids_or_none none = []
ids_or_none (some ids) = ids

pub mail-IsLawful : IsLawful mail
mail-IsLawful = record {
  mailboxes = λ client id s. ids_or_none (lookup id s);
  get_answer = λ client id s email h. got (lookup id s) email h;
  set_answer = λ client id ids s h. ap ids_or_none (held id ids s);
}
  where
    held :
        (id : Text) (ids : List Text) (s : Dict Text (List Text))
        → lookup id (insert id ids s) ≡ some ids
    held id ids s = lookup-insert id id ids s ∙ rw (==_refl id) refl

    got :
        (found : Option (List Text)) (email : Email)
        → answer_of found ≡ some (some email)
        → email.mailbox_ids ≡ ids_or_none found
    got none email h = absurd (ground arith)
    got (some ids) email h =
        let same : in_mailboxes ids ≡ email = ground (arith, h) in
        ap (λ m. m.mailbox_ids) (sym same)

abbrev pub env : Env
env = record {
  net = net;
  mail = mail;
  backend = backend;
  config = config;
  lowercase = λ s. s;
  translate = λ lang key args. key;
  storage_message = λ x. text "error";
  shown = record { received = λ tz ts. none; fixed = λ d n m. [] };
  ip_text = λ ip. [];
  host = λ url. none;
  account_name = λ client id. none;
  list_shared_accounts = λ client. [];
  answer = λ n. accepted (pos 40);
  io = λ n. works;
  draws = λ n. 1 ∷ 2 ∷ 3 ∷ 4 ∷ 5 ∷ 6 ∷ 7 ∷ 8 ∷ [];
}

abbrev pub app : AppState Text
app = record {
  allow_private_jmap_hosts = false;
  store = store;
  health = record { watchers = [] };
  metrics = metrics;
  account_clients = [];
  account_watchers = [];
  shared_clients = [];
  shared_watchers = [];
  pending_undo = [];
  aborted = [];
}

abbrev pub world : World env
world = record {
  app = app;
  server = (text "M1", text "inbox" ∷ text "work" ∷ []) ∷ [];
  now = 5;
  calls = [];
  writes = 0;
  tasks = [];
}
