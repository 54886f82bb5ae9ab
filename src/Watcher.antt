-- ===== src/Watcher.antt =====
-- `WatchTarget` and the notification policy of src/watcher.rs: which account a watcher follows, its
-- cursor, its key in the health registry, and why a new message is skipped. The reconnect loop and
-- the sync are in the children.
pub mod Keys
pub mod Loop
pub mod Backoff
use jmap2telegram.Prelude.{
  ℕ, Bool, true, false, not, ◌&&◌, ◌||◌, List, [], ◌∷◌, ◌++◌, Option, none, some, if◌then◌else◌,
  ◌==◌, nat_eq, list_eq, Text, text, ℤ, Dict, lookup, is_some, any, contains, Result, ok, err,
}
use jmap2telegram.Strings.{is_empty, eq_ignore_ascii_case}
use jmap2telegram.Strings.Decimal.{display_int}
use jmap2telegram.Account.{Account, AccountSlot, SharedAccount, last_state, email}
use jmap2telegram.Jmap.{EmailSummary, ChangedEmail, Role, drafts, sent}
use jmap2telegram.Store.{Store, Backend, Io, Error}
use jmap2telegram.Store.Slots
use jmap2telegram.Store.Shared

-- `shared` and the others carry the id of the account and its label.
pub data WatchTarget : Type 0 where
  primary : WatchTarget
  shared : Text → Text → WatchTarget
  extra : Text → Text → WatchTarget
  account : Text → Text → WatchTarget

shared_state : Option SharedAccount → Option Text
shared_state none = none
shared_state (some s) = s.last_state

slot_state : Option AccountSlot → Option Text
slot_state none = none
slot_state (some s) = s.last_state

unfoldable pub since_state : WatchTarget → Account → Option Text
unfolding shared_state slot_state
since_state primary acc = last_state acc
since_state (shared account_id _) acc = shared_state (lookup account_id acc.shared_accounts)
since_state (extra slot_id _) acc = slot_state (lookup slot_id acc.accounts)
since_state (account slot_id _) acc = slot_state (lookup slot_id acc.accounts)

unfoldable pub still_active : WatchTarget → Account → Bool
still_active primary acc = not (is_empty acc.accounts)
still_active (shared account_id _) acc = is_some (lookup account_id acc.shared_accounts)
still_active (extra slot_id _) acc = is_some (lookup slot_id acc.accounts)
still_active (account slot_id _) acc = is_some (lookup slot_id acc.accounts)

-- A failure to persist the cursor is logged.
unfoldable pub update_state : Backend → Io → WatchTarget → ℤ → Text → Store → Store
update_state b io primary chat_id state s = (Slots.update_state b io chat_id state s).1
update_state b io (shared account_id _) chat_id state s =
    (Shared.update_shared_account_state b io chat_id account_id state s).1
update_state b io (extra slot_id _) chat_id state s =
    (Slots.update_account_state b io chat_id slot_id state s).1
update_state b io (account slot_id _) chat_id state s =
    (Slots.update_account_state b io chat_id slot_id state s).1

unfoldable pub account_id : WatchTarget → Option Text
account_id primary = none
account_id (shared id _) = some id
account_id (extra slot_id _) = some slot_id
account_id (account slot_id _) = some slot_id

unfoldable pub label : WatchTarget → Option Text
label primary = none
label (shared _ name) = some name
label (extra _ name) = some name
label (account _ name) = some name

unfoldable pub kind : WatchTarget → Text
kind primary = text "primary"
kind (shared _ _) = text "shared"
kind (extra _ _) = text "extra"
kind (account _ _) = text "extra"

-- Whether a slot id is one of the two names of the first slot.
unfoldable pub is_primary_id : Text → Bool
is_primary_id slot_id = slot_id == text "default" || slot_id == text "primary"

unfoldable pub account_health_key : ℤ → Text → Text
unfolding is_primary_id
account_health_key chat_id slot_id =
    if is_primary_id slot_id
    then display_int chat_id ++ text "/primary"
    else display_int chat_id ++ text "/extra-" ++ slot_id

unfoldable pub health_key : WatchTarget → ℤ → Text
unfolding account_health_key
health_key primary chat_id = display_int chat_id ++ text "/primary"
health_key (shared id _) chat_id = display_int chat_id ++ text "/shared-" ++ id
health_key (extra slot_id _) chat_id = account_health_key chat_id slot_id
health_key (account slot_id _) chat_id = account_health_key chat_id slot_id

unfoldable pub shared_health_key : ℤ → Text → Text
unfolding health_key
shared_health_key chat_id id = health_key (shared id []) chat_id

shared_name : Option SharedAccount → Text
shared_name none = []
shared_name (some s) = s.name

slot_email : Option AccountSlot → Text
slot_email none = []
slot_email (some s) = s.email

unfoldable pub self_address : WatchTarget → Account → Text
unfolding shared_name slot_email
self_address primary acc = email acc
self_address (shared id _) acc = shared_name (lookup id acc.shared_accounts)
self_address (extra slot_id _) acc = slot_email (lookup slot_id acc.accounts)
self_address (account slot_id _) acc = slot_email (lookup slot_id acc.accounts)

pub data SkipReason : Type 0 where
  draft sent_copy own_message : SkipReason

unfoldable pub reason_label : SkipReason → Text
reason_label draft = text "draft"
reason_label sent_copy = text "sent"
reason_label own_message = text "own"

abbrev pub is_drafts : Role → Bool
is_drafts drafts = true
is_drafts _ = false

abbrev pub is_sent : Role → Bool
is_sent sent = true
is_sent _ = false

abbrev pub is_from : Text → Option Text → Bool
is_from self_address none = false
is_from self_address (some from) = eq_ignore_ascii_case from self_address

unfoldable pub is_draft_keyword : Text → Bool
is_draft_keyword keyword = keyword == text "$draft"

unfoldable pub skip_reason : ChangedEmail → Text → Option SkipReason
skip_reason changed self_address =
    if any is_drafts changed.mailbox_roles || any is_draft_keyword changed.keywords
    then some draft
    else if any is_sent changed.mailbox_roles
    then some sent_copy
    else if not (is_empty self_address) && is_from self_address changed.summary.from_addr
    then some own_message
    else none

abbrev pub or_empty : Option Text → Text
or_empty none = []
or_empty (some s) = s

module _ (lowercase : Text → Text) where
  -- The text in which a filter is searched: subject, sender's name and address, in lower case.
  unfoldable pub haystack : EmailSummary → Text
  haystack summary =
      lowercase summary.subject
      ++ b' ' ∷ lowercase (or_empty summary.from_name)
      ++ b' ' ∷ lowercase (or_empty summary.from_addr)

  unfoldable pub is_muted : EmailSummary → List Text → Bool
  unfolding haystack
  is_muted summary muted =
      if is_empty muted then false else any (λ term. contains (haystack summary) term) muted
