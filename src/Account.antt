-- ===== src/Account.antt =====
-- The persistent state of one chat (src/store.rs): its account slots, opted-in shared mailboxes and
-- preferences, the methods of `SharedAccount` and `Account`, and the migration of older records
-- that `Deserialize for Account` makes. serde's reading of JSON into an `AccountVersion` is not
-- modelled; `i32` thread ids are integers without a bound.

pub mod Valid
use jmap2telegram.Prelude.{
  ℕ, Bool, List, [], ◌∷◌, Option, none, some, ◌==◌, nat_eq, list_eq, Text, text, ℤ, Dict, lookup,
  insert_sorted, values, any, get_elem?,
}
use jmap2telegram.Strings.{eq_ignore_ascii_case}

pub record AccountSlot : Type 0 where
  pub slot_id : Text
  pub server_url : Text
  pub token : Text
  pub email : Text
  pub last_state : Option Text
  pub thread_id : Option ℤ

pub record SharedAccount : Type 0 where
  pub name : Text
  pub last_state : Option Text
  pub parent_slot : Option Text
  pub thread_id : Option ℤ

pub record Account : Type 0 where
  pub language : Option Text
  pub shared_accounts : Dict Text SharedAccount
  pub accounts : Dict Text AccountSlot
  pub muted : List Text
  pub threads_enabled : Option Bool

abbrev pub default_id : Text
default_id = text "default"

-- `default_id`, kept shut: what a comparison with the literal "default" reads.
unfoldable pub is_default : Text → Bool
is_default slot_id = slot_id == default_id

unfoldable pub is_child_of : SharedAccount → Text → Bool
unfolding is_default
is_child_of shared slot_id = elim shared.parent_slot [
  | some parent ↦ parent == slot_id
  | none ↦ is_default slot_id
]

-- The eight draws are the numbers that `rng.random_range(0..36)` returned.
abbrev pub alphabet : Text
alphabet = text "abcdefghijklmnopqrstuvwxyz0123456789"

unfoldable pub letter : Option ℕ → Text → Text
letter none id = id
letter (some c) id = c ∷ id

unfoldable pub generate_slot_id : List ℕ → Text
unfolding letter
generate_slot_id [] = []
generate_slot_id (draw ∷ draws) = letter (get_elem? alphabet draw) (generate_slot_id draws)

-- `Account { language: None, … }` of `add_account`
abbrev pub no_accounts : Account
no_accounts = record {
  language = none;
  shared_accounts = [];
  accounts = [];
  muted = [];
  threads_enabled = none;
}

unfoldable pub new : Text → Text → Text → Account
new server_url token email = record no_accounts { accounts = (default_id, slot) ∷ [] }
  where
    slot : AccountSlot
    slot = record {
      slot_id = default_id;
      server_url = server_url;
      token = token;
      email = email;
      last_state = none;
      thread_id = none;
    }

-- `accounts.values().next()`, and the write through `primary_slot_mut`
abbrev pub first_value {ℓ} : {V : Type ℓ} → Dict Text V → Option V
first_value [] = none
first_value ((k, v) ∷ d) = some v

unfoldable pub primary_slot : Account → Option AccountSlot
primary_slot account = first_value account.accounts

abbrev pub update_first {ℓ} : {V : Type ℓ} → (V → V) → Dict Text V → Dict Text V
update_first f [] = []
update_first f ((k, v) ∷ d) = (k, f v) ∷ d

unfoldable pub update_primary_slot : (AccountSlot → AccountSlot) → Account → Account
update_primary_slot f account = record account { accounts = update_first f account.accounts }

unfoldable pub email : Account → Text
unfolding primary_slot
email account = elim (primary_slot account) [ none ↦ [] | some slot ↦ slot.email ]

unfoldable pub server_url : Account → Text
unfolding primary_slot
server_url account = elim (primary_slot account) [ none ↦ [] | some slot ↦ slot.server_url ]

unfoldable pub token : Account → Text
unfolding primary_slot
token account = elim (primary_slot account) [ none ↦ [] | some slot ↦ slot.token ]

unfoldable pub last_state : Account → Option Text
unfolding primary_slot
last_state account = elim (primary_slot account) [ none ↦ none | some slot ↦ slot.last_state ]

unfoldable pub contains_email : Account → Text → Bool
contains_email account address =
    any (λ slot. eq_ignore_ascii_case slot.email address) (values account.accounts)

unfoldable pub resolve_parent_slot : Account → SharedAccount → Option AccountSlot
unfolding primary_slot
resolve_parent_slot account shared = elim shared.parent_slot [
  | some slot ↦ lookup slot account.accounts
  | none ↦ primary_slot account
]

-- `LegacyAccountSlotHelper`, `AccountVersion`
pub record LegacyAccountSlotHelper : Type 0 where
  pub server_url : Text
  pub token : Text
  pub email : Text
  pub last_state : Option Text

pub data AccountVersion : Type 0 where
  unified :
      Dict Text AccountSlot
      → Option Text
      → Dict Text SharedAccount
      → List Text
      → Option Bool
      → AccountVersion
  legacy :
      LegacyAccountSlotHelper
      → Option Text
      → Dict Text SharedAccount
      → Dict Text LegacyAccountSlotHelper
      → List Text
      → Option Bool
      → AccountVersion

adopt_orphan : SharedAccount → SharedAccount
adopt_orphan shared = elim shared.parent_slot [
  | none ↦ record shared { parent_slot = some default_id }
  | some slot ↦ shared
]

-- `for shared in shared_accounts.values_mut() { … }`
unfoldable pub adopt_orphans : Dict Text SharedAccount → Dict Text SharedAccount
unfolding adopt_orphan
adopt_orphans [] = []
adopt_orphans ((id, shared) ∷ d) = (id, adopt_orphan shared) ∷ adopt_orphans d

unfoldable pub migrate_slot : Text → LegacyAccountSlotHelper → AccountSlot
migrate_slot slot_id old = record {
  slot_id = slot_id;
  server_url = old.server_url;
  token = old.token;
  email = old.email;
  last_state = old.last_state;
  thread_id = none;
}

-- `for (extra_id, extra) in extra_accounts { accounts.insert(…) }`
unfoldable pub migrate_extras :
    Dict Text AccountSlot → Dict Text LegacyAccountSlotHelper → Dict Text AccountSlot
unfolding migrate_slot
migrate_extras accounts [] = accounts
migrate_extras accounts ((id, extra) ∷ d) =
    migrate_extras (insert_sorted id (migrate_slot id extra) accounts) d

unfoldable pub deserialize : AccountVersion → Account
unfolding adopt_orphans migrate_extras
deserialize (unified accounts language shared muted threads) = record {
  language = language;
  shared_accounts = adopt_orphans shared;
  accounts = accounts;
  muted = muted;
  threads_enabled = threads;
}
deserialize (legacy old language shared extras muted threads) = record {
  language = language;
  shared_accounts = adopt_orphans shared;
  accounts = migrate_extras ((default_id, migrate_slot default_id old) ∷ []) extras;
  muted = muted;
  threads_enabled = threads;
}

-- What serde's derived `Serialize` writes for an account, read as a version.
abbrev pub serialize : Account → AccountVersion
serialize a = unified a.accounts a.language a.shared_accounts a.muted a.threads_enabled
