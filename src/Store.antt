-- ===== src/Store.antt =====
-- The encrypted store of src/store.rs: `Store`, `open`, `persist`, `encrypt` and `decrypt`, and the
-- readers. The mutators are in the children, and so is `load_or_create_key`. serde_json and the
-- AES-GCM cipher are the `Backend`; `Io` is what the file system and the random generator do in one `persist`. A lock is held for
-- the whole of a mutation, and an operation here is one call with nothing in between.
pub mod Slots
pub mod Shared
pub mod Settings
pub mod Persist
pub mod MasterKey
pub mod History
pub mod Abstract
pub mod Refines
pub mod Invariant
pub mod Keeps
pub mod Reachable
pub mod Losses
pub mod Laws
pub mod Mutes
use jmap2telegram.Prelude.{
  ℕ, zero, suc, List, [], ◌∷◌, ◌++◌, Option, none, some, if◌then◌else◌, ltb, length, take, drop, ℤ,
  int_eq, Dict, lookup, insert, Result, ok, err,
}
use jmap2telegram.Account.{Account, AccountVersion, deserialize}

abbrev pub Bytes : Type 0
Bytes = List ℕ

pub record StoreData : Type 0 where
  pub accounts : Dict ℤ Account

-- `serde_json::to_vec`, `serde_json::from_slice` up to the choice of a version, and
-- `Aes256Gcm::{encrypt, decrypt}` with a key and a nonce.
pub record Backend : Type 0 where
  pub to_vec : StoreData → Option Bytes
  pub from_slice : Bytes → Option (Dict ℤ AccountVersion)
  pub gcm_encrypt : Bytes → Bytes → Bytes → Option Bytes
  pub gcm_decrypt : Bytes → Bytes → Bytes → Option Bytes

-- The calls of one `persist` to the file system, in order.
pub data FsOp : Type 0 where
  create : FsOp
  write_all : Bytes → FsOp
  sync_all : FsOp
  set_permissions : FsOp
  rename : FsOp

pub data Error : Type 0 where
  serialization encryption too_short decryption deserialization : Error
  io : FsOp → Error

-- The files of the data directory: `state.enc` and `state.tmp`.
pub record Disk : Type 0 where
  pub state_enc : Option Bytes
  pub state_tmp : Option Bytes

-- The nonce that is drawn, the call that fails (or at which the machine stops), and how much a
-- failing write has written.
pub record Io : Type 0 where
  pub nonce : Bytes
  pub fails_at : Option ℕ
  pub written : ℕ

pub record Store : Type 0 where
  pub key : Bytes
  pub contents : StoreData
  pub disk : Disk

unfoldable pub fs_step : FsOp → Disk → Disk
fs_step create d = record d { state_tmp = some [] }
fs_step (write_all bytes) d = record d { state_tmp = some bytes }
fs_step sync_all d = d
fs_step set_permissions d = d
fs_step rename d = record { state_enc = d.state_tmp; state_tmp = none }

-- What a call that fails leaves.
unfoldable pub fs_partial : ℕ → FsOp → Disk → Disk
fs_partial written (write_all bytes) d = record d { state_tmp = some (take written bytes) }
fs_partial written op d = d

unfoldable pub run_ops : Io → Option ℕ → List FsOp → Disk → Result (Unit {0}) Error × Disk
run_ops call fails_at [] d = (ok tt, d)
run_ops call none (op ∷ ops) d = run_ops call none ops (fs_step op d)
run_ops call (some zero) (op ∷ ops) d = (err (io op), fs_partial call.written op d)
run_ops call (some (suc k)) (op ∷ ops) d = run_ops call (some k) ops (fs_step op d)

-- The failure to sync the directory after the rename is logged and does not fail the call.
abbrev pub persist_ops : Bytes → List FsOp
persist_ops ciphertext = create ∷ write_all ciphertext ∷ sync_all ∷ set_permissions ∷ rename ∷ []

abbrev pub nonce_len : ℕ
nonce_len = 12

-- The accounts that serde builds from the versions it has read.
unfoldable pub parse_accounts : Dict ℤ AccountVersion → Dict ℤ Account
parse_accounts [] = []
parse_accounts ((chat_id, version) ∷ d) = (chat_id, deserialize version) ∷ parse_accounts d

module _ (b : Backend) where
  unfoldable pub encrypt : Bytes → Bytes → Bytes → Result Bytes Error
  encrypt key nonce plaintext = elim (b.gcm_encrypt key nonce plaintext) [
    | none ↦ err encryption
    | some ciphertext ↦ ok (nonce ++ ciphertext)
  ]

  from_plaintext : Option Bytes → Result StoreData Error
  unfolding parse_accounts
  from_plaintext none = err decryption
  from_plaintext (some plaintext) = elim (b.from_slice plaintext) [
    | none ↦ err deserialization
    | some versions ↦ ok (record { accounts = parse_accounts versions })
  ]

  unfoldable pub decrypt : Bytes → Bytes → Result StoreData Error
  unfolding from_plaintext
  decrypt key bytes =
      if ltb (length bytes) nonce_len
      then err too_short
      else from_plaintext (b.gcm_decrypt key (take nonce_len bytes) (drop nonce_len bytes))

  -- `Store::open`, once the key is loaded.
  unfoldable pub open_store : Bytes → Disk → Result Store Error
  unfolding decrypt
  open_store key disk = elim disk.state_enc [
    | none ↦ ok (record { key = key; contents = record { accounts = [] }; disk = disk })
    | some bytes ↦ elim (decrypt key bytes) [
      | err e ↦ err e
      | ok contents ↦ ok (record { key = key; contents = contents; disk = disk })
    ]
  ]

  write_state : Io → Store → Result Bytes Error → Result (Unit {0}) Error × Store
  unfolding run_ops
  write_state call s (err e) = (err e, s)
  write_state call s (ok ciphertext) =
      let (result, disk) = run_ops call call.fails_at (persist_ops ciphertext) s.disk in
      (result, record s { disk = disk })

  unfoldable pub persist : Io → Store → Result (Unit {0}) Error × Store
  unfolding write_state encrypt
  persist call s = elim (b.to_vec s.contents) [
    | none ↦ (err serialization, s)
    | some plaintext ↦ write_state call s (encrypt s.key call.nonce plaintext)
  ]

-- `self.persist()?; Ok(x)`
abbrev pub and_return {ℓ} :
    {A : Type ℓ} → A → Result (Unit {0}) Error × Store → Result A Error × Store
and_return x (ok _, s) = (ok x, s)
and_return x (err e, s) = (err e, s)

-- `data.accounts.insert(chat_id, account)`, in memory
abbrev pub put : ℤ → Account → Store → Store
put chat_id account s = record s {
  contents = record { accounts = insert chat_id account s.contents.accounts };
}

unfoldable pub get : ℤ → Store → Option Account
get chat_id s = lookup chat_id s.contents.accounts

unfoldable pub all : Store → List (ℤ × Account)
all s = s.contents.accounts

unfoldable pub count : Store → ℕ
count s = length s.contents.accounts
