-- ===== src/Store/MasterKey.antt =====
-- `load_or_create_key` of src/store.rs. The file of the key is its bytes and its permission bits.
-- `KeyIo` is what happens outside: a file that another process creates between the test and the
-- creation, the random bytes, the umask, and the calls that fail. A write that fails has written a
-- part of the bytes.
pub mod Held
use jmap2telegram.Prelude.{
  ℕ, Bool, true, false, not, ◌&&◌, ◌||◌, ◌≡◌, refl, sym, ap, ◌∙◌, inl, inr, Bool-cases, List, [],
  ◌∷◌, Option, none, some, if◌then◌else◌, ◌==◌, nat_eq, length, take, Result, ok, err, arith,
  ==_refl,
}
use jmap2telegram.Store.{Bytes}

abbrev pub key_len : ℕ
key_len = 32

-- The nine permission bits.
pub record Mode : Type 0 where
  pub owner_read : Bool
  pub owner_write : Bool
  pub owner_exec : Bool
  pub group_read : Bool
  pub group_write : Bool
  pub group_exec : Bool
  pub other_read : Bool
  pub other_write : Bool
  pub other_exec : Bool

pub record KeyFile : Type 0 where
  pub content : Bytes
  pub mode : Mode

pub record KeyIo : Type 0 where
  pub appears : Option KeyFile
  pub drawn : Bytes
  -- the bits that the umask clears
  pub umask : Mode
  pub open_fails : Bool
  -- how many bytes a failing write has written
  pub write_fails : Option ℕ
  pub sync_fails : Bool
  pub stat_fails : Bool
  pub chmod_fails : Bool
  pub read_fails : Bool

pub data KeyError : Type 0 where
  creating writing flushing statting tightening reading : KeyError
  unexpected_length : ℕ → KeyError

abbrev pub owner_only : Mode
owner_only = record {
  owner_read = true;
  owner_write = true;
  owner_exec = false;
  group_read = false;
  group_write = false;
  group_exec = false;
  other_read = false;
  other_write = false;
  other_exec = false;
}

-- `(perms & !0o600) != 0`
unfoldable pub is_wider : Mode → Bool
is_wider m =
    m.owner_exec || m.group_read || m.group_write || m.group_exec || m.other_read || m.other_write
    || m.other_exec

-- The mode 0600 of a new file, under the umask.
unfoldable pub created_mode : Mode → Mode
created_mode umask = record owner_only {
  owner_read = not umask.owner_read;
  owner_write = not umask.owner_write;
}

-- The file after the call, and the key.
abbrev pub Loaded : Type 0
Loaded = Result Bytes KeyError × Option KeyFile

unfoldable pub new_file : KeyIo → Bytes → Option KeyFile
new_file io bytes = some (record { content = bytes; mode = created_mode io.umask })

unfoldable pub create_key : KeyIo → Loaded
unfolding new_file
create_key io = elim io.write_fails [
  | some written ↦ (err writing, new_file io (take written io.drawn))
  | none ↦ (if io.sync_fails then err flushing else ok io.drawn, new_file io io.drawn)
]

unfoldable pub read_key : KeyIo → KeyFile → Loaded
read_key io file = (
  if io.read_fails
      then err reading
      else if not (length file.content == key_len)
      then err (unexpected_length (length file.content))
      else ok file.content,
  some file,
)

unfoldable pub load_key : KeyIo → KeyFile → Loaded
unfolding read_key is_wider
load_key io file =
    if io.stat_fails
    then (err statting, some file)
    else if not (is_wider file.mode)
    then read_key io file
    else if io.chmod_fails
    then (err tightening, some file)
    else read_key io (record file { mode = owner_only })

unfoldable pub create_or_load : KeyIo → Option KeyFile → Loaded
unfolding create_key load_key
create_or_load io (some file) = load_key io file
create_or_load io none = if io.open_fails then (err creating, none) else create_key io

unfoldable pub load_or_create_key : KeyIo → Option KeyFile → Loaded
unfolding create_or_load load_key
load_or_create_key io none = create_or_load io io.appears
load_or_create_key io (some file) = load_key io file

-- A mode without a permission for the group or for others, and none to execute.
pub record IsPrivate (m : Mode) : Type 0 where
  pub no_owner_exec : m.owner_exec ≡ false
  pub no_group : (m.group_read ≡ false) × (m.group_write ≡ false) × (m.group_exec ≡ false)
  pub no_other : (m.other_read ≡ false) × (m.other_write ≡ false) × (m.other_exec ≡ false)

-- What a caller may rely on: the file holds the key, of 32 bytes, for the owner alone.
abbrev pub HoldsKey : Bytes → Option KeyFile → Type 0
HoldsKey key file =
    (f : KeyFile) × (file ≡ some f) × (f.content ≡ key) × (length key ≡ key_len) × IsPrivate f.mode
