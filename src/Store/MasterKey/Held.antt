-- ===== src/Store/MasterKey/Held.antt =====
-- The key that `load_or_create_key` of src/store.rs gives, and the file that it leaves.
use jmap2telegram.Prelude.{
  ◌≡◌, ◌⊎◌, refl, sym, ap, ◌∙◌, inl, inr, true, false, Bool-cases, Option-cases, Option, none, some,
  ◌==◌, nat_eq, length, ok, arith,
}
use jmap2telegram.Store.{Bytes}
use jmap2telegram.Store.MasterKey.{
  Mode, KeyFile, KeyIo, IsPrivate, HoldsKey, key_len, owner_only, is_wider, created_mode, new_file,
  create_key, read_key, load_key, create_or_load, load_or_create_key,
}

is_wider-IsPrivate : (m : Mode) → is_wider m ≡ false → IsPrivate m
unfolding is_wider
is_wider-IsPrivate m h = record {
  no_owner_exec = ground (arith, h);
  no_group = (ground (arith, h), ground (arith, h), ground (arith, h));
  no_other = (ground (arith, h), ground (arith, h), ground (arith, h));
}

IsPrivate-is_wider : (m : Mode) → IsPrivate m → is_wider m ≡ false
unfolding is_wider
IsPrivate-is_wider m h =
    let (gr, gw, gx) = h.no_group in
    let (pr, pw, px) = h.no_other in rw (h.no_owner_exec, gr, gw, gx, pr, pw, px) refl

read_key-HoldsKey :
    (io : KeyIo) (file : KeyFile) (key : Bytes)
    → is_wider file.mode ≡ false
    → (read_key io file).0 ≡ ok key
    → HoldsKey key (read_key io file).1
unfolding read_key
read_key-HoldsKey io file key narrow h = elim (Bool-cases io.read_fails) [
  | inl f ↦ absurd (ground (arith, rw f at h))
  | inr f ↦ elim (Bool-cases (length file.content == key_len)) [
    | inr g ↦ absurd (ground (arith, rw (f, g) at h))
    | inl g ↦
        let same : file.content ≡ key = ground (arith, rw (f, g) at h) in
        (
          file,
          refl,
          same,
          ap length (sym same) ∙ ground (arith, g),
          is_wider-IsPrivate file.mode narrow,
        )
  ]
]

load_key-HoldsKey :
    (io : KeyIo) (file : KeyFile) (key : Bytes)
    → (load_key io file).0 ≡ ok key
    → HoldsKey key (load_key io file).1
unfolding load_key
load_key-HoldsKey io file key h = elim (Bool-cases io.stat_fails) [
  | inl f ↦ absurd (ground (arith, rw f at h))
  | inr f ↦ elim (Bool-cases (is_wider file.mode)) [
    | inr g ↦ rw (f, g) (read_key-HoldsKey io file key g (rw (f, g) at h))
    | inl g ↦ elim (Bool-cases io.chmod_fails) [
      | inl i ↦ absurd (ground (arith, rw (f, g, i) at h))
      | inr i ↦
          rw (f, g, i)
            (read_key-HoldsKey io (record file { mode = owner_only }) key narrow
              (rw (f, g, i) at h))
    ]
  ]
]
  where
    narrow : is_wider owner_only ≡ false
    narrow = unfold is_wider in refl

create_key-HoldsKey :
    (io : KeyIo) (key : Bytes)
    → length io.drawn ≡ key_len
    → (create_key io).0 ≡ ok key
    → HoldsKey key (create_key io).1
unfolding create_key new_file created_mode is_wider
create_key-HoldsKey io key long h = elim (Option-cases io.write_fails) [
  | inr (written, f) ↦ absurd (ground (arith, rw f at h))
  | inl f ↦ elim (Bool-cases io.sync_fails) [
    | inl g ↦ absurd (ground (arith, rw (f, g) at h))
    | inr g ↦
        let same : io.drawn ≡ key = ground (arith, rw (f, g) at h) in
        rw f (
          record { content = io.drawn; mode = created_mode io.umask },
          refl,
          same,
          ap length (sym same) ∙ long,
          is_wider-IsPrivate (created_mode io.umask) refl,
        )
  ]
]

created-HoldsKey :
    (io : KeyIo) (file : Option KeyFile) (key : Bytes)
    → length io.drawn ≡ key_len
    → (create_or_load io file).0 ≡ ok key
    → HoldsKey key (create_or_load io file).1
unfolding create_or_load
created-HoldsKey io (some file) key long h = load_key-HoldsKey io file key h
created-HoldsKey io none key long h = elim (Bool-cases io.open_fails) [
  | inl f ↦ absurd (ground (arith, rw f at h))
  | inr f ↦ rw f (create_key-HoldsKey io key long (rw f at h))
]

-- When the random generator draws 32 bytes: whenever `load_or_create_key` gives a key, the file holds
-- that key, of 32 bytes, and has no permission for the group or for others, and none to execute: for a file that was there, with any
-- mode, for one that another process creates meanwhile, and for a new one.
pub load_or_create_key-HoldsKey :
    (io : KeyIo) (file : Option KeyFile) (key : Bytes)
    → length io.drawn ≡ key_len
    → (load_or_create_key io file).0 ≡ ok key
    → HoldsKey key (load_or_create_key io file).1
unfolding load_or_create_key
load_or_create_key-HoldsKey io (some file) key long h = load_key-HoldsKey io file key h
load_or_create_key-HoldsKey io none key long h = created-HoldsKey io io.appears key long h

abbrev pub content_of : Option KeyFile → Option Bytes
content_of none = none
content_of (some file) = some file.content

load_key-content :
    (io : KeyIo) (file : KeyFile) → content_of (load_key io file).1 ≡ some file.content
unfolding load_key read_key
load_key-content io file = elim (Bool-cases io.stat_fails) [
  | inl f ↦ rw f refl
  | inr f ↦ elim (Bool-cases (is_wider file.mode)) [
    | inr g ↦ rw (f, g) refl
    | inl g ↦ elim (Bool-cases io.chmod_fails) [
      | inl i ↦ rw (f, g, i) refl
      | inr i ↦ rw (f, g, i) refl
    ]
  ]
]

-- A key file that is there at the start, or that another process creates before this one does, keeps
-- its bytes, however the calls to the file system end.
pub load_or_create_key-content :
    (io : KeyIo) (found : Option KeyFile) (file : KeyFile)
    → (found ≡ some file) ⊎ ((found ≡ none) × (io.appears ≡ some file))
    → content_of (load_or_create_key io found).1 ≡ some file.content
unfolding load_or_create_key create_or_load
load_or_create_key-content io found file (inl h) = rw h (load_key-content io file)
load_or_create_key-content io found file (inr (h, appears)) =
    rw (h, load_or_create_key, create_or_load, appears) (load_key-content io file)

read_key-again :
    (io : KeyIo) (file : KeyFile) (key : Bytes)
    → file.content ≡ key
    → length key ≡ key_len
    → io.read_fails ≡ false
    → (read_key io file).0 ≡ ok key
unfolding read_key
read_key-again io file key same long works =
    let fits : (length file.content == key_len) ≡ true = ground (arith, ap length same ∙ long) in
    rw (works, fits, same) refl

-- The key of one start, whose random generator draws 32 bytes, is the key of the next, when the next can
-- stat the file and read it.
pub load_or_create_key-again :
    (io again : KeyIo) (file : Option KeyFile) (key : Bytes)
    → length io.drawn ≡ key_len
    → (load_or_create_key io file).0 ≡ ok key
    → again.stat_fails ≡ false
    → again.read_fails ≡ false
    → (load_or_create_key again (load_or_create_key io file).1).0 ≡ ok key
unfolding load_or_create_key load_key
load_or_create_key-again io again file key long h stats reads =
    let (held, stored, same, fits, narrow) = load_or_create_key-HoldsKey io file key long h in
    rw (stored, stats, IsPrivate-is_wider held.mode narrow)
      (read_key-again again held key same fits reads)
