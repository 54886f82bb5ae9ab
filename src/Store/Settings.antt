-- ===== src/Store/Settings.antt =====
-- The mutators of a chat's whole record and of its preferences. `lowercase` is
-- `str::to_lowercase`, whose Unicode tables are not modelled.
use jmap2telegram.Prelude.{
  Bool, true, false, List, [], ◌∷◌, ◌++◌, Option, none, some, if◌then◌else◌, ◌==◌, nat_eq, list_eq,
  Text, ℤ, int_eq, lookup, erase, any, is_some, length, Result, ok,
}
use jmap2telegram.Strings.{trim}
use jmap2telegram.Account.{Account}
use jmap2telegram.Store.{Store, Backend, Io, Error, persist, and_return, put}

-- `muted.retain(|m| m != &term)`
unfoldable pub drop_term : Text → List Text → List Text
drop_term term [] = []
drop_term term (m ∷ ms) = let rest = drop_term term ms in if m == term then rest else m ∷ rest

abbrev pub has_term : Text → List Text → Bool
has_term term ms = any (λ m. m == term) ms

module _ (b : Backend) (call : Io) where
  unfoldable pub set : ℤ → Account → Store → Result (Unit {0}) Error × Store
  set chat_id account s = persist b call (put chat_id account s)

  unfoldable pub set_threads_enabled : ℤ → Option Bool → Store → Result Bool Error × Store
  set_threads_enabled chat_id enabled s = elim (lookup chat_id s.contents.accounts) [
    | none ↦ (ok false, s)
    | some acc ↦
        and_return true (persist b call (put chat_id (record acc { threads_enabled = enabled }) s))
  ]

  unfoldable pub set_language : ℤ → Text → Store → Result Bool Error × Store
  set_language chat_id language s = elim (lookup chat_id s.contents.accounts) [
    | none ↦ (ok false, s)
    | some acc ↦
        and_return true (persist b call (put chat_id (record acc { language = some language }) s))
  ]

  unfoldable pub remove : ℤ → Store → Result Bool Error × Store
  remove chat_id s =
      if is_some (lookup chat_id s.contents.accounts)
      then and_return true (
          persist b call
            (record s { contents = record { accounts = erase chat_id s.contents.accounts } }))
      else (ok false, s)

module _ (b : Backend) (lowercase : Text → Text) (call : Io) where
  unfoldable pub mute : ℤ → Text → Store → Result Bool Error × Store
  mute chat_id raw s =
      let term = lowercase (trim raw) in
      elim (lookup chat_id s.contents.accounts) [
        | none ↦ (ok false, s)
        | some acc ↦
            if has_term term acc.muted
            then (ok false, s)
            else and_return true
                (persist b call (put chat_id (record acc { muted = acc.muted ++ term ∷ [] }) s))
      ]

  -- The length of the list tells whether `retain` has dropped anything.
  unfoldable pub unmute : ℤ → Text → Store → Result Bool Error × Store
  unmute chat_id raw s =
      let term = lowercase (trim raw) in
      elim (lookup chat_id s.contents.accounts) [
        | none ↦ (ok false, s)
        | some acc ↦
            let kept = drop_term term acc.muted in
            if length kept == length acc.muted
            then (ok false, s)
            else and_return true (persist b call (put chat_id (record acc { muted = kept }) s))
      ]
