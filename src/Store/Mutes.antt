-- ===== src/Store/Mutes.antt =====
-- The mute filters of a chat: `mute` and `unmute`.
use jmap2telegram.Prelude.{
  ◌≤◌, ◌<◌, ◌≡◌, refl, ap, ◌∙◌, true, false, List, [], ◌∷◌, ◌++◌, some, Text, ℤ, int_eq, nat_eq,
  list_eq, list_beq_iff, arith, length, any, ◌==◌,
}
use jmap2telegram.Strings.{trim}
use jmap2telegram.Account.{Account}
use jmap2telegram.Store.{Store, Backend, Io, get}
use jmap2telegram.Store.Laws.{get-persist-put}
use jmap2telegram.Store.Settings.{mute, unmute, drop_term, has_term}

drop_term-append :
    (term : Text) (ms : List Text)
    → has_term term ms ≡ false
    → drop_term term (ms ++ term ∷ []) ≡ ms
unfolding any drop_term
drop_term-append term [] h = ground (arith, list_beq_iff term term)
drop_term-append term (m ∷ ms) h = ground (arith, drop_term-append term ms)

-- No filter that is left is the dropped one.
drop_term-absent : (term : Text) (ms : List Text) → has_term term (drop_term term ms) ≡ false
unfolding any drop_term
drop_term-absent term [] = refl
drop_term-absent term (m ∷ ms) = ground (arith, drop_term-absent term ms)

has_term-append : (term : Text) (ms : List Text) → has_term term (ms ++ term ∷ []) ≡ true
unfolding any
has_term-append term [] = ground (arith, list_beq_iff term term)
has_term-append term (m ∷ ms) = ground (arith, has_term-append term ms)

length-drop_term-le : (term : Text) (ms : List Text) → length (drop_term term ms) ≤ length ms
unfolding drop_term
length-drop_term-le term [] = omega arith
length-drop_term-le term (m ∷ ms) = ground (arith, length-drop_term-le term ms)

length-drop_term-lt :
    (term : Text) (ms : List Text)
    → has_term term ms ≡ true
    → length (drop_term term ms) < length ms
unfolding any drop_term
length-drop_term-lt term [] h = ground arith
length-drop_term-lt term (m ∷ ms) h =
    ground (arith, length-drop_term-lt term ms, length-drop_term-le term ms)

module _ (b : Backend) (lowercase : Text → Text) (call : Io) (chat_id : ℤ) (raw : Text) where
  get-mute :
      (s : Store) (acc : Account)
      → get chat_id s ≡ some acc
      → has_term (lowercase (trim raw)) acc.muted ≡ false
      → get chat_id (mute b lowercase call chat_id raw s).1
        ≡ some (record acc { muted = acc.muted ++ lowercase (trim raw) ∷ [] })
  unfolding mute get
  get-mute s acc e new = rw (e, mute) (rw new (get-persist-put b call true chat_id _ s))

  get-unmute :
      (s : Store) (acc : Account)
      → get chat_id s ≡ some acc
      → has_term (lowercase (trim raw)) acc.muted ≡ true
      → get chat_id (unmute b lowercase call chat_id raw s).1
        ≡ some (record acc { muted = drop_term (lowercase (trim raw)) acc.muted })
  unfolding unmute get
  get-unmute s acc e there =
      let less : (length (drop_term (lowercase (trim raw)) acc.muted) == length acc.muted) ≡ false =
        ground (arith, length-drop_term-lt (lowercase (trim raw)) acc.muted there) in
      rw (e, unmute) (rw less (get-persist-put b call true chat_id _ s))

-- Muting a new filter and unmuting the same words gives the chat its account back as it was,
-- filters in their order included, also where a write to the disk fails.
pub unmute-mute :
    (b : Backend) (lowercase : Text → Text) (call call' : Io) (chat_id : ℤ) (raw : Text) (s : Store)
    (acc : Account)
    → get chat_id s ≡ some acc
    → has_term (lowercase (trim raw)) acc.muted ≡ false
    → get chat_id (unmute b lowercase call' chat_id raw (mute b lowercase call chat_id raw s).1).1
      ≡ some acc
unmute-mute b lowercase call call' chat_id raw s acc e new =
    get-unmute b lowercase call' chat_id raw _ _ (get-mute b lowercase call chat_id raw s acc e new)
      (has_term-append (lowercase (trim raw)) acc.muted)
    ∙ ap (λ ms. some (record acc { muted = ms }))
        (drop_term-append (lowercase (trim raw)) acc.muted new)
