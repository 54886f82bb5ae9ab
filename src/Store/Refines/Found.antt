-- ===== src/Store/Refines/Found.antt =====
-- The mutators of preferences and of slots that look further into the account before they write it.
use jmap2telegram.Prelude.{
  ◌≡◌, ◌≤◌, refl, ap, ◌∙◌, inl, inr, true, Bool-cases, Option-cases, List, [], ◌∷◌, ◌++◌, Option,
  is_some, ◌==◌, nat_eq, list_eq, int_eq, length, Text, ℤ, lookup, insert, lookup-insert,
  lookup-erase, arith,
}
use jmap2telegram.Strings.{trim, is_empty}
use jmap2telegram.Account.{Account}
use jmap2telegram.Store.{Store, Backend, Io, persist, get}
use jmap2telegram.Store.Slots.{without_slot, drop_if_empty, write_slot, slot_of}
use jmap2telegram.Store.Slots
use jmap2telegram.Store.Settings
use jmap2telegram.Store.Settings.{drop_term, has_term}
use jmap2telegram.Store.Laws.{get-persist, get-and_return}
use jmap2telegram.Store.Abstract.{if_stored, lose_slot, add_term}
use jmap2telegram.Store.Refines.{Shows, returned, unchanged, absent}

-- A list that loses no length loses no term.
drop_term-shorter : (term : Text) (ms : List Text) → length (drop_term term ms) ≤ length ms
unfolding drop_term
drop_term-shorter term [] = ground arith
drop_term-shorter term (m ∷ ms) = let shorter = drop_term-shorter term ms in ground arith

drop_term-same :
    (term : Text) (ms : List Text) → length (drop_term term ms) ≡ length ms → drop_term term ms ≡ ms
unfolding drop_term
drop_term-same term [] h = refl
drop_term-same term (m ∷ ms) h =
    let shorter = drop_term-shorter term ms in
    elim (Bool-cases (m == term)) [
      | inl e ↦ ground (arith, rw e at h)
      | inr e ↦ rw e (ap (λ rest. m ∷ rest) (drop_term-same term ms (ground (arith, rw e at h))))
    ]

module _ (b : Backend) (lowercase : Text → Text) (call : Io) (chat_id other : ℤ) (s : Store) where
  abbrev Sees : Option Account → Store → Type 0
  Sees = Shows b lowercase call chat_id other s

  pub mute-Shows :
      (raw : Text)
      → Sees
          (if_stored (add_term (lowercase (trim raw))) (lookup chat_id s.contents.accounts))
          (Settings.mute b lowercase call chat_id raw s).1
  unfolding Settings.mute
  mute-Shows raw = elim (Option-cases (lookup chat_id s.contents.accounts)) [
    | inl e ↦ rw (e, Settings.mute) (absent b lowercase call chat_id other s e)
    | inr (acc, e) ↦ elim (Bool-cases (has_term (lowercase (trim raw)) acc.muted)) [
      | inl there ↦ rw (e, there, Settings.mute) (unchanged b lowercase call chat_id other s acc e)
      | inr new ↦
          rw (e, new, Settings.mute)
            (returned b lowercase call chat_id other s true
              (record acc { muted = acc.muted ++ lowercase (trim raw) ∷ [] }))
    ]
  ]

  pub unmute-Shows :
      (raw : Text)
      → Sees
          (if_stored
            (λ acc. record acc { muted = drop_term (lowercase (trim raw)) acc.muted })
            (lookup chat_id s.contents.accounts))
          (Settings.unmute b lowercase call chat_id raw s).1
  unfolding Settings.unmute
  unmute-Shows raw = elim (Option-cases (lookup chat_id s.contents.accounts)) [
    | inl e ↦ rw (e, Settings.unmute) (absent b lowercase call chat_id other s e)
    | inr (acc, e) ↦
        elim (Bool-cases
          (length (drop_term (lowercase (trim raw)) acc.muted) == length acc.muted)) [
            | inl all ↦
                let same = drop_term-same (lowercase (trim raw)) acc.muted (ground arith) in
                rw (e, all, Settings.unmute)
                  (rw same (unchanged b lowercase call chat_id other s acc e))
            | inr fewer ↦
                rw (e, fewer, Settings.unmute)
                  (returned b lowercase call chat_id other s true
                    (record acc { muted = drop_term (lowercase (trim raw)) acc.muted }))
          ]
  ]

  pub remove_account-Shows :
      (slot_id : Text)
      → Sees
          (lose_slot slot_id (lookup chat_id s.contents.accounts))
          (Slots.remove_account b call chat_id slot_id s).1
  unfolding Slots.remove_account drop_if_empty get
  remove_account-Shows slot_id = elim (Option-cases (lookup chat_id s.contents.accounts)) [
    | inl e ↦ rw (e, Slots.remove_account) (absent b lowercase call chat_id other s e)
    | inr (acc, e) ↦ elim (Bool-cases (is_some (lookup slot_id acc.accounts))) [
      | inr missing ↦
          rw (e, missing, Slots.remove_account) (unchanged b lowercase call chat_id other s acc e)
      | inl there ↦ elim (Bool-cases (is_empty (without_slot slot_id acc).accounts)) [
        | inr more ↦
            rw (e, there, Slots.remove_account, drop_if_empty, more)
              (returned b lowercase call chat_id other s true (without_slot slot_id acc))
        | inl last ↦
            rw (e, there, Slots.remove_account, drop_if_empty, last)
              (get-and_return b call true other (persist b call _)
                ∙ get-persist b call other _
                ∙ lookup-erase chat_id other
                    (insert chat_id (without_slot slot_id acc) s.contents.accounts)
                ∙ ground (
                  arith,
                  lookup-insert chat_id other (without_slot slot_id acc) s.contents.accounts,
                ))
      ]
    ]
  ]
