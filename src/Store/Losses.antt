-- ===== src/Store/Losses.antt =====
-- An account that loses a slot with the shared mailboxes that the slot authorized.
use jmap2telegram.Prelude.{
  Bool, ◌≡◌, ◌≢◌, ◌↔◌, refl, ap, ◌∙◌, ◌⊎◌, inl, inr, true, false, not, [], ◌∷◌, none, some,
  Bool-cases, Option-cases, retain, text, Text, int_eq, nat_eq, list_eq, list_beq_iff, Dict, lookup,
  erase, is_some, Entries, Entries-retain_imp, arith, ◌==◌, lookup-erase,
}
use jmap2telegram.Strings.{is_empty}
use jmap2telegram.Account.{Account, AccountSlot, SharedAccount, is_child_of, is_default}
use jmap2telegram.Store.Persist.{}
use jmap2telegram.Store.Slots.{without_slot}

-- The slot authorizes the shared mailbox: it is the parent, or none is stored and it is "default".
abbrev pub IsUnder : Text → SharedAccount → Type 0
IsUnder slot_id shared =
    (shared.parent_slot ≡ some slot_id) ⊎ ((shared.parent_slot ≡ none) × (slot_id ≡ text "default"))

-- Of an account that loses a slot: the slot is gone, the other slots are as they were, no shared
-- mailbox that the slot authorized is left, and those that it did not are as they were.
abbrev pub Loses : Text → Account → Account → Type 0
Loses slot_id acc rest =
    (lookup slot_id rest.accounts ≡ none)
    × ((other : Text) → slot_id ≢ other → lookup other rest.accounts ≡ lookup other acc.accounts)
    × Entries (λ _ shared. ¬ IsUnder slot_id shared) rest.shared_accounts
    × ((id : Text) (shared : SharedAccount)
        → lookup id acc.shared_accounts ≡ some shared
        → ¬ IsUnder slot_id shared
        → lookup id rest.shared_accounts ≡ some shared)

-- The chat has no slot but this one.
abbrev pub IsLast : Text → Account → Type 0
IsLast slot_id acc = (other : Text) → slot_id ≢ other → lookup other acc.accounts ≡ none

-- The chat has another slot.
abbrev pub HasOther : Text → Account → Type 0
HasOther slot_id acc =
    (other : Text) × (slot_id ≢ other) × (is_some (lookup other acc.accounts) ≡ true)

is_child_of-IsUnder :
    (slot_id : Text) (shared : SharedAccount)
    → (is_child_of shared slot_id ≡ true) ↔ IsUnder slot_id shared
unfolding is_child_of is_default
is_child_of-IsUnder slot_id shared = elim (Option-cases shared.parent_slot) [
  | inl e ↦ (
    λ h. inr (e, (list_beq_iff slot_id (text "default")).0 (rw (is_child_of, e) at h)),
    λ h. rw (is_child_of, e) (under_none e h),
  )
  | inr (parent, e) ↦ (
    λ h. inl (e ∙ ap some ((list_beq_iff parent slot_id).0 (rw (is_child_of, e) at h))),
    λ h. rw (is_child_of, e) (under_some parent e h),
  )
]
  where
    under_none :
        shared.parent_slot ≡ none → IsUnder slot_id shared → (slot_id == text "default") ≡ true
    under_none e (inl f) = absurd (ground (arith, e, f))
    under_none e (inr (_, f)) = (list_beq_iff slot_id (text "default")).1 f

    under_some :
        (parent : Text)
        → shared.parent_slot ≡ some parent
        → IsUnder slot_id shared
        → (parent == slot_id) ≡ true
    under_some parent e (inl f) = (list_beq_iff parent slot_id).1 (ground (arith, e, f))
    under_some parent e (inr (f, _)) = absurd (ground (arith, e, f))

lookup-retain {ℓ} :
    {W : Type ℓ} (p : W → Bool) (id : Text) (v : W) (d : Dict Text W)
    → lookup id d ≡ some v
    → p v ≡ true
    → lookup id (retain (λ _ w. p w) d) ≡ some v
unfolding lookup retain
lookup-retain p id v [] h kept = absurd (ground (arith, h))
lookup-retain p id v ((j, w) ∷ d) h kept = elim (Bool-cases (j == id)) [
  | inl same ↦
      let it : w ≡ v = ground (arith, rw same at h) in rw (ap p it ∙ kept, same) (ap some it)
  | inr other ↦ elim (Bool-cases (p w)) [
    | inl f ↦ rw (f, other) (lookup-retain p id v d (rw other at h) kept)
    | inr f ↦ rw f (lookup-retain p id v d (rw other at h) kept)
  ]
]

pub Loses-without_slot :
    (slot_id : Text) (acc : Account) → Loses slot_id acc (without_slot slot_id acc)
unfolding without_slot
Loses-without_slot slot_id acc = (
  lookup-erase slot_id slot_id acc.accounts ∙ ground (arith, list_beq_iff slot_id slot_id),
  λ other ne. lookup-erase slot_id other acc.accounts ∙ ground (arith, list_beq_iff slot_id other),
  Entries-retain_imp (λ _ _. Unit {0}) (λ _ shared. ¬ IsUnder slot_id shared)
      (λ _ shared. not (is_child_of shared slot_id))
      (λ _ shared kept _ under.
        absurd
          (let child = (is_child_of-IsUnder slot_id shared).1 under in ground (arith, kept, child)))
      acc.shared_accounts (all_entries acc.shared_accounts),
  λ id shared found free.
      lookup-retain (λ s. not (is_child_of s slot_id)) id shared acc.shared_accounts found
        (not_child shared free),
)
  where
    all_entries : (d : Dict Text SharedAccount) → Entries (λ _ _. Unit {0}) d
    all_entries [] = tt
    all_entries (_ ∷ d) = (tt, all_entries d)

    not_child :
        (shared : SharedAccount)
        → ¬ IsUnder slot_id shared
        → not (is_child_of shared slot_id) ≡ true
    not_child shared free = elim (Bool-cases (is_child_of shared slot_id)) [
      | inl e ↦ absurd (free ((is_child_of-IsUnder slot_id shared).0 e))
      | inr e ↦ rw e refl
    ]

pub erase-IsLast :
    (slot_id : Text) (acc : Account)
    → is_empty (erase slot_id acc.accounts) ≡ true
    → IsLast slot_id acc
erase-IsLast slot_id acc h other ne =
    let gone : lookup other (erase slot_id acc.accounts) ≡ none =
      none_in (erase slot_id acc.accounts) h in
    ground (arith, gone, lookup-erase slot_id other acc.accounts, list_beq_iff slot_id other)
  where
    none_in : (d : Dict Text AccountSlot) → is_empty d ≡ true → lookup other d ≡ none
    none_in [] e = unfold lookup in refl
    none_in (_ ∷ _) e = absurd (ground (arith, e))

pub erase-HasOther :
    (slot_id : Text) (acc : Account)
    → is_empty (erase slot_id acc.accounts) ≡ false
    → HasOther slot_id acc
erase-HasOther slot_id acc h =
    let (other, there) = first_key (erase slot_id acc.accounts) h in
    (
      other,
      λ same.
          ground (
            arith,
            there,
            lookup-erase slot_id other acc.accounts,
            list_beq_iff slot_id other,
            same,
          ),
      ground (arith, there, lookup-erase slot_id other acc.accounts),
    )
  where
    first_key :
        (d : Dict Text AccountSlot)
        → is_empty d ≡ false
        → (other : Text) × (is_some (lookup other d) ≡ true)
    first_key [] e = absurd (ground (arith, e))
    first_key ((k, v) ∷ d) e = (k, unfold lookup in rw ((list_beq_iff k k).1 refl) refl)
