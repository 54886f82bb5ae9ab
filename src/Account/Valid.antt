-- ===== src/Account/Valid.antt =====
-- Well-formed accounts: a slot stands under its own id, and every shared mailbox has the slot that
-- authorizes it.
use jmap2telegram.Prelude.{
  ◌≡◌, refl, inl, inr, true, false, not, [], ◌∷◌, Option-cases, nat_eq, list_eq, list_beq_iff, Text,
  ℤ, Dict, lookup, insert_sorted, insert, erase, retain, is_some, Entries, Entries-insert_sorted,
  Entries-erase, Entries-insert, Entries-imp, Entries-retain_imp, ◌∙◌, lookup-insert_sorted,
  lookup-erase, arith,
}
use jmap2telegram.Strings.{is_empty}
use jmap2telegram.Account.{
  Account, AccountSlot, SharedAccount, is_child_of, no_accounts, update_primary_slot,
  resolve_parent_slot, first_value, update_first,
}

abbrev pub IsKeyed : Text → AccountSlot → Type 0
IsKeyed slot_id slot = slot.slot_id ≡ slot_id

-- The slot that authorizes a shared mailbox can be found.
abbrev pub HasSlot : Account → Text → SharedAccount → Type 0
HasSlot account _ shared = is_some (resolve_parent_slot account shared) ≡ true

pub record IsWellFormed (account : Account) : Type 0 where
  pub keyed : Entries IsKeyed account.accounts
  pub parents : Entries (HasSlot account) account.shared_accounts

-- A stored account is well-formed, and has at least one slot.
pub record IsValid (chat_id : ℤ) (account : Account) : Type 0 where
  pub formed : IsWellFormed account
  pub connected : is_empty account.accounts ≡ false

is_some-first_value-insert_sorted :
    (k : Text) (v : AccountSlot) (d : Dict Text AccountSlot)
    → is_some (first_value (insert_sorted k v d)) ≡ true
unfolding insert_sorted
is_some-first_value-insert_sorted k v [] = refl
is_some-first_value-insert_sorted k v ((j, w) ∷ d) = ground arith

pub insert_sorted-connected :
    (k : Text) (v : AccountSlot) (d : Dict Text AccountSlot)
    → is_empty (insert_sorted k v d) ≡ false
unfolding insert_sorted
insert_sorted-connected k v [] = refl
insert_sorted-connected k v ((j, w) ∷ d) = ground arith

first_value_connected :
    (d : Dict Text AccountSlot) → is_empty d ≡ false → is_some (first_value d) ≡ true
first_value_connected [] h = ground arith
first_value_connected ((k, v) ∷ d) h = refl

-- Writing a slot keeps every authorization.
HasSlot-insert_sorted :
    (k : Text) (v : AccountSlot) (acc : Account) (id : Text) (shared : SharedAccount)
    → HasSlot acc id shared
    → HasSlot (record acc { accounts = insert_sorted k v acc.accounts }) id shared
unfolding resolve_parent_slot
HasSlot-insert_sorted k v acc id shared h = elim (Option-cases shared.parent_slot) [
  | inl e ↦ rw (e, resolve_parent_slot) (is_some-first_value-insert_sorted k v acc.accounts)
  | inr (p, e) ↦ ground (arith, lookup-insert_sorted k p v acc.accounts)
]

pub insert_sorted-IsWellFormed :
    (k : Text) (v : AccountSlot) (acc : Account)
    → v.slot_id ≡ k
    → IsWellFormed acc
    → IsWellFormed (record acc { accounts = insert_sorted k v acc.accounts })
insert_sorted-IsWellFormed k v acc e h = record {
  keyed = Entries-insert_sorted IsKeyed k v acc.accounts e h.keyed;
  parents =
      Entries-imp (HasSlot acc) (HasSlot (record acc { accounts = insert_sorted k v acc.accounts }))
        (HasSlot-insert_sorted k v acc) acc.shared_accounts h.parents;
}

pub no_accounts-IsWellFormed : IsWellFormed no_accounts
no_accounts-IsWellFormed = record { keyed = tt; parents = tt }

-- Where a slot is removed with its children, what is left of the shared mailboxes keeps its slot.
HasSlot-erase :
    (slot_id : Text) (acc : Account) (kept : Dict Text SharedAccount) (id : Text)
    (shared : SharedAccount)
    → is_empty (erase slot_id acc.accounts) ≡ false
    → not (is_child_of shared slot_id) ≡ true
    → HasSlot acc id shared
    → HasSlot
        (record acc { accounts = erase slot_id acc.accounts; shared_accounts = kept })
        id
        shared
unfolding resolve_parent_slot is_child_of
HasSlot-erase slot_id acc kept id shared more other h = elim (Option-cases shared.parent_slot) [
  | inl e ↦ rw (e, resolve_parent_slot) (first_value_connected _ more)
  | inr (p, e) ↦
      ground
        (arith, lookup-erase slot_id p acc.accounts, list_beq_iff p slot_id, list_beq_iff slot_id p)
]

pub remove_slot-IsWellFormed :
    (slot_id : Text) (acc : Account)
    → is_empty (erase slot_id acc.accounts) ≡ false
    → IsWellFormed acc
    → IsWellFormed (record acc {
      accounts = erase slot_id acc.accounts;
      shared_accounts = retain (λ _ shared. not (is_child_of shared slot_id)) acc.shared_accounts;
    })
remove_slot-IsWellFormed slot_id acc more h = record {
  keyed = Entries-erase IsKeyed slot_id acc.accounts h.keyed;
  parents =
      Entries-retain_imp (HasSlot acc)
        (HasSlot (record acc {
          accounts = erase slot_id acc.accounts;
          shared_accounts =
              retain (λ _ shared. not (is_child_of shared slot_id)) acc.shared_accounts;
        }))
        (λ _ shared. not (is_child_of shared slot_id))
        (λ id shared. HasSlot-erase slot_id acc _ id shared more) acc.shared_accounts h.parents;
}

is_some-lookup-update_first :
    (f : AccountSlot → AccountSlot) (p : Text) (d : Dict Text AccountSlot)
    → is_some (lookup p (update_first f d)) ≡ is_some (lookup p d)
unfolding lookup
is_some-lookup-update_first f p [] = refl
is_some-lookup-update_first f p ((j, w) ∷ d) = ground arith

is_some-first_value-update_first :
    (f : AccountSlot → AccountSlot) (d : Dict Text AccountSlot)
    → is_some (first_value (update_first f d)) ≡ is_some (first_value d)
is_some-first_value-update_first f [] = refl
is_some-first_value-update_first f ((j, w) ∷ d) = refl

HasSlot-update_primary_slot :
    (f : AccountSlot → AccountSlot) (acc : Account) (id : Text) (shared : SharedAccount)
    → HasSlot acc id shared
    → HasSlot (update_primary_slot f acc) id shared
unfolding resolve_parent_slot update_primary_slot
HasSlot-update_primary_slot f acc id shared h = elim (Option-cases shared.parent_slot) [
  | inl e ↦ ground (arith, is_some-first_value-update_first f acc.accounts)
  | inr (p, e) ↦ ground (arith, is_some-lookup-update_first f p acc.accounts)
]

IsKeyed-update_first :
    (f : AccountSlot → AccountSlot)
    → ((slot : AccountSlot) → (f slot).slot_id ≡ slot.slot_id)
    → (d : Dict Text AccountSlot) → Entries IsKeyed d
    → Entries IsKeyed (update_first f d)
IsKeyed-update_first f same [] h = tt
IsKeyed-update_first f same ((j, w) ∷ d) (here, there) = (same w ∙ here, there)

-- A write to the primary slot that leaves its id.
pub update_primary_slot-IsValid :
    (f : AccountSlot → AccountSlot) (chat_id : ℤ) (acc : Account)
    → ((slot : AccountSlot) → (f slot).slot_id ≡ slot.slot_id)
    → IsValid chat_id acc
    → IsValid chat_id (update_primary_slot f acc)
unfolding update_primary_slot
update_primary_slot-IsValid f chat_id acc same h = record {
  formed = record {
    keyed = IsKeyed-update_first f same acc.accounts h.formed.keyed;
    parents =
        Entries-imp (HasSlot acc) (HasSlot (update_primary_slot f acc))
          (HasSlot-update_primary_slot f acc) acc.shared_accounts h.formed.parents;
  };
  connected = update_first_connected acc.accounts h.connected;
}
  where
    update_first_connected :
        (d : Dict Text AccountSlot) → is_empty d ≡ false → is_empty (update_first f d) ≡ false
    update_first_connected [] e = e
    update_first_connected ((j, w) ∷ d) e = refl

-- A shared mailbox whose slot is there may be added, and any may be dropped.
pub insert_shared-IsValid :
    (account_id : Text) (shared : SharedAccount) (chat_id : ℤ) (acc : Account)
    → HasSlot acc account_id shared
    → IsValid chat_id acc
    → IsValid chat_id
        (record acc { shared_accounts = insert account_id shared acc.shared_accounts })
unfolding resolve_parent_slot
insert_shared-IsValid account_id shared chat_id acc slot h = record {
  formed = record {
    keyed = h.formed.keyed;
    parents =
        Entries-insert (HasSlot acc) account_id shared acc.shared_accounts slot h.formed.parents;
  };
  connected = h.connected;
}

pub erase_shared-IsValid :
    (account_id : Text) (chat_id : ℤ) (acc : Account)
    → IsValid chat_id acc
    → IsValid chat_id (record acc { shared_accounts = erase account_id acc.shared_accounts })
unfolding resolve_parent_slot
erase_shared-IsValid account_id chat_id acc h = record {
  formed = record {
    keyed = h.formed.keyed;
    parents = Entries-erase (HasSlot acc) account_id acc.shared_accounts h.formed.parents;
  };
  connected = h.connected;
}
