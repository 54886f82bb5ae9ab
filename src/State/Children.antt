-- ===== src/State/Children.antt =====
-- `forget_account` of src/state.rs: one slot with the shared mailboxes under it.
use jmap2telegram.Prelude.{
  ◌≡◌, refl, subst, ◌∙◌, ap, inl, inr, Bool, true, false, [], ◌∷◌, none, some, Bool-cases,
  if◌then◌else◌, ◌==◌, nat_eq, list_eq, int_eq, pair_eq, pair_beq_iff, list_beq_iff, Text, ℤ, Dict,
  lookup, lookup-erase, arith,
}
use jmap2telegram.Store.{get}
use jmap2telegram.Account.{Account, SharedAccount, is_child_of}
use jmap2telegram.State.{Key, AppState, forget_shared, forget_children, forget_slot, forget_account}

-- The client and the watcher of a shared mailbox are gone.
abbrev IsForgotten : {Client : Type 0} → Key → AppState Client → Type 0
IsForgotten key s = (lookup key s.shared_clients ≡ none) × (lookup key s.shared_watchers ≡ none)

module _ {Client : Type 0} (chat_id : ℤ) where
  forget_shared-IsForgotten :
      (account_id : Text) (s : AppState Client)
      → IsForgotten (chat_id, account_id) (forget_shared chat_id account_id s)
  unfolding forget_shared
  forget_shared-IsForgotten account_id s = (
    lookup-erase (chat_id, account_id) (chat_id, account_id) s.shared_clients
        ∙ ground (arith, pair_beq_iff (chat_id, account_id) (chat_id, account_id)),
    lookup-erase (chat_id, account_id) (chat_id, account_id) s.shared_watchers
        ∙ ground (arith, pair_beq_iff (chat_id, account_id) (chat_id, account_id)),
  )

  forget_shared-StaysForgotten :
      (key : Key) (account_id : Text) (s : AppState Client)
      → IsForgotten key s
      → IsForgotten key (forget_shared chat_id account_id s)
  unfolding forget_shared
  forget_shared-StaysForgotten key account_id s (no_client, no_watcher) = (
    lookup-erase (chat_id, account_id) key s.shared_clients ∙ ground arith,
    lookup-erase (chat_id, account_id) key s.shared_watchers ∙ ground arith,
  )

  forget_if-StaysForgotten :
      (test : Bool) (key : Key) (account_id : Text) (s : AppState Client)
      → IsForgotten key s
      → IsForgotten key (if test then forget_shared chat_id account_id s else s)
  forget_if-StaysForgotten true key account_id s h = forget_shared-StaysForgotten key account_id s h
  forget_if-StaysForgotten false key account_id s h = h

  forget_if-IsForgotten :
      (test : Bool) (account_id id : Text) (s : AppState Client)
      → test ≡ true
      → account_id ≡ id
      → IsForgotten (chat_id, id) (if test then forget_shared chat_id account_id s else s)
  forget_if-IsForgotten true account_id id s child same =
      subst (λ k. IsForgotten (chat_id, k) (forget_shared chat_id account_id s)) same
        (forget_shared-IsForgotten account_id s)
  forget_if-IsForgotten false account_id id s child same = absurd (ground arith)

  forget_children-StaysForgotten :
      (slot_id : Text) (key : Key) (d : Dict Text SharedAccount) (s : AppState Client)
      → IsForgotten key s
      → IsForgotten key (forget_children chat_id slot_id d s)
  unfolding forget_children
  forget_children-StaysForgotten slot_id key [] s h = h
  forget_children-StaysForgotten slot_id key ((id, shared) ∷ d) s h =
      forget_children-StaysForgotten slot_id key d _
        (forget_if-StaysForgotten (is_child_of shared slot_id) key id s h)

  forget_children-IsForgotten :
      (slot_id id : Text) (shared : SharedAccount) (d : Dict Text SharedAccount)
      (s : AppState Client)
      → lookup id d ≡ some shared
      → is_child_of shared slot_id ≡ true
      → IsForgotten (chat_id, id) (forget_children chat_id slot_id d s)
  unfolding forget_children lookup
  forget_children-IsForgotten slot_id id shared [] s e child = absurd (ground arith)
  forget_children-IsForgotten slot_id id shared ((j, first) ∷ d) s e child =
      elim (Bool-cases (j == id)) [
        | inl same ↦
            let found : first ≡ shared = ground arith in
            forget_children-StaysForgotten slot_id (chat_id, id) d _
              (forget_if-IsForgotten (is_child_of first slot_id) j id s
                (ap (λ x. is_child_of x slot_id) found ∙ child) ((list_beq_iff j id).0 same))
        | inr other ↦ forget_children-IsForgotten slot_id id shared d _ (ground arith) child
      ]

  -- The maps of the slots are not touched.
  forget_children-Slots :
      (slot_id : Text) (d : Dict Text SharedAccount) (s : AppState Client)
      → ((forget_children chat_id slot_id d s).account_clients ≡ s.account_clients)
        × ((forget_children chat_id slot_id d s).account_watchers ≡ s.account_watchers)
  unfolding forget_children forget_shared
  forget_children-Slots slot_id [] s = (refl, refl)
  forget_children-Slots slot_id ((j, shared) ∷ d) s =
      let (clients, watchers) =
        forget_children-Slots slot_id d
          (if is_child_of shared slot_id then forget_shared chat_id j s else s) in
      (
        clients ∙ untouched_clients (is_child_of shared slot_id),
        watchers ∙ untouched_watchers (is_child_of shared slot_id),
      )
    where
      untouched_clients :
          (test : Bool)
          → (if test then forget_shared chat_id j s else s).account_clients ≡ s.account_clients
      untouched_clients true = refl
      untouched_clients false = refl

      untouched_watchers :
          (test : Bool)
          → (if test then forget_shared chat_id j s else s).account_watchers ≡ s.account_watchers
      untouched_watchers true = refl
      untouched_watchers false = refl

  pub forget_account-Forgets :
      (slot_id : Text) (account : Account) (s : AppState Client)
      → get chat_id s.store ≡ some account
      → ((key : Key)
          → (lookup key (forget_account chat_id slot_id s).account_clients
              ≡ (if (chat_id, slot_id) == key then none else lookup key s.account_clients))
            × (lookup key (forget_account chat_id slot_id s).account_watchers
                ≡ (if (chat_id, slot_id) == key then none else lookup key s.account_watchers)))
        × ((id : Text) (shared : SharedAccount)
            → lookup id account.shared_accounts ≡ some shared
            → is_child_of shared slot_id ≡ true
            → (lookup (chat_id, id) (forget_account chat_id slot_id s).shared_clients ≡ none)
              × (lookup (chat_id, id) (forget_account chat_id slot_id s).shared_watchers ≡ none))
  unfolding forget_account
  forget_account-Forgets slot_id account s e =
      rw (e, forget_account)
        (
          λ key.
              let (clients, watchers) =
                forget_children-Slots slot_id account.shared_accounts
                  (forget_slot chat_id slot_id s) in
              (
                ap (λ d. lookup key d) clients
                    ∙ unfold forget_slot in lookup-erase (chat_id, slot_id) key s.account_clients,
                ap (λ d. lookup key d) watchers
                    ∙ unfold forget_slot in lookup-erase (chat_id, slot_id) key s.account_watchers,
              ),
          λ id shared found child.
              forget_children-IsForgotten slot_id id shared account.shared_accounts
                (forget_slot chat_id slot_id s) found child,
        )
