-- ===== src/Sync/Cursor.antt =====
-- The cursor after a sync of src/watcher.rs.
use jmap2telegram.Prelude.{
  ◌≡◌, refl, ◌∙◌, inl, inr, true, false, List, [], ◌∷◌, Option, none, some, Option-cases, is_some,
  ◌==◌, nat_eq, list_eq, int_eq, list_beq_iff, Text, ℤ, Dict, lookup, lookup-insert_sorted,
  lookup-insert, arith,
}
use jmap2telegram.Strings.{is_empty}
use jmap2telegram.Account.{
  Account, AccountSlot, update_primary_slot, update_first, primary_slot, last_state,
}
use jmap2telegram.Store.{Store, Backend, Io, get, put, persist}
use jmap2telegram.Store.Slots
use jmap2telegram.Store.Slots.{slot_of, write_slot, set_account_thread_id, update_account_state}
use jmap2telegram.Store.Shared.{update_shared_account_state}
use jmap2telegram.Store.Laws.{get-persist, get-put}
use jmap2telegram.Jmap.{ChangedEmail}
use jmap2telegram.Watcher.{
  WatchTarget, primary, shared, extra, account, since_state, still_active, update_state,
}
use jmap2telegram.Sync.{World, Sync, write_cursor, sync_changes, sync_and_notify}
use jmap2telegram.Sync.Active.{IsActive, slot_of-lookup, shared_of-lookup, notify_emails-IsActive}

abbrev pub HasCursor : ℤ → WatchTarget → Text → Store → Type 0
HasCursor chat_id target state s =
    (acc : Account) × (get chat_id s ≡ some acc) × (since_state target acc ≡ some state)

is_some-lem {ℓ} : {A : Type ℓ} (o : Option A) → is_some o ≡ true → (a : A) × (o ≡ some a)
is_some-lem none h = absurd (ground arith)
is_some-lem (some a) h = (a, refl)

last_state-update_primary_slot :
    (state : Text) (acc : Account)
    → is_empty acc.accounts ≡ false
    → last_state (update_primary_slot (λ slot. record slot { last_state = some state }) acc)
      ≡ some state
unfolding last_state update_primary_slot primary_slot
last_state-update_primary_slot state acc h = first acc.accounts h
  where
    first :
        (d : Dict Text AccountSlot)
        → is_empty d ≡ false
        → last_state (record acc {
          accounts = update_first (λ slot. record slot { last_state = some state }) d;
        })
          ≡ some state
    first [] h = absurd (ground arith)
    first ((k, slot) ∷ d) h = refl

last_state-connected :
    (acc : Account) (state : Text) → last_state acc ≡ some state → is_empty acc.accounts ≡ false
unfolding last_state primary_slot
last_state-connected acc state h = first acc.accounts h
  where
    first :
        (d : Dict Text AccountSlot)
        → last_state (record acc { accounts = d }) ≡ some state
        → is_empty d ≡ false
    first [] h = absurd (ground arith)
    first ((k, slot) ∷ d) h = refl

module _ (b : Backend) (io : Io) (chat_id : ℤ) (state : Text) (s : Store) where
  get-written : (acc : Account) → get chat_id (persist b io (put chat_id acc s)).1 ≡ some acc
  get-written acc = get-persist b io chat_id _ ∙ get-put b io chat_id acc s

  update_account_state-HasCursor :
      (slot_id name : Text) (acc : Account)
      → get chat_id s ≡ some acc
      → is_some (lookup slot_id acc.accounts) ≡ true
      → HasCursor chat_id
          (account slot_id name)
          state
          (update_account_state b io chat_id slot_id state s).1
  unfolding update_account_state since_state
  update_account_state-HasCursor slot_id name acc e active =
      let (slot, f) = is_some-lem (lookup slot_id acc.accounts) active in
      rw (update_account_state, slot_of-lookup chat_id slot_id s acc e, f)
        (_, get-written _, rw lookup-insert_sorted (ground (arith, list_beq_iff slot_id slot_id)))

  update_shared_account_state-HasCursor :
      (id name : Text) (acc : Account)
      → get chat_id s ≡ some acc
      → is_some (lookup id acc.shared_accounts) ≡ true
      → HasCursor chat_id
          (shared id name)
          state
          (update_shared_account_state b io chat_id id state s).1
  unfolding update_shared_account_state since_state
  update_shared_account_state-HasCursor id name acc e active =
      let (sh, f) = is_some-lem (lookup id acc.shared_accounts) active in
      rw (update_shared_account_state, shared_of-lookup chat_id id s acc e, f)
        (_, get-written _, rw lookup-insert (ground (arith, list_beq_iff id id)))

  first_update_state-HasCursor :
      (acc : Account)
      → get chat_id s ≡ some acc
      → is_empty acc.accounts ≡ false
      → HasCursor chat_id primary state (Slots.update_state b io chat_id state s).1
  unfolding Slots.update_state since_state get
  first_update_state-HasCursor acc e active =
      rw (Slots.update_state, e)
        (
          _,
          get-written (update_primary_slot (λ slot. record slot { last_state = some state }) acc),
          last_state-update_primary_slot state acc active,
        )

  -- A write of the cursor of an active target is what the next sync reads.
  update_state-HasCursor :
      (target : WatchTarget)
      → IsActive chat_id target s
      → HasCursor chat_id target state (update_state b io target chat_id state s)
  unfolding update_state still_active since_state
  update_state-HasCursor primary (acc, e, active) =
      first_update_state-HasCursor acc e (ground arith)
  update_state-HasCursor (shared id name) (acc, e, active) =
      update_shared_account_state-HasCursor id name acc e active
  update_state-HasCursor (extra slot_id name) (acc, e, active) =
      update_account_state-HasCursor slot_id name acc e active
  update_state-HasCursor (account slot_id name) (acc, e, active) =
      update_account_state-HasCursor slot_id name acc e active

module _ (w : World) (chat_id : ℤ) (target : WatchTarget) where
  since_state-still_active :
      (t : WatchTarget) (acc : Account) (since : Text)
      → since_state t acc ≡ some since
      → still_active t acc ≡ true
  unfolding since_state still_active
  since_state-still_active primary acc since h = ground (arith, last_state-connected acc since h)
  since_state-still_active (shared id _) acc since h =
      elim (Option-cases (lookup id acc.shared_accounts)) [
        | inl e ↦ absurd (ground arith)
        | inr (sh, e) ↦ rw e refl
      ]
  since_state-still_active (extra id _) acc since h = elim (Option-cases (lookup id acc.accounts)) [
    | inl e ↦ absurd (ground arith)
    | inr (slot, e) ↦ rw e refl
  ]
  since_state-still_active (account id _) acc since h =
      elim (Option-cases (lookup id acc.accounts)) [
        | inl e ↦ absurd (ground arith)
        | inr (slot, e) ↦ rw e refl
      ]

  -- After a sync that has read changes with a new state, the next sync starts from that state, also
  -- where messages or writes to the disk have failed.
  pub sync_and_notify-HasCursor :
      (acc : Account) (since new_state : Text) (changed : List ChangedEmail) (s : Sync)
      → get chat_id s.store ≡ some acc
      → since_state target acc ≡ some since
      → w.fetch_changed_emails since ≡ some (changed, new_state)
      → (new_state == since) ≡ false
      → HasCursor chat_id target new_state (sync_and_notify w chat_id target s).store
  unfolding sync_and_notify sync_changes write_cursor
  sync_and_notify-HasCursor acc since new_state changed s found cursor fetched new =
      rw (found, sync_and_notify, cursor, fetched, sync_changes, new)
        (update_state-HasCursor w.backend (w.io _) chat_id new_state _ target (
          notify_emails-IsActive w chat_id target acc changed _
            (acc, found, since_state-still_active target acc since cursor)))
