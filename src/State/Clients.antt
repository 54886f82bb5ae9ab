-- ===== src/State/Clients.antt =====
-- The lookups of clients in src/state.rs: the cache, the stored account, and `connect`.
use jmap2telegram.Prelude.{
  List, [], ◌∷◌, ◌≡◌, refl, ◌∙◌, inl, inr, Option, none, some, Option-cases, nat_eq, list_eq,
  int_eq, pair_eq, pair_beq_iff, Text, ℤ, Dict, lookup, insert, lookup-insert, Result, ok, err,
  arith,
}
use jmap2telegram.Account.{AccountSlot, primary_slot, resolve_parent_slot}
use jmap2telegram.Store.{get}
use jmap2telegram.Jmap.{Network, JmapError, connect, connect_shared}
use jmap2telegram.State.{Key, AppState}

module _ (net : Network) where
  abbrev Reply : Type 0
  Reply = Result (Option net.Client) JmapError × AppState net.Client

  -- `Ok(Some(Self::cache_new(&self.account_clients, key, client).await))` behind `?`
  unfoldable pub cache_account : Key → Result net.Client JmapError → AppState net.Client → Reply
  cache_account key (err e) s = (err e, s)
  cache_account key (ok client) s =
      (ok (some client), record s { account_clients = insert key client s.account_clients })

  unfoldable pub cache_shared : Key → Result net.Client JmapError → AppState net.Client → Reply
  cache_shared key (err e) s = (err e, s)
  cache_shared key (ok client) s =
      (ok (some client), record s { shared_clients = insert key client s.shared_clients })

  connect_slot : Key → Option AccountSlot → AppState net.Client → Reply
  unfolding cache_account
  connect_slot key none s = (ok none, s)
  connect_slot key (some slot) s =
      cache_account key (connect net slot.server_url slot.token s.allow_private_jmap_hosts) s

  unfoldable pub client_for_account : ℤ → Text → AppState net.Client → Reply
  unfolding connect_slot
  client_for_account chat_id slot_id s = elim (lookup (chat_id, slot_id) s.account_clients) [
    | some client ↦ (ok (some client), s)
    | none ↦ elim (get chat_id s.store) [
      | none ↦ (ok none, s)
      | some account ↦ connect_slot (chat_id, slot_id) (lookup slot_id account.accounts) s
    ]
  ]

  unfoldable pub client_for : ℤ → AppState net.Client → Reply
  unfolding client_for_account
  client_for chat_id s = elim (get chat_id s.store) [
    | none ↦ (ok none, s)
    | some account ↦ elim (primary_slot account) [
      | none ↦ (ok none, s)
      | some slot ↦ client_for_account chat_id slot.slot_id s
    ]
  ]

  connect_parent : Key → Option AccountSlot → AppState net.Client → Reply
  unfolding cache_shared
  connect_parent key none s = (ok none, s)
  connect_parent key (some slot) s =
      cache_shared key
        (connect_shared net slot.server_url slot.token s.allow_private_jmap_hosts key.1) s

  unfoldable pub client_for_shared : ℤ → Text → AppState net.Client → Reply
  unfolding connect_parent
  client_for_shared chat_id account_id s = elim (lookup (chat_id, account_id) s.shared_clients) [
    | some client ↦ (ok (some client), s)
    | none ↦ elim (get chat_id s.store) [
      | none ↦ (ok none, s)
      | some account ↦ elim (lookup account_id account.shared_accounts) [
        | none ↦ (ok none, s)
        | some shared ↦ connect_parent (chat_id, account_id) (resolve_parent_slot account shared) s
      ]
    ]
  ]

  -- `if let Some(client) = … { out.push(…) }` behind `?`, in front of the rest of the loop
  collect :
      AccountSlot
      → Option net.Client
      → Result (List (AccountSlot × net.Client)) JmapError
      → Result (List (AccountSlot × net.Client)) JmapError
  collect slot client (err e) = err e
  collect slot none (ok out) = ok out
  collect slot (some client) (ok out) = ok ((slot, client) ∷ out)

  unfoldable pub clients_of :
      ℤ
      → Dict Text AccountSlot
      → AppState net.Client
      → Result (List (AccountSlot × net.Client)) JmapError × AppState net.Client
  unfolding client_for_account collect
  clients_of chat_id [] s = (ok [], s)
  clients_of chat_id ((slot_id, slot) ∷ d) s = elim (client_for_account chat_id slot_id s).0 [
    | err e ↦ (err e, (client_for_account chat_id slot_id s).1)
    | ok client ↦
        let (out, after) = clients_of chat_id d (client_for_account chat_id slot_id s).1 in
        (collect slot client out, after)
  ]

  unfoldable pub all_clients_for_chat :
      ℤ
      → AppState net.Client
      → Result (List (AccountSlot × net.Client)) JmapError × AppState net.Client
  unfolding clients_of
  all_clients_for_chat chat_id s = elim (get chat_id s.store) [
    | none ↦ (ok [], s)
    | some account ↦ clients_of chat_id account.accounts s
  ]

  cached_after :
      (chat_id : ℤ) (id : Text) (client : net.Client) (d : Dict Key net.Client)
      → lookup (chat_id, id) (insert (chat_id, id) client d) ≡ some client
  cached_after chat_id id client d =
      lookup-insert (chat_id, id) (chat_id, id) client d
      ∙ ground (arith, pair_beq_iff (chat_id, id) (chat_id, id))

  cache_account-lookup :
      (chat_id : ℤ) (id : Text) (r : Result net.Client JmapError) (client : net.Client)
      (s t : AppState net.Client)
      → cache_account (chat_id, id) r s ≡ (ok (some client), t)
      → lookup (chat_id, id) t.account_clients ≡ some client
  unfolding cache_account
  cache_account-lookup chat_id id (err e) client s t h = absurd (ground arith)
  cache_account-lookup chat_id id (ok c) client s t h =
      ground (arith, cached_after chat_id id c s.account_clients)

  connect_slot-lookup :
      (chat_id : ℤ) (id : Text) (slot : Option AccountSlot) (client : net.Client)
      (s t : AppState net.Client)
      → connect_slot (chat_id, id) slot s ≡ (ok (some client), t)
      → lookup (chat_id, id) t.account_clients ≡ some client
  unfolding connect_slot
  connect_slot-lookup chat_id id none client s t h = absurd (ground arith)
  connect_slot-lookup chat_id id (some slot) client s t h =
      cache_account-lookup chat_id id
        (connect net slot.server_url slot.token s.allow_private_jmap_hosts) client s t h

  client_for_account-lookup :
      (chat_id : ℤ) (slot_id : Text) (client : net.Client) (s t : AppState net.Client)
      → client_for_account chat_id slot_id s ≡ (ok (some client), t)
      → lookup (chat_id, slot_id) t.account_clients ≡ some client
  unfolding client_for_account
  client_for_account-lookup chat_id slot_id client s t h =
      elim (Option-cases (lookup (chat_id, slot_id) s.account_clients)) [
        | inr (cached, e) ↦ ground arith
        | inl e ↦ elim (Option-cases (get chat_id s.store)) [
          | inl f ↦ absurd (ground arith)
          | inr (account, f) ↦
              connect_slot-lookup chat_id slot_id (lookup slot_id account.accounts) client s t
                (ground arith)
        ]
      ]

  -- Once `client_for_account` has given a client, asking again gives the same client and leaves the
  -- state as it is, with no call to the network.
  pub client_for_account-Caches :
      (chat_id : ℤ) (slot_id : Text) (client : net.Client) (s t : AppState net.Client)
      → client_for_account chat_id slot_id s ≡ (ok (some client), t)
      → client_for_account chat_id slot_id t ≡ (ok (some client), t)
  unfolding client_for_account
  client_for_account-Caches chat_id slot_id client s t h =
      rw (client_for_account-lookup chat_id slot_id client s t h, client_for_account) refl
