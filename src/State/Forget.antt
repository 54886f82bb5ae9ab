-- ===== src/State/Forget.antt =====
-- What `forget` and `forget_account` of src/state.rs tear down, and what they leave.
use jmap2telegram.Prelude.{
  ℕ, ◌≡◌, refl, ◌∙◌, inl, inr, ◌⊎◌, Bool, true, not, List, [], ◌∷◌, ◌++◌, none, some, if◌then◌else◌,
  ◌==◌, nat_eq, list_eq, int_eq, pair_eq, pair_beq_iff, int_beq_iff, list_beq_iff, Text, ℤ, Dict,
  lookup, lookup-retain_key, lookup-erase, any, length, arith,
}
use jmap2telegram.Health.{set_pending_undos}
use jmap2telegram.Health.Registry.{status, status-deregister_chat}
use jmap2telegram.Watcher.{WatchTarget, health_key}
use jmap2telegram.State.{Key, AppState, handles_of, without_chat, forget}

lookup-without_chat {ℓ} :
    {V : Type ℓ} (chat_id other : ℤ) (id : Text) (d : Dict Key V)
    → lookup (other, id) (without_chat chat_id d)
      ≡ (if other == chat_id then none else lookup (other, id) d)
unfolding without_chat
lookup-without_chat chat_id other id d =
    lookup-retain_key (λ key. not (key.0 == chat_id)) (other, id) d ∙ ground arith

any-append : (p : ℕ → Bool) (xs ys : List ℕ) → any p xs ≡ true → any p (xs ++ ys) ≡ true
unfolding any
any-append p [] ys h = ground arith
any-append p (x ∷ xs) ys h = ground (arith, any-append p xs ys)

any-append_right : (p : ℕ → Bool) (xs ys : List ℕ) → any p ys ≡ true → any p (xs ++ ys) ≡ true
unfolding any
any-append_right p [] ys h = h
any-append_right p (x ∷ xs) ys h = ground (arith, any-append_right p xs ys)

handles_of-lookup :
    (chat_id : ℤ) (id : Text) (handle : ℕ) (d : Dict Key ℕ)
    → lookup (chat_id, id) d ≡ some handle
    → any (λ h. h == handle) (handles_of chat_id d) ≡ true
unfolding handles_of any lookup
handles_of-lookup chat_id id handle [] e = ground arith
handles_of-lookup chat_id id handle (((other, j), h) ∷ d) e = ground (
  arith,
  int_beq_iff other chat_id,
  list_beq_iff j id,
  pair_beq_iff (other, j) (chat_id, id),
  handles_of-lookup chat_id id handle d,
)

module _ {Client : Type 0} (chat_id : ℤ) (s : AppState Client) where
  -- After `forget` the chat has no client, no watcher, no pending undo and no entry in the health
  -- registry, the gauge of undos is right, and every other chat keeps all it has.
  pub forget-Forgets :
      (other : ℤ) (id : Text) (t : WatchTarget)
      → let after = forget chat_id s in
        let gone = other == chat_id in
        (lookup (other, id) after.account_clients
          ≡ (if gone then none else lookup (other, id) s.account_clients))
        × (lookup (other, id) after.account_watchers
            ≡ (if gone then none else lookup (other, id) s.account_watchers))
        × (lookup (other, id) after.shared_clients
            ≡ (if gone then none else lookup (other, id) s.shared_clients))
        × (lookup (other, id) after.shared_watchers
            ≡ (if gone then none else lookup (other, id) s.shared_watchers))
        × (lookup other after.pending_undo ≡ (if gone then none else lookup other s.pending_undo))
        × (status (health_key t other) after.health
            ≡ (if gone then none else status (health_key t other) s.health))
        × (after.metrics.pending_undos ≡ length after.pending_undo)
  unfolding forget
  forget-Forgets other id t = (
    lookup-without_chat chat_id other id s.account_clients,
    lookup-without_chat chat_id other id s.account_watchers,
    lookup-without_chat chat_id other id s.shared_clients,
    lookup-without_chat chat_id other id s.shared_watchers,
    lookup-erase chat_id other s.pending_undo
        ∙ ground (arith, int_beq_iff chat_id other, int_beq_iff other chat_id),
    status-deregister_chat t other chat_id s.health,
    unfold set_pending_undos in refl,
  )

  -- `forget` aborts the task of every watcher of the chat, of its slots and of its shared mailboxes.
  pub forget-Aborts :
      (id : Text) (handle : ℕ)
      → (lookup (chat_id, id) s.account_watchers ≡ some handle)
        ⊎ (lookup (chat_id, id) s.shared_watchers ≡ some handle)
      → any (λ h. h == handle) (forget chat_id s).aborted ≡ true
  unfolding forget
  forget-Aborts id handle (inl e) =
      any-append (λ h. h == handle) (s.aborted ++ handles_of chat_id s.account_watchers)
        (handles_of chat_id s.shared_watchers)
        (any-append_right (λ h. h == handle) s.aborted (handles_of chat_id s.account_watchers)
          (handles_of-lookup chat_id id handle s.account_watchers e))
  forget-Aborts id handle (inr e) =
      any-append_right (λ h. h == handle) (s.aborted ++ handles_of chat_id s.account_watchers)
        (handles_of chat_id s.shared_watchers)
        (handles_of-lookup chat_id id handle s.shared_watchers e)
