-- ===== src/Accounts/Boot.antt =====
-- `spawn_boot_resume` of src/accounts.rs: what a start registers, and the resume tasks that it spawns.
use jmap2telegram.Prelude.{
  ◌≡◌, refl, ◌∙◌, List, [], ◌∷◌, some, All, Text, ℤ, lookup, lookup-insert, list_eq, nat_eq, arith,
  ==_refl,
}
use jmap2telegram.Account.{Account}
use jmap2telegram.Watcher.{health_key}
use jmap2telegram.Health.{Health, register, fresh}
use jmap2telegram.Accounts.{ResumeTarget, persisted_targets, register_persisted_targets}

-- The health registry after the call, and a task for each target.
unfoldable pub spawn_boot_resume : ℤ → Account → Health → Health × List ResumeTarget
spawn_boot_resume chat_id account h =
    let targets = persisted_targets account in
    (register_persisted_targets chat_id targets h, targets)

kept_fresh :
    (key other : Text) (h : Health)
    → lookup other h.watchers ≡ some fresh
    → lookup other (register key h).watchers ≡ some fresh
unfolding register
kept_fresh key other h e = lookup-insert key other fresh h.watchers ∙ ground (arith, e)

all_kept_fresh :
    (chat_id : ℤ) (targets : List ResumeTarget) (other : Text) (h : Health)
    → lookup other h.watchers ≡ some fresh
    → lookup other (register_persisted_targets chat_id targets h).watchers ≡ some fresh
unfolding register_persisted_targets
all_kept_fresh chat_id [] other h e = e
all_kept_fresh chat_id (t ∷ ts) other h e =
    all_kept_fresh chat_id ts other (register (health_key t.target chat_id) h)
      (kept_fresh (health_key t.target chat_id) other h e)

-- The target is in the registry, as not yet connected.
abbrev IsRegistered : ℤ → Health → ResumeTarget → Type 0
IsRegistered chat_id h t = lookup (health_key t.target chat_id) h.watchers ≡ some fresh

register_persisted_targets-IsRegistered :
    (chat_id : ℤ) (targets : List ResumeTarget) (h : Health)
    → All (IsRegistered chat_id (register_persisted_targets chat_id targets h)) targets
unfolding register_persisted_targets register
register_persisted_targets-IsRegistered chat_id [] h = tt
register_persisted_targets-IsRegistered chat_id (t ∷ ts) h =
    let key = health_key t.target chat_id in
    (
      all_kept_fresh chat_id ts key (register key h)
          (lookup-insert key key fresh h.watchers ∙ rw (==_refl key) refl),
      register_persisted_targets-IsRegistered chat_id ts (register key h),
    )

-- After the start has called `spawn_boot_resume` for an account, every target that a resume task was
-- spawned for is in the health registry as not yet connected.
spawn_boot_resume-IsRegistered :
    (chat_id : ℤ) (account : Account) (h : Health)
    → All
        (IsRegistered chat_id (spawn_boot_resume chat_id account h).0)
        (spawn_boot_resume chat_id account h).1
unfolding spawn_boot_resume
spawn_boot_resume-IsRegistered chat_id account h =
    register_persisted_targets-IsRegistered chat_id (persisted_targets account) h
