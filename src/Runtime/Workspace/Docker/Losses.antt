-- ===== src/Runtime/Workspace/Docker/Losses.antt =====
-- src/minion/runtime/workspace.py: a call that took a slot keeps it, puts it back, or loses it where
-- the file system refuses a call.
use software_engineering_age.Prelude.{
  ◌∙◌, not, ◌&&◌, inl, inr, ◌⊎◌, List, String, if◌then◌else◌, arith,
}
use software_engineering_age.Effects.{
  Action, Result, Exn, ok, err, pure, raise, gets, catching, and_then, or_else, ◌>>=◌, ◌>>◌,
}
use software_engineering_age.Effects.Rules.{Respects}
use software_engineering_age.Domain.{RepositorySpec}
use software_engineering_age.Runtime.Workspace.{WarmSlot}
use software_engineering_age.Runtime.Workspace.Host.{
  Host, Machine, child, exists, remove_tree, move, on_failure, put_slot,
}
use software_engineering_age.Runtime.Workspace.Docker.Slots.{DockerSettings}
use software_engineering_age.Runtime.Workspace.Docker.{allocate_in, occupy, attach_in, undo_attach}
use software_engineering_age.Runtime.Workspace.Docker.Pool.{
  SamePool, SamePool-IsPreorder, IsConfined, pool_rules, healthy-SamePool, populate-SamePool,
  remove_tree-SamePool,
}
use software_engineering_age.Runtime.Workspace.Docker.Returns.{Back, put_slot-Back}

-- The slot went back, or it was lost.
abbrev pub BackOrLost : WarmSlot → Host → Host → Type 0
BackOrLost slot h h' = Back slot h h' ⊎ SamePool h h'

-- A call that took a slot keeps it if it returns.
abbrev pub Kept : {A : Type 0} → WarmSlot → Host → Result A × Host → Type 0
Kept slot h (ok a, h') = SamePool h h'
Kept slot h (err e, h') = BackOrLost slot h h'

later :
    (slot : WarmSlot) (h h₁ h₂ : Host)
    → SamePool h h₁
    → BackOrLost slot h₁ h₂
    → BackOrLost slot h h₂
later slot h h₁ h₂ p (inl b) =
    inl (record { pool = ground (arith, p.pool, b.pool); slots = b.slots ∙ p.slots })
later slot h h₁ h₂ p (inr q) = inr (SamePool-IsPreorder.transitive h h₁ h₂ p q)

module _ (slot : WarmSlot) where
  Kept-bind :
      {A B : Type 0} (m : Action Host A) (f : A → Action Host B) (h : Host)
      → Respects SamePool m
      → ((a : A) (h : Host) → Kept slot h (f a h))
      → Kept slot h ((m >>= f) h)
  unfolding ◌>>=◌
  Kept-bind {A} {B} m f h p q = by_result (m h) (p.at h)
    where
      from : (h₁ : Host) (r : Result B × Host) → SamePool h h₁ → Kept slot h₁ r → Kept slot h r
      from h₁ (ok b, h₂) p q = SamePool-IsPreorder.transitive h h₁ h₂ p q
      from h₁ (err e, h₂) p q = later slot h h₁ h₂ p q

      by_result : (r : Result A × Host) → SamePool h r.1 → Kept slot h (and_then r.0 f r.1)
      by_result (ok a, h₁) p = from h₁ (f a h₁) p (q a h₁)
      by_result (err e, h₁) p = inr p

  Kept-then :
      {A B : Type 0} (m : Action Host A) (f : A → B) (h : Host)
      → Kept slot h (m h)
      → Kept slot h ((m >>= λ a. pure (f a)) h)
  unfolding ◌>>=◌ pure
  Kept-then {A} m f h q = by_result (m h) q
    where
      by_result :
          (r : Result A × Host) → Kept slot h r → Kept slot h (and_then r.0 (λ a. pure (f a)) r.1)
      by_result (ok a, h₁) q = q
      by_result (err e, h₁) q = q

  Kept-on_failure :
      {A : Type 0} (m : Action Host A) (cleanup : Action Host Unit) (h : Host)
      → Respects SamePool m
      → ((h : Host) → BackOrLost slot h (cleanup h).1)
      → Kept slot h (on_failure m cleanup h)
  unfolding on_failure catching ◌>>=◌ raise
  Kept-on_failure {A} m cleanup h p back = by_result (m h) (p.at h)
    where
      by_cleanup :
          (e : Exn) (r : Result (Unit {0}) × Host)
          → BackOrLost slot h r.1
          → Kept {A = A} slot h (and_then r.0 (λ _. raise e) r.1)
      by_cleanup e (ok u, h₂) b = b
      by_cleanup e (err x, h₂) b = b

      by_result :
          (r : Result A × Host)
          → SamePool h r.1
          → Kept {A = A} slot h (or_else r.0 (λ e. cleanup >>= λ _. raise e) r.1)
      by_result (ok a, h₁) p = p
      by_result (err e, h₁) p =
          by_cleanup e (cleanup h₁) (later slot h h₁ (cleanup h₁).1 p (back h₁))

  put_after :
      (m : Action Host Unit) (h : Host)
      → Respects SamePool m
      → BackOrLost slot h ((m >> put_slot slot) h).1
  unfolding ◌>>=◌
  put_after m h p = by_result (m h) (p.at h)
    where
      by_result :
          (r : Result (Unit {0}) × Host)
          → SamePool h r.1
          → BackOrLost slot h (and_then r.0 (λ _. put_slot slot) r.1).1
      by_result (ok u, h₁) p = later slot h h₁ _ p (inl (put_slot-Back slot h₁))
      by_result (err e, h₁) p = inr p

  module _ (machine : Machine) (settings : DockerSettings) (confined : IsConfined machine) where
    pub allocate_in-Kept :
        (task_id : String) (specs : List RepositorySpec) (h : Host)
        → Kept slot h (allocate_in machine settings slot task_id specs h)
    unfolding allocate_in occupy
    allocate_in-Kept task_id specs h = Kept-bind _ _ h (search pool_rules depth 4) λ id h₁.
        Kept-bind _ _ h₁ (search pool_rules depth 4) λ u h₂. Kept-then _ _ h₂ (
          Kept-on_failure _ _ h₂ (populate-SamePool machine confined settings.local _ task_id specs)
            (λ h₃.
              put_after (remove_tree machine (child slot.host_root id)) h₃
                (remove_tree-SamePool machine _)))

    undo_attach-BackOrLost :
        (target persistent id : String) (h : Host)
        → BackOrLost slot h (undo_attach machine slot id target persistent h).1
    unfolding undo_attach gets ◌>>=◌
    undo_attach-BackOrLost target persistent id h =
        put_after
          (if exists target h && not (exists persistent h)
            then move machine id target persistent
            else pure tt)
          h (search pool_rules depth 5)

    pub attach_in-Kept :
        (id : String) (specs : List RepositorySpec) (h : Host)
        → Kept slot h (attach_in machine settings slot id specs h)
    unfolding attach_in
    attach_in-Kept id specs h =
        let target = child slot.host_root id in
        let persistent = child settings.local.workspace_root id in
        Kept-on_failure _ _ h (search (pool_rules, healthy-SamePool) depth 8)
          λ h₁. undo_attach-BackOrLost target persistent id h₁
