-- ===== src/Lifecycle/Documented.antt =====
-- The table of src/minion/state_machine.py beside the diagram of docs/LLD.md, section 4.
use software_engineering_age.Prelude.{◌≡◌, refl, ◌⊎◌, inl, inr, ◌↔◌, arith}
use software_engineering_age.Domain.{
  TaskStatus, created, queued, running, waiting_for_user, cancelling, cancelled, failed, completed,
}
use software_engineering_age.Effects.{ok}
use software_engineering_age.Lifecycle.{validate_transition}
use software_engineering_age.Lifecycle.Diagram.{validate_transition_iff}

-- The arrows of the diagram, in its order.
pub data Documented : TaskStatus → TaskStatus → Type 0 where
  created_queued : Documented created queued
  queued_provisioning : Documented queued TaskStatus.provisioning
  provisioning_running : Documented TaskStatus.provisioning running
  running_completed : Documented running completed
  running_failed : Documented running failed
  provisioning_failed : Documented TaskStatus.provisioning failed
  explicit_retry : Documented failed queued
  running_waiting : Documented running waiting_for_user
  waiting_running : Documented waiting_for_user running
  created_cancelling : Documented created cancelling
  queued_cancelling : Documented queued cancelling
  provisioning_cancelling : Documented TaskStatus.provisioning cancelling
  running_cancelling : Documented running cancelling
  waiting_cancelling : Documented waiting_for_user cancelling
  cancelling_cancelled : Documented cancelling cancelled

-- What the table allows and the diagram has not got.
pub data Undocumented : TaskStatus → TaskStatus → Type 0 where
  withdraw : Undocumented created cancelled
  queued_failed : Undocumented queued failed
  waiting_failed : Undocumented waiting_for_user failed
  cancelling_failed : Undocumented cancelling failed

ruleset arrows = (
  created_queued, queued_provisioning, provisioning_running, running_completed, running_failed,
  provisioning_failed, explicit_retry, running_waiting, waiting_running, created_cancelling,
  queued_cancelling, provisioning_cancelling, running_cancelling, waiting_cancelling,
  cancelling_cancelled, withdraw, queued_failed, waiting_failed, cancelling_failed,
)

accepted :
    (s t : TaskStatus)
    → validate_transition s t ≡ ok tt
    → (t ≡ s) ⊎ Documented s t ⊎ Undocumented s t
unfolding validate_transition
accepted s t h = grind (arith, arrows)

not_missing :
    (s t : TaskStatus) → validate_transition s t ≡ ok tt → ¬ ((s ≡ created) × (t ≡ cancelling))
unfolding validate_transition
not_missing s t h (e, e') = grind arith

Documented-ok :
    {s t : TaskStatus}
    → Documented s t
    → ¬ ((s ≡ created) × (t ≡ cancelling))
    → validate_transition s t ≡ ok tt
unfolding validate_transition
Documented-ok created_cancelling n = absurd (n (refl, refl))
Documented-ok created_queued n = refl
Documented-ok queued_provisioning n = refl
Documented-ok provisioning_running n = refl
Documented-ok running_completed n = refl
Documented-ok running_failed n = refl
Documented-ok provisioning_failed n = refl
Documented-ok explicit_retry n = refl
Documented-ok running_waiting n = refl
Documented-ok waiting_running n = refl
Documented-ok queued_cancelling n = refl
Documented-ok provisioning_cancelling n = refl
Documented-ok running_cancelling n = refl
Documented-ok waiting_cancelling n = refl
Documented-ok cancelling_cancelled n = refl

Undocumented-ok : {s t : TaskStatus} → Undocumented s t → validate_transition s t ≡ ok tt
unfolding validate_transition
Undocumented-ok withdraw = refl
Undocumented-ok queued_failed = refl
Undocumented-ok waiting_failed = refl
Undocumented-ok cancelling_failed = refl

-- A transition is accepted exactly when the target is the current status, or it is an arrow of the
-- documented diagram other than the one from `created` to `cancelling`, or one of four that the
-- diagram has not got: from `created` to `cancelled`, and from `queued`, `waiting_for_user` and
-- `cancelling` to `failed`.
pub validate_transition-Documented :
    (s t : TaskStatus)
    → (validate_transition s t ≡ ok tt)
      ↔ ((t ≡ s) ⊎ ((Documented s t × ¬ ((s ≡ created) × (t ≡ cancelling))) ⊎ Undocumented s t))
validate_transition-Documented s t = (only_if, back)
  where
    only_if :
        validate_transition s t ≡ ok tt
        → (t ≡ s) ⊎ ((Documented s t × ¬ ((s ≡ created) × (t ≡ cancelling))) ⊎ Undocumented s t)
    only_if h = elim (accepted s t h) [
      | inl e ↦ inl e
      | inr (inl d) ↦ inr (inl (d, not_missing s t h))
      | inr (inr u) ↦ inr (inr u)
    ]

    back :
        (t ≡ s) ⊎ ((Documented s t × ¬ ((s ≡ created) × (t ≡ cancelling))) ⊎ Undocumented s t)
        → validate_transition s t ≡ ok tt
    back (inl e) = (validate_transition_iff s t).1 (inl e)
    back (inr (inl (d, n))) = Documented-ok d n
    back (inr (inr u)) = Undocumented-ok u
