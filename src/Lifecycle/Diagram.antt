-- ===== src/Lifecycle/Diagram.antt =====
-- The lifecycle as a graph, written apart from the table of state_machine.py.
use software_engineering_age.Prelude.{◌≡◌, refl, ◌≢◌, ◌⊎◌, inl, inr, ◌↔◌, arith}
use software_engineering_age.Domain.{
  TaskStatus, created, queued, running, waiting_for_user, cancelling, cancelled, failed, completed,
}
use software_engineering_age.Effects.{ok}
use software_engineering_age.Lifecycle.{validate_transition}

-- A task that a worker or a user may still act on.
pub data IsActive : TaskStatus → Type 0 where
  queued_active : IsActive queued
  provisioning_active : IsActive TaskStatus.provisioning
  running_active : IsActive running
  waiting_active : IsActive waiting_for_user

infix 40 ◌⟶◌ ◌⟶*◌
pub data ◌⟶◌ : TaskStatus → TaskStatus → Type 0 where
  submit : created ⟶ queued
  withdraw : created ⟶ cancelled
  pick : queued ⟶ TaskStatus.provisioning
  start : TaskStatus.provisioning ⟶ running
  ask : running ⟶ waiting_for_user
  answer : waiting_for_user ⟶ running
  finish : running ⟶ completed
  cancel : {s : TaskStatus} → IsActive s → s ⟶ cancelling
  fail : {s : TaskStatus} → IsActive s → s ⟶ failed
  stop : cancelling ⟶ cancelled
  break : cancelling ⟶ failed
  retry : failed ⟶ queued

pub data ◌⟶*◌ : TaskStatus → TaskStatus → Type 0 where
  here : {s : TaskStatus} → s ⟶* s
  onward : {s t u : TaskStatus} → s ⟶ t → t ⟶* u → s ⟶* u

pub ruleset edges =
    (submit, withdraw, pick, start, ask, answer, finish, cancel, fail, stop, break, retry)

pub ruleset active = (queued_active, provisioning_active, running_active, waiting_active)

validate→edge : (s t : TaskStatus) → validate_transition s t ≡ ok tt → (t ≡ s) ⊎ (s ⟶ t)
unfolding validate_transition
validate→edge s t h = grind (arith, edges, active)

active→validate :
    {s : TaskStatus}
    → IsActive s
    → (validate_transition s cancelling ≡ ok tt) × (validate_transition s failed ≡ ok tt)
unfolding validate_transition
active→validate queued_active = (refl, refl)
active→validate provisioning_active = (refl, refl)
active→validate running_active = (refl, refl)
active→validate waiting_active = (refl, refl)

edge→validate : {s t : TaskStatus} → s ⟶ t → validate_transition s t ≡ ok tt
unfolding validate_transition
edge→validate submit = refl
edge→validate withdraw = refl
edge→validate pick = refl
edge→validate start = refl
edge→validate ask = refl
edge→validate answer = refl
edge→validate finish = refl
edge→validate (cancel a) = (active→validate a).0
edge→validate (fail a) = (active→validate a).1
edge→validate stop = refl
edge→validate break = refl
edge→validate retry = refl

same→validate : (s : TaskStatus) → validate_transition s s ≡ ok tt
unfolding validate_transition
same→validate created = refl
same→validate _ = refl

-- A transition is accepted exactly when the target is the current status or an edge of the
-- lifecycle graph leads to it.
pub validate_transition_iff :
    (s t : TaskStatus) → (validate_transition s t ≡ ok tt) ↔ ((t ≡ s) ⊎ (s ⟶ t))
validate_transition_iff s t = (validate→edge s t, back)
  where
    back : (t ≡ s) ⊎ (s ⟶ t) → validate_transition s t ≡ ok tt
    back (inl e) = rw e (same→validate s)
    back (inr d) = edge→validate d

-- From every status but `completed` a path leads to `cancelled`.
pub ⟶*-cancelled : (s : TaskStatus) → s ≢ completed → s ⟶* cancelled
⟶*-cancelled completed h = absurd (h refl)
⟶*-cancelled cancelled _ = here
⟶*-cancelled failed _ = search (here, onward, edges, active)
⟶*-cancelled _ _ = search (here, onward, edges, active)

-- A path that starts at `completed` or `cancelled` ends there.
pub final_absorbs : {s t : TaskStatus} → s ⟶* t → (s ≡ completed) ⊎ (s ≡ cancelled) → t ≡ s
final_absorbs here f = refl
final_absorbs (onward e r) f = absurd (stuck e f)
  where
    stuck : {s t : TaskStatus} → s ⟶ t → (s ≡ completed) ⊎ (s ≡ cancelled) → ⊥
    stuck submit f = grind arith
    stuck withdraw f = grind arith
    stuck pick f = grind arith
    stuck start f = grind arith
    stuck ask f = grind arith
    stuck answer f = grind arith
    stuck finish f = grind arith
    stuck (cancel queued_active) f = grind arith
    stuck (cancel provisioning_active) f = grind arith
    stuck (cancel running_active) f = grind arith
    stuck (cancel waiting_active) f = grind arith
    stuck (fail queued_active) f = grind arith
    stuck (fail provisioning_active) f = grind arith
    stuck (fail running_active) f = grind arith
    stuck (fail waiting_active) f = grind arith
    stuck stop f = grind arith
    stuck break f = grind arith
    stuck retry f = grind arith
