-- ===== src/Lifecycle/Traces.antt =====
-- What a task goes through, whatever transitions are asked for: a refused one leaves it alone.
use software_engineering_age.Prelude.{
  Bool, true, false, inl, inr, ◌≡◌, refl, ◌⊎◌, List, [], ◌∷◌, arith,
}
use software_engineering_age.Domain.{
  TaskStatus, created, queued, running, waiting_for_user, cancelled, completed,
}
use software_engineering_age.Effects.{Result, ok, err}
use software_engineering_age.Lifecycle.{validate_transition}

abbrev accept : Result (Unit {0}) → TaskStatus → TaskStatus → TaskStatus
accept (ok u) current target = target
accept (err e) current target = current

unfoldable pub follow : TaskStatus → List TaskStatus → TaskStatus
follow current [] = current
follow current (target ∷ rest) =
    follow (accept (validate_transition current target) current target) rest

-- `a` occurs among the targets.
pub data Visits (a : TaskStatus) : List TaskStatus → Type 0 where
  now : {t : TaskStatus} {rest : List TaskStatus} → t ≡ a → Visits a (t ∷ rest)
  later : {t : TaskStatus} {rest : List TaskStatus} → Visits a rest → Visits a (t ∷ rest)

module _ (past : TaskStatus → Bool) (gate : TaskStatus) (past_completed : past completed ≡ true)
    (step : (s t : TaskStatus)
      → past s ≡ false
      → (t ≡ gate) ⊎ (past (accept (validate_transition s t) s t) ≡ false)) where
  follow-Visits :
      (s : TaskStatus) (ts : List TaskStatus)
      → past s ≡ false
      → follow s ts ≡ completed
      → Visits gate ts
  unfolding follow
  follow-Visits s [] p h = cc
  follow-Visits s (t ∷ ts) p h = elim (step s t p) [
    | inl e ↦ now e
    | inr q ↦ later (follow-Visits (accept (validate_transition s t) s t) ts q h)
  ]

abbrev past_queued : TaskStatus → Bool
past_queued created = false
past_queued cancelled = false
past_queued _ = true

abbrev past_provisioning : TaskStatus → Bool
past_provisioning TaskStatus.provisioning = true
past_provisioning running = true
past_provisioning waiting_for_user = true
past_provisioning completed = true
past_provisioning _ = false

abbrev past_running : TaskStatus → Bool
past_running running = true
past_running waiting_for_user = true
past_running completed = true
past_running _ = false

queued_gate :
    (s t : TaskStatus)
    → past_queued s ≡ false
    → (t ≡ queued) ⊎ (past_queued (accept (validate_transition s t) s t) ≡ false)
unfolding validate_transition
queued_gate s t h = ground arith

provisioning_gate :
    (s t : TaskStatus)
    → past_provisioning s ≡ false
    → (t ≡ TaskStatus.provisioning)
      ⊎ (past_provisioning (accept (validate_transition s t) s t) ≡ false)
unfolding validate_transition
provisioning_gate s t h = ground arith

running_gate :
    (s t : TaskStatus)
    → past_running s ≡ false
    → (t ≡ running) ⊎ (past_running (accept (validate_transition s t) s t) ≡ false)
unfolding validate_transition
running_gate s t h = ground arith

-- However transitions are asked for, in whatever order, a new task that is completed at the end
-- was asked to be queued, provisioned and run.
pub completed-Visits :
    (ts : List TaskStatus)
    → follow created ts ≡ completed
    → Visits queued ts × Visits TaskStatus.provisioning ts × Visits running ts
completed-Visits ts h = (
  follow-Visits past_queued queued refl queued_gate created ts refl h,
  follow-Visits past_provisioning TaskStatus.provisioning refl provisioning_gate created ts refl h,
  follow-Visits past_running running refl running_gate created ts refl h,
)
