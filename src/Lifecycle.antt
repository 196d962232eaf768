-- ===== src/Lifecycle.antt =====
-- src/minion/state_machine.py: the transitions that a task's status may make.
pub mod Diagram
pub mod Documented
pub mod Traces
use software_engineering_age.Prelude.{Bool, true, false, List, [], ◌∷◌, ◌<>◌, String, if◌then◌else◌}
use software_engineering_age.Domain.{
  TaskStatus, TaskStatus-discrete, created, queued, provisioning, running, waiting_for_user,
  cancelling, cancelled, failed, completed, same_status, status_in, status_value,
}
use software_engineering_age.Effects.{Result, ok, err, invalid_state_transition}

-- `_ALLOWED`
abbrev pub allowed : TaskStatus → List TaskStatus
allowed created = queued ∷ cancelled ∷ []
allowed queued = TaskStatus.provisioning ∷ cancelling ∷ failed ∷ []
allowed TaskStatus.provisioning = running ∷ cancelling ∷ failed ∷ []
allowed running = waiting_for_user ∷ cancelling ∷ completed ∷ failed ∷ []
allowed waiting_for_user = running ∷ cancelling ∷ failed ∷ []
allowed cancelling = cancelled ∷ failed ∷ []
allowed cancelled = []
allowed failed = queued ∷ []
allowed completed = []

unfoldable pub validate_transition : TaskStatus → TaskStatus → Result (Unit {0})
unfolding TaskStatus-discrete
validate_transition current target =
    if same_status target current
    then ok tt
    else if status_in target (allowed current)
    then ok tt
    else err (
        invalid_state_transition
          ("cannot transition task from " <> status_value current <> " to " <> status_value target))
