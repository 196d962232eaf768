-- ===== src/Orchestrator.antt =====
-- src/minion/orchestrator.py: submission, instructions, retry, cancellation and start-up
-- reconciliation. `Orchestrator.Execute` has one execution of a task, `Orchestrator.Worker` the
-- loop that takes items from the queue.
pub mod Execute
pub mod Worker
pub mod Admission
pub mod Evolution
pub mod Safety
pub mod Outcomes
use software_engineering_age.Prelude.{
  String, Bool, true, false, ◌||◌, not, Option, none, some, List, [], ◌∷◌, map, suc, contains,
  get_or, ◌++◌, if◌then◌else◌,
}
use software_engineering_age.Domain.{
  TaskStatus, TaskStatus-discrete, queued, failed, cancelling, cancelled, completed, task_created,
  task_queued, task_cancelled, user_message, RepositorySpec, TaskCreate, TaskView, Payload, str,
  arr, obj, bool, Value, Items, Fields, cons, nil, field, end, null, same_status, status_in,
}
use software_engineering_age.Effects.{
  Action, Result, pure, raise, lift, gets, modify, for_each, ◌>>=◌, ◌>>◌,
}
use software_engineering_age.Models.{World, Metrics}
use software_engineering_age.Repositories.Tasks
use software_engineering_age.Repositories.Tasks.{no_changes}
use software_engineering_age.Repositories.Sessions
use software_engineering_age.Events
use software_engineering_age.Queue
use software_engineering_age.Security.{UrlLibrary, authorize_repositories}

-- What the orchestrator reads of the settings.
pub record Settings : Type 0 where
  pub urls : UrlLibrary
  pub repo_hosts : List String
  pub provider_name : String  -- `type(self.environments).__name__`

abbrev pub named : Option String → Value
named none = null
named (some s) = str s

-- `r.model_dump()`
abbrev pub dump : RepositorySpec → Value
dump r = obj (
    field "url" (str r.url)
      (field "base_branch" (str r.base_branch) (field "name" (named r.name) end)))

abbrev pub dump_all : List RepositorySpec → Items
dump_all [] = nil
dump_all (r ∷ rest) = cons (dump r) (dump_all rest)

abbrev pub submission_payload : TaskView → Payload
submission_payload task =
    ("instruction", str task.instruction) ∷ ("repositories", arr (dump_all task.repositories)) ∷ []

-- TASKS_SUBMITTED.inc()
unfoldable pub count_submitted : Action World Unit
count_submitted =
    modify (λ w. record w { metrics = record w.metrics { submitted = suc w.metrics.submitted } })

unfoldable pub submit : Settings → TaskCreate → Action World TaskView
submit settings request = do
  lift (authorize_repositories settings.urls settings.repo_hosts request.repositories)
  task ← Tasks.create request
  Events.append task.id task.session_id task_created (submission_payload task)
  task ← Tasks.transition task.id queued no_changes
  Events.append task.id task.session_id task_queued []
  Queue.put task.id
  count_submitted
  pure task

-- `append_instruction` keeps 20 by default
unfoldable pub send_instruction : String → String → Action World Unit
send_instruction task_id message = do
  task ← Tasks.require task_id
  Sessions.append_instruction task.session_id message 20
  Events.append task.id task.session_id user_message (("message", str message) ∷ [])
  pure tt

unfoldable pub retry : String → Action World TaskView
unfolding TaskStatus-discrete
retry task_id = do
  task ← Tasks.require task_id
  if not (same_status task.status failed) then pure task else do
    task ← Tasks.transition task.id queued no_changes
    Events.append task.id task.session_id task_queued (("retry", bool true) ∷ [])
    Queue.put task.id
    pure task

abbrev pub final_statuses : List TaskStatus
final_statuses = cancelled ∷ completed ∷ failed ∷ []

-- `running.cancel()`: a request that the execution meets at its next await
unfoldable pub request_cancel : String → Action World Unit
request_cancel task_id =
    modify (λ w. record w { cancel_requested = w.cancel_requested ++ task_id ∷ [] })

unfoldable pub cancel : String → Action World TaskView
unfolding TaskStatus-discrete
cancel task_id = do
  task ← Tasks.require task_id
  if status_in task.status final_statuses then pure task else do
    task ← Tasks.transition task.id cancelling no_changes
    running ← gets (λ w. contains task_id w.running)
    if running then (do request_cancel task_id; pure task) else do
      task ← Tasks.transition task.id cancelled no_changes
      Events.append task.id task.session_id task_cancelled []
      pure task

unfoldable pub reconcile_one : TaskView → Action World Unit
unfolding TaskStatus-discrete
reconcile_one task =
    if same_status task.status cancelling then (do cancel task.id; pure tt) else Queue.put task.id

unfoldable pub reconcile : Action World Unit
reconcile = do active ← Tasks.list_active; for_each active reconcile_one
