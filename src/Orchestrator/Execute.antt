-- ===== src/Orchestrator/Execute.antt =====
-- `Orchestrator._execute`: one execution of a task, from the first read of its row to the release
-- of its workspace. The sandbox provider, the indexer, the agent and the publisher are actions that
-- the caller hands in. The heartbeat task writes only the lease, beside the execution.
use software_engineering_age.Prelude.{
  ℕ, suc, ◌-◌, String, Bool, false, ◌&&◌, not, Option, none, some, List, [], ◌∷◌, get_or, is_some,
  ◌==◌, if◌then◌else◌,
}
use software_engineering_age.Prelude.Text
use software_engineering_age.Domain.{
  TaskStatus, TaskStatus-discrete, EnvironmentStatus, queued, running, completed, cancelled,
  cancelling, failed, environment_allocated, environment_ready, repository_indexed, task_started,
  task_completed, task_failed, task_cancelled, pr_created, RepositorySpec, TaskView, Payload, str,
  num, arr, null, texts, payload_put, same_status, status_in,
}
use software_engineering_age.Effects.{
  Exn, Result, ok, err, Action, cancelled_error, key_error, runtime_error, str_exn, pure, raise,
  gets, modify, catching, or_else, for_each, ◌>>=◌, ◌>>◌,
}
use software_engineering_age.Models.{World}
use software_engineering_age.Repositories.Tasks
use software_engineering_age.Repositories.Tasks.{Changes, no_changes}
use software_engineering_age.Repositories.Environments
use software_engineering_age.Repositories.Environments.{Lease}
use software_engineering_age.Events
use software_engineering_age.Runtime.Workspace.{Workspace}

-- `IndexedRepository`, as far as the event reports it
pub record Indexed : Type 0 where
  pub head : String
  pub parsed_files : ℕ
  pub reused_files : ℕ

-- `EnvironmentProvider`, `RepositoryContextIndex.ensure_index`, `agent_factory(…).run` and
-- `GitHubPublisher.publish` (the URLs of its pull requests)
pub record Services : Type 0 where
  pub provider_name : String
  pub attach : String → List RepositorySpec → Action World (Option Workspace)
  pub allocate : String → List RepositorySpec → Action World Workspace
  pub release : Workspace → Bool → Action World Unit
  pub ensure_index : String → Action World Indexed
  pub run_agent : Workspace → TaskView → Action World Payload
  pub publish : Workspace → String → String → List RepositorySpec → Action World (List String)

-- The state of one execution: the world and the local variable `workspace`.
pub record Frame : Type 0 where
  pub world : World
  pub workspace : Option Workspace

unfoldable pub on_world : {A : Type 0} → Action World A → Action Frame A
on_world m f = let (r, w) = m f.world in (r, record f { world = w })

unfoldable pub set_workspace : Option Workspace → Action Frame Unit
set_workspace workspace = modify (λ f. record f { workspace = workspace })

-- metrics.py: ENVIRONMENT_ALLOCATIONS.inc(), TASKS_COMPLETED.inc() and TASKS_FAILED.inc()
unfoldable pub count_allocation : Action World Unit
count_allocation =
    modify
      (λ w. record w { metrics = record w.metrics { allocations = suc w.metrics.allocations } })

unfoldable pub count_completed : Action World Unit
count_completed =
    modify (λ w. record w { metrics = record w.metrics { completed = suc w.metrics.completed } })

unfoldable pub count_failed : Action World Unit
count_failed =
    modify (λ w. record w { metrics = record w.metrics { failed = suc w.metrics.failed } })

-- TASKS_RUNNING.inc() and TASKS_RUNNING.dec()
abbrev pub count_started : World → World
count_started w = record w { metrics = record w.metrics { running = suc w.metrics.running } }

unfoldable pub count_stopped : Action World Unit
count_stopped =
    modify (λ w. record w { metrics = record w.metrics { running = w.metrics.running - 1 } })

-- `except Exception` of `index_one`, which a cancellation passes by
unfoldable pub index_degraded : TaskView → String → Exn → Action World Unit
index_degraded task name cancelled_error = raise cancelled_error
index_degraded task name exc = do
  Events.append task.id task.session_id repository_indexed
      (("repository", str name) ∷ ("status", str "degraded") ∷ ("error", str (str_exn exc)) ∷ [])
  pure tt

abbrev container_metadata : Option String → Payload
container_metadata none = ("container_name", null) ∷ []
container_metadata (some name) = ("container_name", str name) ∷ []

abbrev final_statuses : List TaskStatus
final_statuses = completed ∷ cancelled ∷ failed ∷ []

-- the task comes to run in its workspace
unfoldable pub place : TaskView → Workspace → Action World TaskView
unfolding TaskStatus-discrete
place task workspace =
    if same_status task.status TaskStatus.provisioning
    then Tasks.transition task.id running
        (record no_changes { environment_id = some workspace.environment_id })
    else if same_status task.status running
        && not (
            get_or task.environment_id "" == workspace.environment_id
            && is_some task.environment_id)
    then Tasks.replace_environment task.id workspace.environment_id
    else pure task

unfoldable pub pick_up : TaskView → Action World TaskView
unfolding TaskStatus-discrete
pick_up task =
    if same_status task.status queued
    then Tasks.transition task.id TaskStatus.provisioning no_changes
    else pure task

module _ (services : Services) where
  unfoldable pub index_one : TaskView → String × String → Action World Unit
  index_one task (name, path) =
      catching
        (do
          indexed ← services.ensure_index path
          Events.append task.id task.session_id repository_indexed (
              ("repository", str name)
              ∷ ("head", str indexed.head)
              ∷ ("parsed_files", num indexed.parsed_files)
              ∷ ("reused_files", num indexed.reused_files)
              ∷ ("status", str "ready")
              ∷ [])
          pure tt)
        (index_degraded task name)

  -- The repositories are indexed one after another: `gather` interleaves them.
  unfoldable pub preindex_workspace : TaskView → Workspace → Action World Unit
  preindex_workspace task workspace = for_each workspace.repositories (index_one task)

  -- `if task.environment_id: workspace = await attach(…)`
  unfoldable pub attach_to : TaskView → Option String → Action World (Option Workspace)
  attach_to task none = pure none
  attach_to task (some environment_id) =
      if Text.nonempty environment_id
      then services.attach environment_id task.repositories
      else pure none

  -- `if workspace is None: …`
  unfoldable pub allocate_for : TaskView → Action Frame Workspace
  allocate_for task = do
    workspace ← on_world (services.allocate task.id task.repositories)
    set_workspace (some workspace)
    on_world count_allocation
    on_world (
        Events.append task.id task.session_id environment_allocated
          (("environment_id", str workspace.environment_id) ∷ []))
    pure workspace

  unfoldable pub or_allocate : TaskView → Option Workspace → Action Frame Workspace
  or_allocate task none = allocate_for task
  or_allocate task (some workspace) = pure workspace

  unfoldable pub find_workspace : TaskView → Action Frame Workspace
  find_workspace task = do
    attached ← on_world (attach_to task task.environment_id)
    set_workspace attached
    or_allocate task attached

  -- `if task.publish_pr: …`
  unfoldable pub publish_for : TaskView → Workspace → Action World (List String)
  publish_for task workspace = if not task.publish_pr then pure [] else do
    urls ← services.publish workspace task.id task.instruction task.repositories
    Events.append task.id task.session_id pr_created (("urls", arr (texts urls)) ∷ [])
    pure urls

  -- from the lease to the terminal state
  unfoldable pub run_in : TaskView → Workspace → Action World Unit
  run_in task workspace = do
    Environments.upsert (record {
      environment_id = workspace.environment_id;
      task_id = task.id;
      provider = services.provider_name;
      workspace_path = workspace.root;
      status = EnvironmentStatus.busy;
      metadata = container_metadata workspace.container_name;
    })
    Events.append task.id task.session_id environment_ready
        (("environment_id", str workspace.environment_id) ∷ [])
    preindex_workspace task workspace
    Events.append task.id task.session_id task_started []
    outcome ← services.run_agent workspace task
    urls ← publish_for task workspace
    let result = payload_put "pull_requests" (arr (texts urls)) outcome
    Tasks.transition task.id completed (record no_changes { result = some result })
    Environments.mark workspace.environment_id EnvironmentStatus.stopped
    Events.append task.id task.session_id task_completed result
    count_completed

  -- the body of the `try`
  unfoldable pub execute_body : String → Action Frame Unit
  unfolding TaskStatus-discrete
  execute_body task_id = do
    task ← on_world (Tasks.require task_id)
    if status_in task.status final_statuses then pure tt else do
      task ← on_world (pick_up task)
      workspace ← find_workspace task
      task ← on_world (place task workspace)
      on_world (run_in task workspace)

-- `except asyncio.CancelledError`
unfoldable pub on_cancelled : String → Action World Unit
unfolding TaskStatus-discrete
on_cancelled task_id = do
  stopping ← gets (λ w. w.stopping)
  if stopping then raise cancelled_error else do
    task ← Tasks.require task_id
    if not (same_status task.status cancelling) then raise cancelled_error else do
      task ← Tasks.transition task.id cancelled no_changes
      Events.append task.id task.session_id task_cancelled []
      raise cancelled_error

abbrev pub mark_ready : Option Workspace → Action World Unit
mark_ready none = pure tt
mark_ready (some workspace) = Environments.mark workspace.environment_id EnvironmentStatus.ready

-- `except (KeyError, RuntimeError)`: the exceptions of errors.py are neither
abbrev pub persist_failed : Exn → Action World Unit
persist_failed (key_error k) = pure tt
persist_failed (runtime_error m) = pure tt
persist_failed e = raise e

-- `except Exception as exc`
unfoldable pub on_exception : String → Option Workspace → Exn → Action World Unit
unfolding TaskStatus-discrete
on_exception task_id workspace exc =
    catching
      (do
        task ← Tasks.require task_id
        if status_in task.status (failed ∷ cancelled ∷ completed ∷ []) then pure tt else do
          Tasks.transition task.id failed (record no_changes { error = some (str_exn exc) })
          mark_ready workspace
          Events.append task.id task.session_id task_failed (("error", str (str_exn exc)) ∷ [])
          count_failed)
      persist_failed

abbrev pub handle : String → Option Workspace → Exn → Action World Unit
handle task_id workspace cancelled_error = on_cancelled task_id
handle task_id workspace exc = on_exception task_id workspace exc

-- `suppress(Exception)`
abbrev pub suppressed : Exn → Action World Unit
suppressed cancelled_error = raise cancelled_error
suppressed e = pure tt

abbrev pub is_over : Option TaskView → Bool
is_over none = false
is_over (some task) = status_in task.status (completed ∷ cancelled ∷ [])

module _ (services : Services) where
  -- `finally`, but for the gauge
  unfoldable pub release_workspace : String → Option Workspace → Action World Unit
  unfolding TaskStatus-discrete
  release_workspace task_id none = pure tt
  release_workspace task_id (some workspace) = do
    final ← Tasks.get task_id
    catching (services.release workspace (is_over final)) suppressed

  unfoldable pub clean_up : String → Option Workspace → Action World Unit
  clean_up task_id workspace = do release_workspace task_id workspace; count_stopped

  -- What `finally` leaves of the outcome: an exception of its own takes the place of the other.
  abbrev pub settle : Result (Unit {0}) → Result (Unit {0}) → Result (Unit {0})
  settle outcome (ok _) = outcome
  settle outcome (err e) = err e

  unfoldable pub execute : String → Action World Unit
  execute task_id w =
      let frame : Frame = record { world = count_started w; workspace = none } in
      let (body, f) = execute_body services task_id frame in
      let (outcome, w₁) = or_else body (handle task_id f.workspace) f.world in
      let (cleaned, w₂) = clean_up task_id f.workspace w₁ in (settle outcome cleaned, w₂)
