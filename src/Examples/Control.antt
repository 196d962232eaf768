-- ===== src/Examples/Control.antt =====
-- The properties of the control plane at concrete inputs.
use software_engineering_age.Prelude.{
  String, ◌==◌, if◌then◌else◌, ◌↔◌, ◌≡◌, refl, inl, ◌⊎◌, false, some, List, [], ◌∷◌, map, contains,
}
use software_engineering_age.Domain.{
  TaskStatus, TaskView, created, queued, running, completed, task_created, task_queued,
}
use software_engineering_age.Effects.{ok, err, invalid_state_transition, authorization_error}
use software_engineering_age.Effects.Rules.{respects_rules}
use software_engineering_age.Lifecycle.{validate_transition}
use software_engineering_age.Lifecycle.Documented.{
  Documented, Undocumented, validate_transition-Documented,
}
use software_engineering_age.Lifecycle.Traces.{follow, Visits, completed-Visits}
use software_engineering_age.Table.{find}
use software_engineering_age.Models.{TaskRow, World, WorkItem}
use software_engineering_age.Security.{authorize_repositories}
use software_engineering_age.Effects.{◌>>=◌}
use software_engineering_age.Repositories.Tasks.{
  task_key, no_changes, transition, claim_transition, commit_transition, Claim, task_values,
}
use software_engineering_age.Repositories.Tasks.Moved.{outcome_of, row_after, transition-moved}
use software_engineering_age.Repositories.Tasks.Race.{one_writer_wins}
use software_engineering_age.Events.Log.{events_of, IsNumbered}
use software_engineering_age.Orchestrator.{cancel}
use software_engineering_age.Orchestrator
use software_engineering_age.Orchestrator.Admission.{IsReady, submit_refused, submit_lem}
use software_engineering_age.Orchestrator.Evolution.{Evolves, Evolves_order}
use software_engineering_age.Orchestrator.Evolution.Parts.{IsTame}
use software_engineering_age.Orchestrator.Safety.{
  Request, working, serve, serve-Evolves, final_status_stays,
}
use software_engineering_age.Orchestrator.Worker.{worker_round, run_item}
use software_engineering_age.Orchestrator.Outcomes.{
  cancel_created, run_item_clears, worker_round_duplicate,
}
use software_engineering_age.Examples.Data.{settings, strict, request, world, task, busy, services}

validate_transition-Documented_example : (validate_transition created queued ≡ ok tt) ↔ (
    (queued ≡ created)
    ⊎ ((Documented created queued × ¬ ((created ≡ created) × (queued ≡ TaskStatus.cancelling)))
        ⊎ Undocumented created queued))
validate_transition-Documented_example = validate_transition-Documented created queued

abbrev whole_life : List TaskStatus
whole_life = completed ∷ queued ∷ TaskStatus.provisioning ∷ running ∷ completed ∷ []

completed-Visits_example :
    Visits queued whole_life × Visits TaskStatus.provisioning whole_life × Visits running whole_life
completed-Visits_example = completed-Visits whole_life (unfold follow validate_transition in refl)

transition-moved_example :
    ((transition "task_a" TaskStatus.provisioning no_changes (busy queued)).0
      ≡ outcome_of (some (task queued)) "task_a" TaskStatus.provisioning no_changes 7)
    × ((k : String)
        → find task_key k
            (transition "task_a" TaskStatus.provisioning no_changes (busy queued)).1.tasks
          ≡ (if "task_a" == k
              then row_after (some (task queued)) TaskStatus.provisioning no_changes 7
              else find task_key k (busy queued).tasks))
    × ((transition "task_a" TaskStatus.provisioning no_changes (busy queued)).1
        ≡ record (busy queued) {
          tasks = (transition "task_a" TaskStatus.provisioning no_changes (busy queued)).1.tasks;
        })
unfolding find
transition-moved_example =
    transition-moved "task_a" TaskStatus.provisioning no_changes (busy queued) (refl, tt)

abbrev to_provision : Claim
to_provision = record {
  expected_version = 3;
  values = task_values (task queued) TaskStatus.provisioning no_changes 7;
}

abbrev to_cancel : Claim
to_cancel = record {
  expected_version = 3;
  values = task_values (task queued) TaskStatus.cancelling no_changes 7;
}

one_writer_wins_example :
    let (r, w') = commit_transition "task_a" to_provision (busy queued) in
    ((v : TaskView) × (r ≡ ok v) × (v.status ≡ TaskStatus.provisioning))
    × (commit_transition "task_a" to_cancel w'
        ≡ (err (invalid_state_transition "task changed concurrently; retry from fresh state"), w'))
unfolding find claim_transition validate_transition ◌>>=◌
one_writer_wins_example =
    one_writer_wins "task_a" TaskStatus.provisioning TaskStatus.cancelling no_changes no_changes
      (busy queued) to_provision to_cancel (refl, tt) refl refl

submit_refused_test : Orchestrator.submit strict request world ≡ (
  err (authorization_error "repository host 'github.com' is not in MINION_ALLOWED_REPO_HOSTS"),
  world,
)
unfolding authorize_repositories
submit_refused_test =
    submit_refused strict request world
      (authorization_error "repository host 'github.com' is not in MINION_ALLOWED_REPO_HOSTS") refl

world-IsReady : IsReady world
unfolding find
world-IsReady = record { keyed = tt; new_task = refl; new_session = refl; no_events = refl }

submit_lem_example :
    let (r, w') = Orchestrator.submit settings request world in
    ((view : TaskView) × (r ≡ ok view) × (view.id ≡ "task_0") × (view.status ≡ queued))
    × ((row : TaskRow) × (find task_key "task_0" w'.tasks ≡ some row)
        × (row.status ≡ queued)
        × (row.instruction ≡ "fix it"))
    × (map (λ e. e.type) (events_of "task_0" w'.events) ≡ task_created ∷ task_queued ∷ [])
    × IsNumbered 0 (events_of "task_0" w'.events)
    × (map (λ i. i.task_id) w'.queue ≡ "task_0" ∷ [])
unfolding authorize_repositories
submit_lem_example = submit_lem settings request world world-IsReady refl

pub services-IsTame : IsTame services
services-IsTame = record {
  attach = λ id specs. search (respects_rules, Evolves_order);
  allocate = λ id specs. search (respects_rules, Evolves_order);
  release = λ ws destroy. search (respects_rules, Evolves_order);
  ensure_index = λ path. search (respects_rules, Evolves_order);
  run_agent = λ ws view. search (respects_rules, Evolves_order);
  publish = λ ws id instruction specs. search (respects_rules, Evolves_order);
}

serve-Evolves_example :
    Evolves
      (busy queued)
      (serve settings services (working ∷ Request.cancelling "task_a" ∷ []) (busy queued))
serve-Evolves_example =
    serve-Evolves settings services services-IsTame (working ∷ Request.cancelling "task_a" ∷ [])
      (busy queued)

final_status_stays_example :
    (row : TaskRow) × (find task_key "task_a"
        (serve settings services (Request.retrying "task_a" ∷ []) (busy completed)).tasks
      ≡ some row)
    × (row.status ≡ completed)
unfolding find
final_status_stays_example =
    final_status_stays settings services services-IsTame (Request.retrying "task_a" ∷ [])
      (busy completed) "task_a" (task completed) (refl, tt) refl (inl refl)

cancel_created_example : cancel "task_a" (busy created) ≡ (
  err (invalid_state_transition "cannot transition task from created to cancelling"),
  busy created,
)
unfolding find
cancel_created_example = cancel_created "task_a" (busy created) (task created) (refl, tt) refl refl

abbrev item : WorkItem
item = record { task_id = "task_a"; receipt = "1" }

abbrev redelivered : World
redelivered = record (busy running) { queue = item ∷ []; running = "task_a" ∷ [] }

run_item_clears_example :
    contains "task_a" (run_item services item (busy completed)).1.running ≡ false
run_item_clears_example = run_item_clears services item (busy completed)

worker_round_duplicate_test :
    worker_round services redelivered ≡ (ok tt, record redelivered { queue = [] })
worker_round_duplicate_test = worker_round_duplicate services item [] redelivered refl refl
