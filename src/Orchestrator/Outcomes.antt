-- ===== src/Orchestrator/Outcomes.antt =====
-- What cancellation, failure and a redelivered item lead to.
use software_engineering_age.Prelude.{
  subst, sym, String, ◌≡◌, refl, ◌⊎◌, true, false, not, some, List, [], ◌∷◌, arith, contains,
  eq_iff, ◌==◌, select,
}
use software_engineering_age.Domain.{
  created, cancelling, cancelled, completed, failed, status_value,
}
use software_engineering_age.Effects.{ok, err, invalid_state_transition, ◌>>=◌}
use software_engineering_age.Lifecycle.{validate_transition}
use software_engineering_age.Table.{find, find-key, IsKeyed}
use software_engineering_age.Models.{TaskRow, WorkItem, World}
use software_engineering_age.Repositories.Tasks.{
  task_key, task_view, no_changes, require, transition,
}
use software_engineering_age.Repositories.Tasks.Transition.{transition_lem}
use software_engineering_age.Queue
use software_engineering_age.Orchestrator.{cancel}
use software_engineering_age.Orchestrator.Execute.{Services, execute}
use software_engineering_age.Orchestrator.Worker.{
  run_item, process, worker_round, acknowledge, start_running,
}

pub require_found :
    (id : String) (w : World) (row : TaskRow)
    → find task_key id w.tasks ≡ some row
    → require id w ≡ (ok (task_view row), w)
unfolding require ◌>>=◌
require_found id w row found = ground arith

created_refuses :
    (id : String) (w : World) (row : TaskRow)
    → IsKeyed task_key w.tasks
    → find task_key id w.tasks ≡ some row
    → row.status ≡ created
    → transition id cancelling no_changes w
      ≡ (err (invalid_state_transition "cannot transition task from created to cancelling"), w)
created_refuses id w row keyed found fresh =
    rw (transition_lem id cancelling no_changes w keyed)
      (rw found (unfold validate_transition status_value in rw fresh))

-- On a table with one row to an id, cancelling a task that was created and never queued raises
-- and changes nothing.
pub cancel_created :
    (id : String) (w : World) (row : TaskRow)
    → IsKeyed task_key w.tasks
    → find task_key id w.tasks ≡ some row
    → row.status ≡ created
    → cancel id w
      ≡ (err (invalid_state_transition "cannot transition task from created to cancelling"), w)
unfolding cancel ◌>>=◌
cancel_created id w row keyed found fresh =
    let same : row.id ≡ id = find-key task_key id w.tasks row found in
    rw (require_found id w row found) (
      ground (
        arith,
        subst
            (λ j. transition j cancelling no_changes w ≡ (
              err (invalid_state_transition "cannot transition task from created to cancelling"),
              w,
            ))
            (sym same) (created_refuses id w row keyed found fresh),
      ))

-- Cancelling a task that is over returns it and changes nothing.
pub cancel_final :
    (id : String) (w : World) (row : TaskRow)
    → find task_key id w.tasks ≡ some row
    → (row.status ≡ completed) ⊎ ((row.status ≡ cancelled) ⊎ (row.status ≡ failed))
    → cancel id w ≡ (ok (task_view row), w)
unfolding cancel ◌>>=◌
cancel_final id w row found over = ground (arith, require_found id w row found)

not_in_select :
    (id : String) (ids : List String) → contains id (select (λ t. not (t == id)) ids) ≡ false
not_in_select id [] = refl
not_in_select id (t ∷ ids) = ground (arith, not_in_select id ids, eq_iff id t, eq_iff t id)

-- After an item's execution, however it ended, its task is no longer among the running ones.
pub run_item_clears :
    (services : Services) (item : WorkItem) (w : World)
    → contains item.task_id (run_item services item w).1.running ≡ false
unfolding run_item
run_item_clears services item w =
    let (outcome, w₁) = execute services item.task_id (start_running item.task_id w) in
    let (r, w₂) = acknowledge item outcome w₁ in not_in_select item.task_id w₂.running

-- An item whose task this process is executing is taken and acknowledged without a second
-- execution: only the queue changes.
pub worker_round_duplicate :
    (services : Services) (item : WorkItem) (rest : List WorkItem) (w : World)
    → w.queue ≡ item ∷ rest
    → contains item.task_id w.running ≡ true
    → worker_round services w ≡ (ok tt, record w { queue = rest })
unfolding worker_round process Queue.get Queue.ack ◌>>=◌
worker_round_duplicate services item rest w waiting runs = ground arith
