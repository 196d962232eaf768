-- ===== src/Orchestrator/Safety.antt =====
-- Every operation of the orchestrator, and every sequence of them, under `Evolves`.
use software_engineering_age.Prelude.{String, ◌≡◌, refl, ◌⊎◌, Option, none, some, List, [], ◌∷◌}
use software_engineering_age.Domain.{completed, cancelled, TaskCreate}
use software_engineering_age.Effects.{Result, ok, err, cancelled_error}
use software_engineering_age.Effects.Rules.{Respects}
use software_engineering_age.Lifecycle.Diagram.{final_absorbs}
use software_engineering_age.Table.{find, IsKeyed}
use software_engineering_age.Models.{TaskRow, WorkItem, World}
use software_engineering_age.Repositories.Tasks.{task_key}
use software_engineering_age.Queue
use software_engineering_age.Queue.{taken}
use software_engineering_age.Orchestrator.{
  Settings, submit, send_instruction, retry, cancel, reconcile,
}
use software_engineering_age.Orchestrator.Execute.{Services, execute}
use software_engineering_age.Orchestrator.Worker.{
  run_item, worker_round, acknowledge, process, start_running, stop_running,
}
use software_engineering_age.Orchestrator.Evolution.{Evolves, Evolves_order, Evolves_same}
use software_engineering_age.Orchestrator.Evolution.Operations.{evolves_rules}
use software_engineering_age.Orchestrator.Evolution.Parts.{IsTame}
use software_engineering_age.Orchestrator.Evolution.Calls.{
  submit-Evolves, send_instruction-Evolves, retry-Evolves, cancel-Evolves, reconcile-Evolves,
}
use software_engineering_age.Orchestrator.Evolution.Execution.{execute-Evolves}

ack-Evolves : (item : WorkItem) → Respects Evolves (Queue.ack item)
unfolding Queue.ack
ack-Evolves item = search evolves_rules

acknowledge-Evolves :
    (item : WorkItem) (r : Result (Unit {0})) → Respects Evolves (acknowledge item r)
acknowledge-Evolves item (ok u) = ack-Evolves item
acknowledge-Evolves item (err cancelled_error) = search (evolves_rules, ack-Evolves) depth 8
acknowledge-Evolves item (err _) = search evolves_rules

queue_get-Evolves : Respects Evolves Queue.get
unfolding Queue.get
queue_get-Evolves = record { at = λ w. at_queue w.queue w }
  where
    at_queue : (items : List WorkItem) (w : World) → Evolves w (taken items w).1
    at_queue [] w = Evolves_order.reflexive w
    at_queue (item ∷ rest) w = Evolves_same w _ refl

module _ (services : Services) (tame : IsTame services) where
  run_item-Evolves : (item : WorkItem) → Respects Evolves (run_item services item)
  unfolding run_item
  run_item-Evolves item = record {
    at = λ w.
        let (outcome, w₁) = execute services item.task_id (start_running item.task_id w) in
        let (r, w₂) = acknowledge item outcome w₁ in
        Evolves_order.transitive w w₁ _
          (Evolves_order.transitive w (start_running item.task_id w) w₁
            (Evolves_same w (start_running item.task_id w) refl)
            ((execute-Evolves services tame item.task_id).at (start_running item.task_id w)))
          (Evolves_order.transitive w₁ w₂ _ ((acknowledge-Evolves item outcome).at w₁)
            (Evolves_same w₂ (stop_running item.task_id w₂) refl));
  }

  process-Evolves : (found : Option WorkItem) → Respects Evolves (process services found)
  unfolding process
  process-Evolves none = search evolves_rules
  process-Evolves (some item) = search (evolves_rules, run_item-Evolves, ack-Evolves) depth 8

  worker_round-Evolves : Respects Evolves (worker_round services)
  unfolding worker_round
  worker_round-Evolves = search (evolves_rules, queue_get-Evolves, process-Evolves)

-- What an API call, the start-up or a worker may do next.
pub data Request : Type 0 where
  submission : TaskCreate → Request
  instruction : String → String → Request
  retrying : String → Request
  cancelling : String → Request
  reconciling : Request
  working : Request

unfoldable pub perform : Settings → Services → Request → World → World
perform settings services (submission request) w = (submit settings request w).1
perform settings services (instruction id message) w = (send_instruction id message w).1
perform settings services (retrying id) w = (retry id w).1
perform settings services (cancelling id) w = (cancel id w).1
perform settings services reconciling w = (reconcile w).1
perform settings services working w = (worker_round services w).1

unfoldable pub serve : Settings → Services → List Request → World → World
serve settings services [] w = w
serve settings services (r ∷ rest) w = serve settings services rest (perform settings services r w)

module _ (settings : Settings) (services : Services) (tame : IsTame services) where
  perform-Evolves : (r : Request) (w : World) → Evolves w (perform settings services r w)
  unfolding perform
  perform-Evolves (submission request) w = (submit-Evolves settings request).at w
  perform-Evolves (instruction id message) w = (send_instruction-Evolves id message).at w
  perform-Evolves (retrying id) w = (retry-Evolves id).at w
  perform-Evolves (cancelling id) w = (cancel-Evolves id).at w
  perform-Evolves reconciling w = reconcile-Evolves.at w
  perform-Evolves working w = (worker_round-Evolves services tame).at w

  -- With services that change tasks in these ways only: whatever requests are served, in whatever
  -- order and however they end, a table with one row to an id stays one and no task is lost, and
  -- each task's status has moved along the lifecycle only, its version has not fallen, and it has
  -- the instruction and the session that it had.
  pub serve-Evolves :
      (requests : List Request) (w : World) → Evolves w (serve settings services requests w)
  unfolding serve
  serve-Evolves [] w = Evolves_order.reflexive w
  serve-Evolves (r ∷ rest) w =
      Evolves_order.transitive w (perform settings services r w) _ (perform-Evolves r w)
        (serve-Evolves rest (perform settings services r w))

  -- With services that change tasks along the lifecycle only, on a table with one row to an id: a task that is completed or cancelled
  -- keeps that status, whatever requests are served.
  pub final_status_stays :
      (requests : List Request) (w : World) (id : String) (row : TaskRow)
      → IsKeyed task_key w.tasks
      → find task_key id w.tasks ≡ some row
      → (row.status ≡ completed) ⊎ (row.status ≡ cancelled)
      → (row' : TaskRow) × (find task_key id (serve settings services requests w).tasks ≡ some row')
        × (row'.status ≡ row.status)
  final_status_stays requests w id row keyed found final =
      let (row', found', step) = (serve-Evolves requests w).progress keyed id row found in
      (row', found', final_absorbs step.status final)
