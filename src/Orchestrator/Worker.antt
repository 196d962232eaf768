-- ===== src/Orchestrator/Worker.antt =====
-- `Orchestrator._worker_loop`, one round: an item is taken, executed unless its task runs already,
-- and acknowledged.
use software_engineering_age.Prelude.{
  String, not, Option, none, some, [], ◌∷◌, ◌++◌, ◌==◌, contains, select, if◌then◌else◌,
}
use software_engineering_age.Effects.{
  Result, ok, err, cancelled_error, Action, pure, raise, gets, ◌>>=◌,
}
use software_engineering_age.Models.{World, WorkItem}
use software_engineering_age.Queue
use software_engineering_age.Orchestrator.Execute.{Services, execute}

abbrev pub start_running : String → World → World
start_running task_id w = record w { running = w.running ++ task_id ∷ [] }

-- `self._running.pop(task_id, None)`
abbrev pub stop_running : String → World → World
stop_running task_id w = record w { running = select (λ t. not (t == task_id)) w.running }

-- what follows `await execution`, by its outcome
abbrev pub acknowledge : WorkItem → Result (Unit {0}) → Action World Unit
acknowledge item (ok _) = Queue.ack item
acknowledge item (err cancelled_error) = do
  stopping ← gets (λ w. w.stopping)
  if stopping then raise cancelled_error else Queue.ack item
acknowledge item (err e) = raise e

module _ (services : Services) where
  unfoldable pub run_item : WorkItem → Action World Unit
  run_item item w =
      let (outcome, w₁) = execute services item.task_id (start_running item.task_id w) in
      let (r, w₂) = acknowledge item outcome w₁ in (r, stop_running item.task_id w₂)

  unfoldable pub process : Option WorkItem → Action World Unit
  process none = pure tt
  process (some item) = do
    runs ← gets (λ w. contains item.task_id w.running)
    if runs then Queue.ack item else run_item item

  unfoldable pub worker_round : Action World Unit
  unfolding run_item
  worker_round = do item ← Queue.get; process item
