-- ===== src/Orchestrator/Evolution/Calls.antt =====
-- The operations of the API and of the start-up under `Evolves`.
use software_engineering_age.Prelude.{String, refl}
use software_engineering_age.Domain.{TaskCreate, TaskView}
use software_engineering_age.Effects.Rules.{Respects}
use software_engineering_age.Orchestrator.{
  Settings, submit, send_instruction, retry, cancel, reconcile_one, reconcile, count_submitted,
  request_cancel,
}
use software_engineering_age.Orchestrator.Evolution.{Evolves}
use software_engineering_age.Orchestrator.Evolution.Operations.{evolves_rules, Evolves_modify}

count_submitted-Evolves : Respects Evolves count_submitted
unfolding count_submitted
count_submitted-Evolves = Evolves_modify _ (λ w. refl)

request_cancel-Evolves : (id : String) → Respects Evolves (request_cancel id)
unfolding request_cancel
request_cancel-Evolves id = Evolves_modify _ (λ w. refl)

pub submit-Evolves :
    (settings : Settings) (request : TaskCreate) → Respects Evolves (submit settings request)
unfolding submit
submit-Evolves settings request = search (evolves_rules, count_submitted-Evolves) depth 20

pub send_instruction-Evolves :
    (id message : String) → Respects Evolves (send_instruction id message)
unfolding send_instruction
send_instruction-Evolves id message = search evolves_rules depth 12

pub retry-Evolves : (id : String) → Respects Evolves (retry id)
unfolding retry
retry-Evolves id = search evolves_rules depth 12

pub cancel-Evolves : (id : String) → Respects Evolves (cancel id)
unfolding cancel
cancel-Evolves id = search (evolves_rules, request_cancel-Evolves) depth 14

reconcile_one-Evolves : (task : TaskView) → Respects Evolves (reconcile_one task)
unfolding reconcile_one
reconcile_one-Evolves task = search (evolves_rules, cancel-Evolves) depth 10

pub reconcile-Evolves : Respects Evolves reconcile
unfolding reconcile
reconcile-Evolves = search (evolves_rules, reconcile_one-Evolves) depth 10
