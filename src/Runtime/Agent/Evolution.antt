-- ===== src/Runtime/Agent/Evolution.antt =====
-- src/minion/runtime/agent.py: the agent keeps the laws that the orchestrator asks of it, if the
-- model and the tools do.
use software_engineering_age.Prelude.{ℕ, zero, suc, String, Option, none, some, List, [], ◌∷◌}
use software_engineering_age.Domain.{TaskView, Payload}
use software_engineering_age.Effects.{Exn, cancelled_error, Action}
use software_engineering_age.Effects.Rules.{
  Respects, Respects-bind, Respects-pure, Respects-catching, Respects-raise, Respects-if,
}
use software_engineering_age.Models.{World}
use software_engineering_age.Orchestrator.Evolution.{Evolves, Evolves_order}
use software_engineering_age.Orchestrator.Evolution.Operations.{evolves_rules}
use software_engineering_age.Runtime.Context.Window.{Message}
use software_engineering_age.Runtime.Context.Evolution.{
  execute_control_tool-Evolves, maybe_compact-Evolves, build_messages-Evolves,
}
use software_engineering_age.Orchestrator.{Settings}
use software_engineering_age.Orchestrator.Execute.{Services}
use software_engineering_age.Runtime.Workspace.{Workspace}
use software_engineering_age.Orchestrator.Evolution.Parts.{IsTame}
use software_engineering_age.Orchestrator.Safety.{Request, serve, serve-Evolves}
use software_engineering_age.Runtime.Agent.{
  CodingAgent, ToolCall, attempts, unless_cancelled, model_turn, announce_tool,
  record_external_result, run_external_call, run_control_call, run_ordered, or_end, run_batch,
  execute_turn_tools, say, act, run_step, or_finish, run_from, run,
}

unless_cancelled-Evolves :
    {A : Type 0} (next : Action World A) (e : Exn)
    → Respects Evolves next
    → Respects Evolves (unless_cancelled next e)
unless_cancelled-Evolves next cancelled_error h = Respects-raise Evolves_order _
unless_cancelled-Evolves next _ h = h

attempts-Evolves :
    {A : Type 0} (n : ℕ) (m : Action World A) → Respects Evolves m → Respects Evolves (attempts n m)
unfolding attempts
attempts-Evolves zero m h = h
attempts-Evolves (suc n) m h =
    Respects-catching Evolves_order m _ h
      (λ e. unless_cancelled-Evolves (attempts n m) e (attempts-Evolves n m h))

-- What the model and the tools may do to the tasks: what the control plane does.
pub record IsTameAgent (agent : CodingAgent) : Type 0 where
  pub complete : (messages : List Message) → Respects Evolves (agent.complete messages)
  pub execute :
      (name : String) (arguments : Payload) → Respects Evolves (agent.execute name arguments)

module _ (agent : CodingAgent) (tame : IsTameAgent agent) (task : TaskView) where
  complete-Evolves : (messages : List Message) → Respects Evolves (agent.complete messages)
  complete-Evolves = tame.complete

  execute-Evolves :
      (name : String) (arguments : Payload) → Respects Evolves (agent.execute name arguments)
  execute-Evolves = tame.execute

  model_turn-Evolves : (messages : List Message) → Respects Evolves (model_turn agent messages)
  unfolding model_turn
  model_turn-Evolves messages =
      attempts-Evolves 2 (agent.complete messages) (tame.complete messages)

  announce_tool-Evolves : (call : ToolCall) → Respects Evolves (announce_tool task call)
  unfolding announce_tool
  announce_tool-Evolves call = search evolves_rules depth 6

  run_external_call-Evolves :
      (call : ToolCall) → Respects Evolves (run_external_call agent task call)
  unfolding run_external_call record_external_result
  run_external_call-Evolves call = search (evolves_rules, execute-Evolves) depth 12

  run_control_call-Evolves : (call : ToolCall) → Respects Evolves (run_control_call agent task call)
  unfolding run_control_call
  run_control_call-Evolves call = search (evolves_rules, execute_control_tool-Evolves) depth 8

  or_end-Evolves :
      (next : Action World (Option Payload)) (o : Option Payload)
      → Respects Evolves next
      → Respects Evolves (or_end next o)
  or_end-Evolves next none h = h
  or_end-Evolves next (some p) h = Respects-pure Evolves_order _

  run_ordered-Evolves : (calls : List ToolCall) → Respects Evolves (run_ordered agent task calls)
  unfolding run_ordered
  run_ordered-Evolves [] = Respects-pure Evolves_order none
  run_ordered-Evolves (call ∷ rest) =
      let ih = run_ordered-Evolves rest in
      Respects-if Evolves_order _ _ _
        (Respects-bind Evolves_order _ _ (run_control_call-Evolves call)
          (λ o. or_end-Evolves (run_ordered agent task rest) o ih))
        (Respects-bind Evolves_order _ _ (run_external_call-Evolves call) (λ _. ih))

  say-Evolves : (step : ℕ) (content : String) → Respects Evolves (say task step content)
  unfolding say
  say-Evolves step content = search evolves_rules depth 6

  act-Evolves : (step : ℕ) (calls : List ToolCall) → Respects Evolves (act agent task step calls)
  unfolding act execute_turn_tools run_batch
  act-Evolves step calls =
      search
        (
          evolves_rules, say-Evolves, announce_tool-Evolves, run_external_call-Evolves,
          run_ordered-Evolves,
        )
        depth 14

  run_step-Evolves : (step : ℕ) → Respects Evolves (run_step agent task step)
  unfolding run_step
  run_step-Evolves step =
      search
        (
          evolves_rules, maybe_compact-Evolves, build_messages-Evolves, model_turn-Evolves,
          say-Evolves, act-Evolves,
        )
        depth 16

  or_finish-Evolves :
      (step : ℕ) (next : Action World Payload) (o : Option Payload)
      → Respects Evolves next
      → Respects Evolves (or_finish step next o)
  or_finish-Evolves step next none h = h
  or_finish-Evolves step next (some p) h = Respects-pure Evolves_order _

  run_from-Evolves : (step left : ℕ) → Respects Evolves (run_from agent task step left)
  unfolding run_from
  run_from-Evolves step zero = Respects-raise Evolves_order _
  run_from-Evolves step (suc left) =
      let ih = run_from-Evolves (suc step) left in
      Respects-bind Evolves_order _ _ (run_step-Evolves step)
        (λ o. or_finish-Evolves step (run_from agent task (suc step) left) o ih)

  run-Evolves : Respects Evolves (run agent task)
  unfolding run
  run-Evolves = run_from-Evolves 1 agent.max_steps

-- The services with an agent for each workspace, as `agent_factory` makes one.
abbrev pub with_agents : (Workspace → CodingAgent) → Services → Services
with_agents agents services = record services {
  run_agent = λ workspace task. run (agents workspace) task;
}

IsTame-with_agents :
    (agents : Workspace → CodingAgent) (services : Services)
    → ((workspace : Workspace) → IsTameAgent (agents workspace))
    → IsTame services
    → IsTame (with_agents agents services)
IsTame-with_agents agents services h tame = record {
  attach = tame.attach;
  allocate = tame.allocate;
  release = tame.release;
  ensure_index = tame.ensure_index;
  run_agent = λ workspace task. run-Evolves (agents workspace) (h workspace) task;
  publish = tame.publish;
}

-- With agents whose model and tools change tasks as the control plane does only, and other services
-- that do so too: whatever requests are served, with the agents' runs in between, a table with one
-- row to an id stays one and no task is lost, and each task's status has moved along the lifecycle
-- only, its version has not fallen, and it has the instruction and the session that it had.
pub agents-Evolves :
    (settings : Settings) (services : Services) (agents : Workspace → CodingAgent)
    → IsTame services
    → ((workspace : Workspace) → IsTameAgent (agents workspace))
    → (requests : List Request) (w : World)
    → Evolves w (serve settings (with_agents agents services) requests w)
agents-Evolves settings services agents tame h requests w =
    serve-Evolves settings (with_agents agents services) (IsTame-with_agents agents services h tame)
      requests w
