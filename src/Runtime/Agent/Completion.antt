-- ===== src/Runtime/Agent/Completion.antt =====
-- src/minion/runtime/agent.py: the agent returns on evidence only, whatever the model and the tools do.
use software_engineering_age.Prelude.{
  ℕ, zero, suc, String, ◌≡◌, ap, subst, Bool, true, Option, none, some, List, [], ◌∷◌, arith,
  any_of,
}
use software_engineering_age.Domain.{
  TaskView, Payload, AgentEvent, EventType, tool_completed, payload_put, num,
}
use software_engineering_age.Effects.{Action, Result, ok, pure, modify, ◌>>=◌}
use software_engineering_age.Effects.Rules.{IsPreorder, Respects, respects_rules}
use software_engineering_age.Effects.Ensures.{
  Ensures, returned_first, pure_returned, Ensures-then, Ensures-bind, Ensures-pure, Ensures-raise,
  Ensures-if,
}
use software_engineering_age.Models.{World, EventRow, new_id, uuid}
use software_engineering_age.Events.{append, record_event, publish_live}
use software_engineering_age.Runtime.Values.{PythonText}
use software_engineering_age.Runtime.Context.{execute_control_tool}
use software_engineering_age.Runtime.Context.Evidence.{
  Evidence, IsFinished, any_of-append, execute_control_tool-Evidence,
}
use software_engineering_age.Runtime.Agent.{
  CodingAgent, ToolCall, is_control, run_control_call, run_external_call, run_ordered, or_end,
  run_batch, execute_turn_tools, act, run_step, or_finish, run_from, run, completion,
}

-- Whatever an event of the log is like, the log has one like it afterwards.
record Grows (w w' : World) : Type 0 where
  kept : (p : EventRow → Bool) → any_of p w.events ≡ true → any_of p w'.events ≡ true

Grows-IsPreorder : IsPreorder Grows
Grows-IsPreorder = record {
  reflexive = λ w. record { kept = λ p h. h };
  transitive = λ u v w g h. record { kept = λ p e. h.kept p (g.kept p e) };
}

record_event-Grows : (row : EventRow) → Respects Grows (record_event row)
unfolding record_event
record_event-Grows row = record {
  at = λ w. record { kept = λ p h. ground (arith, any_of-append p w.events (row ∷ [])) };
}

new_id-Grows : (kind : String) → Respects Grows (new_id kind)
unfolding new_id uuid ◌>>=◌
new_id-Grows kind = record { at = λ w. record { kept = λ p h. h } }

publish_live-Grows : (event : AgentEvent) → Respects Grows (publish_live event)
unfolding publish_live modify
publish_live-Grows event = record { at = λ w. record { kept = λ p h. h } }

append-Grows :
    (task_id session_id : String) (type : EventType) (payload : Payload)
    → Respects Grows (append task_id session_id type payload)
unfolding append
append-Grows task_id session_id type payload =
    search (respects_rules, Grows-IsPreorder, record_event-Grows, new_id-Grows, publish_live-Grows)
      depth 14

-- Evidence stays through an append.
append-Evidence :
    (python : PythonText) (task : TaskView) (type : EventType) (payload : Payload) (s t : World)
    (e : AgentEvent)
    → Evidence python task.id s
    → append task.id task.session_id type payload s ≡ (ok e, t)
    → Evidence python task.id t
append-Evidence python task type payload s t e seen h =
    let grown : Grows s t =
      subst (Grows s) (ap (λ (r : Result AgentEvent × World). r.1) h)
        ((append-Grows task.id task.session_id type payload).at s) in
    record { command = grown.kept _ seen.command; diff = grown.kept _ seen.diff }

append-IsFinished :
    (python : PythonText) (task : TaskView) (type : EventType) (payload : Payload) (s t : World)
    (e : AgentEvent) (terminal : Option Payload)
    → IsFinished python task.id terminal s
    → append task.id task.session_id type payload s ≡ (ok e, t)
    → IsFinished python task.id terminal t
append-IsFinished python task type payload s t e none seen h = tt
append-IsFinished python task type payload s t e (some p) seen h =
    append-Evidence python task type payload s t e seen h

module _ (agent : CodingAgent) (task : TaskView) where
  run_control_call-IsFinished :
      (call : ToolCall)
      → Ensures (IsFinished agent.context.python task.id) (run_control_call agent task call)
  unfolding run_control_call
  run_control_call-IsFinished call =
      Ensures-then (execute_control_tool agent.context task call.name call.arguments) _
        (execute_control_tool-Evidence agent.context task call.name call.arguments)
        (λ result s t terminal seen h.
          let (e, u, e₀, e₁) =
            returned_first
              (append task.id task.session_id tool_completed (completion call true result.output))
              (λ _. pure result.terminal_payload) s t terminal h in
          let (same, still) = pure_returned u t result.terminal_payload terminal e₁ in
          subst (λ o. IsFinished agent.context.python task.id o t) same
            (subst (IsFinished agent.context.python task.id result.terminal_payload) still (
              append-IsFinished agent.context.python task tool_completed
                (completion call true result.output) s u e result.terminal_payload seen e₀)))

  or_end-IsFinished :
      (m next : Action World (Option Payload))
      → Ensures (IsFinished agent.context.python task.id) m
      → Ensures (IsFinished agent.context.python task.id) next
      → Ensures (IsFinished agent.context.python task.id) (m >>= or_end next)
  or_end-IsFinished m next h k = Ensures-then m (or_end next) h by_terminal
    where
      by_terminal :
          (a : Option Payload) (s t : World) (b : Option Payload)
          → IsFinished agent.context.python task.id a s
          → or_end next a s ≡ (ok b, t)
          → IsFinished agent.context.python task.id b t
      by_terminal none s t b seen e = k.returned s t b e
      by_terminal (some p) s t b seen e =
          let (same, still) = pure_returned s t (some p) b e in
          subst (λ o. IsFinished agent.context.python task.id o t) same
            (subst (Evidence agent.context.python task.id) still seen)

  run_ordered-IsFinished :
      (calls : List ToolCall)
      → Ensures (IsFinished agent.context.python task.id) (run_ordered agent task calls)
  unfolding run_ordered
  run_ordered-IsFinished [] = Ensures-pure none (λ s. tt)
  run_ordered-IsFinished (call ∷ rest) =
      let ih = run_ordered-IsFinished rest in
      Ensures-if (is_control call) _ _
        (or_end-IsFinished (run_control_call agent task call) (run_ordered agent task rest)
          (run_control_call-IsFinished call) ih)
        (Ensures-bind (run_external_call agent task call) (λ _. run_ordered agent task rest)
          (λ _. ih))

  act-IsFinished :
      (step : ℕ) (calls : List ToolCall)
      → Ensures (IsFinished agent.context.python task.id) (act agent task step calls)
  unfolding act execute_turn_tools run_batch
  act-IsFinished step calls =
      search (Ensures-bind, Ensures-if, Ensures-pure, run_ordered-IsFinished) depth 10

  run_step-IsFinished :
      (step : ℕ) → Ensures (IsFinished agent.context.python task.id) (run_step agent task step)
  unfolding run_step
  run_step-IsFinished step = search (Ensures-bind, act-IsFinished) depth 12

  or_finish-Evidence :
      (step : ℕ) (m : Action World (Option Payload)) (next : Action World Payload)
      → Ensures (IsFinished agent.context.python task.id) m
      → Ensures (λ (_ : Payload) w. Evidence agent.context.python task.id w) next
      → Ensures
          (λ (_ : Payload) w. Evidence agent.context.python task.id w)
          (m >>= or_finish step next)
  or_finish-Evidence step m next h k = Ensures-then m (or_finish step next) h by_terminal
    where
      by_terminal :
          (a : Option Payload) (s t : World) (b : Payload)
          → IsFinished agent.context.python task.id a s
          → or_finish step next a s ≡ (ok b, t)
          → Evidence agent.context.python task.id t
      by_terminal none s t b seen e = k.returned s t b e
      by_terminal (some p) s t b seen e =
          subst (Evidence agent.context.python task.id)
            (pure_returned s t (payload_put "steps" (num step) p) b e).1 seen

  run_from-Evidence :
      (step left : ℕ)
      → Ensures
          (λ (_ : Payload) w. Evidence agent.context.python task.id w)
          (run_from agent task step left)
  unfolding run_from
  run_from-Evidence step zero = Ensures-raise _
  run_from-Evidence step (suc left) =
      or_finish-Evidence step (run_step agent task step) (run_from agent task (suc step) left)
        (run_step-IsFinished step) (run_from-Evidence (suc step) left)

  -- When the agent returns, whatever the model and the tools did, the task's log has a successful
  -- call of `run_command` and one of `git_diff`.
  pub run-Evidence :
      (w w' : World) (payload : Payload)
      → run agent task w ≡ (ok payload, w')
      → Evidence agent.context.python task.id w'
  unfolding run
  run-Evidence w w' payload h = (run_from-Evidence 1 agent.max_steps).returned w w' payload h
