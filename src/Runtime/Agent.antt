-- ===== src/Runtime/Agent.antt =====
-- src/minion/runtime/agent.py: `CodingAgent`, the loop of model turns and tool calls. The model and
-- the tools are parameters, and so is the order in which the event loop ends the calls of a
-- parallel batch.
pub mod Completion
pub mod Evolution
use software_engineering_age.Prelude.{
  ℕ, zero, suc, String, ◌<>◌, Bool, true, false, not, ◌&&◌, Option, none, some, List, [], ◌∷◌, ◌++◌,
  length, all_of, contains, is_empty, ltb, ◌==◌, if◌then◌else◌,
}
use software_engineering_age.Prelude.Text
use software_engineering_age.Domain.{
  Payload, Value, TaskView, EventType, payload_put, str, num, bool, obj, tool_started,
  tool_completed, tool_failed, checkpoint_created, agent_step, agent_message, Fields, field, end,
}
use software_engineering_age.Effects.{
  Action, Exn, Result, ok, err, runtime_error, cancelled_error, pure, raise, catching, for_each,
  ◌>>=◌, ◌>>◌,
}
use software_engineering_age.Models.{World}
use software_engineering_age.Events
use software_engineering_age.Runtime.Values.{decimal}
use software_engineering_age.Runtime.Tools.{ToolResult}
use software_engineering_age.Runtime.Context.{
  Context, ControlToolResult, control_tools, execute_control_tool,
}
use software_engineering_age.Runtime.Context.Window.{Message, maybe_compact, build_messages}

pub record ToolCall : Type 0 where
  pub id : String
  pub name : String
  pub arguments : Payload

pub record ModelTurn : Type 0 where
  pub content : String
  pub tool_calls : List ToolCall

-- `CodingAgent`: `complete` asks the model, with the tools' schemas, and `finished` is the order in
-- which the calls of a batch end.
pub record CodingAgent : Type 0 where
  pub complete : List Message → Action World ModelTurn
  pub execute : String → Payload → Action World ToolResult
  pub is_parallel_safe : String → Bool
  pub finished : List ToolCall → List ToolCall
  pub context : Context
  pub max_steps : ℕ

abbrev fields : Payload → Fields
fields [] = end
fields ((k, v) ∷ rest) = field k v (fields rest)

-- a cancellation is no Exception, so it is not retried
abbrev unless_cancelled : {A : Type 0} → Action World A → Exn → Action World A
unless_cancelled next cancelled_error = raise cancelled_error
unless_cancelled next e = next

-- `@retry(stop_after_attempt(n + 1), reraise=True)`
unfoldable pub attempts : {A : Type 0} → ℕ → Action World A → Action World A
attempts zero m = m
attempts (suc n) m = catching m (unless_cancelled (attempts n m))

unfoldable pub model_turn : CodingAgent → List Message → Action World ModelTurn
unfolding attempts
model_turn agent messages = attempts 2 (agent.complete messages)

unfoldable pub announce_tool : TaskView → ToolCall → Action World Unit
announce_tool task call = do
  Events.append task.id task.session_id tool_started (
      ("tool", str call.name)
      ∷ ("arguments", obj (fields call.arguments))
      ∷ ("tool_call_id", str call.id)
      ∷ [])
  pure tt

abbrev pub completion : ToolCall → Bool → String → Payload
completion call ok? output =
    ("tool", str call.name)
    ∷ ("tool_call_id", str call.id)
    ∷ ("ok", bool ok?)
    ∷ ("output", str output)
    ∷ []

unfoldable pub record_external_result : TaskView → ToolCall → ToolResult → Action World Unit
record_external_result task call result = do
  Events.append task.id task.session_id (if result.ok? then tool_completed else tool_failed)
      (completion call result.ok? result.output)
  if not (call.name == "checkpoint" && result.ok?) then pure tt else do
    Events.append task.id task.session_id checkpoint_created (("output", str result.output) ∷ [])
    pure tt

unfoldable pub run_external_call : CodingAgent → TaskView → ToolCall → Action World Unit
unfolding record_external_result
run_external_call agent task call = do
  result ← agent.execute call.name call.arguments
  record_external_result task call result

abbrev pub is_control : ToolCall → Bool
is_control call = contains call.name control_tools

abbrev pub is_parallel_batch : CodingAgent → List ToolCall → Bool
is_parallel_batch agent calls =
    ltb 1 (length calls)
    && all_of (λ c. not (is_control c)) calls
    && all_of (λ c. agent.is_parallel_safe c.name) calls

unfoldable pub run_control_call : CodingAgent → TaskView → ToolCall → Action World (Option Payload)
run_control_call agent task call = do
  result ← execute_control_tool agent.context task call.name call.arguments
  Events.append task.id task.session_id tool_completed (completion call true result.output)
  pure result.terminal_payload

-- a terminal payload ends the loop
abbrev pub or_end : Action World (Option Payload) → Option Payload → Action World (Option Payload)
or_end next none = next
or_end next (some payload) = pure (some payload)

-- The ordered loop.
unfoldable pub run_ordered : CodingAgent → TaskView → List ToolCall → Action World (Option Payload)
unfolding run_control_call run_external_call
run_ordered agent task [] = pure none
run_ordered agent task (call ∷ rest) =
    let next = run_ordered agent task rest in
    if is_control call
    then run_control_call agent task call >>= or_end next
    else (run_external_call agent task call >>= λ _. next)

unfoldable pub run_batch : CodingAgent → TaskView → List ToolCall → Action World (Option Payload)
unfolding run_external_call
run_batch agent task calls = do
  for_each (agent.finished calls) (run_external_call agent task)
  pure none

unfoldable pub execute_turn_tools :
    CodingAgent → TaskView → List ToolCall → Action World (Option Payload)
unfolding announce_tool run_batch run_ordered
execute_turn_tools agent task calls = do
  for_each calls (announce_tool task)
  if is_parallel_batch agent calls then run_batch agent task calls else run_ordered agent task calls

abbrev pub reminder : String
reminder =
    "The model returned no tool call. Continue working and finish explicitly with finish_task after verification."

unfoldable pub say : TaskView → ℕ → String → Action World Unit
say task step content = do
  Events.append task.id task.session_id agent_message
      (("content", str content) ∷ ("step", num step) ∷ [])
  pure tt

unfoldable pub act : CodingAgent → TaskView → ℕ → List ToolCall → Action World (Option Payload)
unfolding say execute_turn_tools
act agent task step calls =
    if is_empty calls
    then (say task step reminder >>= λ _. pure none)
    else execute_turn_tools agent task calls

-- The body of the loop: a terminal payload, or none to go on.
unfoldable pub run_step : CodingAgent → TaskView → ℕ → Action World (Option Payload)
unfolding model_turn act
run_step agent task step = do
  maybe_compact agent.context task
  Events.append task.id task.session_id agent_step (("step", num step) ∷ [])
  messages ← build_messages agent.context task
  turn ← model_turn agent messages
  if Text.nonempty turn.content then say task step turn.content else pure tt
  act agent task step turn.tool_calls

-- the next step, or the terminal payload with the number of this one
abbrev pub or_finish : ℕ → Action World Payload → Option Payload → Action World Payload
or_finish step next none = next
or_finish step next (some terminal) = pure (payload_put "steps" (num step) terminal)

-- `for step in range(step, max_steps + 1)`, with as many steps left
unfoldable pub run_from : CodingAgent → TaskView → ℕ → ℕ → Action World Payload
unfolding run_step
run_from agent task step zero =
    raise (runtime_error ("agent exceeded max steps (" <> decimal agent.max_steps <> ")"))
run_from agent task step (suc left) =
    run_step agent task step >>= or_finish step (run_from agent task (suc step) left)

unfoldable pub run : CodingAgent → TaskView → Action World Payload
unfolding run_from
run agent task = run_from agent task 1 agent.max_steps
