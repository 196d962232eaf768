-- ===== src/Examples/Agent.antt =====
-- The properties of the agent, its context and the command policy at concrete inputs.
use software_engineering_age.Prelude.{
  pos, ◌+◌, ◌≤◌, ◌≡◌, ◌↔◌, refl, true, false, none, some, [], ◌∷◌, All, arith,
}
use software_engineering_age.Prelude.Text
use software_engineering_age.Domain.{
  EventType-discrete, Payload, Value, running, queued, str, null, arr, cons, nil,
}
use software_engineering_age.Effects.{pure, ◌>>=◌, catching, for_each}
use software_engineering_age.Models.{World, new_id}
use software_engineering_age.Table.{find, update_where}
use software_engineering_age.Events.{append, list_after}
use software_engineering_age.Repositories.Tasks.{task_view}
use software_engineering_age.Repositories.Sessions.{session_view, require, update_memory}
use software_engineering_age.Runtime.Values.{PythonText}
use software_engineering_age.Runtime.Policy.{evaluate, enforce, strip, deny_patterns, evaluate_iff}
use software_engineering_age.Runtime.Context.{Context, Skills, activate_for, execute_control_tool}
use software_engineering_age.Runtime.Context.Window.{clip, maybe_compact, build_messages}
use software_engineering_age.Runtime.Context.Evidence.{Evidence}
use software_engineering_age.Runtime.Context.Activation.{IsActive, activate_for-IsActive}
use software_engineering_age.Runtime.Context.Bounds.{clip-le}
use software_engineering_age.Runtime.Agent.{CodingAgent, ToolCall, run}
use software_engineering_age.Runtime.Agent.Completion.{run-Evidence}
use software_engineering_age.Runtime.Agent.Evolution.{IsTameAgent, with_agents, agents-Evolves}
use software_engineering_age.Effects.Rules.{respects_rules}
use software_engineering_age.Orchestrator.Evolution.{Evolves, Evolves_order}
use software_engineering_age.Orchestrator.Safety.{working, serve}
use software_engineering_age.Examples.Control.{services-IsTame}
use software_engineering_age.Prelude.{String}
use software_engineering_age.Runtime.Skills.{Skill, discover, get_skill, render}
use software_engineering_age.Runtime.Skills.Scopes.{get_skill-discover}
use software_engineering_age.Runtime.Skills.Budget.{render-le}
use software_engineering_age.Examples.Data.{settings, services}
use software_engineering_age.Examples.Data.{task, session, busy}

abbrev pub python : PythonText
python = record {
  shown = λ v. "?";
  dumps = λ p. "{}";
  dumps_indented = λ v. "{}";
  search_group = λ pattern text. none;
  sub_empty = λ pattern text. text;
  int = λ text. 0;
}

abbrev context : Context
context = record {
  python = python;
  skills = none;
  compaction_threshold = 80;
  recent_events = 40;
  max_chars = 1000;
  system_prompt = "";
}

abbrev finish : ToolCall
finish = record {
  id = "3";
  name = "finish_task";
  arguments = ("summary", str "done") ∷ ("verification", arr (cons (str "tests pass") nil)) ∷ [];
}

-- a model that runs the tests, looks at the diff and finishes
abbrev script : CodingAgent
script = record {
  complete = λ messages. pure (record {
    content = "";
    tool_calls =
        record { id = "1"; name = "run_command"; arguments = [] }
        ∷ record { id = "2"; name = "git_diff"; arguments = [] }
        ∷ finish
        ∷ [];
  });
  execute = λ name arguments. pure (record { ok? = true; output = "" });
  is_parallel_safe = λ name. false;
  finished = λ calls. calls;
  context = context;
  max_steps = 2;
}

abbrev after_run : World
after_run = (run script (task_view (task running)) (busy running)).1

abbrev answered : Payload
answered =
    ("summary", str "done")
    ∷ ("verification", arr (cons (str "tests pass") nil))
    ∷ ("steps", Value.num 1)
    ∷ []

run-Evidence_example : Evidence python "task_a" after_run
unfolding run ◌>>=◌ maybe_compact require find append new_id build_messages update_where list_after
    catching for_each execute_control_tool EventType-discrete
run-Evidence_example =
    run-Evidence script (task_view (task running)) (busy running) after_run answered refl

abbrev skills : Skills
skills = record {
  max_active = 2;
  is_known = λ name. true;
  auto_activate = λ instruction. [];
  catalog = null;
  render = λ names. "";
}

activate_for-IsActive_example : IsActive skills ("python" ∷ [])
unfolding activate_for ◌>>=◌ append find new_id update_memory
activate_for-IsActive_example =
    activate_for-IsActive skills (task_view (task running)) (session_view (session 2))
      ("python" ∷ "python" ∷ []) ("python" ∷ []) (busy running)
      (activate_for (some skills) (task_view (task running)) (session_view (session 2))
        ("python" ∷ "python" ∷ []) (busy running)).1
      (record { few = omega arith; known = refl; different = refl }) refl

clip-le_example : Text.length (clip 4 "abcdefgh") ≤ 4 + 31
clip-le_example = clip-le 4 "abcdefgh" (omega arith)

evaluate_iff_example :
    ((evaluate (λ pattern text. false) enforce " ls ").allowed ≡ true)
    ↔ ((Text.nonempty (strip " ls ") ≡ true) × All (λ p. false ≡ false) deny_patterns)
evaluate_iff_example = evaluate_iff (λ pattern text. false) " ls "

script-IsTameAgent : IsTameAgent script
script-IsTameAgent = record {
  complete = λ messages. search (respects_rules, Evolves_order);
  execute = λ name arguments. search (respects_rules, Evolves_order);
}

agents-Evolves_example :
    Evolves
      (busy queued)
      (serve settings (with_agents (λ workspace. script) services) (working ∷ []) (busy queued))
agents-Evolves_example =
    agents-Evolves settings services (λ workspace. script) services-IsTame
      (λ workspace. script-IsTameAgent) (working ∷ []) (busy queued)

abbrev skill : String → String → Skill
skill name source = record {
  name = name;
  description = "d";
  instructions = "use it";
  source = source;
  path = "SKILL.md";
  markers = [];
  keywords = [];
  priority = pos 0;
}

get_skill-discover_example :
    get_skill "a" (
      discover
        (skill "a" "builtin" ∷ [])
        (skill "a" "user" ∷ [])
        ((skill "b" "repository:r" ∷ []) ∷ []))
    ≡ some (skill "a" "user")
get_skill-discover_example =
    get_skill-discover "a" (skill "a" "builtin" ∷ []) (skill "a" "user" ∷ [])
      ((skill "b" "repository:r" ∷ []) ∷ [])

render-le_example : Text.length (render (skill "a" "user" ∷ []) 6 10 ("a" ∷ "b" ∷ [])) ≤ 43
render-le_example = render-le (skill "a" "user" ∷ []) 6 10 ("a" ∷ "b" ∷ [])
