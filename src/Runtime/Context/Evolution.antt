-- ===== src/Runtime/Context/Evolution.antt =====
-- src/minion/runtime/context.py: the context manager changes no task.
use software_engineering_age.Prelude.{ℕ, String, refl, Option, none, some, List, [], ◌∷◌, ◌++◌}
use software_engineering_age.Domain.{TaskView, SessionView, Payload}
use software_engineering_age.Effects.Rules.{
  Respects, respects_rules, Respects-bind, Respects-pure, Respects-if,
}
use software_engineering_age.Events.{list_after}
use software_engineering_age.Repositories.Sessions
use software_engineering_age.Repositories.Sessions.{Memory, update_memory}
use software_engineering_age.Orchestrator.Evolution.{Evolves, Evolves_order}
use software_engineering_age.Orchestrator.Evolution.Operations.{evolves_rules, Evolves_modify}
use software_engineering_age.Runtime.Context.{
  Context, Skills, activate_each, remember_skills, activate_for, activate_skills, set_plan,
  remember_constraint, activate_known, activate_skill, finish_with, finish_task, dispatch,
  execute_control_tool,
}
use software_engineering_age.Runtime.Context.Window.{
  compact, compact_due, maybe_compact, ensure_auto_skills, build_messages,
}
use software_engineering_age.Runtime.Values.{PythonText}

get-Evolves : (id : String) → Respects Evolves (Sessions.get id)
unfolding Sessions.get
get-Evolves id = record { at = Evolves_order.reflexive }

require-Evolves : (id : String) → Respects Evolves (Sessions.require id)
unfolding Sessions.require
require-Evolves id = search (respects_rules, Evolves_order, get-Evolves) depth 6

update_memory-Evolves : (id : String) (m : Memory) → Respects Evolves (update_memory id m)
unfolding update_memory
update_memory-Evolves id m = Evolves_modify _ (λ w. refl)

list_after-Evolves : (id : String) (n limit : ℕ) → Respects Evolves (list_after id n limit)
unfolding list_after
list_after-Evolves id n limit = record { at = Evolves_order.reflexive }

ruleset reading_rules =
    (evolves_rules, get-Evolves, require-Evolves, update_memory-Evolves, list_after-Evolves)

activate_each-Evolves :
    (skills : Skills) (task : TaskView) (current requested : List String)
    → Respects Evolves (activate_each skills task current requested)
unfolding activate_each
activate_each-Evolves skills task current [] = search reading_rules depth 4
activate_each-Evolves skills task current (name ∷ rest) =
    Respects-if Evolves_order _ _ _ (activate_each-Evolves skills task current rest) (
      Respects-if Evolves_order _ _ _ (Respects-pure Evolves_order current) (
        Respects-bind Evolves_order _ _ (search reading_rules depth 4)
          (λ _. activate_each-Evolves skills task (current ++ name ∷ []) rest)))

remember_skills-Evolves :
    (session : SessionView) (current : List String) (id : String)
    → Respects Evolves (remember_skills session current id)
unfolding remember_skills
remember_skills-Evolves session current id = search reading_rules depth 6

activate_for-Evolves :
    (skills : Option Skills) (task : TaskView) (session : SessionView) (requested : List String)
    → Respects Evolves (activate_for skills task session requested)
unfolding activate_for
activate_for-Evolves none task session requested = search reading_rules depth 4
activate_for-Evolves (some skills) task session requested =
    search (reading_rules, activate_each-Evolves, remember_skills-Evolves) depth 8

activate_skills-Evolves :
    (context : Context) (task : TaskView) (requested : List String)
    → Respects Evolves (activate_skills context task requested)
unfolding activate_skills
activate_skills-Evolves context task requested =
    search (reading_rules, activate_for-Evolves) depth 6

set_plan-Evolves :
    (context : Context) (task : TaskView) (arguments : Payload)
    → Respects Evolves (set_plan context task arguments)
unfolding set_plan
set_plan-Evolves context task arguments = search reading_rules depth 8

remember_constraint-Evolves :
    (context : Context) (task : TaskView) (session : SessionView) (arguments : Payload)
    → Respects Evolves (remember_constraint context task session arguments)
unfolding remember_constraint
remember_constraint-Evolves context task session arguments = search reading_rules depth 8

activate_skill-Evolves :
    (context : Context) (skills : Option Skills) (task : TaskView) (arguments : Payload)
    → Respects Evolves (activate_skill context skills task arguments)
unfolding activate_skill activate_known
activate_skill-Evolves context none task arguments = search reading_rules depth 4
activate_skill-Evolves context (some skills) task arguments =
    search (reading_rules, activate_skills-Evolves) depth 10

finish_task-Evolves :
    (context : Context) (task : TaskView) (arguments : Payload)
    → Respects Evolves (finish_task context task arguments)
unfolding finish_task finish_with
finish_task-Evolves context task arguments = search reading_rules depth 14

pub execute_control_tool-Evolves :
    (context : Context) (task : TaskView) (name : String) (arguments : Payload)
    → Respects Evolves (execute_control_tool context task name arguments)
unfolding execute_control_tool dispatch
execute_control_tool-Evolves context task name arguments =
    search
      (
        reading_rules, set_plan-Evolves, remember_constraint-Evolves, activate_skill-Evolves,
        finish_task-Evolves,
      )
      depth 12

compact-Evolves :
    (python : PythonText) (task : TaskView) (session : SessionView) (previous through : ℕ)
    → Respects Evolves (compact python task session previous through)
unfolding compact
compact-Evolves python task session previous through = search reading_rules depth 10

pub maybe_compact-Evolves :
    (context : Context) (task : TaskView) → Respects Evolves (maybe_compact context task)
unfolding maybe_compact compact_due
maybe_compact-Evolves context task = search (reading_rules, compact-Evolves) depth 8

ensure_auto_skills-Evolves :
    (skills : Option Skills) (context : Context) (task : TaskView)
    → Respects Evolves (ensure_auto_skills skills context task)
unfolding ensure_auto_skills
ensure_auto_skills-Evolves none context task = search reading_rules depth 6
ensure_auto_skills-Evolves (some skills) context task = activate_skills-Evolves context task _

pub build_messages-Evolves :
    (context : Context) (task : TaskView) → Respects Evolves (build_messages context task)
unfolding build_messages
build_messages-Evolves context task = search (reading_rules, ensure_auto_skills-Evolves) depth 10
