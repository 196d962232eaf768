-- ===== src/Orchestrator/Evolution/Execution.antt =====
-- One execution of a task under `Evolves`.
use software_engineering_age.Prelude.{String, refl, Option, none, some}
use software_engineering_age.Domain.{TaskView, EnvironmentStatus}
use software_engineering_age.Effects.{
  Exn, Result, ok, err, cancelled_error, Action, modify, or_else,
}
use software_engineering_age.Effects.Rules.{Respects, respects_rules, IsPreorder}
use software_engineering_age.Models.{World}
use software_engineering_age.Orchestrator.Execute.{
  count_started, or_allocate, Services, Frame, on_world, set_workspace, execute, allocate_for,
  find_workspace, execute_body, on_cancelled, on_exception, release_workspace, clean_up, mark_ready,
  persist_failed, suppressed, handle,
}
use software_engineering_age.Runtime.Workspace.{Workspace}
use software_engineering_age.Orchestrator.Evolution.{Evolves, Evolves_order, Evolves_same}
use software_engineering_age.Orchestrator.Evolution.Operations.{
  evolves_rules, append-Evolves, require-Evolves,
}
use software_engineering_age.Orchestrator.Evolution.Parts.{
  IsTame, mark-Evolves, attach_to-Evolves, place-Evolves, pick_up-Evolves, run_in-Evolves,
  count_allocation-Evolves, count_failed-Evolves, count_stopped-Evolves,
}

-- The same of an execution's frame.
abbrev FrameEvolves : Frame → Frame → Type 0
FrameEvolves f g = Evolves f.world g.world

frame_order : IsPreorder FrameEvolves
frame_order = record {
  reflexive = λ f. Evolves_order.reflexive f.world;
  transitive = λ f g h. Evolves_order.transitive f.world g.world h.world;
}

on_world-Evolves :
    {A : Type 0} (m : Action World A) → Respects Evolves m → Respects FrameEvolves (on_world m)
unfolding on_world
on_world-Evolves m h = record { at = λ f. h.at f.world }

set_workspace-Evolves :
    (workspace : Option Workspace) → Respects FrameEvolves (set_workspace workspace)
unfolding set_workspace modify
set_workspace-Evolves workspace = record { at = λ f. Evolves_order.reflexive f.world }

ruleset frame_rules = (
  respects_rules, frame_order, on_world-Evolves, set_workspace-Evolves, append-Evolves,
  require-Evolves,
)

module _ (services : Services) (tame : IsTame services) where
  allocate_for-Evolves : (task : TaskView) → Respects FrameEvolves (allocate_for services task)
  unfolding allocate_for
  allocate_for-Evolves task = search (frame_rules, tame.allocate, count_allocation-Evolves) depth 14

  or_allocate-Evolves :
      (task : TaskView) (found : Option Workspace)
      → Respects FrameEvolves (or_allocate services task found)
  unfolding or_allocate
  or_allocate-Evolves task none = allocate_for-Evolves task
  or_allocate-Evolves task (some workspace) = search frame_rules

  find_workspace-Evolves : (task : TaskView) → Respects FrameEvolves (find_workspace services task)
  unfolding find_workspace
  find_workspace-Evolves task =
      search (frame_rules, or_allocate-Evolves, attach_to-Evolves services tame) depth 10

  execute_body-Evolves : (id : String) → Respects FrameEvolves (execute_body services id)
  unfolding execute_body
  execute_body-Evolves id =
      search
        (
          frame_rules,
          pick_up-Evolves,
          place-Evolves,
          find_workspace-Evolves,
          run_in-Evolves services tame,
        )
        depth 14

on_cancelled-Evolves : (id : String) → Respects Evolves (on_cancelled id)
unfolding on_cancelled
on_cancelled-Evolves id = search evolves_rules depth 16

mark_ready-Evolves : (workspace : Option Workspace) → Respects Evolves (mark_ready workspace)
mark_ready-Evolves none = search evolves_rules
mark_ready-Evolves (some workspace) = mark-Evolves workspace.environment_id EnvironmentStatus.ready

persist_failed-Evolves : (e : Exn) → Respects Evolves (persist_failed e)
persist_failed-Evolves cancelled_error = search evolves_rules
persist_failed-Evolves _ = search evolves_rules

suppressed-Evolves : (e : Exn) → Respects Evolves (suppressed e)
suppressed-Evolves cancelled_error = search evolves_rules
suppressed-Evolves _ = search evolves_rules

on_exception-Evolves :
    (id : String) (workspace : Option Workspace) (e : Exn)
    → Respects Evolves (on_exception id workspace e)
unfolding on_exception
on_exception-Evolves id workspace e =
    search (evolves_rules, mark_ready-Evolves, persist_failed-Evolves, count_failed-Evolves) depth
      16

handle-Evolves :
    (id : String) (workspace : Option Workspace) (e : Exn)
    → Respects Evolves (handle id workspace e)
handle-Evolves id workspace cancelled_error = on_cancelled-Evolves id
handle-Evolves id workspace _ = on_exception-Evolves id workspace _

or_else-Evolves :
    (r : Result (Unit {0})) (handler : Exn → Action World (Unit {0})) (w : World)
    → ((e : Exn) → Respects Evolves (handler e))
    → Evolves w (or_else r handler w).1
or_else-Evolves (ok a) handler w h = Evolves_order.reflexive w
or_else-Evolves (err e) handler w h = (h e).at w

module _ (services : Services) (tame : IsTame services) where
  clean_up-Evolves :
      (id : String) (workspace : Option Workspace)
      → Respects Evolves (clean_up services id workspace)
  unfolding clean_up release_workspace
  clean_up-Evolves id none = search (evolves_rules, count_stopped-Evolves) depth 8
  clean_up-Evolves id (some workspace) =
      search (evolves_rules, tame.release, suppressed-Evolves, count_stopped-Evolves) depth 12

  -- One execution of a task, whatever happens in it, evolves every task.
  pub execute-Evolves : (id : String) → Respects Evolves (execute services id)
  unfolding execute
  execute-Evolves id = record {
    at = λ w.
        let frame : Frame = record { world = count_started w; workspace = none } in
        let (body, f) = execute_body services id frame in
        let (outcome, w₁) = or_else body (handle id f.workspace) f.world in
        Evolves_order.transitive w w₁ _
          (Evolves_order.transitive w f.world w₁
            (Evolves_order.transitive w (count_started w) f.world
              (Evolves_same w (count_started w) refl)
              ((execute_body-Evolves services tame id).at frame))
            (or_else-Evolves body (handle id f.workspace) f.world (handle-Evolves id f.workspace)))
          ((clean_up-Evolves id f.workspace).at w₁);
  }
