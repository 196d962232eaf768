-- ===== src/Orchestrator/Evolution/Parts.antt =====
-- The parts of an execution under `Evolves`, and what is expected of the services.
use software_engineering_age.Prelude.{String, refl, Bool, Option, none, some, List}
use software_engineering_age.Domain.{RepositorySpec, TaskView, EnvironmentStatus}
use software_engineering_age.Effects.{Exn, cancelled_error, modify}
use software_engineering_age.Effects.Rules.{Respects}
use software_engineering_age.Repositories.Environments
use software_engineering_age.Repositories.Environments.{Lease}
use software_engineering_age.Orchestrator.Execute.{
  count_completed, count_failed, count_allocation, count_stopped, attach_to, Services,
  index_degraded, index_one, preindex_workspace, place, publish_for, run_in, pick_up,
}
use software_engineering_age.Runtime.Workspace.{Workspace}
use software_engineering_age.Orchestrator.Evolution.{Evolves, Evolves_same}
use software_engineering_age.Orchestrator.Evolution.Operations.{evolves_rules, Evolves_modify}

pub count_allocation-Evolves : Respects Evolves count_allocation
unfolding count_allocation
count_allocation-Evolves = Evolves_modify _ (λ w. refl)

count_completed-Evolves : Respects Evolves count_completed
unfolding count_completed
count_completed-Evolves = Evolves_modify _ (λ w. refl)

pub count_failed-Evolves : Respects Evolves count_failed
unfolding count_failed
count_failed-Evolves = Evolves_modify _ (λ w. refl)

pub count_stopped-Evolves : Respects Evolves count_stopped
unfolding count_stopped
count_stopped-Evolves = Evolves_modify _ (λ w. refl)

-- What the orchestrator expects of the services: they do not touch the rows of tasks against the
-- lifecycle.
pub record IsTame (services : Services) : Type 0 where
  pub attach :
      (id : String) (specs : List RepositorySpec) → Respects Evolves (services.attach id specs)
  pub allocate :
      (id : String) (specs : List RepositorySpec) → Respects Evolves (services.allocate id specs)
  pub release :
      (workspace : Workspace) (destroy : Bool)
      → Respects Evolves (services.release workspace destroy)
  pub ensure_index : (path : String) → Respects Evolves (services.ensure_index path)
  pub run_agent :
      (workspace : Workspace) (task : TaskView)
      → Respects Evolves (services.run_agent workspace task)
  pub publish :
      (workspace : Workspace) (id instruction : String) (specs : List RepositorySpec)
      → Respects Evolves (services.publish workspace id instruction specs)

upsert-Evolves : (lease : Lease) → Respects Evolves (Environments.upsert lease)
unfolding Environments.upsert modify
upsert-Evolves lease = record { at = λ w. Evolves_same w _ refl }

pub mark-Evolves :
    (id : String) (status : EnvironmentStatus) → Respects Evolves (Environments.mark id status)
unfolding Environments.mark modify
mark-Evolves id status = record { at = λ w. Evolves_same w _ refl }

index_degraded-Evolves :
    (task : TaskView) (name : String) (e : Exn) → Respects Evolves (index_degraded task name e)
unfolding index_degraded
index_degraded-Evolves task name cancelled_error = search evolves_rules
index_degraded-Evolves task name _ = search evolves_rules depth 8

pub place-Evolves :
    (task : TaskView) (workspace : Workspace) → Respects Evolves (place task workspace)
unfolding place
place-Evolves task workspace = search evolves_rules depth 8

pub pick_up-Evolves : (task : TaskView) → Respects Evolves (pick_up task)
unfolding pick_up
pick_up-Evolves task = search evolves_rules depth 8

module _ (services : Services) (tame : IsTame services) where
  index_one-Evolves :
      (task : TaskView) (repo : String × String) → Respects Evolves (index_one services task repo)
  unfolding index_one
  index_one-Evolves task (name, path) =
      search (evolves_rules, tame.ensure_index, index_degraded-Evolves) depth 10

  preindex-Evolves :
      (task : TaskView) (workspace : Workspace)
      → Respects Evolves (preindex_workspace services task workspace)
  unfolding preindex_workspace
  preindex-Evolves task workspace = search (evolves_rules, index_one-Evolves) depth 8

  publish_for-Evolves :
      (task : TaskView) (workspace : Workspace)
      → Respects Evolves (publish_for services task workspace)
  unfolding publish_for
  publish_for-Evolves task workspace = search (evolves_rules, tame.publish) depth 10

  pub run_in-Evolves :
      (task : TaskView) (workspace : Workspace) → Respects Evolves (run_in services task workspace)
  unfolding run_in
  run_in-Evolves task workspace =
      search
        (
          evolves_rules, upsert-Evolves, mark-Evolves, preindex-Evolves, publish_for-Evolves,
          tame.run_agent, count_completed-Evolves,
        )
        depth 24

  pub attach_to-Evolves :
      (task : TaskView) (id : Option String) → Respects Evolves (attach_to services task id)
  unfolding attach_to
  attach_to-Evolves task none = search evolves_rules
  attach_to-Evolves task (some id) = search (evolves_rules, tame.attach)
