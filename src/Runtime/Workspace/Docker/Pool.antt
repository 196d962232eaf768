-- ===== src/Runtime/Workspace/Docker/Pool.antt =====
-- src/minion/runtime/workspace.py: what leaves the pool of warm slots and their table as they were.
use software_engineering_age.Prelude.{
  ℕ, String, ◌≡◌, refl, ◌∙◌, Option, none, some, List, [], ◌∷◌, arith,
}
use software_engineering_age.Prelude.Dict
use software_engineering_age.Prelude.Dict.{Dict}
use software_engineering_age.Domain.{RepositorySpec}
use software_engineering_age.Effects.{finally, Action, Exn, environment_error, ◌>>=◌}
use software_engineering_age.Effects.Rules.{
  IsPreorder, Respects, respects_rules, Respects-catching, Respects-raise, Respects-pure,
  Respects-bind,
}
use software_engineering_age.Security.{Environ}
use software_engineering_age.Runtime.Workspace.{Workspace, repo_name}
use software_engineering_age.Runtime.Workspace.Host.{
  Host, Machine, run_exec, make_directory, remove_tree, move, FileOperation, locked,
  new_environment,
}
use software_engineering_age.Runtime.Workspace.Local
use software_engineering_age.Runtime.Workspace.Local.{
  populate, populate_each, populate_one, update_mirror, refresh, git_in,
}
use software_engineering_age.Runtime.Workspace.Docker.Slots.{DockerSettings}
use software_engineering_age.Runtime.Workspace.Docker.{
  healthy, is_running, on_environment_error, sort_environment_error,
}

pub record SamePool (h h' : Host) : Type 0 where
  pub pool : h'.pool ≡ h.pool
  pub slots : h'.slots ≡ h.slots

pub SamePool-IsPreorder : IsPreorder SamePool
SamePool-IsPreorder = record {
  reflexive = λ h. record { pool = refl; slots = refl };
  transitive = λ s t u p q. record { pool = q.pool ∙ p.pool; slots = q.slots ∙ p.slots };
}

-- A process or a file lock changes neither the queue of free slots nor the table of slots.
pub record IsConfined (machine : Machine) : Type 0 where
  pub process :
      (args : List String) (cwd : Option String) (env : Option Environ) (timeout : ℕ)
      → Respects SamePool (machine.process args cwd env timeout)
  pub acquire : (lock : String) → Respects SamePool (machine.acquire lock)
  pub release : (lock : String) → Respects SamePool (machine.release lock)

-- The file system carries out every call that makes, moves or removes a directory.
pub record IsObeyed (machine : Machine) : Type 0 where
  pub refuses : (call : FileOperation) (h : Host) → machine.refuses call h ≡ none

pub make_directory-SamePool :
    (machine : Machine) (path : String) → Respects SamePool (make_directory machine path)
unfolding make_directory
make_directory-SamePool machine path = record { at = λ h. ground arith }

pub remove_tree-SamePool :
    (machine : Machine) (path : String) → Respects SamePool (remove_tree machine path)
unfolding remove_tree
remove_tree-SamePool machine path = record { at = λ h. ground arith }

pub move-SamePool :
    (machine : Machine) (name source target : String)
    → Respects SamePool (move machine name source target)
unfolding move
move-SamePool machine name source target = record { at = λ h. ground arith }

pub new_environment-SamePool : Respects SamePool new_environment
unfolding new_environment ◌>>=◌
new_environment-SamePool = record { at = λ h. ground arith }

pub finally-SamePool :
    {A : Type 0} (m : Action Host A) (cleanup : Action Host Unit)
    → Respects SamePool m
    → Respects SamePool cleanup
    → Respects SamePool (finally m cleanup)
unfolding finally
finally-SamePool m cleanup p q = record {
  at = λ h. SamePool-IsPreorder.transitive h (m h).1 _ (p.at h) (q.at (m h).1);
}

pub ruleset pool_rules = (
  respects_rules, SamePool-IsPreorder, make_directory-SamePool, remove_tree-SamePool, move-SamePool,
  new_environment-SamePool,
)

module _ (machine : Machine) (confined : IsConfined machine) where
  pub run_exec-SamePool :
      (args : List String) (cwd : Option String) (env : Option Environ) (timeout : ℕ)
      → Respects SamePool (run_exec machine args cwd env timeout)
  unfolding run_exec
  run_exec-SamePool args cwd env timeout =
      Respects-bind SamePool-IsPreorder _ _ (confined.process args cwd env timeout)
        (λ o. search pool_rules depth 4)

  pub locked-SamePool :
      {A : Type 0} (lock : String) (m : Action Host A)
      → Respects SamePool m
      → Respects SamePool (locked machine lock m)
  unfolding locked
  locked-SamePool lock m p =
      Respects-bind SamePool-IsPreorder _ _ (confined.acquire lock)
        (λ _. finally-SamePool m _ p (confined.release lock))

  module _ (settings : Local.Settings) where
    populate_one-SamePool :
        (root task_id : String) (spec : RepositorySpec)
        → Respects SamePool (populate_one machine settings root task_id spec)
    unfolding populate_one update_mirror refresh git_in
    populate_one-SamePool root task_id spec =
        search (pool_rules, run_exec-SamePool, locked-SamePool) depth 24

    populate_each-SamePool :
        (root task_id : String) (specs : List RepositorySpec) (result : Dict String)
        → Respects SamePool (populate_each machine settings root task_id specs result)
    unfolding populate_each
    populate_each-SamePool root task_id [] result = Respects-pure SamePool-IsPreorder result
    populate_each-SamePool root task_id (spec ∷ rest) result =
        Respects-bind SamePool-IsPreorder _ _ (populate_one-SamePool root task_id spec)
          (λ destination.
            populate_each-SamePool root task_id rest (Dict.put (repo_name spec) destination result))

    pub populate-SamePool :
        (root task_id : String) (specs : List RepositorySpec)
        → Respects SamePool (populate machine settings root task_id specs)
    unfolding populate
    populate-SamePool root task_id specs = populate_each-SamePool root task_id specs []

pub on_environment_error-SamePool :
    {A : Type 0} (m : Action Host A) (handler : String → Action Host A)
    → Respects SamePool m
    → ((e : String) → Respects SamePool (handler e))
    → Respects SamePool (on_environment_error m handler)
unfolding on_environment_error
on_environment_error-SamePool {A} m handler p q = Respects-catching SamePool-IsPreorder m _ p sorted
  where
    sorted : (e : Exn) → Respects SamePool (sort_environment_error {A = A} handler e)
    sorted (environment_error e) = q e
    sorted _ = Respects-raise SamePool-IsPreorder _

pub is_running-SamePool :
    (machine : Machine) (settings : DockerSettings) (name : Option String)
    → IsConfined machine
    → Respects SamePool (is_running machine settings name)
unfolding is_running
is_running-SamePool machine settings none confined = search pool_rules depth 3
is_running-SamePool machine settings (some name) confined =
    on_environment_error-SamePool _ _
      (search (pool_rules, run_exec-SamePool machine confined) depth 5)
      (λ e. search pool_rules depth 3)

pub healthy-SamePool :
    (machine : Machine) (settings : DockerSettings) (workspace : Workspace)
    → IsConfined machine
    → Respects SamePool (healthy machine settings workspace)
unfolding healthy
healthy-SamePool machine settings workspace confined =
    search (pool_rules, is_running-SamePool) depth 6
