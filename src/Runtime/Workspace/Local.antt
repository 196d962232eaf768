-- ===== src/Runtime/Workspace/Local.antt =====
-- src/minion/runtime/workspace.py: `LocalEnvironmentProvider`, which clones each repository from a
-- mirror into a directory of the environment.
use software_engineering_age.Prelude.{
  String, ◌<>◌, Bool, true, false, not, ◌&&◌, Option, none, some, List, [], ◌∷◌, all_of,
  if◌then◌else◌,
}
use software_engineering_age.Prelude.Dict
use software_engineering_age.Prelude.Dict.{Dict}
use software_engineering_age.Domain.{RepositorySpec}
use software_engineering_age.Effects.{Action, pure, gets, ◌>>=◌, ◌>>◌}
use software_engineering_age.Security.{Environ}
use software_engineering_age.Runtime.Workspace.{Workspace, repo_name}
use software_engineering_age.Runtime.Workspace.Host.{
  Host, Machine, run_exec, child, exists, exists_in, make_directory, remove_tree, locked,
  on_failure, new_environment,
}

-- What the providers read of the settings: `auth_env` is `git_environment(settings)`.
pub record Settings : Type 0 where
  pub workspace_root : String
  pub repo_cache : String
  pub auth_env : Environ
  pub sha256 : String → String

abbrev local_workspace : String → String → Dict String → Workspace
local_workspace environment_id root repositories = record {
  environment_id = environment_id;
  root = root;
  repositories = repositories;
  container_name = none;
  container_workspace_root = none;
  slot_id = none;
}

-- `{repo_name(spec): root / repo_name(spec) for spec in repositories}`
abbrev pub named_paths : String → List RepositorySpec → Dict String → Dict String
named_paths root [] paths = paths
named_paths root (spec ∷ rest) paths =
    named_paths root rest (Dict.put (repo_name spec) (child root (repo_name spec)) paths)

-- the path of a repository is its name below the root, as `populate` and `attach` make it
abbrev pub healthy : Workspace → Host → Bool
healthy workspace h =
    exists workspace.root h
    && all_of (λ name. exists_in workspace.root name h) (Dict.keys workspace.repositories)

abbrev pub when_healthy : Workspace → Bool → Option Workspace
when_healthy workspace true = some workspace
when_healthy workspace false = none

unfoldable pub release : Machine → Workspace → Bool → Action Host Unit
release machine workspace destroy_workspace =
    if destroy_workspace then remove_tree machine workspace.root else pure tt

module _ (machine : Machine) (settings : Settings) where
  abbrev pub mirror_of : String → String
  mirror_of url = child settings.repo_cache (settings.sha256 url <> ".git")

  abbrev pub lock_of : String → String
  lock_of url = child settings.repo_cache (settings.sha256 url <> ".lock")

  -- the mirror brought up to date, or made
  unfoldable pub refresh : String → Bool → Action Host String
  refresh url known =
      if known
      then run_exec machine ("git" ∷ "remote" ∷ "update" ∷ "--prune" ∷ []) (some (mirror_of url))
          (some settings.auth_env) 600
      else run_exec machine ("git" ∷ "clone" ∷ "--mirror" ∷ url ∷ mirror_of url ∷ []) none
          (some settings.auth_env) 600

  unfoldable pub update_mirror : String → Action Host String
  unfolding refresh
  update_mirror url = do known ← gets (exists (mirror_of url)); refresh url known

  unfoldable pub git_in : String → List String → Action Host String
  git_in path args = run_exec machine ("git" ∷ args) (some path) none 600

  -- the body of the loop: the clone of one repository
  unfoldable pub populate_one : String → String → RepositorySpec → Action Host String
  unfolding update_mirror git_in
  populate_one root task_id spec = do
    locked machine (lock_of spec.url) (update_mirror spec.url)
    let destination = child root (repo_name spec)
    run_exec machine
        ("git" ∷ "clone" ∷ "--branch" ∷ spec.base_branch ∷ mirror_of spec.url ∷ destination ∷ [])
        none none 600
    git_in destination ("remote" ∷ "set-url" ∷ "origin" ∷ spec.url ∷ [])
    git_in destination ("checkout" ∷ "-b" ∷ ("agent/" <> task_id) ∷ [])
    git_in destination ("config" ∷ "user.name" ∷ "Minion Agent" ∷ [])
    git_in destination ("config" ∷ "user.email" ∷ "minion-agent@localhost" ∷ [])
    pure destination

  unfoldable pub populate_each :
      String → String → List RepositorySpec → Dict String → Action Host (Dict String)
  unfolding populate_one
  populate_each root task_id [] result = pure result
  populate_each root task_id (spec ∷ rest) result =
      populate_one root task_id spec >>= λ destination.
      populate_each root task_id rest (Dict.put (repo_name spec) destination result)

  unfoldable pub populate : String → String → List RepositorySpec → Action Host (Dict String)
  unfolding populate_each
  populate root task_id repositories = populate_each root task_id repositories []

  unfoldable pub allocate : String → List RepositorySpec → Action Host Workspace
  unfolding populate
  allocate task_id repositories = do
    environment_id ← new_environment
    let root = child settings.workspace_root environment_id
    make_directory machine root
    on_failure
        (populate root task_id repositories >>= λ repos.
          pure (local_workspace environment_id root repos))
        (remove_tree machine root)

  unfoldable pub attach : String → List RepositorySpec → Action Host (Option Workspace)
  attach environment_id repositories = do
    let root = child settings.workspace_root environment_id
    found ← gets (exists root)
    if not found then pure none else do
      let workspace = local_workspace environment_id root (named_paths root repositories [])
      well ← gets (healthy workspace)
      pure (when_healthy workspace well)
