-- ===== src/Runtime/Workspace/Docker.antt =====
-- src/minion/runtime/workspace.py: `DockerEnvironmentProvider`, warm containers that each mount one
-- slot of the host. An environment's directory is in the slot of its container while it is worked
-- on, and in the workspace root while it is parked.
pub mod Slots
pub mod Pool
pub mod Parking
pub mod Returns
pub mod Clients
pub mod Claims
pub mod Releases
pub mod Conservation
pub mod Losses
pub mod Sharing
use Prim.Native.String
use software_engineering_age.Prelude.{
  ℕ, zero, suc, max, String, ◌<>◌, Bool, true, false, not, ◌&&◌, Option, none, some, List, [], ◌∷◌,
  ◌++◌, ◌==◌, all_of, if◌then◌else◌,
}
use text.Mathlib.Text.{starts_with}
use software_engineering_age.Prelude.Text
use software_engineering_age.Prelude.Dict
use software_engineering_age.Prelude.Dict.{Dict}
use software_engineering_age.Domain.{RepositorySpec}
use software_engineering_age.Effects.{
  Action, Exn, environment_error, pure, raise, gets, modify, catching, for_each, ◌>>=◌, ◌>>◌,
}
use software_engineering_age.Runtime.Values.{decimal}
use software_engineering_age.Runtime.Policy.{strip}
use software_engineering_age.Runtime.Workspace.{Workspace, WarmSlot}
use software_engineering_age.Runtime.Workspace.Host.{
  Host, Machine, run_exec, child, exists, exists_in, make_directory, remove_tree, move, draw,
  put_slot, claim, on_failure, new_environment,
}
use software_engineering_age.Runtime.Workspace.Local
use software_engineering_age.Runtime.Workspace.Docker.Slots.{
  DockerSettings, pool_label, run_arguments, words, subdirectories,
}

-- `except EnvironmentError`: any other exception goes on
abbrev pub sort_environment_error : {A : Type 0} → (String → Action Host A) → Exn → Action Host A
sort_environment_error handler (environment_error e) = handler e
sort_environment_error handler e = raise e

unfoldable pub on_environment_error :
    {A : Type 0} → Action Host A → (String → Action Host A) → Action Host A
on_environment_error m handler = catching m (sort_environment_error handler)

-- `{repo_name(spec): target / repo_name(spec) …}` in a container's workspace
abbrev pub docker_workspace : String → String → Dict String → WarmSlot → Workspace
docker_workspace environment_id root repositories slot = record {
  environment_id = environment_id;
  root = root;
  repositories = repositories;
  container_name = some slot.container_name;
  container_workspace_root = some ("/workspace/" <> environment_id);
  slot_id = some slot.slot_id;
}

abbrev pub slot_key : Option String → String
slot_key none = ""
slot_key (some id) = id

-- `self._slots.get(workspace.slot_id or "")`
abbrev pub slot_of : Dict WarmSlot → Workspace → Option WarmSlot
slot_of slots workspace = Dict.get (slot_key workspace.slot_id) slots

abbrev put_back : Option WarmSlot → Action Host Unit
put_back none = pure tt
put_back (some slot) = put_slot slot

-- the parked directory goes back if the recovery fails
unfoldable pub undo_attach : Machine → WarmSlot → String → String → String → Action Host Unit
undo_attach machine slot environment_id target persistent = do
  moved ← gets (exists target)
  parked ← gets (exists persistent)
  if moved && not parked then move machine environment_id target persistent else pure tt
  put_slot slot

-- for a slot that is free, or none where the caller waits for one
unfoldable pub with_slot :
    (WarmSlot → Action Host Workspace) → Option WarmSlot → Action Host (Option Workspace)
with_slot use_slot none = pure none
with_slot use_slot (some slot) = use_slot slot >>= λ workspace. pure (some workspace)

module _ (machine : Machine) (settings : DockerSettings) where
  abbrev pub docker : List String → ℕ → Action Host String
  docker args timeout = run_exec machine ("docker" ∷ args) none none timeout

  unfoldable pub ensure_image : Action Host Unit
  ensure_image =
      on_environment_error
        (docker ("image" ∷ "inspect" ∷ settings.docker_image ∷ []) 600 >>= λ _. pure tt)
        (λ e.
          if not settings.docker_pull_image
          then raise (
              environment_error (
                "Docker image '" <> settings.docker_image
                <> "' does not exist. Build it with make sandbox or enable MINION_DOCKER_PULL_IMAGE."))
          else (docker ("pull" ∷ settings.docker_image ∷ []) 1200 >>= λ _. pure tt))

  -- one directory of a stale slot, moved to where it is parked unless it is there
  unfoldable pub archive_child : String → String → Action Host Unit
  archive_child slot_dir name =
      if not (starts_with name "env_")
      then pure tt
      else (gets (exists (child settings.local.workspace_root name)) >>= λ parked.
          if parked
          then remove_tree machine (child slot_dir name)
          else move machine name (child slot_dir name) (child settings.local.workspace_root name))

  unfoldable pub archive_slot : String → Action Host Unit
  unfolding archive_child
  archive_slot slot_id = do
    let slot_dir = child settings.warm_root slot_id
    children ← gets (λ h. subdirectories slot_dir (Dict.keys h.directories))
    for_each children (archive_child slot_dir)
    remove_tree machine slot_dir

  unfoldable pub archive_stale_slot_workspaces : Action Host Unit
  unfolding archive_slot
  archive_stale_slot_workspaces = do
    slot_dirs ← gets (λ h. subdirectories settings.warm_root (Dict.keys h.directories))
    for_each slot_dirs archive_slot

  unfoldable pub new_slot : Action Host WarmSlot
  new_slot = do
    hex ← draw
    let slot_id = Text.take 12 hex
    let slot_root = child settings.warm_root slot_id
    make_directory machine slot_root
    let name = "minion-warm-" <> slot_id
    docker (run_arguments settings name slot_root) 300
    let slot : WarmSlot = record { slot_id = slot_id; container_name = name; host_root = slot_root }
    modify (λ h. record h { slots = Dict.put slot_id slot h.slots })
    pure slot

  unfoldable pub remove_container : String → Action Host Unit
  remove_container name =
      on_environment_error (docker ("rm" ∷ "-f" ∷ name ∷ []) 600 >>= λ _. pure tt) (λ e. pure tt)

  unfoldable pub remove_old_containers : Action Host Unit
  unfolding remove_container
  remove_old_containers =
      on_environment_error
        (docker ("ps" ∷ "-aq" ∷ "--filter" ∷ ("label=" <> pool_label) ∷ []) 600 >>= λ old.
          for_each (words old) remove_container)
        (λ e. pure tt)

  -- `for _ in range(n): pool.put(new_slot())`
  unfoldable pub fill : ℕ → Action Host Unit
  unfolding new_slot
  fill zero = pure tt
  fill (suc n) = new_slot >>= λ slot. put_slot slot >>= λ _. fill n

  unfoldable pub prepare : Action Host Unit
  unfolding ensure_image remove_old_containers archive_stale_slot_workspaces fill
  prepare = do
    ensure_image
    remove_old_containers
    archive_stale_slot_workspaces
    fill (max 1 settings.warm_pool_size)

  -- the repositories of a new environment in a slot, which goes back if that fails
  unfoldable pub occupy : WarmSlot → String → List RepositorySpec → String → Action Host Workspace
  occupy slot task_id repositories environment_id =
      let root = child slot.host_root environment_id in
      on_failure (Local.populate machine settings.local root task_id repositories)
        (remove_tree machine root >>= λ _. put_slot slot)
      >>= λ repos. pure (docker_workspace environment_id root repos slot)

  -- `allocate` in the slot that was claimed
  unfoldable pub allocate_in : WarmSlot → String → List RepositorySpec → Action Host Workspace
  unfolding occupy
  allocate_in slot task_id repositories = do
    environment_id ← new_environment
    make_directory machine (child slot.host_root environment_id)
    occupy slot task_id repositories environment_id

  unfoldable pub allocate : String → List RepositorySpec → Action Host (Option Workspace)
  unfolding allocate_in with_slot
  allocate task_id repositories =
      claim >>= with_slot (λ slot. allocate_in slot task_id repositories)

  -- `docker inspect` says that the container runs
  unfoldable pub is_running : Option String → Action Host Bool
  is_running none = pure false
  is_running (some name) =
      on_environment_error
        (docker ("inspect" ∷ "-f" ∷ "{{.State.Running}}" ∷ name ∷ []) 600 >>= λ state.
          pure (strip state == "true"))
        (λ e. pure false)

  unfoldable pub healthy : Workspace → Action Host Bool
  unfolding is_running
  healthy workspace = do
    present ← gets (Local.healthy workspace)
    if not present then pure false else is_running workspace.container_name

  unfoldable pub attach_in : WarmSlot → String → List RepositorySpec → Action Host Workspace
  unfolding undo_attach healthy
  attach_in slot environment_id repositories =
      let persistent = child settings.local.workspace_root environment_id in
      let target = child slot.host_root environment_id in
      let workspace =
        docker_workspace environment_id target (Local.named_paths target repositories []) slot in
      on_failure
        (move machine environment_id persistent target >>= λ _. healthy workspace >>= λ well.
          if well
          then pure workspace
          else raise (environment_error "recovered Docker workspace is unhealthy"))
        (undo_attach machine slot environment_id target persistent)

  unfoldable pub attach : String → List RepositorySpec → Action Host (Option Workspace)
  unfolding attach_in
  attach environment_id repositories = do
    parked ← gets (exists (child settings.local.workspace_root environment_id))
    if not parked
        then pure none
        else (claim >>= with_slot (λ slot. attach_in slot environment_id repositories))

  -- the directory of a workspace that is kept, put where it is parked
  unfoldable pub park : Workspace → Action Host Unit
  park workspace = do
    let target = child settings.local.workspace_root workspace.environment_id
    stale ← gets (exists target)
    if stale then remove_tree machine target else pure tt
    present ← gets (exists workspace.root)
    if present then move machine workspace.environment_id workspace.root target else pure tt

  unfoldable pub release : Workspace → Bool → Action Host Unit
  unfolding park
  release workspace destroy_workspace = do
    slot ← gets (λ h. slot_of h.slots workspace)
    if destroy_workspace then remove_tree machine workspace.root else park workspace
    put_back slot

  unfoldable pub shutdown : Action Host Unit
  unfolding remove_container
  shutdown = do
    slots ← gets (λ h. Dict.values h.slots)
    for_each slots (λ slot. remove_container slot.container_name)
    modify (λ h. record h { slots = [] })
