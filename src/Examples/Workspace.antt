-- ===== src/Examples/Workspace.antt =====
-- The properties of the workspaces at concrete inputs.
use mathlib.Core.List.{Perm}
use software_engineering_age.Prelude.{
  List, ◌≡◌, refl, true, false, none, some, [], ◌∷◌, arith, eq_iff,
}
use software_engineering_age.Prelude.Dict
use software_engineering_age.Domain.{RepositorySpec}
use software_engineering_age.Effects.{finally, ok, pure, gets, modify, lift, catching, ◌>>=◌}
use software_engineering_age.Runtime.Workspace.{Workspace, WarmSlot}
use software_engineering_age.Runtime.Workspace.Host.{
  Host, Machine, succeeded, move, run_exec, make_directory, draw, new_environment, claim,
  on_failure, locked, remove_tree,
}
use software_engineering_age.Runtime.Workspace.Local.{
  Settings, populate, populate_each, populate_one, update_mirror, refresh, git_in,
}
use software_engineering_age.Runtime.Workspace.Docker.Slots.{DockerSettings}
use software_engineering_age.Runtime.Workspace.Docker.{
  docker_workspace, attach_in, park, allocate, allocate_in, with_slot, occupy, release,
}
use software_engineering_age.Runtime.Workspace.Docker.Pool.{IsConfined, IsObeyed}
use software_engineering_age.Runtime.Workspace.Docker.Clients.{
  Clients, owned, IsRegistered, allocates, releases, after,
}
use software_engineering_age.Runtime.Workspace.Docker.Conservation.{
  Steps, nothing, then_steps, slots_conserved,
}
use software_engineering_age.Runtime.Workspace.Docker.Parking.{recovered, attach_in-park}

-- a machine whose processes print "true", without anything that is refused
abbrev machine : Machine
machine = record {
  process = λ args cwd env timeout h. (ok (succeeded "true"), h);
  acquire = λ lock. pure tt;
  release = λ lock. pure tt;
  refuses = λ call h. none;
}

abbrev local : Settings
local = record { workspace_root = "/w"; repo_cache = "/c"; auth_env = []; sha256 = λ url. url }

abbrev settings : DockerSettings
settings = record {
  local = local;
  warm_root = "/s";
  warm_pool_size = 1;
  docker_image = "image";
  docker_pull_image = false;
  docker_pids_limit = 9;
  docker_memory = "1g";
  docker_cpus = "1";
  docker_network = "none";
  dep_cache = λ name. name;
  resolve = λ path. path;
}

abbrev slot : WarmSlot
slot = record { slot_id = "a"; container_name = "minion-warm-a"; host_root = "/s/a" }

abbrev host : Host
host = record {
  directories = ("/s/a", []) ∷ ("/s/a/env_1", "app" ∷ []) ∷ [];
  uuid4 = λ n. "2";
  drawn = 0;
  pool = slot ∷ [];
  slots = ("a", slot) ∷ [];
}

abbrev app : RepositorySpec
app = record { url = "https://h/app.git"; base_branch = "main"; name = none }

confined : IsConfined machine
unfolding pure
confined = record {
  process = λ args cwd env timeout. record { at = λ h. record { pool = refl; slots = refl } };
  acquire = λ lock. record { at = λ h. record { pool = refl; slots = refl } };
  release = λ lock. record { at = λ h. record { pool = refl; slots = refl } };
}

obeyed : IsObeyed machine
obeyed = record { refuses = λ call h. refl }

registered : IsRegistered host
registered = record { keyed = λ key s found. ground (arith, eq_iff "a" key); free = (refl, tt) }

abbrev clients : Clients
clients = record { host = host; leased = docker_workspace "env_1" "/s/b/env_1" [] slot ∷ [] }

abbrev free_slot : Clients
free_slot = record { host = host; leased = [] }

abbrev new_workspace : Workspace
new_workspace = docker_workspace "env_2" "/s/a/env_2" (("app", "/s/a/env_2/app") ∷ []) slot

abbrev worked_in : Workspace
worked_in = docker_workspace "env_1" "/s/a/env_1" [] slot

attach_in-park_example :
    let (r, h') =
      attach_in machine settings slot "env_1" (app ∷ []) (park machine settings worked_in host).1 in
    (r ≡ ok (recovered machine settings slot "env_1" (app ∷ [])))
    × (Dict.get "/s/a/env_1" h'.directories ≡ some ("app" ∷ []))
unfolding park move remove_tree ◌>>=◌
attach_in-park_example =
    attach_in-park machine settings worked_in slot (app ∷ []) ("app" ∷ []) host obeyed
      (record { state = λ h. refl }) refl refl refl refl

-- a client that has got a workspace, and that has given it back
abbrev working : Clients
working = after (allocate machine settings "t1" (app ∷ []) host) []

abbrev idle : Clients
idle = record { host = (release machine settings new_workspace true working.host).1; leased = [] }

steps : Steps machine settings free_slot idle
unfolding allocate claim with_slot allocate_in new_environment draw make_directory occupy populate
    populate_each populate_one update_mirror refresh git_in run_exec locked finally on_failure
    catching gets modify lift pure ◌>>=◌
steps =
    then_steps (allocates "t1" (app ∷ []) (refl, tt))
      (then_steps (releases {c = working} [] [] new_workspace true refl) nothing)

slots_conserved_example : IsRegistered idle.host × Perm (owned idle) (slot ∷ [])
slots_conserved_example = slots_conserved machine settings confined obeyed steps registered

-- a machine whose file system refuses everything
abbrev broken : Machine
broken = record machine { refuses = λ call h. some ("OSError", h.directories) }

abbrev slot_less : Clients
slot_less = after (allocate broken settings "t1" (app ∷ []) host) []

-- the slot is lost, since its directory cannot be made
slot_lost_test : slot_less.host.pool ≡ []
unfolding allocate claim with_slot allocate_in new_environment draw make_directory pure ◌>>=◌
slot_lost_test = refl
