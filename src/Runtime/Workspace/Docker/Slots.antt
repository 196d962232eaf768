-- ===== src/Runtime/Workspace/Docker/Slots.antt =====
-- src/minion/runtime/workspace.py: the settings of the Docker provider, the arguments that a warm
-- container is started with, and the listing of its directories.
use software_engineering_age.Prelude.{
  ℕ, String, ◌<>◌, Bool, true, false, not, ◌&&◌, List, [], ◌∷◌, if◌then◌else◌,
}
use text.Mathlib.Text.{starts_with}
use software_engineering_age.Prelude.Text
use software_engineering_age.Runtime.Values.{decimal}
use software_engineering_age.Runtime.Policy.{is_space}
use software_engineering_age.Runtime.Workspace.Host.{child}
use software_engineering_age.Runtime.Workspace.Local.{Settings}

-- `dep_cache` and `resolve` give the path of a dependency cache and the absolute path of a path.
pub record DockerSettings : Type 0 where
  pub local : Settings
  pub warm_root : String
  pub warm_pool_size : ℕ
  pub docker_image : String
  pub docker_pull_image : Bool
  pub docker_pids_limit : ℕ
  pub docker_memory : String
  pub docker_cpus : String
  pub docker_network : String
  pub dep_cache : String → String
  pub resolve : String → String

abbrev pub pool_label : String
pool_label = "minion.warm_pool=true"

-- `-v` with one of the caches
abbrev cache_mount : DockerSettings → String → String → String
cache_mount settings name inside = settings.resolve (settings.dep_cache name) <> ":" <> inside

abbrev pub run_arguments : DockerSettings → String → String → List String
run_arguments settings name slot_root =
    "run"
    ∷ "-d"
    ∷ "--name"
    ∷ name
    ∷ "--label"
    ∷ pool_label
    ∷ "--cap-drop"
    ∷ "ALL"
    ∷ "--security-opt"
    ∷ "no-new-privileges"
    ∷ "--pids-limit"
    ∷ decimal settings.docker_pids_limit
    ∷ "--memory"
    ∷ settings.docker_memory
    ∷ "--cpus"
    ∷ settings.docker_cpus
    ∷ "--network"
    ∷ settings.docker_network
    ∷ "-v"
    ∷ (settings.resolve slot_root <> ":/workspace")
    ∷ "-v"
    ∷ cache_mount settings "pip" "/root/.cache/pip"
    ∷ "-v"
    ∷ cache_mount settings "npm" "/root/.npm"
    ∷ "-v"
    ∷ cache_mount settings "m2" "/root/.m2"
    ∷ "-v"
    ∷ cache_mount settings "gradle" "/root/.gradle"
    ∷ "-v"
    ∷ cache_mount settings "go" "/root/go/pkg/mod"
    ∷ settings.docker_image
    ∷ "sleep"
    ∷ "infinity"
    ∷ []

abbrev begins_word : String → Bool
begins_word String.[] = false
begins_word (String.◌∷◌ c s) = not (is_space c)

abbrev extend : Bool → String → List String → List String
extend true c (w ∷ ws) = (c <> w) ∷ ws
extend _ c ws = c ∷ ws

-- `s.split()`
abbrev pub words : String → List String
words String.[] = []
words (String.◌∷◌ c s) =
    let rest = words s in
    if is_space c then rest else extend (begins_word s) (String.◌∷◌ c String.[]) rest

-- the names of the directories in a directory, of these paths
abbrev pub subdirectories : String → List String → List String
subdirectories path [] = []
subdirectories path (p ∷ rest) =
    let names = subdirectories path rest in
    let name = Text.drop (Text.length (child path "")) p in
    if starts_with p (child path "") && not (Text.has "/" name) then name ∷ names else names
