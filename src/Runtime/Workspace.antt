-- ===== src/Runtime/Workspace.antt =====
-- src/minion/runtime/workspace.py: a workspace and the names in it. `Host` is the machine, `Local`
-- and `Docker` are the two providers.
pub mod Host
pub mod Local
pub mod Docker
use software_engineering_age.Prelude.{
  String, ◌<>◌, Bool, true, false, not, Option, none, some, List, ◌==◌, if◌then◌else◌,
}
use text.Mathlib.Text.{starts_with}
use software_engineering_age.Prelude.Text
use software_engineering_age.Prelude.Dict
use software_engineering_age.Prelude.Dict.{Dict}
use software_engineering_age.Domain.{RepositorySpec}
use software_engineering_age.Effects.{Result, chain, ok, err, environment_error, value_error}

pub record Workspace : Type 0 where
  pub environment_id : String
  pub root : String
  pub repositories : Dict String  -- each repository's name and path
  pub container_name : Option String
  pub container_workspace_root : Option String
  pub slot_id : Option String

pub record WarmSlot : Type 0 where
  pub slot_id : String
  pub container_name : String
  pub host_root : String

abbrev pub repo_path : Workspace → String → Result String
repo_path workspace name = elim (Dict.get name workspace.repositories) [
  | none ↦ err (environment_error ("unknown repository '" <> name <> "'"))
  | some path ↦ ok path
]

-- `str(path.relative_to(root))`
abbrev pub relative_to : String → String → Result String
relative_to root path =
    if path == root
    then ok "."
    else if starts_with path (root <> "/")
    then ok (Text.drop (Text.length (root <> "/")) path)
    else err (value_error (path <> " is not in the subpath of " <> root))

-- a container path that is missing or empty
abbrev pub container_root : Option String → Result String
container_root none = err (environment_error "workspace has no container path")
container_root (some root) =
    if Text.nonempty root
    then ok root
    else err (environment_error "workspace has no container path")

abbrev pub container_repo_path : Workspace → String → Result String
container_repo_path workspace name =
    chain (container_root workspace.container_workspace_root) λ root.
      chain (repo_path workspace name) λ path.
        chain (relative_to workspace.root path)
          λ relative. ok (Text.strip_slashes root <> "/" <> relative)

abbrev pub or_else_text : String → String → String
or_else_text s other = if Text.nonempty s then s else other

-- the name that a URL ends in
abbrev pub url_name : String → String
url_name url =
    or_else_text (Text.remove_suffix ".git" (Text.last_segment (Text.strip_slashes url))) "repo"

abbrev pub repo_name : RepositorySpec → String
repo_name spec = elim spec.name [
  | none ↦ url_name spec.url
  | some name ↦ or_else_text name (url_name spec.url)
]
