-- ===== src/Runtime/Tools.antt =====
-- src/minion/runtime/tools.py: what the tools of a workspace share, the confinement of paths and
-- `_command`. Quoting is shlex.quote; Files, Queries and Commands are the handlers; Registry is the
-- table of the tools and `execute`.
pub mod Quoting
pub mod Files
pub mod Queries
pub mod Commands
pub mod Registry
use software_engineering_age.Prelude.{
  ℤ, ℕ, zero, suc, String, ◌<>◌, Bool, true, false, not, ◌&&◌, ◌||◌, Option, none, some, List, [],
  ◌∷◌, eqb, ◌==◌, if◌then◌else◌,
}
use text.Mathlib.Text.{starts_with}
use software_engineering_age.Prelude.Text
use software_engineering_age.Prelude.Dict
use software_engineering_age.Prelude.Dict.{Dict}
use software_engineering_age.Domain.{Payload, Value, payload_get, str, obj, arr}
use software_engineering_age.Effects.{
  Action, Exn, Result, chain, ok, err, environment_error, tool_execution_error, external, pure,
  raise, lift, gets, ◌>>=◌, ◌>>◌,
}
use software_engineering_age.Security.{Environ, safe_child_environment}
use software_engineering_age.Runtime.Values.{PythonText, argument, decimal}
use software_engineering_age.Runtime.CodeIndex.{Manifest, TextLibrary}
use software_engineering_age.Runtime.CodeIndex.Build.{Store, Checkout, FileLock}
use software_engineering_age.Runtime.Policy.{Mode, evaluate}
use software_engineering_age.Runtime.Workspace.{
  Workspace, repo_path, container_repo_path, container_root,
}

pub record ToolResult : Type 0 where
  pub ok? : Bool
  pub output : String

-- The text of each file, under its absolute path, and the cache of the index, which lies elsewhere.
pub record Disk : Type 0 where
  pub files : Dict String
  pub cache : Store

-- What `create_subprocess_exec` and `create_subprocess_shell` start.
pub data Process : Type 0 where
  exec_args : List String → Process
  shell : String → String → Process  -- the command and where it runs

pub data Ended : Type 0 where
  exited : ℕ → String → Ended
  timed_out : Ended

-- A path that `rglob` finds.
pub record Entry : Type 0 where
  pub path : String
  pub is_dir : Bool

-- `RepositoryContextIndex` as the tools call it: what it uses of Python's library and of file locks,
-- the checked-out repository at a path, and the payload of each query on a manifest.
pub record Index : Type 0 where
  pub lib : TextLibrary
  pub lock : FileLock
  pub sha256 : String → String
  pub checkout : String → Dict String → Checkout
  pub overview : Manifest → Result Value
  pub search : String → ℤ → Manifest → Result Value
  pub symbol_context : String → ℤ → Manifest → Result Value
  pub impact_analysis : String → ℤ → Manifest → Result Value
  pub dependency_hints : Value → Manifest → Result Value
  pub stats : Manifest → Result Value

-- `ToolRegistry`, with what it uses of the machine and of Python: `resolve` is `Path.resolve`,
-- `joined` is `repo / relative`, `refuses` is the OSError of a write that fails, with what the file
-- has then if that is not what it had, `keeps` that of a removal, `rglob` lists what is below a path in the order of the paths, `int` is Python's `int`, and
-- `class_of` and `is_expected` tell of an exception of Python's library its class, and whether that is
-- OSError, RuntimeError, ValueError, KeyError or one of theirs.
pub record Toolbox : Type 0 where
  pub workspace : Workspace
  pub command_timeout : ℕ
  pub index : Index
  pub mode : Mode
  pub mcp : Option (String → Payload → Action Disk (Bool × String))
  pub finds : String → String → Bool
  pub environ : Environ
  pub run : Process → Environ → ℕ → Action Disk Ended
  pub python : PythonText
  pub int : Value → Result ℤ
  pub splitlines : String → List String
  pub resolve : String → String
  pub joined : String → String → String
  pub refuses : String → String → Disk → Option (String × Option String)
  pub keeps : String → Disk → Option String
  pub rglob : String → Disk → List Entry
  pub class_of : String → String
  pub is_expected : String → Bool

abbrev pub success : String → ToolResult
success output = record { ok? = true; output = output }

abbrev pub failure : String → ToolResult
failure output = record { ok? = false; output = output }

-- the path itself, or one below it
abbrev pub is_within : String → String → Bool
is_within base path = path == base || starts_with path (base <> "/")

-- `_safe_path`, with the path as the model gave it
abbrev pub safe_path : Toolbox → String → Value → Result String
safe_path tools repo (str relative) =
    let candidate = tools.resolve (tools.joined repo relative) in
    if is_within (tools.resolve repo) candidate
    then ok candidate
    else err (tool_execution_error "path escapes repository")
safe_path tools repo _ = err (external "TypeError")

-- `self.workspace.repo_path(name)`: no name but a text is one of a repository
abbrev pub path_named : Toolbox → Value → Result String
path_named tools (str name) = repo_path tools.workspace name
path_named tools (obj fields) = err (external "TypeError")
path_named tools (arr items) = err (external "TypeError")
path_named tools v = err (environment_error ("unknown repository " <> tools.python.shown v))

-- `_repo`
abbrev pub repo_of : Toolbox → Payload → Result String
repo_of tools args = chain (argument "repo" args) (path_named tools)

-- `self.workspace.container_repo_path(name)`
abbrev pub container_path_named : Toolbox → Value → Result String
container_path_named tools (str name) = container_repo_path tools.workspace name
container_path_named tools v = elim (container_root tools.workspace.container_workspace_root) [
  | ok root ↦ path_named tools v
  | err e ↦ err e
]

-- `int(args.get(key, default))`
abbrev pub int_at : Toolbox → String → ℤ → Payload → Result ℤ
int_at tools key default args = elim (payload_get key args) [
  | none ↦ ok default
  | some v ↦ tools.int v
]

-- a command that is not a text has no `strip`
abbrev pub command_text : Value → Result String
command_text (str command) = ok command
command_text _ = err (external "AttributeError")

abbrev in_container : Option String → Option String
in_container none = none
in_container (some name) = if Text.nonempty name then some name else none

-- where the command is run: in the container, if the workspace has one
unfoldable pub process_for : Toolbox → Value → String → Result Process
process_for tools name command = elim (in_container tools.workspace.container_name) [
  | none ↦ elim (path_named tools name) [ ok path ↦ ok (shell command path) | err e ↦ err e ]
  | some container ↦ elim (container_path_named tools name) [
    | ok cwd ↦
        ok (exec_args ("docker" ∷ "exec" ∷ "-w" ∷ cwd ∷ container ∷ "sh" ∷ "-lc" ∷ command ∷ []))
    | err e ↦ err e
  ]
]

abbrev pub report : Toolbox → Ended → ToolResult
report tools (exited code output) = record {
  ok? = eqb code 0;
  output = Text.last_chars 30000 output;
}
report tools timed_out =
    failure ("command timed out after " <> decimal tools.command_timeout <> "s")

-- the process of a command that the policy lets through
unfoldable pub run_process : Toolbox → Value → String → Action Disk ToolResult
run_process tools name command = do
  process ← lift (process_for tools name command)
  ended ← tools.run process (safe_child_environment none tools.environ) tools.command_timeout
  pure (report tools ended)

-- `_command`
unfoldable pub command : Toolbox → Value → Value → Action Disk ToolResult
unfolding run_process
command tools name value = do
  text ← lift (command_text value)
  let decision = evaluate tools.finds tools.mode text
  if not decision.allowed
      then pure (failure ("command blocked by policy: " <> decision.reason))
      else (run_process tools name text)
