-- ===== src/Runtime/Tools/Commands.antt =====
-- src/minion/runtime/tools.py: the handlers that run a command.
pub mod Patches
pub mod Searches
use Prim.Native.String.{len}
use software_engineering_age.Prelude.{
  String, ◌<>◌, Bool, true, false, not, Option, none, some, List, [], ◌∷◌, ltb, get_or,
  if◌then◌else◌,
}
use software_engineering_age.Prelude.Text
use software_engineering_age.Prelude.Dict
use software_engineering_age.Domain.{Payload, Value, payload_get, str}
use software_engineering_age.Effects.{
  Action, Result, ok, err, external, pure, lift, modify, finally, ◌>>=◌, ◌>>◌,
}
use software_engineering_age.Runtime.Values.{argument, str_of, truthy}
use software_engineering_age.Runtime.Policy.{strip}
use software_engineering_age.Runtime.Tools.{Toolbox, ToolResult, Disk, repo_of, command, failure}
use software_engineering_age.Runtime.Tools.Quoting.{quote}
use software_engineering_age.Runtime.Tools.Files.{write_text}

-- `repo / ".minion-agent.patch"`: the name in the repository's directory, and the file that a write
-- to that name goes to, which is another one where the name is a link
abbrev pub patch_file : Toolbox → String → String
patch_file tools repo = tools.joined (tools.resolve repo) ".minion-agent.patch"

abbrev pub patch_target : Toolbox → String → String
patch_target tools repo = tools.resolve (tools.joined repo ".minion-agent.patch")

-- `path.unlink(missing_ok=True)`, which follows no link at the end of the path
unfoldable pub unlink : Toolbox → String → Action Disk Unit
unlink tools path d = elim (tools.keeps path d) [
  | some e ↦ (err (external e), d)
  | none ↦ (ok tt, record d { files = Dict.remove path d.files })
]

abbrev pub apply_command : String
apply_command =
    "git apply --check .minion-agent.patch && git apply --whitespace=nowarn .minion-agent.patch"

-- the patch that was accepted
unfoldable pub apply_at : Toolbox → Value → String → String → Action Disk ToolResult
unfolding unlink
apply_at tools name repo patch = do
  write_text tools (patch_target tools repo) patch
  finally (command tools name (str apply_command)) (unlink tools (patch_file tools repo))

unfoldable pub apply_patch : Toolbox → Payload → Action Disk ToolResult
unfolding apply_at
apply_patch tools args = do
  name ← lift (argument "repo" args)
  repo ← lift (repo_of tools args)
  value ← lift (argument "patch" args)
  let patch = str_of tools.python.shown value
  if not (Text.nonempty (strip patch))
      then pure (failure "patch is empty")
      else (if ltb 500000 (len patch)
          then pure (failure "patch rejected: patch exceeds 500 KB")
          else (apply_at tools name repo patch))

-- `shlex.quote` of a value: it takes an empty one of any type
abbrev pub quoted : Value → Result String
quoted (str s) = ok (quote s)
quoted v = if truthy v then err (external "TypeError") else ok "''"

abbrev pub grep_command : String → String
grep_command query = "git grep -n -I -e " <> (query <> " || true")

unfoldable pub search_code : Toolbox → Payload → Action Disk ToolResult
search_code tools args = do
  value ← lift (argument "query" args)
  query ← lift (quoted value)
  name ← lift (argument "repo" args)
  command tools name (str (grep_command query))

unfoldable pub run_command : Toolbox → Payload → Action Disk ToolResult
run_command tools args = do
  name ← lift (argument "repo" args)
  value ← lift (argument "command" args)
  command tools name value

-- a command that is always the same
unfoldable pub fixed : String → Toolbox → Payload → Action Disk ToolResult
fixed text tools args = do name ← lift (argument "repo" args); command tools name (str text)

abbrev pub git_diff : Toolbox → Payload → Action Disk ToolResult
git_diff = fixed "git diff --"

abbrev pub git_status : Toolbox → Payload → Action Disk ToolResult
git_status = fixed "git status --short"

abbrev pub commit_command : String → String
commit_command message =
    "git add -A && git commit -m " <> (message <> " --allow-empty && git rev-parse HEAD")

unfoldable pub checkpoint : Toolbox → Payload → Action Disk ToolResult
checkpoint tools args = do
  message ← lift (quoted (get_or (payload_get "message" args) (str "agent checkpoint")))
  name ← lift (argument "repo" args)
  command tools name (str (commit_command message))
