-- ===== src/Runtime/Tools/Registry.antt =====
-- src/minion/runtime/tools.py: the tools with their schemas, and `ToolRegistry.execute`.
pub mod Errors
pub mod ReadOnly
use software_engineering_age.Prelude.{
  ℕ, String, ◌<>◌, ◌≡◌, refl, Bool, true, false, not, ◌&&◌, Option, none, some, List, [], ◌∷◌, ◌++◌,
  map, ◌==◌, if◌then◌else◌,
}
use text.Mathlib.Text.{starts_with}
use software_engineering_age.Domain.{
  Payload, Value, Fields, Items, str, num, obj, arr, field, end, cons, nil, texts,
}
use software_engineering_age.Effects.{
  Action, Exn, Result, ok, err, invalid_state_transition, environment_error, tool_execution_error,
  authorization_error, key_error, runtime_error, value_error, external, cancelled_error, str_exn,
  pure, raise, catching, ◌>>=◌, ◌>>◌,
}
use software_engineering_age.Runtime.Tools.{Toolbox, ToolResult, Disk, failure}
use software_engineering_age.Runtime.Tools.Files.{list_files, read_file, write_file}
use software_engineering_age.Runtime.Tools.Queries.{
  repository_overview, repository_search, symbol_context, impact_analysis, dependency_hints,
  index_stats,
}
use software_engineering_age.Runtime.Tools.Commands.{
  apply_patch, search_code, run_command, git_diff, git_status, checkpoint,
}

pub record Tool : Type 0 where
  pub name : String
  pub description : String
  pub parameters : Value
  pub handler : Payload → Action Disk ToolResult
  pub parallel_safe : Bool
  pub mutating : Bool

abbrev pub string_type : Value
string_type = obj (field "type" (str "string") end)

abbrev pub integer_type : Value
integer_type = obj (field "type" (str "integer") end)

abbrev integer_between : ℕ → ℕ → Value
integer_between least most =
    obj
      (field "type" (str "integer") (field "minimum" (num least) (field "maximum" (num most) end)))

abbrev repo_type : Value
repo_type = obj (
    field "type" (str "string")
      (field "description" (str "Repository name in the task workspace") end))

-- `schema(extra, required)`
abbrev pub schema : Fields → List String → Value
schema extra required = obj (
    field "type" (str "object") (
      field "properties" (obj (field "repo" repo_type extra))
        (field "required" (arr (texts ("repo" ∷ required))) end)))

abbrev parallel : String → String → Value → (Payload → Action Disk ToolResult) → Tool
parallel name description parameters handler = record {
  name = name;
  description = description;
  parameters = parameters;
  handler = handler;
  parallel_safe = true;
  mutating = false;
}

abbrev mutating : String → String → Value → (Payload → Action Disk ToolResult) → Tool
mutating name description parameters handler = record {
  name = name;
  description = description;
  parameters = parameters;
  handler = handler;
  parallel_safe = false;
  mutating = true;
}

-- `_register_builtin_tools`
abbrev pub builtin_tools : Toolbox → List Tool
builtin_tools tools =
    parallel "repository_overview"
      "Return the pre-indexed ranked repository map and index statistics." (schema end [])
      (repository_overview tools)
    ∷ parallel "repository_search"
        "Search the persistent repository index by path, symbol, import or code preview."
        (schema (field "query" string_type (field "limit" (integer_between 1 50) end))
          ("query" ∷ []))
        (repository_search tools)
    ∷ parallel "symbol_context" "Find symbol definitions plus dependency and dependent files."
        (schema (field "symbol" string_type (field "limit" (integer_between 1 50) end))
          ("symbol" ∷ []))
        (symbol_context tools)
    ∷ parallel "impact_analysis" "Estimate reverse-dependency blast radius for a file or symbol."
        (schema (field "target" string_type (field "depth" (integer_between 0 5) end))
          ("target" ∷ []))
        (impact_analysis tools)
    ∷ parallel "dependency_hints"
        "Return imports and resolved in-repository dependencies for a file."
        (schema (field "path" string_type end) ("path" ∷ [])) (dependency_hints tools)
    ∷ parallel "index_stats" "Return current repository-index coverage and reuse statistics."
        (schema end []) (index_stats tools)
    ∷ parallel "list_files" "List files under a repository path."
        (schema (field "path" string_type (field "max_depth" integer_type end)) [])
        (list_files tools)
    ∷ parallel "read_file" "Read a text file with line numbers."
        (schema
          (field "path" string_type
            (field "start_line" integer_type (field "end_line" integer_type end)))
          ("path" ∷ []))
        (read_file tools)
    ∷ mutating "write_file"
        "Replace/create a UTF-8 text file. Prefer apply_patch for existing files."
        (schema (field "path" string_type (field "content" string_type end))
          ("path" ∷ "content" ∷ []))
        (write_file tools)
    ∷ mutating "apply_patch" "Apply a unified Git patch after git-apply validation."
        (schema (field "patch" string_type end) ("patch" ∷ [])) (apply_patch tools)
    ∷ parallel "search_code" "Search tracked source files with git grep."
        (schema (field "query" string_type end) ("query" ∷ [])) (search_code tools)
    ∷ mutating "run_command"
        "Run a build/test/formatter command subject to deterministic safety policy."
        (schema (field "command" string_type end) ("command" ∷ [])) (run_command tools)
    ∷ parallel "git_diff" "Show uncommitted Git diff." (schema end []) (git_diff tools)
    ∷ parallel "git_status" "Show short Git status." (schema end []) (git_status tools)
    ∷ mutating "checkpoint" "Create a durable Git checkpoint commit."
        (schema (field "message" string_type end) []) (checkpoint tools)
    ∷ []

-- `openai_schema`
abbrev pub openai_schema : Tool → Value
openai_schema tool = obj (
    field "type" (str "function") (
      field "function"
        (obj (
          field "name" (str tool.name)
            (field "description" (str tool.description) (field "parameters" tool.parameters end))))
        end))

-- `schemas`
abbrev pub schemas : Toolbox → List Value
schemas tools = map openai_schema (builtin_tools tools)

-- `model_schemas`, with the schemas that the MCP servers give
unfoldable pub model_schemas :
    Toolbox → Option (Action Disk (List Value)) → Action Disk (List Value)
model_schemas tools none = pure (schemas tools)
model_schemas tools (some mcp) = do external_schemas ← mcp; pure (schemas tools ++ external_schemas)

-- `self._tools.get(name)`
abbrev pub tool_named : String → List Tool → Option Tool
tool_named name [] = none
tool_named name (tool ∷ rest) = if tool.name == name then some tool else tool_named name rest

abbrev pub safe_tool : Option Tool → Bool
safe_tool none = false
safe_tool (some tool) = tool.parallel_safe

abbrev pub is_parallel_safe : Toolbox → String → Bool
is_parallel_safe tools name = safe_tool (tool_named name (builtin_tools tools))

-- `type(exc).__name__`
abbrev pub type_name : Toolbox → Exn → String
type_name tools (invalid_state_transition m) = "InvalidStateTransition"
type_name tools (environment_error m) = "EnvironmentError"
type_name tools (tool_execution_error m) = "ToolExecutionError"
type_name tools (authorization_error m) = "AuthorizationError"
type_name tools (key_error k) = "KeyError"
type_name tools (runtime_error m) = "RuntimeError"
type_name tools (value_error m) = "ValueError"
type_name tools (external m) = tools.class_of m
type_name tools cancelled_error = "CancelledError"

abbrev pub described : Toolbox → Exn → String
described tools e = type_name tools e <> (": " <> str_exn e)

-- whether the handler's `except` names the class of an exception
abbrev pub is_reported : Toolbox → Exn → Bool
is_reported tools (tool_execution_error m) = true
is_reported tools (key_error k) = true
is_reported tools (runtime_error m) = true
is_reported tools (value_error m) = true
is_reported tools (external m) = tools.is_expected m
is_reported tools _ = false

abbrev pub report_expected : Toolbox → Exn → Action Disk ToolResult
report_expected tools e =
    if is_reported tools e then pure (failure (described tools e)) else raise e

unfoldable pub run_tool : Toolbox → Option Tool → String → Payload → Action Disk ToolResult
run_tool tools none name arguments = pure (failure ("unknown tool: " <> name))
run_tool tools (some tool) name arguments =
    catching (tool.handler arguments) (report_expected tools)

-- `except Exception`, which is not that of a cancellation
abbrev pub mcp_failed : Toolbox → Exn → Action Disk ToolResult
mcp_failed tools cancelled_error = raise cancelled_error
mcp_failed tools e = pure (failure ("MCPError: " <> described tools e))

unfoldable pub call_mcp :
    Toolbox
    → (String → Payload → Action Disk (Bool × String))
    → String
    → Payload
    → Action Disk ToolResult
call_mcp tools call name arguments =
    catching
      (call name arguments >>= λ (good, output). pure (record { ok? = good; output = output }))
      (mcp_failed tools)

abbrev pub mcp_for : Toolbox → String → Option (String → Payload → Action Disk (Bool × String))
mcp_for tools name = if starts_with name "mcp__" then tools.mcp else none

unfoldable pub execute : Toolbox → String → Payload → Action Disk ToolResult
unfolding run_tool call_mcp
execute tools name arguments = elim (mcp_for tools name) [
  | some call ↦ call_mcp tools call name arguments
  | none ↦ run_tool tools (tool_named name (builtin_tools tools)) name arguments
]
