-- ===== src/Runtime/Tools/Registry/Errors.antt =====
-- src/minion/runtime/tools.py: what becomes of an exception that a handler raises.
use software_engineering_age.Prelude.{
  String, ◌<>◌, ◌≡◌, refl, sym, ap, true, false, none, some, List, [], ◌∷◌, All, ◌∙◌, ◌⊎◌, inl, inr,
  Bool-cases,
}
use text.Mathlib.Text.{starts_with}
use text.Mathlib.TextLemmas.{append_assoc}
use software_engineering_age.Prelude.Dict
use software_engineering_age.Domain.{Payload, payload_get, str}
use software_engineering_age.Effects.{
  Exn, Result, ok, err, environment_error, cancelled_error, invalid_state_transition,
  authorization_error, tool_execution_error, key_error, runtime_error, value_error, external,
  str_exn, pure, raise, lift, catching, ◌>>=◌,
}
use software_engineering_age.Runtime.Values.{argument}
use software_engineering_age.Runtime.Workspace.{repo_path}
use software_engineering_age.Runtime.Tools.{Toolbox, ToolResult, Disk, repo_of, path_named, failure}
use software_engineering_age.Runtime.Tools.Files.{list_files, read_file, write_file}
use software_engineering_age.Runtime.Tools.Queries.{ask_repo, repository_overview, index_stats}
use software_engineering_age.Runtime.Tools.Registry.{
  Tool, execute, run_tool, mcp_for, tool_named, builtin_tools, report_expected,
}

-- The exceptions that the model is told of, with the text that it is told.
pub data Reported (tools : Toolbox) : Exn → String → Type 0 where
  missing_key : (k : String) → Reported tools (key_error k) ("KeyError: " <> ("'" <> k <> "'"))
  runtime : (m : String) → Reported tools (runtime_error m) ("RuntimeError: " <> m)
  value : (m : String) → Reported tools (value_error m) ("ValueError: " <> m)
  tool : (m : String) → Reported tools (tool_execution_error m) ("ToolExecutionError: " <> m)
  foreign :
      (m : String)
      → tools.is_expected m ≡ true
      → Reported tools (external m) (tools.class_of m <> (": " <> m))

-- The exceptions that end the agent's run.
pub data Escapes (tools : Toolbox) : Exn → Type 0 where
  environment : (m : String) → Escapes tools (environment_error m)
  transition : (m : String) → Escapes tools (invalid_state_transition m)
  authorization : (m : String) → Escapes tools (authorization_error m)
  cancellation : Escapes tools cancelled_error
  unexpected : (m : String) → tools.is_expected m ≡ false → Escapes tools (external m)

module _ (tools : Toolbox) where
  named :
      (d : Disk) (name m : String)
      → ◌≡◌ {A = Result ToolResult × Disk}
          (ok (failure (name <> (": " <> m))), d)
          (ok (failure ((name <> ": ") <> m)), d)
  named d name m = ap (λ t. (ok (failure t), d)) (sym (append_assoc name ": " m))

  Reported-failure :
      {e : Exn} {text : String} (d : Disk)
      → Reported tools e text
      → report_expected tools e d ≡ (ok (failure text), d)
  unfolding pure str_exn
  Reported-failure d (missing_key k) = named d "KeyError" (str_exn (key_error k))
  Reported-failure d (runtime m) = named d "RuntimeError" m
  Reported-failure d (value m) = named d "ValueError" m
  Reported-failure d (tool m) = named d "ToolExecutionError" m
  Reported-failure d (foreign m h) = rw h refl

  Escapes-raised : {e : Exn} (d : Disk) → Escapes tools e → report_expected tools e d ≡ (err e, d)
  unfolding raise
  Escapes-raised d (environment m) = refl
  Escapes-raised d (transition m) = refl
  Escapes-raised d (authorization m) = refl
  Escapes-raised d cancellation = refl
  Escapes-raised d (unexpected m h) = rw h refl

  either : (e : Exn) → ((text : String) × Reported tools e text) ⊎ Escapes tools e
  either (invalid_state_transition m) = inr (transition m)
  either (environment_error m) = inr (environment m)
  either (tool_execution_error m) = inl (_, tool m)
  either (authorization_error m) = inr (authorization m)
  either (key_error k) = inl (_, missing_key k)
  either (runtime_error m) = inl (_, runtime m)
  either (value_error m) = inl (_, value m)
  either (external m) = elim (Bool-cases (tools.is_expected m)) [
    | inl h ↦ inl (_, foreign m h)
    | inr h ↦ inr (unexpected m h)
  ]
  either cancelled_error = inr cancellation

  raised :
      (name : String) (args : Payload) (found : Tool) (e : Exn) (d d' : Disk)
      → starts_with name "mcp__" ≡ false
      → tool_named name (builtin_tools tools) ≡ some found
      → found.handler args d ≡ (err e, d')
      → execute tools name args d ≡ report_expected tools e d'
  unfolding execute run_tool catching
  raised name args found e d d' no_mcp there h = rw (routed, execute) (rw there (rw h refl))
    where
      routed : mcp_for tools name ≡ none
      routed = rw (no_mcp, mcp_for) refl

  -- If the handler of a tool raises a KeyError, a RuntimeError, a ValueError, a ToolExecutionError or
  -- an exception of Python's library that its handler expects, `execute` returns a failed result
  -- whose text is the class and the message of the exception; if it raises another of minion's
  -- errors, a cancellation or anything else, `execute` raises the same. There is no third case, and
  -- the disk is as the handler left it.
  pub execute-raises :
      (name : String) (args : Payload) (found : Tool) (e : Exn) (d d' : Disk)
      → starts_with name "mcp__" ≡ false
      → tool_named name (builtin_tools tools) ≡ some found
      → found.handler args d ≡ (err e, d')
      → ((text : String)
          → Reported tools e text
          → execute tools name args d ≡ (ok (record { ok? = false; output = text }), d'))
        × (Escapes tools e → execute tools name args d ≡ (err e, d'))
        × (((text : String) × Reported tools e text) ⊎ Escapes tools e)
  execute-raises name args found e d d' no_mcp there h =
      let same = raised name args found e d d' no_mcp there h in
      (λ text r. same ∙ Reported-failure d' r, λ r. same ∙ Escapes-raised d' r, either e)

  unknown :
      (args : Payload) (r : String)
      → payload_get "repo" args ≡ some (str r)
      → Dict.get r tools.workspace.repositories ≡ none
      → repo_of tools args ≡ err (environment_error ("unknown repository '" <> r <> "'"))
  unknown args r h missing = rw (h, argument, repo_of) (rw (missing, repo_path, path_named) refl)

  -- the handlers that look for the repository first
  abbrev pub file_and_index_tools : List String
  file_and_index_tools =
      "repository_overview" ∷ "index_stats" ∷ "list_files" ∷ "read_file" ∷ "write_file" ∷ []

  -- If the arguments name a repository that the workspace has not got, a tool that reads or writes
  -- files, or asks for an overview, raises minion's EnvironmentError out of `execute`.
  pub execute-unknown :
      (args : Payload) (r : String) (d : Disk)
      → payload_get "repo" args ≡ some (str r)
      → Dict.get r tools.workspace.repositories ≡ none
      → All
          (λ name.
            execute tools name args d
            ≡ (err (environment_error ("unknown repository '" <> r <> "'")), d))
          file_and_index_tools
  unfolding execute run_tool catching ask_repo repository_overview index_stats list_files read_file
      write_file lift ◌>>=◌
  execute-unknown args r d h missing =
      let e = unknown args r h missing in
      (rw e refl, (rw e refl, (rw e refl, (rw e refl, (rw e refl, tt)))))
