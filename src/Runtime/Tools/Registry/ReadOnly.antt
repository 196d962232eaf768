-- ===== src/Runtime/Tools/Registry/ReadOnly.antt =====
-- src/minion/runtime/tools.py: the tools that are marked `parallel_safe` change no file but Git's.
use software_engineering_age.Prelude.{
  ℤ, pos, ℕ, String, ◌≡◌, subst, refl, sym, ◌∙◌, Bool, true, false, none, some, List, [], ◌∷◌, All,
  contains, ◌==◌, eq_iff, if◌then◌else◌,
}
use text.Mathlib.Text.{starts_with}
use software_engineering_age.Prelude.Dict
use software_engineering_age.Domain.{Payload, Value, str}
use software_engineering_age.Effects.{external, Action, Result, Exn, ok, err, pure}
use software_engineering_age.Effects.Rules.{
  IsPreorder, Respects, respects_rules, Respects-lift-bind, Respects-bind, Respects-pure,
  Respects-catching,
}
use software_engineering_age.Security.{Environ}
use software_engineering_age.Runtime.Values.{truthy}
use software_engineering_age.Runtime.Tools.{
  Toolbox, ToolResult, Disk, Process, process_for, command, command_text, run_process,
}
use software_engineering_age.Runtime.Tools.Quoting.{quote}
use software_engineering_age.Runtime.Tools.Files.{parts, list_files, read_file, read_text}
use software_engineering_age.Runtime.Tools.Queries.{
  asked, ask, ask_repo, answer, repository_overview, repository_search, symbol_context,
  impact_analysis, dependency_hints, index_stats,
}
use software_engineering_age.Runtime.CodeIndex.{Manifest}
use software_engineering_age.Runtime.Tools.Commands.{search_code, fixed, grep_command, quoted}
use software_engineering_age.Runtime.Tools.Registry.{
  Tool, execute, run_tool, mcp_for, tool_named, builtin_tools, is_parallel_safe, safe_tool,
  report_expected,
}

-- Every file is as it was but those of Git's own, which have a directory `.git` in their path.
pub record SameFiles (d d' : Disk) : Type 0 where
  pub files :
      (p : String) → contains ".git" (parts p) ≡ false → Dict.get p d'.files ≡ Dict.get p d.files

SameFiles-IsPreorder : IsPreorder SameFiles
SameFiles-IsPreorder = record {
  reflexive = λ d. record { files = λ p h. refl };
  transitive = λ s t u h k. record { files = λ p o. k.files p o ∙ h.files p o };
}

-- The commands of the tools that only read.
pub data IsReadCommand : String → Type 0 where
  diff : IsReadCommand "git diff --"
  status : IsReadCommand "git status --short"
  grep : (query : String) → IsReadCommand (grep_command (quote query))

-- The read commands change no file but Git's own.
pub record IsReadOnly (tools : Toolbox) : Type 0 where
  pub process :
      {text : String} (name : Value) (process : Process) (environ : Environ) (timeout : ℕ)
      → IsReadCommand text
      → process_for tools name text ≡ ok process
      → Respects SameFiles (tools.run process environ timeout)

module _ (tools : Toolbox) (read_only : IsReadOnly tools) where
  run_process-SameFiles :
      (name : Value) (text : String)
      → IsReadCommand text
      → Respects SameFiles (run_process tools name text)
  unfolding run_process
  run_process-SameFiles name text reads =
      Respects-lift-bind SameFiles-IsPreorder (process_for tools name text) _ λ process h.
        Respects-bind SameFiles-IsPreorder _ _
          (read_only.process name process _ tools.command_timeout reads h)
          (λ ended. Respects-pure SameFiles-IsPreorder _)

  gated :
      (name : Value) (text : String) (b : Bool) (r : ToolResult)
      → IsReadCommand text
      → Respects SameFiles (if b then pure r else run_process tools name text)
  gated name text b r reads =
      search (respects_rules, SameFiles-IsPreorder, run_process-SameFiles, reads) depth 5

  command-SameFiles :
      (name : Value) (text : String)
      → IsReadCommand text
      → Respects SameFiles (command tools name (str text))
  unfolding command
  command-SameFiles name text reads =
      Respects-lift-bind SameFiles-IsPreorder (command_text (str text)) _
        λ t h. gated name t _ _ (subst IsReadCommand (same t h) reads)
    where
      same : (t : String) → command_text (str text) ≡ ok t → text ≡ t
      same t h = cc

  answer-SameFiles :
      (query : Action Disk Value)
      → Respects SameFiles query
      → Respects SameFiles (answer tools query)
  unfolding answer
  answer-SameFiles query h = search (respects_rules, SameFiles-IsPreorder, h) depth 5

  asked-SameFiles :
      (query : Manifest → Result Value) (repo : String)
      → Respects SameFiles (asked tools.index query repo)
  unfolding asked
  asked-SameFiles query repo = record { at = λ d. record { files = λ p h. refl } }

  ask-SameFiles :
      (query : String → String → ℤ → Action Disk Value) (text_key number_key : String) (default : ℤ)
      (args : Payload)
      → ((repo text : String) (n : ℤ) → Respects SameFiles (query repo text n))
      → Respects SameFiles (ask tools query text_key number_key default args)
  unfolding ask
  ask-SameFiles query text_key number_key default args h =
      search (respects_rules, SameFiles-IsPreorder, answer-SameFiles, h) depth 10

  ask_repo-SameFiles :
      (query : String → Action Disk Value) (args : Payload)
      → ((repo : String) → Respects SameFiles (query repo))
      → Respects SameFiles (ask_repo tools query args)
  unfolding ask_repo
  ask_repo-SameFiles query args h =
      search (respects_rules, SameFiles-IsPreorder, answer-SameFiles, h) depth 10

  dependency_hints-SameFiles : (args : Payload) → Respects SameFiles (dependency_hints tools args)
  unfolding dependency_hints
  dependency_hints-SameFiles args =
      search (respects_rules, SameFiles-IsPreorder, answer-SameFiles, asked-SameFiles) depth 10

  repository_overview-SameFiles :
      (args : Payload) → Respects SameFiles (repository_overview tools args)
  unfolding repository_overview
  repository_overview-SameFiles args = ask_repo-SameFiles _ args (asked-SameFiles _)

  repository_search-SameFiles : (args : Payload) → Respects SameFiles (repository_search tools args)
  unfolding repository_search
  repository_search-SameFiles args =
      ask-SameFiles _ "query" "limit" (pos 12) args
        (λ repo query limit. asked-SameFiles (tools.index.search query limit) repo)

  symbol_context-SameFiles : (args : Payload) → Respects SameFiles (symbol_context tools args)
  unfolding symbol_context
  symbol_context-SameFiles args =
      ask-SameFiles _ "symbol" "limit" (pos 20) args
        (λ repo symbol limit. asked-SameFiles (tools.index.symbol_context symbol limit) repo)

  impact_analysis-SameFiles : (args : Payload) → Respects SameFiles (impact_analysis tools args)
  unfolding impact_analysis
  impact_analysis-SameFiles args =
      ask-SameFiles _ "target" "depth" (pos 2) args
        (λ repo target depth. asked-SameFiles (tools.index.impact_analysis target depth) repo)

  index_stats-SameFiles : (args : Payload) → Respects SameFiles (index_stats tools args)
  unfolding index_stats
  index_stats-SameFiles args = ask_repo-SameFiles _ args (asked-SameFiles _)

  list_files-SameFiles : (args : Payload) → Respects SameFiles (list_files tools args)
  unfolding list_files
  list_files-SameFiles args = search (respects_rules, SameFiles-IsPreorder) depth 14

  read_text-SameFiles : (path : String) → Respects SameFiles (read_text path)
  unfolding read_text
  read_text-SameFiles path = record { at = λ d. record { files = λ p h. refl } }

  read_file-SameFiles : (args : Payload) → Respects SameFiles (read_file tools args)
  unfolding read_file
  read_file-SameFiles args =
      search (respects_rules, SameFiles-IsPreorder, read_text-SameFiles) depth 14

  fixed-SameFiles :
      (text : String) (args : Payload)
      → IsReadCommand text
      → Respects SameFiles (fixed text tools args)
  unfolding fixed
  fixed-SameFiles text args reads =
      search (respects_rules, SameFiles-IsPreorder, command-SameFiles, reads) depth 6

  empty_quote :
      (b : Bool) (query : String)
      → (if b then err (external "TypeError") else ok "''") ≡ ok query
      → query ≡ quote ""
  empty_quote true query h = cc
  empty_quote false query h = cc

  quoted_query :
      (v : Value) (query : String) → quoted v ≡ ok query → (s : String) × (query ≡ quote s)
  quoted_query (str s) query h = (s, cc)
  quoted_query v query h = ("", empty_quote (truthy v) query h)

  search_code-SameFiles : (args : Payload) → Respects SameFiles (search_code tools args)
  unfolding search_code
  search_code-SameFiles args = Respects-lift-bind SameFiles-IsPreorder _ _ λ value _.
      Respects-lift-bind SameFiles-IsPreorder (quoted value) _ λ query h.
        Respects-lift-bind SameFiles-IsPreorder _ _ λ name _.
          let (s, e) = quoted_query value query h in
          subst (λ q. Respects SameFiles (command tools name (str (grep_command q)))) (sym e)
            (command-SameFiles name _ (grep s))

  IsSafe : Tool → Type 0
  IsSafe tool =
      tool.parallel_safe ≡ true
      → (starts_with tool.name "mcp__" ≡ false)
        × ((args : Payload) → Respects SameFiles (tool.handler args))

  All-IsSafe-tools : All IsSafe (builtin_tools tools)
  unfolding IsSafe
  All-IsSafe-tools = (
    λ _. (refl, λ args. repository_overview-SameFiles args),
    (
      λ _. (refl, λ args. repository_search-SameFiles args),
      (
        λ _. (refl, λ args. symbol_context-SameFiles args),
        (
          λ _. (refl, λ args. impact_analysis-SameFiles args),
          (
            λ _. (refl, λ args. dependency_hints-SameFiles args),
            (
              λ _. (refl, λ args. index_stats-SameFiles args),
              (
                λ _. (refl, λ args. list_files-SameFiles args),
                (
                  λ _. (refl, λ args. read_file-SameFiles args),
                  (
                    λ no. cc,
                    (
                      λ no. cc,
                      (
                        λ _. (refl, λ args. search_code-SameFiles args),
                        (
                          λ no. cc,
                          (
                            λ _. (refl, λ args. fixed-SameFiles "git diff --" args diff),
                            (
                              λ _. (refl, λ args. fixed-SameFiles "git status --short" args status),
                              (λ no. cc, tt),
                            ),
                          ),
                        ),
                      ),
                    ),
                  ),
                ),
              ),
            ),
          ),
        ),
      ),
    ),
  )

  report-SameFiles : (e : Exn) → Respects SameFiles (report_expected tools e)
  report-SameFiles e = search (respects_rules, SameFiles-IsPreorder) depth 4

  found-IsSafe :
      (name : String) (ts : List Tool)
      → All IsSafe ts
      → safe_tool (tool_named name ts) ≡ true
      → (starts_with name "mcp__" ≡ false)
        × ((args : Payload) → Respects SameFiles (run_tool tools (tool_named name ts) name args))
  unfolding IsSafe run_tool
  found-IsSafe name [] all h = cc
  found-IsSafe name (tool ∷ rest) all h =
      by_name (tool.name == name) refl h (found-IsSafe name rest all.1)
    where
      by_name :
          (b : Bool)
          → tool.name == name ≡ b
          → safe_tool (if b then some tool else tool_named name rest) ≡ true
          → (safe_tool (tool_named name rest) ≡ true
              → (starts_with name "mcp__" ≡ false)
                × ((args : Payload)
                    → Respects SameFiles (run_tool tools (tool_named name rest) name args)))
          → (starts_with name "mcp__" ≡ false)
            × ((args : Payload)
                → Respects SameFiles
                    (run_tool tools (if b then some tool else tool_named name rest) name args))
      by_name true e h later =
          let (no_mcp, same) = all.0 h in
          (
            subst (λ n. starts_with n "mcp__" ≡ false) ((eq_iff tool.name name).0 e) no_mcp,
            λ args.
                Respects-catching SameFiles-IsPreorder (tool.handler args) _ (same args)
                  report-SameFiles,
          )
      by_name false e h later = later h

  mcp_for-none : (name : String) → starts_with name "mcp__" ≡ false → mcp_for tools name ≡ none
  mcp_for-none name h = rw (h, mcp_for) refl

  -- A tool that the agent may run beside others, since it is marked parallel_safe, leaves every file
  -- as it was but those below a directory `.git`, whatever its arguments are and however it ends, if
  -- `git diff --`, `git status --short` and `git grep` for a quoted text do. It may write the cache of
  -- the index.
  pub parallel_safe-SameFiles :
      (name : String) (args : Payload) (p : String) (d : Disk)
      → is_parallel_safe tools name ≡ true
      → contains ".git" (parts p) ≡ false
      → Dict.get p (execute tools name args d).1.files ≡ Dict.get p d.files
  unfolding execute
  parallel_safe-SameFiles name args p d h outside =
      let (no_mcp, same) = found-IsSafe name (builtin_tools tools) All-IsSafe-tools h in
      rw (mcp_for-none name no_mcp, execute) (((same args).at d).files p outside)
