-- ===== src/Runtime/Tools/Queries.antt =====
-- src/minion/runtime/tools.py: the handlers that ask the index of a repository.
use software_engineering_age.Prelude.{ℤ, pos, String}
use software_engineering_age.Domain.{Payload, Value}
use software_engineering_age.Effects.{Action, Result, chain, pure, lift, ◌>>=◌}
use software_engineering_age.Runtime.Values.{argument, str_of}
use software_engineering_age.Runtime.CodeIndex.{Manifest}
use software_engineering_age.Runtime.CodeIndex.Build.{Store, manifest_for}
use software_engineering_age.Runtime.Tools.{
  Toolbox, ToolResult, Disk, Index, repo_of, int_at, success,
}

abbrev with_payload :
    (Manifest → Result Value) → Disk → Result Manifest × Store → Result Value × Disk
with_payload query d (r, cache) = (chain r query, record d { cache = cache })

-- a query of the index: the manifest of the repository, made if there is none, and then its answer
unfoldable pub asked : Index → (Manifest → Result Value) → String → Action Disk Value
asked index query repo d =
    with_payload query d
      (manifest_for index.lib index.lock index.sha256 (index.checkout repo d.files) d.cache)

-- `ToolResult(True, json.dumps(payload, indent=2))`
unfoldable pub answer : Toolbox → Action Disk Value → Action Disk ToolResult
answer tools query = do payload ← query; pure (success (tools.python.dumps_indented payload))

-- a query with a text and a number of the arguments
unfoldable pub ask :
    Toolbox
    → (String → String → ℤ → Action Disk Value)
    → String
    → String
    → ℤ
    → Payload
    → Action Disk ToolResult
unfolding answer
ask tools query text_key number_key default args = do
  repo ← lift (repo_of tools args)
  text ← lift (argument text_key args)
  n ← lift (int_at tools number_key default args)
  answer tools (query repo (str_of tools.python.shown text) n)

-- a query on the repository alone
unfoldable pub ask_repo : Toolbox → (String → Action Disk Value) → Payload → Action Disk ToolResult
unfolding answer
ask_repo tools query args = do repo ← lift (repo_of tools args); answer tools (query repo)

unfoldable pub repository_overview : Toolbox → Payload → Action Disk ToolResult
unfolding ask_repo asked
repository_overview tools args = ask_repo tools (asked tools.index tools.index.overview) args

unfoldable pub repository_search : Toolbox → Payload → Action Disk ToolResult
unfolding ask asked
repository_search tools args =
    ask tools (λ repo query limit. asked tools.index (tools.index.search query limit) repo) "query"
      "limit" (pos 12) args

unfoldable pub symbol_context : Toolbox → Payload → Action Disk ToolResult
unfolding ask asked
symbol_context tools args =
    ask tools
      (λ repo symbol limit. asked tools.index (tools.index.symbol_context symbol limit) repo)
      "symbol" "limit" (pos 20) args

unfoldable pub impact_analysis : Toolbox → Payload → Action Disk ToolResult
unfolding ask asked
impact_analysis tools args =
    ask tools
      (λ repo target depth. asked tools.index (tools.index.impact_analysis target depth) repo)
      "target" "depth" (pos 2) args

unfoldable pub dependency_hints : Toolbox → Payload → Action Disk ToolResult
unfolding answer asked
dependency_hints tools args = do
  repo ← lift (repo_of tools args)
  path ← lift (argument "path" args)
  answer tools (asked tools.index (tools.index.dependency_hints path) repo)

unfoldable pub index_stats : Toolbox → Payload → Action Disk ToolResult
unfolding ask_repo asked
index_stats tools args = ask_repo tools (asked tools.index tools.index.stats) args
