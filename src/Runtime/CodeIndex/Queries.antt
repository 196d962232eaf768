-- ===== src/Runtime/CodeIndex/Queries.antt =====
-- src/minion/runtime/code_index.py: the queries that read a manifest, but `overview` and `search`, which
-- order files by their ranks.
use software_engineering_age.Prelude.{
  ℤ, pos, negsuc, String, ◌||◌, none, some, List, [], ◌∷◌, ◌++◌, take, get_or, max, min, ℕ, ◌==◌,
  if◌then◌else◌,
}
use software_engineering_age.Prelude.Text
use software_engineering_age.Prelude.Dict
use software_engineering_age.Prelude.Dict.{Dict}
use software_engineering_age.Effects.{Result, ok, err, external}
use software_engineering_age.Runtime.CodeIndex.{Symbol, Facts, Manifest, TextLibrary, sorted}
use software_engineering_age.Runtime.CodeIndex.Impact.{reverse_of}

pub record SymbolMatch : Type 0 where
  pub path : String
  pub symbol : Symbol
  pub imported_by : List String
  pub depends_on : List String

abbrev pub match_of : Manifest → String → Symbol → SymbolMatch
match_of manifest path symbol = record {
  path = path;
  symbol = symbol;
  imported_by = take 20 (sorted (reverse_of manifest.dependency_edges path));
  depends_on = take 20 (get_or (Dict.get path manifest.dependency_edges) []);
}

abbrev pub matches_in : TextLibrary → Manifest → String → String → List Symbol → List SymbolMatch
matches_in lib manifest wanted path [] = []
matches_in lib manifest wanted path (symbol ∷ rest) =
    let others = matches_in lib manifest wanted path rest in
    if wanted == lib.lower symbol.name || Text.has wanted (lib.lower symbol.name)
    then match_of manifest path symbol ∷ others
    else others

abbrev pub all_matches : TextLibrary → Manifest → String → Dict Facts → List SymbolMatch
all_matches lib manifest wanted [] = []
all_matches lib manifest wanted ((path, facts) ∷ rest) =
    matches_in lib manifest wanted path facts.symbols ++ all_matches lib manifest wanted rest

-- `max(1, min(limit, 50))`
abbrev pub limit_of : ℤ → ℕ
limit_of (pos n) = max 1 (min n 50)
limit_of (negsuc n) = 1

-- `ranked` sorts the matches by the rank of their files and by their paths
abbrev pub symbol_context :
    TextLibrary → (List SymbolMatch → List SymbolMatch) → Manifest → String → ℤ → List SymbolMatch
symbol_context lib ranked manifest symbol limit =
    take (limit_of limit) (ranked (all_matches lib manifest (lib.lower symbol) manifest.facts))

pub record Hints : Type 0 where
  pub file : String
  pub imports_and_dependency_hints : List String
  pub resolved_repository_dependencies : List String

abbrev pub dependency_hints : Manifest → String → Result Hints
dependency_hints manifest relative_path = elim (Dict.get relative_path manifest.facts) [
  | none ↦ err (external "FileNotFoundError")
  | some facts ↦ ok (record {
    file = relative_path;
    imports_and_dependency_hints = facts.imports;
    resolved_repository_dependencies = get_or (Dict.get relative_path manifest.dependency_edges) [];
  })
]
