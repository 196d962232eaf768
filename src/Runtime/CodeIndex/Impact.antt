-- ===== src/Runtime/CodeIndex/Impact.antt =====
-- src/minion/runtime/code_index.py: `impact_analysis`, the files that depend on a target, by layers.
pub mod Members
pub mod Reach
use software_engineering_age.Prelude.{
  ℤ, pos, negsuc, ℕ, zero, suc, min, String, Bool, true, false, not, ◌&&◌, ◌||◌, List, [], ◌∷◌,
  ◌++◌, contains, is_empty, any_of, select, ◌==◌, if◌then◌else◌,
}
use software_engineering_age.Prelude.Text
use software_engineering_age.Prelude.Dict
use software_engineering_age.Prelude.Dict.{Dict}
use software_engineering_age.Runtime.CodeIndex.{Symbol, Facts, Manifest, TextLibrary, sorted}

pub record Impact : Type 0 where
  pub target : String
  pub matched_files : List String
  pub reverse_dependency_layers : List (List String)
  pub impacted_files : List String

-- whether a file is a target: its path has the text in it, or one of its symbols has that name
abbrev pub is_target : TextLibrary → String → String → Facts → Bool
is_target lib target path facts =
    Text.has (lib.lower target) (lib.lower path)
    || any_of (λ symbol. lib.lower target == lib.lower symbol.name) facts.symbols

abbrev pub target_files : TextLibrary → String → Dict Facts → List String
target_files lib target [] = []
target_files lib target ((path, facts) ∷ rest) =
    let others = target_files lib target rest in
    if is_target lib target path facts then path ∷ others else others

-- `reverse[dependency]`: the files that import it
abbrev pub reverse_of : Dict (List String) → String → List String
reverse_of [] dependency = []
reverse_of ((source, targets) ∷ rest) dependency =
    let others = reverse_of rest dependency in
    if contains dependency targets then source ∷ others else others

-- the files that import one of these
abbrev pub reverse_of_all : Dict (List String) → List String → List String
reverse_of_all edges [] = []
reverse_of_all edges (current ∷ rest) = reverse_of edges current ++ reverse_of_all edges rest

-- each of the files once that is not seen yet
abbrev pub add_new : List String → List String → List String → List String
add_new seen layer [] = layer
add_new seen layer (path ∷ rest) =
    add_new seen (if contains path seen || contains path layer then layer else layer ++ path ∷ [])
      rest

abbrev pub next_layer : Dict (List String) → List String → List String → List String
next_layer edges seen frontier = add_new seen [] (reverse_of_all edges frontier)

-- The loop, with the rounds that are left: the layers and the files that are seen. `ranked` sorts a
-- layer by the rank of its files.
abbrev pub walk :
    Dict (List String)
    → (List String → List String)
    → ℕ
    → List String
    → List String
    → List (List String) × List String
walk edges ranked zero frontier seen = ([], seen)
walk edges ranked (suc n) frontier seen =
    let layer = next_layer edges seen frontier in
    elim (is_empty layer) [
      | true ↦ ([], seen)
      | false ↦
          let (layers, all) = walk edges ranked n layer (seen ++ layer) in
          (ranked layer ∷ layers, all)
    ]

-- `max(0, min(depth, 5))`
abbrev pub rounds : ℤ → ℕ
rounds (pos n) = min n 5
rounds (negsuc n) = 0

unfoldable pub impact_analysis :
    TextLibrary → (List String → List String) → Manifest → String → ℤ → Impact
impact_analysis lib ranked manifest target depth =
    let targets = target_files lib target manifest.facts in
    let (layers, seen) = walk manifest.dependency_edges ranked (rounds depth) targets targets in
    record {
      target = target;
      matched_files = sorted targets;
      reverse_dependency_layers = layers;
      impacted_files = sorted (select (λ path. not (contains path targets)) seen);
    }
