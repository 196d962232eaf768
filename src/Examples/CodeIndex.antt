-- ===== src/Examples/CodeIndex.antt =====
-- The properties of the index at concrete inputs.
use software_engineering_age.Prelude.{
  pos, String, ◌≡◌, ◌↔◌, refl, true, false, none, some, [], ◌∷◌, contains, ◌==◌, length,
}
use software_engineering_age.Prelude.Dict
use software_engineering_age.Effects.{ok, pure, lift, gets, modify, finally, ◌>>=◌}
use software_engineering_age.Runtime.CodeIndex.{Facts, Manifest, TextLibrary}
use software_engineering_age.Runtime.CodeIndex.Impact.{impact_analysis, target_files, rounds}
use software_engineering_age.Runtime.CodeIndex.Impact.Reach.{Within, impact_analysis-Within}
use software_engineering_age.Runtime.CodeIndex.Build.{
  Store, Checkout, identity, manifest_key, ensure_index, index_new, index_locked, or_indexed, build,
  index_files, index_file, take_facts, FileLock,
}
use software_engineering_age.Runtime.CodeIndex.Build.Again.{ensure_index-again}
use software_engineering_age.Runtime.CodeIndex.Extraction.{parse_object}

abbrev pub lib : TextLibrary
lib = record {
  lower = λ s. s;
  suffix = λ s. ".py";
  name = λ s. s;
  stem = λ s. s;
  without_suffix = λ s. s;
  splitlines = λ s. s ∷ [];
  search = λ pattern s. none;
  match_start = λ pattern s. none;
  replace = λ a b s. s;
}

abbrev empty_facts : String → Facts
empty_facts path = record {
  path = path;
  content_hash = "";
  size = 0;
  symbols = [];
  imports = [];
  preview = "";
}

-- "main" imports "app", and that imports "db"
abbrev manifest : Manifest
manifest = record {
  repository = "r";
  head = "h";
  files = [];
  facts = ("main", empty_facts "main") ∷ ("app", empty_facts "app") ∷ ("db", empty_facts "db") ∷ [];
  dependency_edges = ("main", "app" ∷ []) ∷ ("app", "db" ∷ []) ∷ ("db", []) ∷ [];
  stats = record {
    indexed_files = 3;
    parsed_files = 3;
    reused_files = 0;
    symbol_count = 0;
    dependency_edges = 2;
  };
}

impact_analysis-Within_example :
    (contains "main" (impact_analysis lib (λ layer. layer) manifest "db" (pos 2)).impacted_files
      ≡ true)
    ↔ ((contains "main" (target_files lib "db" manifest.facts) ≡ false)
        × Within manifest.dependency_edges
            (target_files lib "db" manifest.facts)
            (rounds (pos 2))
            "main")
impact_analysis-Within_example =
    impact_analysis-Within lib (λ layer. layer) manifest "db" (pos 2) "main"

impact_test :
    (impact_analysis lib (λ layer. layer) manifest "db" (pos 2)).reverse_dependency_layers
    ≡ ("app" ∷ []) ∷ ("main" ∷ []) ∷ []
unfolding impact_analysis
impact_test = refl

-- one file, "a", at the commit "h"
abbrev pub repo : Checkout
repo = record {
  git = λ args. elim args [
    | [] ↦ ok ""
    | command ∷ rest ↦ elim (command == "rev-parse") [ true ↦ ok "h" | false ↦ ok "a" ]
  ];
  resolved = "/r";
  content = λ path. some (record { size = 1; hash = "1"; has_zero = false; text = "x" });
}

abbrev pub store : Store
store = record { objects = []; manifests = []; latest = [] }

-- a lock that is free
abbrev pub lock : FileLock
lock = record { acquire = λ name. pure tt; release = λ name. pure tt }

abbrev pub sha256 : String → String
sha256 text = text

abbrev indexed_store : Store
indexed_store = (ensure_index lib lock sha256 repo store).1

first_index : ensure_index lib lock sha256 repo store ≡ (
  ok (record { repository_key = "a"; head = "h"; parsed_files = 1; reused_files = 0 }),
  indexed_store,
)
unfolding ensure_index or_indexed index_new index_locked build index_files index_file take_facts
    parse_object finally gets modify lift pure ◌>>=◌
first_index = refl

ensure_index-again_example :
    (key : String) × (remote : String) × (head : String) × (m : Manifest) × (identity sha256 repo
      ≡ ok (key, remote, head))
    × (Dict.get (manifest_key key head) indexed_store.manifests ≡ some m)
    × (ensure_index lib lock sha256 repo indexed_store ≡ (
      ok (record {
        repository_key = key;
        head = head;
        parsed_files = 0;
        reused_files = length m.files;
      }),
      indexed_store,
    ))
ensure_index-again_example =
    ensure_index-again lib lock sha256 repo
      (record { repository_key = "a"; head = "h"; parsed_files = 1; reused_files = 0 }) store
      indexed_store (unfold pure in λ name s. refl) first_index
