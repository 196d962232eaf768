-- ===== src/Runtime/CodeIndex.antt =====
-- src/minion/runtime/code_index.py: the facts that the index of a repository keeps, and the files it
-- is made of. Extraction is the parsing of a file; Build is `ensure_index`; Impact is the analysis of
-- reverse dependencies, and Queries the other questions.
pub mod Extraction
pub mod Build
pub mod Impact
pub mod Queries
use Prim.Native.Nat.{Ordering}
use Prim.Native.String.{compare}
use software_engineering_age.Prelude.{
  ℕ, String, Bool, true, false, ◌||◌, Option, none, some, List, [], ◌∷◌, contains,
}
use software_engineering_age.Prelude.Dict.{Dict}

pub record Symbol : Type 0 where
  pub name : String
  pub kind : String
  pub line : ℕ
  pub signature : String

-- What is kept of one file.
pub record Facts : Type 0 where
  pub path : String
  pub content_hash : String
  pub size : ℕ
  pub symbols : List Symbol
  pub imports : List String
  pub preview : String

pub record Stats : Type 0 where
  pub indexed_files : ℕ
  pub parsed_files : ℕ
  pub reused_files : ℕ
  pub symbol_count : ℕ
  pub dependency_edges : ℕ

-- The manifest of a commit; `files` has the hash of each file and `dependency_edges` the files that a
-- file imports.
pub record Manifest : Type 0 where
  pub repository : String
  pub head : String
  pub files : Dict String
  pub facts : Dict Facts
  pub dependency_edges : Dict (List String)
  pub stats : Stats

pub record IndexedRepository : Type 0 where
  pub repository_key : String
  pub head : String
  pub parsed_files : ℕ
  pub reused_files : ℕ

-- The bytes of a file: their number and hash, whether one of the first 8192 is zero, and their text.
pub record Content : Type 0 where
  pub size : ℕ
  pub hash : String
  pub has_zero : Bool
  pub text : String

-- What the index uses of Python's library: `str.lower`, the suffix, name and stem of a path,
-- `str.splitlines`, the first group of `re.search` and of `re.match`.
pub record TextLibrary : Type 0 where
  pub lower : String → String
  pub suffix : String → String
  pub name : String → String
  pub stem : String → String
  pub without_suffix : String → String
  pub splitlines : String → List String
  pub search : String → String → Option String
  pub match_start : String → String → Option String
  pub replace : String → String → String → String

abbrev pub text_suffixes : List String
text_suffixes =
    ".py" ∷ ".pyi" ∷ ".js" ∷ ".jsx" ∷ ".ts" ∷ ".tsx" ∷ ".java" ∷ ".kt" ∷ ".kts" ∷ ".go" ∷ ".rs"
    ∷ ".c" ∷ ".cc" ∷ ".cpp" ∷ ".cxx" ∷ ".h" ∷ ".hpp" ∷ ".cs" ∷ ".rb" ∷ ".php" ∷ ".swift" ∷ ".scala"
    ∷ ".sql" ∷ ".proto" ∷ ".graphql" ∷ ".md" ∷ ".mdx" ∷ ".toml" ∷ ".yaml" ∷ ".yml" ∷ ".json"
    ∷ ".xml" ∷ ".gradle" ∷ ".sh" ∷ ".bash" ∷ []

abbrev pub always_text_names : List String
always_text_names =
    "Dockerfile" ∷ "Makefile" ∷ "BUILD" ∷ "WORKSPACE" ∷ "go.mod" ∷ "go.sum" ∷ "pom.xml"
    ∷ "package.json" ∷ "pyproject.toml" ∷ "requirements.txt" ∷ []

-- `_is_indexable`
abbrev pub is_indexable : TextLibrary → String → Bool
is_indexable lib path =
    contains (lib.name path) always_text_names
    || contains (lib.lower (lib.suffix path)) text_suffixes

abbrev insert : String → List String → List String
insert x [] = x ∷ []
insert x (y ∷ ys) =
    let rest = insert x ys in elim (compare x y) [ Ordering.gt ↦ y ∷ rest | _ ↦ x ∷ y ∷ ys ]

-- `sorted(texts)`
abbrev pub sorted : List String → List String
sorted [] = []
sorted (x ∷ xs) = insert x (sorted xs)
