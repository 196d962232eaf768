-- ===== src/Runtime/CodeIndex/Extraction.antt =====
-- src/minion/runtime/code_index.py: what is read out of the text of one file.
use software_engineering_age.Prelude.{
  ℕ, suc, ◌-◌, String, true, false, not, ◌&&◌, ◌||◌, Option, none, some, List, [], ◌∷◌, ◌++◌,
  contains, length, take, leb, ltb, eqb, ◌==◌, if◌then◌else◌,
}
use text.Mathlib.Text.{starts_with}
use software_engineering_age.Prelude.Text
use software_engineering_age.Runtime.Policy.{strip}
use software_engineering_age.Runtime.CodeIndex.{Symbol, Facts, Content, TextLibrary, is_indexable}

abbrev python_patterns : List (String × String)
python_patterns =
    ("class", "^\\s*class\\s+([A-Za-z_]\\w*)")
    ∷ ("function", "^\\s*(?:async\\s+)?def\\s+([A-Za-z_]\\w*)\\s*\\(")
    ∷ []

abbrev javascript_patterns : List (String × String)
javascript_patterns =
    ("class", "^\\s*(?:export\\s+)?class\\s+([A-Za-z_$][\\w$]*)")
    ∷ ("function", "^\\s*(?:export\\s+)?(?:async\\s+)?function\\s+([A-Za-z_$][\\w$]*)\\s*\\(")
    ∷ (
      "function",
      "^\\s*(?:export\\s+)?(?:const|let|var)\\s+([A-Za-z_$][\\w$]*)\\s*=\\s*(?:async\\s*)?\\(",
    )
    ∷ []

abbrev go_patterns : List (String × String)
go_patterns =
    ("type", "^\\s*type\\s+([A-Za-z_]\\w*)\\s+")
    ∷ ("function", "^\\s*func\\s+(?:\\([^)]*\\)\\s*)?([A-Za-z_]\\w*)\\s*\\(")
    ∷ []

abbrev java_patterns : List (String × String)
java_patterns =
    (
      "type",
      "^\\s*(?:(?:public|private|protected|internal|abstract|final|sealed|open|static)\\s+)*(?:class|interface|enum|record|object)\\s+([A-Za-z_]\\w*)",
    )
    ∷ (
      "function",
      "^\\s*(?:(?:public|private|protected|internal|static|final|suspend|async|override)\\s+)*(?:[\\w<>\\[\\],.?]+\\s+)+([A-Za-z_]\\w*)\\s*\\([^;]*\\)\\s*(?:\\{|=)?\\s*$",
    )
    ∷ []

abbrev native_patterns : List (String × String)
native_patterns =
    ("type", "^\\s*(?:class|struct|enum|trait|protocol)\\s+([A-Za-z_]\\w*)")
    ∷ ("function", "^\\s*(?:pub\\s+)?(?:async\\s+)?(?:fn|func)\\s+([A-Za-z_]\\w*)\\s*\\(")
    ∷ []

-- the kinds of symbols with their patterns, by the suffix of the file
abbrev pub patterns_for : String → List (String × String)
patterns_for suffix =
    if contains suffix (".py" ∷ ".pyi" ∷ [])
    then python_patterns
    else if contains suffix (".js" ∷ ".jsx" ∷ ".ts" ∷ ".tsx" ∷ [])
    then javascript_patterns
    else if suffix == ".go"
    then go_patterns
    else if contains suffix (".java" ∷ ".kt" ∷ ".kts" ∷ ".cs" ∷ ".scala" ∷ [])
    then java_patterns
    else if contains suffix (".c" ∷ ".cc" ∷ ".cpp" ∷ ".cxx" ∷ ".h" ∷ ".hpp" ∷ ".rs" ∷ ".swift" ∷ [])
    then native_patterns
    else []

module _ (lib : TextLibrary) where
  -- the first pattern that matches, with the name that it finds
  abbrev pub first_symbol : List (String × String) → String → Option (String × String)
  first_symbol [] line = none
  first_symbol ((kind, pattern) ∷ rest) line = elim (lib.search pattern line) [
    | some name ↦ some (kind, name)
    | none ↦ first_symbol rest line
  ]

  -- the lines from a number on, with the room that is left for symbols
  abbrev pub scan_symbols : List (String × String) → ℕ → ℕ → List String → List Symbol
  scan_symbols patterns room n [] = []
  scan_symbols patterns room n (line ∷ rest) = elim (first_symbol patterns line) [
    | none ↦ scan_symbols patterns room (suc n) rest
    | some (kind, name) ↦
        record { name = name; kind = kind; line = n; signature = Text.take 300 (strip line) }
        ∷ elim (leb room 1) [ true ↦ [] | false ↦ scan_symbols patterns (room - 1) (suc n) rest ]
  ]

  -- `_extract_symbols`
  abbrev pub extract_symbols : String → String → List Symbol
  extract_symbols path text =
      scan_symbols (patterns_for (lib.lower (lib.suffix path))) 500 1 (lib.splitlines text)

  abbrev optional : Option String → List String
  optional none = []
  optional (some s) = s ∷ []

  -- `s.split(",")`
  abbrev pub commas : String → List String
  commas String.[] = String.[] ∷ []
  commas (String.◌∷◌ c s) = add c (commas s)
    where
      add : Prim.Native.Char.Char → List String → List String
      add c [] = String.◌∷◌ c String.[] ∷ []
      add c (part ∷ rest) =
          if eqb (Prim.Native.Char.code c) 44
          then String.[] ∷ part ∷ rest
          else String.◌∷◌ c part ∷ rest

  -- `s.split(" as ")[0]`
  abbrev pub before_as : String → String
  before_as String.[] = String.[]
  before_as (String.◌∷◌ c s) =
      let rest = before_as s in
      if starts_with (String.◌∷◌ c s) " as " then String.[] else String.◌∷◌ c rest

  abbrev renamed : List String → List String
  renamed [] = []
  renamed (part ∷ rest) = before_as (strip part) ∷ renamed rest

  abbrev modules : Option String → List String
  modules none = []
  modules (some names) = renamed (commas names)

  -- what a line imports, by the suffix of the file
  abbrev pub candidates : String → String → List String
  candidates suffix line =
      if contains suffix (".py" ∷ ".pyi" ∷ [])
      then optional (lib.match_start "from\\s+([.\\w]+)\\s+import\\s+" line)
        ++ modules (lib.match_start "import\\s+([.\\w]+)" line)
      else if contains suffix (".js" ∷ ".jsx" ∷ ".ts" ∷ ".tsx" ∷ [])
      then optional (lib.search "(?:from\\s+|require\\()\\s*['\"]([^'\"]+)['\"]" line)
      else if suffix == ".go"
      then optional (lib.match_start "import\\s+\"([^\"]+)\"" line)
      else if contains suffix (".java" ∷ ".kt" ∷ ".kts" ∷ ".scala" ∷ [])
      then optional (lib.match_start "import\\s+([\\w.*]+)" line)
      else if contains suffix (".c" ∷ ".cc" ∷ ".cpp" ∷ ".cxx" ∷ ".h" ∷ ".hpp" ∷ [])
      then optional (lib.match_start "#include\\s+[\"<]([^\">]+)[\">]" line)
      else []

  abbrev pub add_imports : List String → List String → List String
  add_imports found [] = found
  add_imports found (candidate ∷ rest) =
      let name = strip candidate in
      add_imports
        (if Text.nonempty name && not (contains name found) then found ++ name ∷ [] else found) rest

  abbrev pub scan_imports : String → List String → List String → List String
  scan_imports suffix found [] = found
  scan_imports suffix found (line ∷ rest) =
      let more = add_imports found (candidates suffix (strip line)) in
      elim (leb 300 (length more)) [ true ↦ more | false ↦ scan_imports suffix more rest ]

  -- `_extract_imports`
  abbrev pub extract_imports : String → String → List String
  extract_imports path text = scan_imports (lib.lower (lib.suffix path)) [] (lib.splitlines text)

  -- the facts of a file that is read
  abbrev pub facts_of : String → Content → Facts
  facts_of relative content = record {
    path = relative;
    content_hash = content.hash;
    size = content.size;
    symbols = extract_symbols relative content.text;
    imports = extract_imports relative content.text;
    preview = Text.take 4000 (Text.join "\n" (take 40 (lib.splitlines content.text)));
  }

  -- `_parse_object` of a file, none where it cannot be read
  unfoldable pub parse_object : String → Option Content → Option (String × Facts)
  parse_object relative none = none
  parse_object relative (some content) =
      if not (is_indexable lib relative)
      then none
      else if ltb 1000000 content.size || content.has_zero
      then none
      else some (content.hash, facts_of relative content)
