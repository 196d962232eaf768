-- ===== src/Runtime/Mcp/Names.antt =====
-- src/minion/runtime/mcp_tools.py: `_safe_name`, the name of a server or tool in the name that the
-- model sees.
use software_engineering_age.Prelude.{
  String, Char, code, Bool, false, not, ◌&&◌, ◌||◌, leb, eqb, if◌then◌else◌,
}
use software_engineering_age.Prelude.Text.{nonempty}
use software_engineering_age.Effects.{Result, ok, err, value_error}

-- `[A-Za-z0-9_]`
abbrev pub is_word : Char → Bool
is_word c =
    let n = code c in
    (leb 48 n && leb n 57) || (leb 65 n && leb n 90) || (leb 97 n && leb n 122) || eqb n 95

-- `re.sub("[^A-Za-z0-9_]+", "_", s)`; the flag says that a run of other characters goes on
abbrev pub collapse : Bool → String → String
collapse run String.[] = String.[]
collapse run (String.◌∷◌ c s) =
    let rest = collapse (not (is_word c)) s in
    if is_word c then String.◌∷◌ c rest else if run then rest else String.◌∷◌ "_" rest

abbrev pub lstrip_underscores : String → String
lstrip_underscores String.[] = String.[]
lstrip_underscores (String.◌∷◌ c s) =
    if eqb (code c) 95 then lstrip_underscores s else String.◌∷◌ c s

abbrev pub rstrip_underscores : String → String
rstrip_underscores String.[] = String.[]
rstrip_underscores (String.◌∷◌ c s) =
    let rest = rstrip_underscores s in
    if eqb (code c) 95 && not (nonempty rest) then String.[] else String.◌∷◌ c rest

-- `_safe_name`
abbrev pub safe_name : String → Result String
safe_name value =
    let safe = rstrip_underscores (lstrip_underscores (collapse false value)) in
    if not (nonempty safe)
    then err (value_error "MCP server/tool name cannot be empty")
    else ok safe
