-- ===== src/Runtime/Tools/Files.antt =====
-- src/minion/runtime/tools.py: the handlers `list_files`, `read_file` and `write_file`. The text of
-- each file is under its absolute path.
pub mod Confinement
pub mod Lines
use Prim.Native.String.{len}
use software_engineering_age.Prelude.{
  ℤ, pos, negsuc, ℕ, zero, suc, ◌+◌, ◌-◌, min, max, String, ◌<>◌, Bool, true, false, not, ◌&&◌,
  ◌||◌, Option, none, some, List, [], ◌∷◌, ◌++◌, map, take, drop, length, contains, eqb, ltb, leb,
  get_or, if◌then◌else◌,
}
use software_engineering_age.Prelude.Text
use software_engineering_age.Prelude.Dict
use software_engineering_age.Domain.{Payload, Value, payload_get, str}
use software_engineering_age.Effects.{
  Action, Result, chain, ok, err, external, pure, raise, lift, gets, modify, ◌>>=◌, ◌>>◌,
}
use software_engineering_age.Runtime.Values.{argument, str_of, decimal}
use software_engineering_age.Runtime.Workspace.{relative_to}
use software_engineering_age.Runtime.Tools.{
  Toolbox, ToolResult, Disk, Entry, safe_path, repo_of, int_at, success, failure,
}

abbrev first_segment : String → String
first_segment String.[] = String.[]
first_segment (String.◌∷◌ c s) =
    let rest = first_segment s in
    if eqb (Prim.Native.Char.code c) 47 then String.[] else String.◌∷◌ c rest

-- `path.parts` of an absolute path, without the root
abbrev pub parts : String → List String
parts String.[] = []
parts (String.◌∷◌ c s) =
    let rest = parts s in
    if eqb (Prim.Native.Char.code c) 47
    then (if Text.nonempty (first_segment s) then first_segment s ∷ rest else rest)
    else rest

-- `max(1, min(n, 8))`
abbrev pub depth_of : ℤ → ℕ
depth_of (pos n) = max 1 (min n 8)
depth_of (negsuc n) = 1

abbrev pub is_listed : String → ℕ → Entry → Bool
is_listed base depth entry =
    not (contains ".git" (parts entry.path))
    && leb (length (parts entry.path) - length (parts base)) depth

abbrev line_of : String → Entry → Result String
line_of repo entry = elim (relative_to repo entry.path) [
  | err e ↦ err e
  | ok relative ↦ ok (relative <> (if entry.is_dir then "/" else ""))
]

abbrev before : Result String → Result (List String) → Result (List String)
before (err e) rest = err e
before (ok line) (err e) = err e
before (ok line) (ok lines) = ok (line ∷ lines)

abbrev only : Result String → Result (List String)
only (err e) = err e
only (ok line) = ok (line ∷ "... truncated ..." ∷ [])

-- the loop, with the number of lines that are left
abbrev pub listing : String → String → ℕ → ℕ → List Entry → Result (List String)
listing repo base depth left [] = ok []
listing repo base depth left (entry ∷ rest) =
    let lines =
      listing repo base depth (if is_listed base depth entry then left - 1 else left) rest in
    if not (is_listed base depth entry)
    then lines
    else if leb left 1
    then only (line_of repo entry)
    else before (line_of repo entry) lines

unfoldable pub list_files : Toolbox → Payload → Action Disk ToolResult
list_files tools args = do
  repo ← lift (repo_of tools args)
  base ← lift (safe_path tools repo (get_or (payload_get "path" args) (str ".")))
  n ← lift (int_at tools "max_depth" (pos 3) args)
  entries ← gets (tools.rglob base)
  lines ← lift (listing repo base (depth_of n) 500 entries)
  pure (success (Text.join "\n" lines))

-- `max(n, 1)`
abbrev pub at_least_one : ℤ → ℕ
at_least_one (pos n) = max n 1
at_least_one (negsuc n) = 1

-- `min(n, limit)`
abbrev pub at_most : ℤ → ℕ → ℤ
at_most (pos n) limit = pos (min n limit)
at_most (negsuc n) limit = negsuc n

-- `lines[start - 1 : end]`, where a negative end counts from the end of the list
abbrev pub slice : List String → ℕ → ℤ → List String
slice lines start (pos n) = drop (start - 1) (take n lines)
slice lines start (negsuc n) = drop (start - 1) (take (length lines - suc n) lines)

-- `f"{i}: {line}"` for the lines, counted from a number
abbrev pub numbered : ℕ → List String → List String
numbered i [] = []
numbered i (line ∷ rest) = (decimal i <> (": " <> line)) ∷ numbered (suc i) rest

-- the lines that are shown of a file
abbrev pub window : List String → ℕ → ℤ → List String
window lines start end = numbered start (slice lines start (at_most end (start + 1000)))

-- the repository and the path that the arguments name
abbrev pub file_of : Toolbox → Payload → Result (String × String)
file_of tools args = chain (repo_of tools args) λ repo.
    chain (argument "path" args) λ name. chain (safe_path tools repo name) λ path. ok (repo, path)

-- `path.read_text()`
unfoldable pub read_text : String → Action Disk String
read_text path d = (
  elim (Dict.get path d.files) [ none ↦ err (external "FileNotFoundError") | some text ↦ ok text ],
  d,
)

unfoldable pub read_file : Toolbox → Payload → Action Disk ToolResult
unfolding read_text
read_file tools args = do
  (repo, path) ← lift (file_of tools args)
  text ← read_text path
  first ← lift (int_at tools "start_line" (pos 1) args)
  let start = at_least_one first
  end ← lift (int_at tools "end_line" (pos (start + 300)) args)
  pure (success (Text.join "\n" (window (tools.splitlines text) start end)))

-- `path.write_text(text)`, which may fail before the file is changed or after a part is written
unfoldable pub write_text : Toolbox → String → String → Action Disk Unit
write_text tools path text d = elim (tools.refuses path text d) [
  | some (e, none) ↦ (err (external e), d)
  | some (e, some part) ↦ (err (external e), record d { files = Dict.put path part d.files })
  | none ↦ (ok tt, record d { files = Dict.put path text d.files })
]

-- the file is written, and then named in the answer
unfoldable pub write_at : Toolbox → String → String → String → Action Disk ToolResult
unfolding write_text
write_at tools repo path content = do
  write_text tools path content
  relative ← lift (relative_to repo path)
  pure (success ("wrote " <> relative <> " (" <> decimal (len content) <> " bytes)"))

unfoldable pub write_file : Toolbox → Payload → Action Disk ToolResult
unfolding write_at
write_file tools args = do
  (repo, path) ← lift (file_of tools args)
  value ← lift (argument "content" args)
  let content = str_of tools.python.shown value
  if ltb 2000000 (len content)
      then pure (failure "write rejected: file content exceeds 2 MB")
      else (write_at tools repo path content)
