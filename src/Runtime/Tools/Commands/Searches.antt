-- ===== src/Runtime/Tools/Commands/Searches.antt =====
-- src/minion/runtime/tools.py: the command line of `search_code`, as a shell reads it.
use software_engineering_age.Prelude.{
  ℕ, zero, suc, String, code, Option, none, some, List, [], ◌∷◌, if◌then◌else◌,
}
use software_engineering_age.Runtime.Tools.Quoting.{shell_word, plain, is_blank}

abbrev drop_blank : String → String
drop_blank String.[] = String.[]
drop_blank (String.◌∷◌ c s) = if is_blank (code c) then s else String.◌∷◌ c s

abbrev pub prepend : String → Option (List String × String) → Option (List String × String)
prepend w none = none
prepend w (some (ws, r)) = some (w ∷ ws, r)

-- So many words from the start of a command line, each with the blank behind it, and the rest of the
-- line; none where they are no plain words.
abbrev pub words_of : ℕ → String → Option (List String × String)
words_of zero line = some ([], line)
words_of (suc n) line = elim (shell_word plain line) [
  | none ↦ none
  | some (w, r) ↦ prepend w (words_of n (drop_blank r))
]
