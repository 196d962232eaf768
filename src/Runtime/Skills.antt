-- ===== src/Runtime/Skills.antt =====
-- src/minion/runtime/skills.py: `SkillManager`, which skill a name means and how the active skills
-- are rendered within a budget.
pub mod Budget
pub mod Scopes
use software_engineering_age.Prelude.{
  ℤ, ℕ, ◌+◌, ◌-◌, String, ◌<>◌, Bool, true, false, Option, none, some, List, [], ◌∷◌, ◌++◌, ◌==◌,
  take, ltb, leb, if◌then◌else◌,
}
use software_engineering_age.Prelude.Text
use software_engineering_age.Runtime.Policy.{strip}

pub record Skill : Type 0 where
  pub name : String
  pub description : String
  pub instructions : String
  pub source : String
  pub path : String
  pub markers : List String
  pub keywords : List String
  pub priority : ℤ

-- `skills[skill.name] = skill`: a name that is there keeps its place
abbrev pub put_skill : Skill → List Skill → List Skill
put_skill skill [] = skill ∷ []
put_skill skill (s ∷ rest) = if s.name == skill.name then skill ∷ rest else s ∷ put_skill skill rest

-- `{skill.name: skill for skill in ordered}`, from the skills so far
abbrev pub override : List Skill → List Skill → List Skill
override skills [] = skills
override skills (skill ∷ rest) = override (put_skill skill skills) rest

abbrev pub flatten : List (List Skill) → List Skill
flatten [] = []
flatten (found ∷ rest) = found ++ flatten rest

-- `discover` on what the scans found: the built-in skills, the user's, and each repository's in the
-- order of their names
unfoldable pub discover : List Skill → List Skill → List (List Skill) → List Skill
discover builtin user repositories = override [] (builtin ++ (user ++ flatten repositories))

-- `get`
abbrev pub get_skill : String → List Skill → Option Skill
get_skill name [] = none
get_skill name (s ∷ rest) = if s.name == name then some s else get_skill name rest

abbrev pub header : Skill → String
header skill =
    "### Skill: " <> skill.name <> "\nSource: " <> skill.source <> "\nPurpose: "
    <> skill.description <> "\n\n"

abbrev pub truncation : String
truncation = "\n...[skill truncated]"

-- the text of a skill in what is left of the budget
abbrev pub chunk_of : ℕ → Skill → String
chunk_of remaining skill =
    let chunk = header skill <> strip skill.instructions in
    if ltb remaining (Text.length chunk) then Text.take remaining chunk <> truncation else chunk

-- a chunk, and the later ones if something is left of the budget
abbrev pub add_chunk : ℕ → String → List String → List String
add_chunk remaining chunk later =
    chunk ∷ (if leb (remaining - Text.length chunk) 0 then [] else later)

-- The loop of `render`. Its budget is negative after a text that was cut, and the loop ends there;
-- here it is 0.
unfoldable pub render_chunks : List Skill → ℕ → List String → List String
render_chunks skills remaining [] = []
render_chunks skills remaining (name ∷ rest) = elim (get_skill name skills) [
  | none ↦ render_chunks skills remaining rest
  | some skill ↦
      add_chunk remaining (chunk_of remaining skill)
        (render_chunks skills (remaining - Text.length (chunk_of remaining skill)) rest)
]

unfoldable pub render : List Skill → ℕ → ℕ → List String → String
unfolding render_chunks
render skills max_active max_render_chars active_names =
    Text.join "\n\n" (render_chunks skills max_render_chars (take max_active active_names))
