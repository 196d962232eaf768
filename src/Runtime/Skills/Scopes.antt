-- ===== src/Runtime/Skills/Scopes.antt =====
-- src/minion/runtime/skills.py: which of the skills of one name is used.
use software_engineering_age.Prelude.{
  String, ◌≡◌, refl, ap, ◌∙◌, Option, none, some, List, [], ◌∷◌, ◌++◌, ◌==◌, arith, eq_iff,
  if◌then◌else◌,
}
use software_engineering_age.Runtime.Skills.{
  Skill, put_skill, override, discover, flatten, get_skill,
}

-- the last skill of that name in a list, and another where there is none
abbrev pub latest : String → Option Skill → List Skill → Option Skill
latest name found [] = found
latest name found (s ∷ rest) = latest name (if s.name == name then some s else found) rest

get_skill-put_skill :
    (name : String) (skill : Skill) (skills : List Skill)
    → get_skill name (put_skill skill skills)
      ≡ (if skill.name == name then some skill else get_skill name skills)
get_skill-put_skill name skill [] = refl
get_skill-put_skill name skill (s ∷ rest) = ground (
  arith,
  get_skill-put_skill name skill rest,
  eq_iff s.name skill.name,
  eq_iff skill.name name,
  eq_iff s.name name,
)

get_skill-override :
    (name : String) (skills ordered : List Skill)
    → get_skill name (override skills ordered) ≡ latest name (get_skill name skills) ordered
get_skill-override name skills [] = refl
get_skill-override name skills (skill ∷ rest) =
    get_skill-override name (put_skill skill skills) rest
    ∙ ap (λ o. latest name o rest) (get_skill-put_skill name skill skills)

latest-append :
    (name : String) (found : Option Skill) (xs ys : List Skill)
    → latest name found (xs ++ ys) ≡ latest name (latest name found xs) ys
latest-append name found [] ys = refl
latest-append name found (s ∷ rest) ys =
    latest-append name (if s.name == name then some s else found) rest ys

-- A name means the last skill of that name among the repositories' skills; where they have none,
-- the last among the user's; and where these have none either, the last among the built-in ones.
pub get_skill-discover :
    (name : String) (builtin user : List Skill) (repositories : List (List Skill))
    → get_skill name (discover builtin user repositories)
      ≡ latest name (latest name (latest name none builtin) user) (flatten repositories)
unfolding discover
get_skill-discover name builtin user repositories =
    get_skill-override name [] (builtin ++ (user ++ flatten repositories))
    ∙ latest-append name none builtin (user ++ flatten repositories)
    ∙ latest-append name (latest name none builtin) user (flatten repositories)
