-- ===== src/Runtime/Skills/Budget.antt =====
-- src/minion/runtime/skills.py: the length of the rendered skills.
use software_engineering_age.Prelude.{
  ℕ, zero, suc, ◌+◌, ◌-◌, ◌*◌, ◌≤◌, String, ◌<>◌, ◌≡◌, refl, ◌⊎◌, inl, inr, Bool-cases, none, some,
  Option-cases, List, [], ◌∷◌, take, length, length-take-le, ltb, arith,
}
use software_engineering_age.Prelude.Text
use software_engineering_age.Runtime.Policy.{strip}
use software_engineering_age.Runtime.Skills.{
  Skill, get_skill, header, truncation, chunk_of, render_chunks, add_chunk, render,
}

length-truncation : Text.length truncation ≡ 21
length-truncation = refl

length-take : (n : ℕ) (s : String) → n ≤ Text.length s → Text.length (Text.take n s) ≡ n
length-take zero s h = refl
length-take (suc n) String.[] h = absurd (omega arith)
length-take (suc n) (String.◌∷◌ c s) h = omega (arith, length-take n s)

abbrev total : List String → ℕ
total [] = 0
total (s ∷ rest) = Text.length s + total rest

-- A text that fits leaves the rest of the budget, and one that was cut leaves nothing.
fits_or_ends :
    (remaining : ℕ) (skill : Skill)
    → (Text.length (chunk_of remaining skill) ≤ remaining)
      ⊎ (Text.length (chunk_of remaining skill) ≡ remaining + 21)
fits_or_ends remaining skill =
    elim (Bool-cases (ltb remaining (Text.length (header skill <> strip skill.instructions)))) [
      | inl long ↦ rw long (
          inr (
            omega (
              arith,
              Text.length-append (Text.take remaining (header skill <> strip skill.instructions))
                  truncation,
              length-truncation,
              length-take remaining (header skill <> strip skill.instructions) (ground arith),
            )))
      | inr short ↦ rw short (inl (ground arith))
    ]

render_missing :
    (skills : List Skill) (remaining : ℕ) (name : String) (rest : List String)
    → get_skill name skills ≡ none
    → render_chunks skills remaining (name ∷ rest) ≡ render_chunks skills remaining rest
unfolding render_chunks
render_missing skills remaining name rest missing = rw (missing, render_chunks) refl

render_found :
    (skills : List Skill) (remaining : ℕ) (name : String) (rest : List String) (skill : Skill)
    → get_skill name skills ≡ some skill
    → render_chunks skills remaining (name ∷ rest)
      ≡ add_chunk remaining
          (chunk_of remaining skill)
          (render_chunks skills (remaining - Text.length (chunk_of remaining skill)) rest)
unfolding render_chunks
render_found skills remaining name rest skill found = ground (arith, found)

add_chunk-total :
    (remaining : ℕ) (chunk : String) (later : List String)
    → (Text.length chunk ≤ remaining) ⊎ (Text.length chunk ≡ remaining + 21)
    → total later ≤ remaining - Text.length chunk + 21
    → total (add_chunk remaining chunk later) ≤ remaining + 21
add_chunk-total remaining chunk later h k = ground arith

add_chunk-length :
    (remaining : ℕ) (chunk : String) (later : List String) (n : ℕ)
    → length later ≤ n
    → length (add_chunk remaining chunk later) ≤ suc n
add_chunk-length remaining chunk later n k = ground arith

total-render_chunks :
    (skills : List Skill) (remaining : ℕ) (names : List String)
    → total (render_chunks skills remaining names) ≤ remaining + 21
total-render_chunks skills remaining [] = unfold render_chunks in omega arith
total-render_chunks skills remaining (name ∷ rest) = elim (Option-cases (get_skill name skills)) [
  | inl missing ↦
      rw (render_missing skills remaining name rest missing)
        (total-render_chunks skills remaining rest)
  | inr (skill, found) ↦ rw (render_found skills remaining name rest skill found) (
      add_chunk-total remaining (chunk_of remaining skill) _ (fits_or_ends remaining skill)
        (total-render_chunks skills (remaining - Text.length (chunk_of remaining skill)) rest))
]

count-render_chunks :
    (skills : List Skill) (remaining : ℕ) (names : List String)
    → length (render_chunks skills remaining names) ≤ length names
count-render_chunks skills remaining [] = unfold render_chunks in omega arith
count-render_chunks skills remaining (name ∷ rest) = elim (Option-cases (get_skill name skills)) [
  | inl missing ↦
      rw (render_missing skills remaining name rest missing)
        (omega (arith, count-render_chunks skills remaining rest))
  | inr (skill, found) ↦ rw (render_found skills remaining name rest skill found) (
      add_chunk-length remaining (chunk_of remaining skill) _ (length rest)
        (count-render_chunks skills (remaining - Text.length (chunk_of remaining skill)) rest))
]

length-join :
    (chunks : List String)
    → Text.length (Text.join "\n\n" chunks) ≤ total chunks + 2 * length chunks
length-join [] = omega arith
length-join (s ∷ []) = omega arith
length-join (s ∷ r ∷ rest) = omega (
  arith,
  Text.length-append s ("\n\n" <> Text.join "\n\n" (r ∷ rest)),
  Text.length-append "\n\n" (Text.join "\n\n" (r ∷ rest)),
  length-join (r ∷ rest),
)

-- The rendered skills have at most as many characters as the budget allows, the 21 of the note on a
-- cut text, and two for each skill that may be active.
pub render-le :
    (skills : List Skill) (max_active max_render_chars : ℕ) (names : List String)
    → Text.length (render skills max_active max_render_chars names)
      ≤ max_render_chars + 21 + 2 * max_active
unfolding render
render-le skills max_active max_render_chars names = omega (
  arith,
  length-join (render_chunks skills max_render_chars (take max_active names)),
  total-render_chunks skills max_render_chars (take max_active names),
  count-render_chunks skills max_render_chars (take max_active names),
  length-take-le max_active names,
)
