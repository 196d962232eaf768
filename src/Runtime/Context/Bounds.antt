-- ===== src/Runtime/Context/Bounds.antt =====
-- src/minion/runtime/context.py: the bound of the prompt.
use software_engineering_age.Prelude.{
  ℕ, zero, suc, ◌+◌, ◌-◌, ◌/◌, ◌≤◌, String, ◌<>◌, ◌≡◌, refl, inl, inr, Bool-cases, ltb, arith,
}
use software_engineering_age.Prelude.Text
use software_engineering_age.Runtime.Context.Window.{clip, elision}

last_chars-le : (n : ℕ) (s : String) → 1 ≤ n → Text.length (Text.last_chars n s) ≤ n
last_chars-le zero s h = absurd (omega arith)
last_chars-le (suc n) s h = Text.length-last_chars-le n s

length-elision : Text.length elision ≡ 31
length-elision = refl

-- With at least two places, what is left of a prompt has at most as many characters as the settings
-- allow, and the 31 of the note on what was left out.
pub clip-le :
    (max_chars : ℕ) (user : String)
    → 2 ≤ max_chars
    → Text.length (clip max_chars user) ≤ max_chars + 31
unfolding clip
clip-le max_chars user h = elim (Bool-cases (ltb max_chars (Text.length user))) [
  | inl long ↦ rw long (cut (max_chars / 2) (omega arith) (omega arith))
  | inr short ↦ rw short (ground arith)
]
  where
    cut :
        (tail : ℕ)
        → 1 ≤ tail
        → tail ≤ max_chars
        → Text.length (Text.take (max_chars - tail) user <> (elision <> Text.last_chars tail user))
          ≤ max_chars + 31
    cut tail low high = omega (
      arith,
      Text.length-append (Text.take (max_chars - tail) user) (elision <> Text.last_chars tail user),
      Text.length-append elision (Text.last_chars tail user),
      length-elision,
      Text.length-take-le (max_chars - tail) user,
      last_chars-le tail user low,
    )
