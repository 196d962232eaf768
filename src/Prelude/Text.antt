-- ===== src/Prelude/Text.antt =====
-- Python's `str`, a sequence of code points, as the native `String` walked by its constructors.
use Prim.Native.Nat.{ℕ, zero, suc, ◌+◌, ◌-◌, ◌≤◌}
use Prim.Native.String.{String, [], ◌∷◌}
use Prim.Native.String
use mathlib.Core.Path.{◌≡◌}
use mathlib.Core.Bool.{Bool, true, false, not, ◌||◌, ◌&&◌}
use Prim.Native.Char.{code}
use software_engineering_age.Prelude.Tests.{eqb, if◌then◌else◌}
use text.Mathlib.Text.{starts_with, ◌==◌}
use mathlib.Core.List
use native.Mathlib.Omega.{arith}
use text.Mathlib.TextLemmas.{nil-append, cons-append}

-- `len(s)`
abbrev pub length : String → ℕ
length [] = 0
length (c ∷ s) = suc (length s)

-- `s[:n]`
abbrev pub take : ℕ → String → String
take zero s = []
take (suc n) [] = []
take (suc n) (c ∷ s) = c ∷ take n s

-- `s[n:]`
abbrev pub drop : ℕ → String → String
drop zero s = s
drop (suc n) [] = []
drop (suc n) (c ∷ s) = drop n s

-- `s[-n:]`, where `s[-0:]` is the whole text
abbrev pub last_chars : ℕ → String → String
last_chars zero s = s
last_chars (suc n) s = drop (length s - suc n) s

-- `bool(s)`
abbrev pub nonempty : String → Bool
nonempty [] = false
nonempty (c ∷ s) = true

-- `t.join(parts)`
abbrev pub join : String → List.List String → String
join t List.[] = []
join t (List.◌∷◌ s List.[]) = s
join t (List.◌∷◌ s (List.◌∷◌ r rest)) = String.◌++◌ s (String.◌++◌ t (join t (List.◌∷◌ r rest)))

pub length-append : (s t : String) → length (String.◌++◌ s t) ≡ length s + length t
length-append [] t = rw nil-append (omega arith)
length-append (c ∷ s) t = rw cons-append (omega (arith, length-append s t))

pub length-take-le : (n : ℕ) (s : String) → length (take n s) ≤ n
length-take-le zero s = omega arith
length-take-le (suc n) [] = omega arith
length-take-le (suc n) (c ∷ s) = omega (arith, length-take-le n s)

pub length-drop : (n : ℕ) (s : String) → length (drop n s) ≡ length s - n
length-drop zero s = omega arith
length-drop (suc n) [] = omega arith
length-drop (suc n) (c ∷ s) = omega (arith, length-drop n s)

pub length-last_chars-le : (n : ℕ) (s : String) → length (last_chars (suc n) s) ≤ suc n
length-last_chars-le n s = omega (arith, length-drop (length s - suc n) s)

-- `needle in s`
abbrev pub has : String → String → Bool
has needle [] = starts_with [] needle
has needle (c ∷ s) = starts_with (c ∷ s) needle || has needle s

-- `s.split("/")[-1]`
abbrev pub last_segment : String → String
last_segment [] = []
last_segment (c ∷ s) =
    let rest = last_segment s in if has "/" s then rest else if eqb (code c) 47 then s else c ∷ s

-- `s.removesuffix(suffix)` of a suffix that is not empty
abbrev pub remove_suffix : String → String → String
remove_suffix suffix [] = []
remove_suffix suffix (c ∷ s) =
    let rest = remove_suffix suffix s in if c ∷ s == suffix then [] else c ∷ rest

-- `s.rstrip("/")`
abbrev pub strip_slashes : String → String
strip_slashes [] = []
strip_slashes (c ∷ s) =
    let rest = strip_slashes s in if eqb (code c) 47 && not (nonempty rest) then [] else c ∷ rest
