-- ===== src/Runtime/Tools/Files/Lines.antt =====
-- src/minion/runtime/tools.py: which lines of a file `read_file` shows.
use software_engineering_age.Prelude.{
  pos, ℕ, zero, suc, ◌+◌, ◌-◌, ◌≤◌, ◌<◌, min, String, ◌<>◌, ◌≡◌, refl, ap, ◌∙◌, Option, none, some,
  List, [], ◌∷◌, length, take, drop, length-take-le, length-drop, arith,
}
use software_engineering_age.Runtime.Values.{decimal}
use software_engineering_age.Runtime.Tools.Files.{numbered, window}

-- `xs[k]` of an index that is not negative
abbrev pub get_elem? {ℓ} : {A : Type ℓ} → List A → ℕ → Option A
get_elem? [] k = none
get_elem? (x ∷ xs) zero = some x
get_elem? (x ∷ xs) (suc k) = get_elem? xs k

-- a line with its number
abbrev pub with_number : ℕ → Option String → Option String
with_number i none = none
with_number i (some line) = some (decimal i <> (": " <> line))

get_elem?-numbered :
    (lines : List String) (i k : ℕ)
    → get_elem? (numbered i lines) k ≡ with_number (i + k) (get_elem? lines k)
get_elem?-numbered [] i k = refl
get_elem?-numbered (line ∷ rest) i zero =
    let e : i ≡ i + zero = omega arith in ap (λ n. some (decimal n <> (": " <> line))) e
get_elem?-numbered (line ∷ rest) i (suc k) =
    let e : suc i + k ≡ i + suc k = omega arith in
    get_elem?-numbered rest (suc i) k ∙ ap (λ n. with_number n (get_elem? rest k)) e

module _ {A : Type 0} where
  get_elem?-drop : (n k : ℕ) (xs : List A) → get_elem? (drop n xs) k ≡ get_elem? xs (n + k)
  get_elem?-drop zero k xs = ap (get_elem? xs) (omega arith)
  get_elem?-drop (suc n) k [] = refl
  get_elem?-drop (suc n) k (x ∷ xs) = get_elem?-drop n k xs ∙ same
    where
      same : get_elem? (x ∷ xs) (suc (n + k)) ≡ get_elem? (x ∷ xs) (suc n + k)
      same = let e : suc (n + k) ≡ suc n + k = omega arith in ap (get_elem? (x ∷ xs)) e

  get_elem?-take : (n k : ℕ) (xs : List A) → k < n → get_elem? (take n xs) k ≡ get_elem? xs k
  get_elem?-take zero k xs h = absurd (omega arith)
  get_elem?-take (suc n) k [] h = refl
  get_elem?-take (suc n) zero (x ∷ xs) h = refl
  get_elem?-take (suc n) (suc k) (x ∷ xs) h = get_elem?-take n k xs (omega arith)

  get_elem?-take_after : (n k : ℕ) (xs : List A) → n ≤ k → get_elem? (take n xs) k ≡ none
  get_elem?-take_after zero k xs h = refl
  get_elem?-take_after (suc n) k [] h = refl
  get_elem?-take_after (suc n) zero (x ∷ xs) h = absurd (omega arith)
  get_elem?-take_after (suc n) (suc k) (x ∷ xs) h = get_elem?-take_after n k xs (omega arith)

length-numbered : (i : ℕ) (lines : List String) → length (numbered i lines) ≡ length lines
length-numbered i [] = refl
length-numbered i (line ∷ rest) = ap suc (length-numbered (suc i) rest)

-- Of a start and an end that is not negative, read_file shows the lines of these numbers and of the
-- numbers between, each under its number and as it stands in the file; it stops 1000 lines after the
-- start, and shows at most 1001 lines.
pub window_lem :
    (lines : List String) (start end k : ℕ)
    → 1 ≤ start
    → (start + k ≤ end
        → k ≤ 1000
        → get_elem? (window lines start (pos end)) k
          ≡ with_number (start + k) (get_elem? lines (start + k - 1)))
      × (end < start + k → get_elem? (window lines start (pos end)) k ≡ none)
      × (length (window lines start (pos end)) ≤ 1001)
window_lem lines start end k h = (
  λ before near.
      line_at
      ∙ ap (with_number (start + k)) (
          get_elem?-take (min end (start + 1000)) (start - 1 + k) lines (omega arith)
          ∙ ap (get_elem? lines) (omega arith)),
  λ past.
      line_at
      ∙ ap (with_number (start + k))
          (get_elem?-take_after (min end (start + 1000)) (start - 1 + k) lines (omega arith)),
  omega (
    arith,
    length-numbered start (drop (start - 1) shown),
    length-drop (start - 1) shown,
    length-take-le (min end (start + 1000)) lines,
  ),
)
  where
    shown : List String
    shown = take (min end (start + 1000)) lines

    line_at :
        get_elem? (window lines start (pos end)) k
        ≡ with_number (start + k) (get_elem? shown (start - 1 + k))
    line_at =
        get_elem?-numbered (drop (start - 1) shown) start k
        ∙ ap (with_number (start + k)) (get_elem?-drop (start - 1) k shown)
