-- ===== src/Prelude/Dict.antt =====
-- Python's `dict` with texts as keys, in the order of insertion.
use Prim.Native.String.{String}
use mathlib.Core.Path.{◌≡◌, refl}
use mathlib.Core.Option.{Option, none, some}
use mathlib.Core.List.{List, [], ◌∷◌}
use native.Mathlib.Omega.{arith}
use text.Mathlib.Text.{◌==◌}
use text.Mathlib.TextEquality.{eq_iff}
use software_engineering_age.Prelude.Tests.{if◌then◌else◌}

abbrev pub Dict {ℓ} : Type ℓ → Type ℓ
Dict A = List (String × A)

module _ {ℓ} {A : Type ℓ} where
  -- `d.get(key)`
  abbrev pub get : String → Dict A → Option A
  get key [] = none
  get key ((k, a) ∷ rest) = if k == key then some a else get key rest

  -- `d[key] = a`
  abbrev pub put : String → A → Dict A → Dict A
  put key a [] = (key, a) ∷ []
  put key a ((k, b) ∷ rest) = if k == key then (k, a) ∷ rest else (k, b) ∷ put key a rest

  -- `d.pop(key, None)`, of every entry with that key
  abbrev pub remove : String → Dict A → Dict A
  remove key [] = []
  remove key ((k, a) ∷ rest) =
      let kept = remove key rest in if k == key then kept else (k, a) ∷ kept

  -- `d.values()`
  abbrev pub values : Dict A → List A
  values [] = []
  values ((k, a) ∷ rest) = a ∷ values rest

  abbrev pub keys : Dict A → List String
  keys [] = []
  keys ((k, a) ∷ rest) = k ∷ keys rest

  pub get-put :
      (key k : String) (a : A) (d : Dict A)
      → get key (put k a d) ≡ (if k == key then some a else get key d)
  get-put key k a [] = refl
  get-put key k a ((k', b) ∷ rest) =
      ground (arith, get-put key k a rest, eq_iff k' k, eq_iff k' key, eq_iff k key)

  pub get-remove :
      (key k : String) (d : Dict A) → get key (remove k d) ≡ (if k == key then none else get key d)
  get-remove key k [] = ground arith
  get-remove key k ((k', b) ∷ rest) =
      ground (arith, get-remove key k rest, eq_iff k' k, eq_iff k' key, eq_iff k key)
