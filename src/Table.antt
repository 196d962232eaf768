-- ===== src/Table.antt =====
-- SQL tables as lists of rows in insertion order: a primary-key lookup, `UPDATE … WHERE …` with its
-- row count, and what they do to one another. A table's key column is the parameter `key`.
use software_engineering_age.Prelude.{
  ℕ, suc, String, ◌≡◌, refl, Bool, Option, none, some, List, [], ◌∷◌, ◌++◌, arith, ◌==◌, eq_iff,
  if◌then◌else◌,
}
use mathlib.Core.Option

module _ {ℓ} {R : Type ℓ} where
  -- `SELECT … WHERE test`
  abbrev pub count_where : (R → Bool) → List R → ℕ
  count_where test [] = 0
  count_where test (r ∷ rows) = let n = count_where test rows in if test r then suc n else n

  -- `UPDATE … SET change WHERE test`
  unfoldable pub update_where : (R → Bool) → (R → R) → List R → List R
  update_where test change [] = []
  update_where test change (r ∷ rows) =
      (if test r then change r else r) ∷ update_where test change rows

module _ {ℓ} {R : Type ℓ} (key : R → String) where
  -- the row with this primary key
  unfoldable pub find : String → List R → Option R
  find k [] = none
  find k (r ∷ rows) = if key r == k then some r else find k rows

  -- no two rows have one key
  abbrev pub IsKeyed : List R → Type ℓ
  IsKeyed [] = Unit
  IsKeyed (r ∷ rows) = (find (key r) rows ≡ none) × IsKeyed rows

  pub find-key : (k : String) (rows : List R) (r : R) → find k rows ≡ some r → key r ≡ k
  unfolding find
  find-key k [] r h = ground arith
  find-key k (x ∷ rows) r h = ground (arith, eq_iff (key x) k, find-key k rows r)

  pub find-append :
      (k : String) (rows : List R) (r : R)
      → find k (rows ++ r ∷ [])
        ≡ elim (find k rows) [ some x ↦ some x | none ↦ (if key r == k then some r else none) ]
  unfolding find
  find-append k [] r = refl
  find-append k (x ∷ rows) r = ground (arith, find-append k rows r)

  pub IsKeyed-append :
      (rows : List R) (r : R) → find (key r) rows ≡ none → IsKeyed rows → IsKeyed (rows ++ r ∷ [])
  unfolding find
  IsKeyed-append [] r fresh h = (refl, tt)
  IsKeyed-append (x ∷ rows) r fresh h = (
    ground (
      arith,
      fresh,
      h.0,
      find-append (key x) rows r,
      eq_iff (key x) (key r),
      eq_iff (key r) (key x),
    ),
    IsKeyed-append rows r (ground (arith, fresh)) h.1,
  )

module _ {ℓ} {R : Type ℓ} (key : R → String) (test : R → Bool) (change : R → R)
    (keeps : (r : R) → key (change r) ≡ key r) where
  pub find-update_where :
      (k : String) (rows : List R)
      → find key k (update_where test change rows)
        ≡ Option.map (λ r. if test r then change r else r) (find key k rows)
  unfolding find update_where
  find-update_where k [] = refl
  find-update_where k (x ∷ rows) = ground (arith, keeps x, find-update_where k rows)

  pub IsKeyed-update_where :
      (rows : List R) → IsKeyed key rows → IsKeyed key (update_where test change rows)
  unfolding update_where
  IsKeyed-update_where [] h = tt
  IsKeyed-update_where (x ∷ rows) h =
      (ground (arith, keeps x, find-update_where (key x) rows), IsKeyed-update_where rows h.1)
