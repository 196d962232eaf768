-- ===== src/Runtime/CodeIndex/Impact/Members.antt =====
-- src/minion/runtime/code_index.py: which files are in a layer of `impact_analysis`, and in a sorted
-- list.
use software_engineering_age.Prelude.{
  String, ◌≡◌, ◌↔◌, ◌⊎◌, inl, inr, refl, sym, ap, ◌∙◌, subst, Bool, Bool-cases, true, false, not,
  ◌&&◌, ◌||◌, List, [], ◌∷◌, ◌++◌, contains, select, ◌==◌, eq_iff, if◌then◌else◌, arith,
}
use Prim.Native.Nat.{Ordering}
use Prim.Native.String.{compare}
use software_engineering_age.Prelude.Dict.{Dict}
use software_engineering_age.Runtime.CodeIndex.{sorted, insert}
use software_engineering_age.Runtime.CodeIndex.Impact.{
  reverse_of, reverse_of_all, add_new, next_layer,
}

-- A file imports another, by an entry of the table of dependencies.
abbrev pub Imports : Dict (List String) → String → String → Type 0
Imports [] source dependency = ⊥
Imports ((s, targets) ∷ rest) source dependency =
    ((s ≡ source) × (contains dependency targets ≡ true)) ⊎ Imports rest source dependency

pub contains-append :
    (x : String) (xs ys : List String) → contains x (xs ++ ys) ≡ (contains x xs || contains x ys)
contains-append x [] ys = refl
contains-append x (y ∷ xs) ys = ground (arith, contains-append x xs ys)

pub contains-add_new :
    (x : String) (seen layer xs : List String)
    → contains x (add_new seen layer xs)
      ≡ (contains x layer || contains x xs && not (contains x seen))
contains-add_new x seen layer [] = ground arith
contains-add_new x seen layer (y ∷ xs) =
    by_known (contains y seen) (contains y layer) refl refl (λ l. contains-add_new x seen l xs)
  where
    by_known :
        (s l : Bool)
        → contains y seen ≡ s
        → contains y layer ≡ l
        → ((l : List String)
            → contains x (add_new seen l xs)
              ≡ (contains x l || contains x xs && not (contains x seen)))
        → contains x (add_new seen (if s || l then layer else layer ++ y ∷ []) xs)
          ≡ (contains x layer || (x == y || contains x xs) && not (contains x seen))
    by_known true l e e' later = ground (arith, later layer, eq_iff x y)
    by_known false true e e' later = ground (arith, later layer, eq_iff x y)
    by_known false false e e' later =
        ground (arith, later (layer ++ y ∷ []), contains-append x layer (y ∷ []), eq_iff x y)

module _ (edges : Dict (List String)) (q : String) where
  pub reverse_of_iff :
      (es : Dict (List String)) (p : String)
      → (contains p (reverse_of es q) ≡ true) ↔ Imports es p q
  reverse_of_iff [] p = (λ h. cc, λ h. absurd h)
  reverse_of_iff ((s, targets) ∷ rest) p =
      by_target (contains q targets) refl (reverse_of_iff rest p)
    where
      by_target :
          (b : Bool)
          → contains q targets ≡ b
          → (contains p (reverse_of rest q) ≡ true) ↔ Imports rest p q
          → (contains p (if b then s ∷ reverse_of rest q else reverse_of rest q) ≡ true)
            ↔ (((s ≡ p) × (contains q targets ≡ true)) ⊎ Imports rest p q)
      by_target false e ih =
          (λ h. inr (ih.0 h), λ h. elim h [ inl (_, t) ↦ absurd (cc) | inr i ↦ ih.1 i ])
      by_target true e ih = (
        λ h. from_member h (Bool-cases (p == s)),
        λ h. elim h [
          | inl (same, t) ↦ ground (arith, eq_iff p s, same)
          | inr i ↦ ground (arith, ih.1 i)
        ],
      )
        where
          from_member :
              (p == s || contains p (reverse_of rest q)) ≡ true
              → (p == s ≡ true) ⊎ (p == s ≡ false)
              → ((s ≡ p) × (contains q targets ≡ true)) ⊎ Imports rest p q
          from_member h (inl t) = inl (sym ((eq_iff p s).0 t), e)
          from_member h (inr f) = inr (ih.0 (ground (arith, h, f)))

module _ (edges : Dict (List String)) where
  -- a file that imports one of some files
  unfoldable pub Importer : List String → String → Type 0
  Importer frontier p = (q : String) × (contains q frontier ≡ true) × Imports edges p q

  pub reverse_of_all_iff :
      (frontier : List String) (p : String)
      → (contains p (reverse_of_all edges frontier) ≡ true) ↔ Importer frontier p
  unfolding Importer
  reverse_of_all_iff [] p = (λ h. cc, λ (q, h, _). cc)
  reverse_of_all_iff (c ∷ rest) p =
      let later = reverse_of_all_iff rest p in
      (
        λ h.
            from_member later (Bool-cases (contains p (reverse_of edges c)))
              (sym (contains-append p (reverse_of edges c) (reverse_of_all edges rest)) ∙ h),
        λ (q, h, i). to_member later q h i (Bool-cases (q == c)),
      )
    where
      from_member :
          ((contains p (reverse_of_all edges rest) ≡ true) ↔ Importer rest p)
          → (contains p (reverse_of edges c) ≡ true) ⊎ (contains p (reverse_of edges c) ≡ false)
          → (contains p (reverse_of edges c) || contains p (reverse_of_all edges rest)) ≡ true
          → Importer (c ∷ rest) p
      from_member later (inl t) h =
          (c, ground (arith, eq_iff c c), (reverse_of_iff edges c edges p).0 t)
      from_member later (inr f) h =
          let (q, m, i) = later.0 (ground (arith, h, f)) in (q, ground (arith, m), i)

      to_member :
          ((contains p (reverse_of_all edges rest) ≡ true) ↔ Importer rest p)
          → (q : String) → contains q (c ∷ rest) ≡ true
          → Imports edges p q
          → (q == c ≡ true) ⊎ (q == c ≡ false)
          → contains p (reverse_of_all edges (c ∷ rest)) ≡ true
      to_member later q h i (inl t) =
          let here =
            (reverse_of_iff edges c edges p).1 (subst (Imports edges p) ((eq_iff q c).0 t) i) in
          ground (arith, contains-append p (reverse_of edges c) (reverse_of_all edges rest), here)
      to_member later q h i (inr f) =
          let there = later.1 (q, ground (arith, h, f), i) in
          ground (arith, contains-append p (reverse_of edges c) (reverse_of_all edges rest), there)

  pub next_layer_iff :
      (seen frontier : List String) (p : String)
      → (contains p (next_layer edges seen frontier) ≡ true)
        ↔ ((contains p seen ≡ false) × Importer frontier p)
  next_layer_iff seen frontier p =
      let e = contains-add_new p seen [] (reverse_of_all edges frontier) in
      let (to, from) = reverse_of_all_iff frontier p in
      (
        λ h. (ground (arith, e, h), to (ground (arith, e, h))),
        λ (unseen, i). let m = from i in ground (arith, e, m, unseen),
      )

pub contains-insert :
    (x y : String) (ys : List String) → contains x (insert y ys) ≡ (x == y || contains x ys)
contains-insert x y [] = refl
contains-insert x y (z ∷ ys) = by_order (compare y z) (contains-insert x y ys)
  where
    by_order :
        (o : Ordering)
        → contains x (insert y ys) ≡ (x == y || contains x ys)
        → contains x
            (elim o as (λ _. List String) [ Ordering.gt ↦ z ∷ insert y ys | _ ↦ y ∷ z ∷ ys ])
          ≡ (x == y || (x == z || contains x ys))
    by_order Ordering.lt ih = refl
    by_order Ordering.eq ih = refl
    by_order Ordering.gt ih = ground (arith, ih)

pub contains-sorted : (x : String) (xs : List String) → contains x (sorted xs) ≡ contains x xs
contains-sorted x [] = refl
contains-sorted x (y ∷ xs) =
    contains-insert x y (sorted xs) ∙ ap (λ b. x == y || b) (contains-sorted x xs)

pub contains-select :
    (x : String) (keep : String → Bool) (xs : List String)
    → contains x (select keep xs) ≡ (contains x xs && keep x)
contains-select x keep [] = refl
contains-select x keep (y ∷ xs) = ground (arith, contains-select x keep xs, eq_iff x y)
