-- ===== src/Runtime/CodeIndex/Impact/Reach.antt =====
-- src/minion/runtime/code_index.py: the impacted files are those that reach a target along imports.
use software_engineering_age.Prelude.{
  ℤ, ℕ, zero, suc, ◌+◌, String, ◌≡◌, ◌↔◌, ◌⊎◌, inl, inr, refl, ap, ◌∙◌, subst, Bool, Bool-cases,
  true, false, not, List, [], ◌∷◌, ◌++◌, contains, is_empty, select, arith,
}
use mathlib.Core.List.{append-nil}
use software_engineering_age.Prelude.Dict.{Dict}
use software_engineering_age.Runtime.CodeIndex.{Manifest, TextLibrary}
use software_engineering_age.Runtime.CodeIndex.Impact.{
  impact_analysis, target_files, next_layer, walk, rounds,
}
use software_engineering_age.Runtime.CodeIndex.Impact.Members.{
  Imports, Importer, contains-append, next_layer_iff, contains-sorted, contains-select,
}

-- A file reaches one of the targets by a number of imports at most.
pub data Within (edges : Dict (List String)) (targets : List String) : ℕ → String → Type 0 where
  target : {n : ℕ} {p : String} → contains p targets ≡ true → Within edges targets n p
  imports :
      {n : ℕ} {p q : String}
      → Imports edges p q
      → Within edges targets n q
      → Within edges targets (suc n) p

module _ (edges : Dict (List String)) where
  module _ (targets : List String) where
    Within-suc : {n : ℕ} {p : String} → Within edges targets n p → Within edges targets (suc n) p
    Within-suc (target h) = target h
    Within-suc (imports i w) = imports i (Within-suc w)

    -- After some rounds, the files that are seen are those within so many imports, and those whose
    -- importers are not seen yet are in the frontier.
    record IsSearch (k : ℕ) (frontier seen : List String) : Type 0 where
      seen_iff : (p : String) → (contains p seen ≡ true) ↔ Within edges targets k p
      frontier_seen : (p : String) → contains p frontier ≡ true → contains p seen ≡ true
      closed :
          (p q : String)
          → contains q seen ≡ true
          → contains q frontier ≡ false
          → Imports edges p q
          → contains p seen ≡ true

    -- an importer of what is seen is seen after the round
    reached :
        (k : ℕ) (frontier seen : List String) (p q : String)
        → IsSearch k frontier seen
        → contains q seen ≡ true
        → Imports edges p q
        → contains p (seen ++ next_layer edges seen frontier) ≡ true
    unfolding Importer
    reached k frontier seen p q inv s i =
        by_frontier (Bool-cases (contains q frontier)) (Bool-cases (contains p seen))
      where
        by_frontier :
            (contains q frontier ≡ true) ⊎ (contains q frontier ≡ false)
            → (contains p seen ≡ true) ⊎ (contains p seen ≡ false)
            → contains p (seen ++ next_layer edges seen frontier) ≡ true
        by_frontier f (inl known) =
            ground (arith, contains-append p seen (next_layer edges seen frontier), known)
        by_frontier (inl f) (inr new) =
            let m = (next_layer_iff edges seen frontier p).1 (new, (q, f, i)) in
            ground (arith, contains-append p seen (next_layer edges seen frontier), m)
        by_frontier (inr f) (inr new) = ground (arith, inv.closed p q s f i, new)

    IsSearch-suc :
        (k : ℕ) (frontier seen : List String)
        → IsSearch k frontier seen
        → IsSearch (suc k) (next_layer edges seen frontier) (seen ++ next_layer edges seen frontier)
    unfolding Importer
    IsSearch-suc k frontier seen inv = record {
      seen_iff = λ p. (λ h. into p h (Bool-cases (contains p seen)), λ w. back p w);
      frontier_seen =
          λ p h. ground (arith, contains-append p seen (next_layer edges seen frontier), h);
      closed = λ p q s f i.
          reached k frontier seen p q inv
            (ground (arith, contains-append q seen (next_layer edges seen frontier), s, f)) i;
    }
      where
        into :
            (p : String)
            → contains p (seen ++ next_layer edges seen frontier) ≡ true
            → (contains p seen ≡ true) ⊎ (contains p seen ≡ false)
            → Within edges targets (suc k) p
        into p h (inl known) = Within-suc ((inv.seen_iff p).0 known)
        into p h (inr new) =
            let (_, (q, f, i)) =
              (next_layer_iff edges seen frontier p).0
                (ground (arith, contains-append p seen (next_layer edges seen frontier), h, new)) in
            imports i ((inv.seen_iff q).0 (inv.frontier_seen q f))

        back :
            (p : String)
            → Within edges targets (suc k) p
            → contains p (seen ++ next_layer edges seen frontier) ≡ true
        back p (target h) =
            let known = (inv.seen_iff p).1 (target h) in
            ground (arith, contains-append p seen (next_layer edges seen frontier), known)
        back p (imports {q = q} i w) = reached k frontier seen p q inv ((inv.seen_iff q).1 w) i

    -- when a round finds nothing, nothing more is within reach
    saturated :
        (k n : ℕ) (frontier seen : List String) (p : String)
        → IsSearch k frontier seen
        → next_layer edges seen frontier ≡ []
        → Within edges targets n p
        → contains p seen ≡ true
    saturated k n frontier seen p inv e (target h) = (inv.seen_iff p).1 (target h)
    saturated k (suc n) frontier seen p inv e (imports {q = q} i w) =
        let known = saturated k n frontier seen q inv e w in
        subst (λ l. contains p l ≡ true) (ap (λ l. seen ++ l) e ∙ append-nil seen)
          (reached k frontier seen p q inv known i)

    Within-le : (k n : ℕ) {p : String} → Within edges targets k p → Within edges targets (k + n) p
    Within-le k zero {p} w =
        let e : k ≡ k + zero = omega arith in subst (λ m. Within edges targets m p) e w
    Within-le k (suc n) {p} w =
        let e : suc (k + n) ≡ k + suc n = omega arith in
        subst (λ m. Within edges targets m p) e (Within-suc (Within-le k n w))

    module _ (ranked : List String → List String) where
      walk_iff :
          (n k : ℕ) (frontier seen : List String) (p : String)
          → IsSearch k frontier seen
          → (contains p (walk edges ranked n frontier seen).1 ≡ true)
            ↔ Within edges targets (k + n) p
      walk_iff zero k frontier seen p inv =
          let e : k ≡ k + zero = omega arith in
          subst (λ m. (contains p seen ≡ true) ↔ Within edges targets m p) e (inv.seen_iff p)
      walk_iff (suc n) k frontier seen p inv =
          by_layer (next_layer edges seen frontier) refl
            (λ layer inv'. walk_iff n (suc k) layer (seen ++ layer) p inv')
        where
          by_layer :
              (layer : List String)
              → next_layer edges seen frontier ≡ layer
              → ((layer : List String)
                  → IsSearch (suc k) layer (seen ++ layer)
                  → (contains p (walk edges ranked n layer (seen ++ layer)).1 ≡ true)
                    ↔ Within edges targets (suc k + n) p)
              → (contains p
                    (elim (is_empty layer) as (λ _. List (List String) × List String) [
                      | true ↦ ([], seen)
                      | false ↦
                          let (layers, all) = walk edges ranked n layer (seen ++ layer) in
                          (ranked layer ∷ layers, all)
                    ]).1
                  ≡ true)
                ↔ Within edges targets (k + suc n) p
          by_layer [] e later = (
            λ h. Within-le k (suc n) ((inv.seen_iff p).0 h),
            λ w. saturated k (k + suc n) frontier seen p inv e w,
          )
          by_layer (x ∷ layer) e later =
              let same : suc k + n ≡ k + suc n = omega arith in
              subst
                (λ m.
                  (contains p (walk edges ranked n (x ∷ layer) (seen ++ x ∷ layer)).1 ≡ true)
                  ↔ Within edges targets m p)
                same
                (later (x ∷ layer) (
                  subst (λ l. IsSearch (suc k) l (seen ++ l)) e (IsSearch-suc k frontier seen inv)))

-- impact_analysis reports as impacted exactly the files that are no target themselves and reach a
-- target along imports, by as many at most as the depth asks for, which is cut to five.
pub impact_analysis-Within :
    (lib : TextLibrary) (ranked : List String → List String) (manifest : Manifest) (text : String)
    (depth : ℤ) (p : String)
    → let targets = target_files lib text manifest.facts in
      (contains p (impact_analysis lib ranked manifest text depth).impacted_files ≡ true)
      ↔ ((contains p targets ≡ false) × Within manifest.dependency_edges targets (rounds depth) p)
unfolding impact_analysis
impact_analysis-Within lib ranked manifest text depth p =
    let all_rounds : zero + rounds depth ≡ rounds depth = omega arith in
    let (to, from) =
      subst (λ m. (contains p seen ≡ true) ↔ Within edges targets m p) all_rounds
        (walk_iff edges targets ranked (rounds depth) zero targets targets p start) in
    let member = contains-sorted p (select keep seen) ∙ contains-select p keep seen in
    (
      λ h. (ground (arith, member, h), to (ground (arith, member, h))),
      λ (new, w). let known = from w in ground (arith, member, new, known),
    )
  where
    edges : Dict (List String)
    edges = manifest.dependency_edges

    targets : List String
    targets = target_files lib text manifest.facts

    seen : List String
    seen = (walk edges ranked (rounds depth) targets targets).1

    keep : String → Bool
    keep path = not (contains path targets)

    start : IsSearch edges targets zero targets targets
    start = record {
      seen_iff = λ q. (λ h. target h, λ w. at_start q w);
      frontier_seen = λ q h. h;
      closed = λ q r s f i. cc;
    }
      where
        at_start : (q : String) → Within edges targets zero q → contains q targets ≡ true
        at_start q (target h) = h
