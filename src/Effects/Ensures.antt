-- ===== src/Effects/Ensures.antt =====
-- What holds of the result and the state when an action returns: one rule for each way to build an
-- action. Nothing is said of an action that raises.
use software_engineering_age.Prelude.{
  ◌≡◌, sym, refl, ◌∙◌, ap, subst, Bool, true, false, if◌then◌else◌,
}
use software_engineering_age.Effects.{
  Exn, Result, ok, err, Action, pure, lift, raise, and_then, catching, or_else, chain, finally,
  after_cleanup, ◌>>=◌,
}

pub record Ensures {ℓ} {S A : Type ℓ} (P : A → S → Type ℓ) (m : Action S A) : Type ℓ where
  pub returned : (s t : S) (a : A) → m s ≡ (ok a, t) → P a t

pub chain_ok {ℓ} :
    {A B : Type ℓ} (r : Result A) (f : A → Result B) (b : B)
    → chain r f ≡ ok b
    → (a : A) × (r ≡ ok a) × (f a ≡ ok b)
chain_ok (ok a) f b h = (a, refl, h)
chain_ok (err e) f b h = cc

module _ {ℓ} {S A B : Type ℓ} where
  -- An action that is followed by another returned first.
  pub returned_first :
      (m : Action S A) (f : A → Action S B) (s t : S) (b : B)
      → (m >>= f) s ≡ (ok b, t)
      → (a : A) × (u : S) × (m s ≡ (ok a, u)) × (f a u ≡ (ok b, t))
  unfolding ◌>>=◌
  returned_first m f s t b h = split (m s) refl h
    where
      split :
          (ru : Result A × S)
          → m s ≡ ru
          → and_then ru.0 f ru.1 ≡ (ok b, t)
          → (a : A) × (u : S) × (m s ≡ (ok a, u)) × (f a u ≡ (ok b, t))
      split (ok a, u) e h = (a, u, e, h)
      split (err e, u) _ h = cc

  pub Ensures-bind :
      {P : B → S → Type ℓ} (m : Action S A) (f : A → Action S B)
      → ((a : A) → Ensures P (f a))
      → Ensures P (m >>= f)
  Ensures-bind m f h = record {
    returned = λ s t b e. let (a, u, _, e') = returned_first m f s t b e in (h a).returned u t b e';
  }

  pub Ensures-then :
      {Q : A → S → Type ℓ} {P : B → S → Type ℓ} (m : Action S A) (f : A → Action S B)
      → Ensures Q m
      → ((a : A) (s t : S) (b : B) → Q a s → f a s ≡ (ok b, t) → P b t)
      → Ensures P (m >>= f)
  Ensures-then m f h k = record {
    returned = λ s t b e.
        let (a, u, e₀, e') = returned_first m f s t b e in k a u t b (h.returned s u a e₀) e';
  }

module _ {ℓ} {S A : Type ℓ} where
  pub pure_returned : (s t : S) (a b : A) → pure a s ≡ (ok b, t) → (a ≡ b) × (s ≡ t)
  unfolding pure
  pure_returned s t a b e =
      (same (ap (λ (r : Result A × S). r.0) e), ap (λ (r : Result A × S). r.1) e)
    where
      same : ok a ≡ ok b → a ≡ b
      same e = cc

  pub lift_returned : (s t : S) (r : Result A) (b : A) → lift r s ≡ (ok b, t) → (r ≡ ok b) × (s ≡ t)
  unfolding lift
  lift_returned s t r b e = (ap (λ (r : Result A × S). r.0) e, ap (λ (r : Result A × S). r.1) e)

module _ {ℓ} {S A : Type ℓ} {P : A → S → Type ℓ} where
  pub Ensures-pure : (a : A) → ((s : S) → P a s) → Ensures P (pure a)
  unfolding pure
  Ensures-pure a h = record {
    returned = λ s t b e.
        let (e₀, e₁) = pure_returned s t a b e in
        subst (λ u. P b u) e₁ (subst (λ x. P x s) e₀ (h s));
  }

  pub Ensures-raise : (e : Exn) → Ensures P (raise e)
  unfolding raise
  Ensures-raise e = record { returned = no }
    where
      no : (s t : S) (b : A) → raise {A = A} e s ≡ (ok b, t) → P b t
      no s t b h = cc

  pub Ensures-if :
      (b : Bool) (m n : Action S A) → Ensures P m → Ensures P n → Ensures P (if b then m else n)
  Ensures-if true m n hm hn = hm
  Ensures-if false m n hm hn = hn

  pub Ensures-catching :
      (m : Action S A) (handler : Exn → Action S A)
      → Ensures P m
      → ((e : Exn) → Ensures P (handler e))
      → Ensures P (catching m handler)
  unfolding catching
  Ensures-catching m handler h k = record { returned = λ s t a e. by_result s (m s) refl t a e }
    where
      by_result :
          (s : S) (r : Result A × S)
          → m s ≡ r
          → (t : S) (a : A) → or_else r.0 handler r.1 ≡ (ok a, t)
          → P a t
      by_result s (ok a, u) e t b e' = h.returned s t b (e ∙ e')
      by_result s (err x, u) e t b e' = (k x).returned u t b e'

  pub Ensures-finally :
      (m : Action S A) (cleanup : Action S Unit)
      → Ensures P m
      → ((a : A) (s : S) → P a s → P a (cleanup s).1)
      → Ensures P (finally m cleanup)
  unfolding finally
  Ensures-finally m cleanup h keeps = record {
    returned = λ s t a e. by_result s (m s) refl (cleanup (m s).1) refl t a e;
  }
    where
      by_result :
          (s : S) (r : Result A × S)
          → m s ≡ r
          → (c : Result (Unit {ℓ}) × S) → cleanup (m s).1 ≡ c
          → (t : S) (a : A) → ◌≡◌ {A = Result A × S} (after_cleanup r.0 c.0, c.1) (ok a, t)
          → P a t
      by_result s (ok a, u) e (ok v, w) e' t b e'' =
          let same : a ≡ b = same_ok a b (ap (λ (x : Result A × S). x.0) e'') in
          subst (λ x. P x t) same
            (subst (λ x. P a x)
              (ap (λ (x : Result (Unit {ℓ}) × S). x.1) e' ∙ ap (λ (x : Result A × S). x.1) e'')
              (keeps a (m s).1 (h.returned s (m s).1 a (e ∙ ap (λ x. (ok a, x.1)) (sym e)))))
        where
          same_ok : (a b : A) → ok a ≡ ok b → a ≡ b
          same_ok a b h = cc

          pair_of : (r : Result A × S) (a : A) → r.0 ≡ ok a → r ≡ (ok a, r.1)
          pair_of (x, s) a h = ap (λ y. (y, s)) h
      by_result s (ok a, u) e (err x, w) e' t b e'' = cc
      by_result s (err x, u) e (ok v, w) e' t b e'' = cc
      by_result s (err x, u) e (err y, w) e' t b e'' = cc
