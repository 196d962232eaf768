-- ===== src/Effects/Rules.antt =====
-- Actions under a relation between the state before and after, whether they return or raise: one
-- rule for each way to build an action, over a relation that is reflexive and transitive.
use software_engineering_age.Prelude.{◌≡◌, refl, Bool, true, false, if◌then◌else◌, List, [], ◌∷◌}
use software_engineering_age.Effects.{
  Exn, Result, ok, err, Action, pure, raise, lift, gets, catching, or_else, and_then, ◌>>=◌,
  for_each,
}

pub record IsPreorder {ℓ} {S : Type ℓ} (R : S → S → Type ℓ) : Type ℓ where
  pub reflexive : (s : S) → R s s
  pub transitive : (s t u : S) → R s t → R t u → R s u

pub record Respects {ℓ} {S A : Type ℓ} (R : S → S → Type ℓ) (m : Action S A) : Type ℓ where
  pub at : (s : S) → R s (m s).1

module _ {ℓ} {S A : Type ℓ} {R : S → S → Type ℓ} (order : IsPreorder R) where
  pub Respects-pure : (a : A) → Respects R (pure a)
  unfolding pure
  Respects-pure a = record { at = order.reflexive }

  pub Respects-raise : (e : Exn) → Respects R (raise {A = A} e)
  unfolding raise
  Respects-raise e = record { at = order.reflexive }

  pub Respects-lift : (r : Result A) → Respects R (lift r)
  unfolding lift
  Respects-lift r = record { at = order.reflexive }

  pub Respects-gets : (f : S → A) → Respects R (gets f)
  unfolding gets
  Respects-gets f = record { at = order.reflexive }

  pub Respects-if :
      (b : Bool) (m n : Action S A) → Respects R m → Respects R n → Respects R (if b then m else n)
  Respects-if true m n hm hn = hm
  Respects-if false m n hm hn = hn

  handled :
      (r : Result A) (handler : Exn → Action S A) (s t : S)
      → R s t
      → ((e : Exn) → Respects R (handler e))
      → R s (or_else r handler t).1
  handled (ok a) handler s t h k = h
  handled (err e) handler s t h k = order.transitive s t _ h ((k e).at t)

  pub Respects-catching :
      (m : Action S A) (handler : Exn → Action S A)
      → Respects R m
      → ((e : Exn) → Respects R (handler e))
      → Respects R (catching m handler)
  unfolding catching
  Respects-catching m handler h k = record {
    at = λ s. let (r, t) = m s in handled r handler s t (h.at s) k;
  }

module _ {ℓ} {S A B : Type ℓ} {R : S → S → Type ℓ} (order : IsPreorder R) where
  continued :
      (r : Result A) (f : A → Action S B) (s t : S)
      → R s t
      → ((a : A) → Respects R (f a))
      → R s (and_then r f t).1
  continued (ok a) f s t h k = order.transitive s t _ h ((k a).at t)
  continued (err e) f s t h k = h

  pub Respects-bind :
      (m : Action S A) (f : A → Action S B)
      → Respects R m
      → ((a : A) → Respects R (f a))
      → Respects R (m >>= f)
  unfolding ◌>>=◌
  Respects-bind m f h k = record { at = λ s. let (r, t) = m s in continued r f s t (h.at s) k }

module _ {ℓ} {S A B : Type ℓ} {R : S → S → Type ℓ} (order : IsPreorder R) where
  -- the next action knows the result that it got
  pub Respects-lift-bind :
      (r : Result A) (f : A → Action S B)
      → ((a : A) → r ≡ ok a → Respects R (f a))
      → Respects R (lift r >>= f)
  unfolding ◌>>=◌ lift
  Respects-lift-bind (ok a) f h = record { at = λ s. (h a refl).at s }
  Respects-lift-bind (err e) f h = record { at = λ s. order.reflexive s }

module _ {ℓ} {S X : Type ℓ} {R : S → S → Type ℓ} (order : IsPreorder R) where
  pub Respects-for_each :
      (xs : List X) (body : X → Action S Unit)
      → ((x : X) → Respects R (body x))
      → Respects R (for_each xs body)
  unfolding for_each
  Respects-for_each [] body h = Respects-pure order tt
  Respects-for_each (x ∷ xs) body h =
      Respects-bind order (body x) (λ _. for_each xs body) (h x) (λ _. Respects-for_each xs body h)

pub ruleset respects_rules = (
  Respects-pure, Respects-raise, Respects-lift, Respects-gets, Respects-if, Respects-bind,
  Respects-catching, Respects-for_each,
)
