-- ===== src/Effects.antt =====
-- src/minion/errors.py, and methods that change shared state and may raise. What was written
-- before a raise stays written, so the state comes back beside an exception too.
pub mod Rules
pub mod Ensures
use software_engineering_age.Prelude.{String, ◌<>◌, ◌≡◌, List, [], ◌∷◌}

-- The exceptions of errors.py, those of Python's library that the code raises or tells apart, and
-- `external` for any other that foreign code raises. `cancelled_error` is asyncio's.
pub data Exn : Type 0 where
  invalid_state_transition : String → Exn
  environment_error : String → Exn
  tool_execution_error : String → Exn
  authorization_error : String → Exn
  key_error : String → Exn
  runtime_error : String → Exn
  value_error : String → Exn
  external : String → Exn
  cancelled_error : Exn

-- `str(exc)`
unfoldable pub str_exn : Exn → String
str_exn (invalid_state_transition m) = m
str_exn (environment_error m) = m
str_exn (tool_execution_error m) = m
str_exn (authorization_error m) = m
str_exn (key_error k) = "'" <> k <> "'"
str_exn (runtime_error m) = m
str_exn (value_error m) = m
str_exn (external m) = m
str_exn cancelled_error = ""

pub data Result {ℓ} (A : Type ℓ) : Type ℓ where
  ok : A → Result A
  err : Exn → Result A

-- What comes next of a result.
abbrev pub chain {ℓ} : {A B : Type ℓ} → Result A → (A → Result B) → Result B
chain (ok a) f = f a
chain (err e) f = err e

-- An action on a state `S`.
abbrev pub Action {ℓ} : Type ℓ → Type ℓ → Type ℓ
Action S A = S → Result A × S

module _ {ℓ} {S A : Type ℓ} where
  unfoldable pub pure : A → Action S A
  pure a s = (ok a, s)

  unfoldable pub raise : Exn → Action S A
  raise e s = (err e, s)

  unfoldable pub lift : Result A → Action S A
  lift r s = (r, s)

  unfoldable pub gets : (S → A) → Action S A
  gets f s = (ok (f s), s)

  -- `try: m  except: handler`; the handler re-raises what it does not catch
  abbrev pub or_else : Result A → (Exn → Action S A) → Action S A
  or_else (ok a) handler s = (ok a, s)
  or_else (err e) handler s = handler e s

  unfoldable pub catching : Action S A → (Exn → Action S A) → Action S A
  catching m handler s = let (r, s') = m s in or_else r handler s'

abbrev pub after_cleanup {ℓ κ} : {A : Type ℓ} {U : Type κ} → Result A → Result U → Result A
after_cleanup r (ok u) = r
after_cleanup r (err e) = err e

module _ {ℓ} {S A : Type ℓ} where
  -- `try: m  finally: cleanup`
  unfoldable pub finally : Action S A → Action S Unit → Action S A
  finally m cleanup s = let (r, s') = m s in let (c, s'') = cleanup s' in (after_cleanup r c, s'')

module _ {ℓ} {S : Type ℓ} where
  unfoldable pub modify : (S → S) → Action S Unit
  modify f s = (ok tt, f s)

module _ {ℓ} {S A B : Type ℓ} where
  abbrev pub and_then : Result A → (A → Action S B) → Action S B
  and_then (ok a) f s = f a s
  and_then (err e) f s = (err e, s)

  infixl 10 ◌>>=◌ ◌>>◌
  unfoldable pub ◌>>=◌ : Action S A → (A → Action S B) → Action S B
  unfolding pure raise lift gets modify
  ◌>>=◌ m f s = let (r, s') = m s in and_then r f s'

  abbrev pub ◌>>◌ : Action S A → Action S B → Action S B
  m >> n = m >>= λ _. n

-- `for x in xs: body(x)`
module _ {ℓ} {S X : Type ℓ} where
  unfoldable pub for_each : List X → (X → Action S Unit) → Action S Unit
  for_each [] body = pure tt
  for_each (x ∷ xs) body = body x >>= λ _. for_each xs body
