-- ===== src/Security/Secrets.antt =====
-- What a child process can read of the parent's environment.
use mathlib.Core.Path.{fun_ext}
use software_engineering_age.Prelude.{
  inl, inr, String, ◌≡◌, refl, Bool, true, false, not, ◌&&◌, ◌||◌, Bool-cases, subst, Option, none,
  some, [], ◌∷◌, ◌==◌, ◌<>◌, eq_iff, contains, is_empty, select, if◌then◌else◌, arith,
}
use text.Mathlib.Text.{starts_with}
use software_engineering_age.Prelude.Text
use software_engineering_age.Security.{
  Environ, is_passed, blocked_exact, safe_child_environment, git_environment, put,
}

-- `env.get(name)`
abbrev pub getenv : String → Environ → Option String
getenv name [] = none
getenv name ((k, v) ∷ rest) = if k == name then some v else getenv name rest

abbrev pub is_secret : String → Bool
is_secret name = contains name blocked_exact || starts_with name "GIT_CONFIG_"

is_passed_iff : (p : String × String) → is_passed p ≡ not (is_secret p.0)
is_passed_iff (k, v) = morgan (contains k blocked_exact) (starts_with k "GIT_CONFIG_")
  where
    morgan : (a b : Bool) → (not a && not b) ≡ not (a || b)
    morgan a b = ground arith

-- What a filter by `not secret` leaves of a variable, whatever the test of a name is.
getenv-select :
    (secret : String → Bool) (name : String) (environ : Environ)
    → getenv name (select (λ p. not (secret p.0)) environ)
      ≡ (if secret name then none else getenv name environ)
getenv-select secret name [] = ground arith
getenv-select secret name ((k, v) ∷ rest) = elim (Bool-cases (k == name)) [
  | inl same ↦
      subst
        (λ n.
          getenv n (select (λ p. not (secret p.0)) ((k, v) ∷ rest))
          ≡ (if secret n then none else getenv n ((k, v) ∷ rest)))
        ((eq_iff k name).0 same) (ground (arith, getenv-select secret k rest, eq_iff k k))
  | inr other ↦ ground (arith, getenv-select secret name rest)
]

-- A child process without extra variables reads none of the blocked variables and no GIT_CONFIG_ one, and every other
-- variable with the value that the parent has.
pub getenv-safe_child_environment :
    (name : String) (environ : Environ)
    → getenv name (safe_child_environment none environ)
      ≡ (if is_secret name then none else getenv name environ)
unfolding safe_child_environment
getenv-safe_child_environment name environ =
    rw (fun_ext is_passed_iff) (getenv-select is_secret name environ)

getenv-put :
    (name k v : String) (e : Environ)
    → getenv name (put k v e) ≡ (if k == name then some v else getenv name e)
getenv-put name k v [] = ground arith
getenv-put name k v ((j, w) ∷ rest) =
    ground (arith, getenv-put name k v rest, eq_iff j k, eq_iff k name, eq_iff j name)

-- whether a token is configured
abbrev pub is_configured : Option String → Bool
is_configured none = false
is_configured (some token) = Text.nonempty token

passed :
    (name : String) (e : Environ)
    → getenv name (select is_passed e) ≡ (if is_secret name then none else getenv name e)
passed name e = rw (fun_ext is_passed_iff) (getenv-select is_secret name e)

put-full : (k v : String) (e : Environ) → is_empty (put k v e) ≡ false
put-full k v [] = refl
put-full k v ((j, w) ∷ rest) = ground arith

is_secret-config :
    (name : String)
    → (("GIT_CONFIG_COUNT" == name)
        || ("GIT_CONFIG_KEY_0" == name)
        || ("GIT_CONFIG_VALUE_0" == name))
      ≡ true
    → is_secret name ≡ true
is_secret-config name h = elim (Bool-cases ("GIT_CONFIG_COUNT" == name)) [
  | inl e ↦ subst (λ n. is_secret n ≡ true) ((eq_iff "GIT_CONFIG_COUNT" name).0 e) refl
  | inr n ↦ elim (Bool-cases ("GIT_CONFIG_KEY_0" == name)) [
    | inl e ↦ subst (λ n. is_secret n ≡ true) ((eq_iff "GIT_CONFIG_KEY_0" name).0 e) refl
    | inr m ↦
        subst (λ n. is_secret n ≡ true) ((eq_iff "GIT_CONFIG_VALUE_0" name).0 (ground arith)) refl
  ]
]

prompt-passed : (name : String) → ("GIT_TERMINAL_PROMPT" == name) ≡ true → is_secret name ≡ false
prompt-passed name h =
    subst (λ n. is_secret n ≡ false) ((eq_iff "GIT_TERMINAL_PROMPT" name).0 h) refl

with_credential : String → Environ → Environ
with_credential value environ = put "GIT_TERMINAL_PROMPT" "0" (
    put "GIT_CONFIG_VALUE_0" value
      (put "GIT_CONFIG_KEY_0" "http.extraheader" (put "GIT_CONFIG_COUNT" "1" environ)))

getenv-with_credential :
    (name value : String) (environ : Environ)
    → getenv name (select is_passed (with_credential value environ))
      ≡ (if "GIT_TERMINAL_PROMPT" == name then some "0" else getenv name (select is_passed environ))
unfolding with_credential
getenv-with_credential name value environ =
    let counted = put "GIT_CONFIG_COUNT" "1" environ in
    let keyed = put "GIT_CONFIG_KEY_0" "http.extraheader" counted in
    let valued = put "GIT_CONFIG_VALUE_0" value keyed in
    ground (
      arith,
      passed name (put "GIT_TERMINAL_PROMPT" "0" valued),
      passed name environ,
      getenv-put name "GIT_TERMINAL_PROMPT" "0" valued,
      getenv-put name "GIT_CONFIG_VALUE_0" value keyed,
      getenv-put name "GIT_CONFIG_KEY_0" "http.extraheader" counted,
      getenv-put name "GIT_CONFIG_COUNT" "1" environ,
      is_secret-config name,
      prompt-passed name,
    )

unconfigured :
    (name : String) (b : Bool) (e : Environ)
    → getenv name (select is_passed (if b then e else e)) ≡ getenv name (select is_passed e)
unconfigured name true e = refl
unconfigured name false e = refl

-- The variables that `git_environment` adds to the parent's for a token are hidden from a child that
-- is given all of them: of each name it reads what a child of the parent's own variables reads, but
-- for GIT_TERMINAL_PROMPT, which is "0" where a token is configured.
pub git_credential_hidden :
    (encode : String → String) (token : Option String) (environ : Environ) (name : String)
    → getenv name (safe_child_environment (some (git_environment encode token environ)) environ) ≡ (
        if is_configured token && ("GIT_TERMINAL_PROMPT" == name)
        then some "0"
        else getenv name (safe_child_environment none environ))
unfolding safe_child_environment git_environment with_credential
git_credential_hidden encode none environ name = unconfigured name (is_empty environ) environ
git_credential_hidden encode (some token) environ name = token_set (Text.nonempty token)
  where
    value : String
    value = "AUTHORIZATION: basic " <> encode ("x-access-token:" <> token)

    token_set :
        (b : Bool)
        → let e = if b then with_credential value environ else environ in
          getenv name (select is_passed (if is_empty e then environ else e)) ≡ (
            if b && ("GIT_TERMINAL_PROMPT" == name)
            then some "0"
            else getenv name (select is_passed environ))
    token_set true =
        rw (put-full "GIT_TERMINAL_PROMPT" "0" _) (getenv-with_credential name value environ)
    token_set false = unconfigured name (is_empty environ) environ
