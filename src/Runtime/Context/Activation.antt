-- ===== src/Runtime/Context/Activation.antt =====
-- src/minion/runtime/context.py: `_activate_skills` keeps the active skills few, known and different.
use software_engineering_age.Prelude.{
  ◌≤◌, String, ◌≡◌, refl, subst, inl, inr, Bool, true, false, not, ◌&&◌, ◌||◌, some, List, [], ◌∷◌,
  ◌++◌, ◌==◌, length, length-append, contains, all_of, leb, arith, eq_iff, Bool-cases,
}
use software_engineering_age.Domain.{TaskView, SessionView}
use software_engineering_age.Effects.{ok, pure}
use software_engineering_age.Effects.Ensures.{
  Ensures, Ensures-then, returned_first, pure_returned, Ensures-pure, Ensures-bind,
}
use software_engineering_age.Models.{World}
use software_engineering_age.Runtime.Context.{Skills, activate_each, activate_for, remember_skills}

-- no text twice
abbrev pub distinct : List String → Bool
distinct [] = true
distinct (s ∷ rest) = not (contains s rest) && distinct rest

-- Within the bound, known to the manager, and each once.
pub record IsActive (skills : Skills) (names : List String) : Type 0 where
  pub few : length names ≤ skills.max_active
  pub known : all_of skills.is_known names ≡ true
  pub different : distinct names ≡ true

known-append :
    (p : String → Bool) (names : List String) (name : String)
    → all_of p names ≡ true
    → p name ≡ true
    → all_of p (names ++ name ∷ []) ≡ true
known-append p [] name h k = ground arith
known-append p (n ∷ names) name h k = ground (arith, known-append p names name)

contains-append :
    (s : String) (names : List String) (name : String)
    → contains s (names ++ name ∷ []) ≡ (contains s names || s == name)
contains-append s [] name = ground arith
contains-append s (n ∷ names) name = ground (arith, contains-append s names name)

distinct-append :
    (names : List String) (name : String)
    → distinct names ≡ true
    → contains name names ≡ false
    → distinct (names ++ name ∷ []) ≡ true
distinct-append [] name h k = refl
distinct-append (n ∷ names) name h k =
    ground (
      arith,
      distinct-append names name,
      contains-append n names name,
      eq_iff n name,
      eq_iff name n,
    )

pub activate_each-IsActive :
    (skills : Skills) (task : TaskView) (current requested : List String)
    → IsActive skills current
    → Ensures
        (λ names (w : World). IsActive skills names)
        (activate_each skills task current requested)
unfolding activate_each
activate_each-IsActive skills task current [] h = Ensures-pure current (λ w. h)
activate_each-IsActive skills task current (name ∷ rest) h =
    elim (Bool-cases (contains name current || not (skills.is_known name))) [
      | inl skip ↦ rw skip (activate_each-IsActive skills task current rest h)
      | inr take ↦ rw take (elim (Bool-cases (leb skills.max_active (length current))) [
        | inl full ↦ rw full (Ensures-pure current (λ w. h))
        | inr room ↦ rw room (
            Ensures-bind _ _ (λ _.
              activate_each-IsActive skills task (current ++ name ∷ []) rest (record {
                few = ground (arith, length-append current (name ∷ []), h.few);
                known = known-append skills.is_known current name h.known (ground arith);
                different = distinct-append current name h.different (ground arith);
              })))
      ])
    ]

-- If the session's active skills are known, each once, and within the manager's bound, so are the
-- ones that an activation returns, whatever names were asked for.
pub activate_for-IsActive :
    (skills : Skills) (task : TaskView) (session : SessionView) (requested names : List String)
    (w w' : World)
    → IsActive skills session.active_skills
    → activate_for (some skills) task session requested w ≡ (ok names, w')
    → IsActive skills names
unfolding activate_for
activate_for-IsActive skills task session requested names w w' h e =
    (Ensures-then {P = λ names (w : World). IsActive skills names}
        (activate_each skills task session.active_skills requested) _
        (activate_each-IsActive skills task session.active_skills requested h)
        (λ current s t names active e₁.
          let (_, u, _, e₂) =
            returned_first (remember_skills session current task.session_id) (λ _. pure current) s t
              names e₁ in
          subst (IsActive skills) (pure_returned u t current names e₂).0 active)).returned
      w w' names e
