-- ===== src/Repositories/Tasks/Transition.antt =====
-- What `TaskRepository.transition` does to the task table, and when it refuses.
use software_engineering_age.Prelude.{
  Bool-cases, subst, ℕ, String, ◌≡◌, refl, inl, inr, Option, none, some, List, [], ◌∷◌, arith, ◌==◌,
  eq_iff, eqb, if◌then◌else◌, Option-cases,
}
use software_engineering_age.Domain.{TaskStatus, TaskView}
use software_engineering_age.Effects.{Result, ok, err, key_error, ◌>>=◌}
use software_engineering_age.Lifecycle.{validate_transition}
use software_engineering_age.Table.{
  find, find-key, count_where, update_where, IsKeyed, find-update_where,
}
use software_engineering_age.Models.{TaskRow, World}
use software_engineering_age.Repositories.Tasks.{
  task_key, task_view, task_values, apply_values, is_version, Claim, Changes, commit_transition,
  transition,
}

-- The number of rows that the guarded statement meets.
abbrev matched : ℕ → Option TaskRow → ℕ
matched version none = 0
matched version (some row) = if eqb row.version version then 1 else 0

count_where-missing :
    (id : String) (version : ℕ) (rows : List TaskRow)
    → find task_key id rows ≡ none
    → count_where (is_version id version) rows ≡ 0
unfolding find
count_where-missing id version [] h = refl
count_where-missing id version (row ∷ rows) h = ground (arith, count_where-missing id version rows)

pub count_where-find :
    (id : String) (version : ℕ) (rows : List TaskRow)
    → IsKeyed task_key rows
    → count_where (is_version id version) rows ≡ matched version (find task_key id rows)
unfolding find
count_where-find id version [] h = refl
count_where-find id version (row ∷ rows) h =
    ground (
      arith,
      eq_iff row.id id,
      count_where-find id version rows,
      count_where-missing id version rows,
    )

-- The task table after the statement, as a lookup.
pub find-apply_values :
    (k id : String) (claim : Claim) (rows : List TaskRow)
    → find task_key k
        (update_where (is_version id claim.expected_version) (apply_values claim.values) rows)
      ≡ elim (find task_key k rows) [
        | none ↦ none
        | some row ↦ some (
            if is_version id claim.expected_version row then apply_values claim.values row else row)
      ]
find-apply_values k id claim rows = ground (
  arith,
  find-update_where task_key (is_version id claim.expected_version) (apply_values claim.values)
      (λ r. refl) k rows,
)

-- A claim that no other write has overtaken is carried out.
pub commit_transition_ok :
    (id : String) (claim : Claim) (w : World) (row : TaskRow)
    → IsKeyed task_key w.tasks
    → find task_key id w.tasks ≡ some row
    → row.version ≡ claim.expected_version
    → commit_transition id claim w ≡ (
      ok (task_view (apply_values claim.values row)),
      record w {
        tasks =
            update_where (is_version id claim.expected_version) (apply_values claim.values) w.tasks;
      },
    )
unfolding commit_transition ◌>>=◌
commit_transition_ok id claim w row keyed found fresh = ground (
  arith,
  count_where-find id claim.expected_version w.tasks keyed,
  find-apply_values id id claim w.tasks,
  find-key task_key id w.tasks row found,
  eq_iff row.id id,
)

-- The world after `transition` of the task in `row`.
abbrev pub transitioned : String → TaskRow → TaskStatus → Changes → World → World
transitioned id row target changes w = record w {
  tasks =
      update_where (is_version id row.version) (apply_values (task_values row target changes w.now))
        w.tasks;
}

abbrev pub checked :
    Result (Unit {0}) → String → TaskRow → TaskStatus → Changes → World → Result TaskView × World
checked (err e) id row target changes w = (err e, w)
checked (ok _) id row target changes w = (
  ok (task_view (apply_values (task_values row target changes w.now) row)),
  transitioned id row target changes w,
)

-- What a transition promises, by the row that the task has.
abbrev pub promised :
    Option TaskRow → String → TaskStatus → Changes → World → Result TaskView × World
promised none id target changes w = (err (key_error id), w)
promised (some row) id target changes w =
    checked (validate_transition row.status target) id row target changes w

checked_lem :
    (r : Result (Unit {0})) (id : String) (row : TaskRow) (target : TaskStatus) (changes : Changes)
    (w : World)
    → IsKeyed task_key w.tasks
    → find task_key id w.tasks ≡ some row
    → validate_transition row.status target ≡ r
    → transition id target changes w ≡ checked r id row target changes w
unfolding transition ◌>>=◌
checked_lem (err e) id row target changes w keyed found v = ground arith
checked_lem (ok _) id row target changes w keyed found v = ground (
  arith,
  commit_transition_ok id
      (record { expected_version = row.version; values = task_values row target changes w.now }) w
      row keyed found refl,
)

transition_missing :
    (id : String) (target : TaskStatus) (changes : Changes) (w : World)
    → find task_key id w.tasks ≡ none
    → transition id target changes w ≡ (err (key_error id), w)
unfolding transition ◌>>=◌
transition_missing id target changes w missing = ground arith

-- On a table with one row to an id, `transition` raises KeyError for an unknown task and what
-- `validate_transition` raises for a status that may not follow, with nothing written; otherwise
-- it returns the task with the new values and writes them to the rows of that id and version.
pub transition_lem :
    (id : String) (target : TaskStatus) (changes : Changes) (w : World)
    → IsKeyed task_key w.tasks
    → transition id target changes w ≡ promised (find task_key id w.tasks) id target changes w
transition_lem id target changes w keyed = elim (Option-cases (find task_key id w.tasks)) [
  | inl missing ↦ rw missing (transition_missing id target changes w missing)
  | inr (row, found) ↦
      rw found (
        checked_lem (validate_transition row.status target) id row target changes w keyed found
          refl)
]

-- The lookup of any task after a transition: the task itself has the new row, every other task
-- the row that it had.
pub find-transitioned :
    (k id : String) (row : TaskRow) (target : TaskStatus) (changes : Changes) (w : World)
    → find task_key id w.tasks ≡ some row
    → find task_key k (transitioned id row target changes w).tasks ≡ (
        if id == k
        then some (apply_values (task_values row target changes w.now) row)
        else find task_key k w.tasks)
find-transitioned k id row target changes w found = elim (Bool-cases (id == k)) [
  | inl same ↦
      let e : id ≡ k = (eq_iff id k).0 same in
      rw same (own k (subst (λ j. find task_key j w.tasks ≡ some row) e found) e)
  | inr other ↦ rw other (elim (Option-cases (find task_key k w.tasks)) [
    | inl missing ↦ ground (arith, find-apply_values k id claim w.tasks)
    | inr (r, there) ↦ ground (
      arith,
      find-apply_values k id claim w.tasks,
      find-key task_key k w.tasks r there,
      eq_iff r.id id,
      eq_iff id k,
    )
  ])
]
  where
    claim : Claim
    claim = record { expected_version = row.version; values = task_values row target changes w.now }

    own :
        (j : String)
        → find task_key j w.tasks ≡ some row
        → id ≡ j
        → find task_key j (transitioned id row target changes w).tasks
          ≡ some (apply_values (task_values row target changes w.now) row)
    own j f e = ground (
      arith,
      find-apply_values j id claim w.tasks,
      find-key task_key j w.tasks row f,
      eq_iff row.id id,
    )
