-- ===== src/Repositories/Tasks/Moved.antt =====
-- What a task's row and its view are after `TaskRepository.transition`, field by field.
use software_engineering_age.Prelude.{
  Bool-cases, subst, ℕ, ◌+◌, String, ◌≡◌, refl, ap, inl, inr, Option, none, some, arith, ◌==◌,
  eq_iff, if◌then◌else◌,
}
use software_engineering_age.Domain.{TaskStatus, TaskView, queued, failed}
use software_engineering_age.Effects.{Result, ok, err, key_error}
use software_engineering_age.Lifecycle.{validate_transition}
use software_engineering_age.Table.{find, IsKeyed}
use software_engineering_age.Models.{TaskRow, World}
use software_engineering_age.Repositories.Tasks.{
  task_key, task_view, task_values, apply_values, overwrite, written, is_retry, Changes, transition,
}
use software_engineering_age.Repositories.Tasks.Transition.{
  transition_lem, transitioned, find-transitioned, promised,
}

-- A column that a caller may set, and that a failed task that is queued again loses.
abbrev pub outcome : {A : Type 0} → TaskStatus → TaskStatus → Option A → Option A → Option A
outcome failed queued given old = none
outcome _ _ none old = old
outcome _ _ (some new) old = some new

abbrev pub written_or : Option String → Option String → Option String
written_or none old = old
written_or (some new) old = some new

-- The row of a task that has moved.
abbrev pub moved : TaskRow → TaskStatus → Changes → ℕ → TaskRow
moved row target changes now = record {
  id = row.id;
  session_id = row.session_id;
  environment_id = written_or changes.environment_id row.environment_id;
  user_id = row.user_id;
  instruction = row.instruction;
  status = target;
  repositories = row.repositories;
  publish_pr = row.publish_pr;
  version = row.version + 1;
  error = outcome row.status target changes.error row.error;
  result = outcome row.status target changes.result row.result;
  created_at = row.created_at;
  updated_at = now;
}

-- The view of it that the caller is given.
abbrev pub view_after : TaskRow → TaskStatus → Changes → ℕ → TaskView
view_after row target changes now = record {
  id = row.id;
  session_id = row.session_id;
  environment_id = written_or changes.environment_id row.environment_id;
  user_id = row.user_id;
  instruction = row.instruction;
  status = target;
  repositories = row.repositories;
  publish_pr = row.publish_pr;
  created_at = row.created_at;
  updated_at = now;
  error = outcome row.status target changes.error row.error;
  result = outcome row.status target changes.result row.result;
}

abbrev if_allowed : Result (Unit {0}) → TaskView → Result TaskView
if_allowed (ok u) view = ok view
if_allowed (err e) view = err e

-- What the caller is told.
abbrev pub outcome_of : Option TaskRow → String → TaskStatus → Changes → ℕ → Result TaskView
outcome_of none id target changes now = err (key_error id)
outcome_of (some row) id target changes now =
    if_allowed (validate_transition row.status target) (view_after row target changes now)

abbrev if_moved : Result (Unit {0}) → TaskRow → Option TaskRow → Option TaskRow
if_moved (ok u) new old = some new
if_moved (err e) new old = old

-- What is found under the task's own identifier afterwards.
abbrev pub row_after : Option TaskRow → TaskStatus → Changes → ℕ → Option TaskRow
row_after none target changes now = none
row_after (some row) target changes now =
    if_moved (validate_transition row.status target) (moved row target changes now) (some row)

overwrite-outcome :
    {A : Type 0} (s t : TaskStatus) (given old : Option A)
    → overwrite (if is_retry s t then some none else written given) old ≡ outcome s t given old
overwrite-outcome s t none old = ground arith
overwrite-outcome s t (some a) old = ground arith

place_lem : (given old : Option String) → overwrite (written given) old ≡ written_or given old
place_lem none old = refl
place_lem (some a) old = refl

apply_values-moved :
    (row : TaskRow) (target : TaskStatus) (changes : Changes) (now : ℕ)
    → apply_values (task_values row target changes now) row ≡ moved row target changes now
apply_values-moved row target changes now = ground (
  arith,
  place_lem changes.environment_id row.environment_id,
  overwrite-outcome row.status target changes.error row.error,
  overwrite-outcome row.status target changes.result row.result,
)

Moves : Option TaskRow → String → TaskStatus → Changes → World → Type 0
Moves o id target changes w =
    ((promised o id target changes w).0 ≡ outcome_of o id target changes w.now)
    × ((k : String)
        → find task_key k (promised o id target changes w).1.tasks
          ≡ (if id == k then row_after o target changes w.now else find task_key k w.tasks))
    × ((promised o id target changes w).1
        ≡ record w { tasks = (promised o id target changes w).1.tasks })

unmoved :
    (o : Option TaskRow) (id k : String) (w : World)
    → find task_key id w.tasks ≡ o
    → find task_key k w.tasks ≡ (if id == k then o else find task_key k w.tasks)
unmoved o id k w found = elim (Bool-cases (id == k)) [
  | inl same ↦ rw same (subst (λ j. find task_key j w.tasks ≡ o) ((eq_iff id k).0 same) found)
  | inr other ↦ rw other refl
]

moved_if :
    (r : Result (Unit {0})) (row : TaskRow) (id : String) (target : TaskStatus) (changes : Changes)
    (w : World)
    → find task_key id w.tasks ≡ some row
    → validate_transition row.status target ≡ r
    → Moves (some row) id target changes w
unfolding Moves
moved_if (err e) row id target changes w found v =
    rw v (refl, (λ k. unmoved (some row) id k w found), refl)
moved_if (ok u) row id target changes w found v = rw v (
  ap (λ r. ok (task_view r)) (apply_values-moved row target changes w.now),
  (λ k.
      subst
        (λ r.
          find task_key k (transitioned id row target changes w).tasks
          ≡ (if id == k then some r else find task_key k w.tasks))
        (apply_values-moved row target changes w.now)
        (find-transitioned k id row target changes w found)),
  refl,
)

promised-Moves :
    (o : Option TaskRow) (id : String) (target : TaskStatus) (changes : Changes) (w : World)
    → find task_key id w.tasks ≡ o
    → Moves o id target changes w
unfolding Moves
promised-Moves none id target changes w found = (refl, (λ k. unmoved none id k w found), refl)
promised-Moves (some row) id target changes w found =
    moved_if (validate_transition row.status target) row id target changes w found refl

-- On a table with one row to an id, `transition` answers KeyError for an unknown task, and what
-- `validate_transition` raises for a status that may not follow, with every row as it was. Otherwise
-- the task has the target as its status, a version that is one higher, the time of the call, the
-- columns that the caller gives and the others as they were, but error and result are cleared when a
-- failed task is queued again. The caller is given that row, every other row is as it was, and so is
-- the rest of the world.
pub transition-moved :
    (id : String) (target : TaskStatus) (changes : Changes) (w : World)
    → IsKeyed task_key w.tasks
    → ((transition id target changes w).0
        ≡ outcome_of (find task_key id w.tasks) id target changes w.now)
      × ((k : String)
          → find task_key k (transition id target changes w).1.tasks ≡ (
              if id == k
              then row_after (find task_key id w.tasks) target changes w.now
              else find task_key k w.tasks))
      × ((transition id target changes w).1
          ≡ record w { tasks = (transition id target changes w).1.tasks })
unfolding Moves
transition-moved id target changes w keyed =
    rw (transition_lem id target changes w keyed)
      (promised-Moves (find task_key id w.tasks) id target changes w refl)
