-- ===== src/Orchestrator/Evolution.antt =====
-- How a task's row may change: its status moves along the lifecycle, its version never falls, and
-- it stays the same request. Every repository operation keeps to that.
pub mod Operations
pub mod Calls
pub mod Parts
pub mod Execution
use software_engineering_age.Prelude.{
  ℕ, suc, ◌+◌, ◌≤◌, String, ◌≡◌, refl, ◌⊎◌, inl, inr, Bool, true, false, Option, none, some, List,
  [], ◌∷◌, ◌++◌, map, arith, ◌==◌, eq_iff, if◌then◌else◌, Bool-cases, Option-cases, subst, is_some,
}
use software_engineering_age.Domain.{TaskStatus, TaskCreate}
use software_engineering_age.Effects.{Result, ok, err, Exn, ◌>>=◌}
use software_engineering_age.Effects.Rules.{IsPreorder, Respects, respects_rules}
use software_engineering_age.Lifecycle.{validate_transition}
use software_engineering_age.Lifecycle.Diagram.{◌⟶◌, ◌⟶*◌, here, onward, validate_transition_iff}
use software_engineering_age.Table.{
  find, find-key, find-append, find-update_where, update_where, IsKeyed, IsKeyed-update_where,
}
use software_engineering_age.Models.{TaskRow, SessionRow, World}
use software_engineering_age.Repositories.Tasks
use software_engineering_age.Repositories.Tasks.{
  task_key, session_key, task_values, apply_values, is_version, Changes, insert_pair,
  replace_environment, transition, create, get, require,
}
use software_engineering_age.Repositories.Tasks.Transition.{
  transition_lem, promised, transitioned, find-transitioned,
}

-- The row of a task before and after.
pub record Progress (before after : TaskRow) : Type 0 where
  pub status : before.status ⟶* after.status
  pub version : before.version ≤ after.version
  pub session_id : after.session_id ≡ before.session_id
  pub instruction : after.instruction ≡ before.instruction

pub record Evolves (w w' : World) : Type 0 where
  pub keyed : IsKeyed task_key w.tasks → IsKeyed task_key w'.tasks
  pub progress :
      IsKeyed task_key w.tasks
      → (id : String) (row : TaskRow) → find task_key id w.tasks ≡ some row
      → (row' : TaskRow) × (find task_key id w'.tasks ≡ some row') × Progress row row'

pub ⟶*-trans : {s t u : TaskStatus} → s ⟶* t → t ⟶* u → s ⟶* u
⟶*-trans here q = q
⟶*-trans (onward e p) q = onward e (⟶*-trans p q)

pub Progress-refl : (row : TaskRow) → Progress row row
Progress-refl row = record {
  status = here;
  version = omega arith;
  session_id = refl;
  instruction = refl;
}

Progress-trans : (a b c : TaskRow) → Progress a b → Progress b c → Progress a c
Progress-trans a b c p q = record {
  status = ⟶*-trans p.status q.status;
  version = omega arith;
  session_id = cc;
  instruction = cc;
}

pub Evolves_order : IsPreorder Evolves
Evolves_order = record {
  reflexive =
      λ w. record { keyed = λ h. h; progress = λ h id row found. (row, found, Progress-refl row) };
  transitive = λ s t u p q. record {
    keyed = λ h. q.keyed (p.keyed h);
    progress = λ h id row found.
        let (row', found', step) = p.progress h id row found in
        let (row'', found'', step') = q.progress (p.keyed h) id row' found' in
        (row'', found'', Progress-trans row row' row'' step step');
  };
}

-- What leaves the task table alone.
pub Evolves_same : (w w' : World) → w'.tasks ≡ w.tasks → Evolves w w'
Evolves_same w w' same = record {
  keyed = λ h. rw same h;
  progress = λ h id row found. (row, rw same found, Progress-refl row);
}
