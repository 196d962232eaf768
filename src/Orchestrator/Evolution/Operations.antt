-- ===== src/Orchestrator/Evolution/Operations.antt =====
-- The operations of the repositories, the event store and the queue under `Evolves`.
use software_engineering_age.Prelude.{
  ℕ, String, ◌≡◌, refl, inl, inr, Bool, true, false, Option, none, some, List, [], ◌∷◌, ◌++◌, arith,
  ◌==◌, eq_iff, if◌then◌else◌, Bool-cases, Option-cases, subst, is_some,
}
use software_engineering_age.Domain.{TaskStatus, TaskCreate, EventType, Payload}
use software_engineering_age.Effects.{external, Result, ok, err, ◌>>=◌, modify}
use software_engineering_age.Effects.Rules.{IsPreorder, Respects, respects_rules}
use software_engineering_age.Lifecycle.{validate_transition}
use software_engineering_age.Lifecycle.Diagram.{◌⟶*◌, here, onward, validate_transition_iff}
use software_engineering_age.Table.{
  find, find-append, IsKeyed-append, find-update_where, update_where, IsKeyed-update_where,
}
use software_engineering_age.Models.{TaskRow, SessionRow, World, new_id, uuid}
use software_engineering_age.Repositories.Tasks.{
  task_key, session_key, task_values, apply_values, is_version, Changes, insert_pair,
  replace_environment, transition, create, get, require, list_active,
}
use software_engineering_age.Repositories.Tasks.Transition.{
  transition_lem, promised, checked, transitioned, find-transitioned,
}
use software_engineering_age.Repositories.Sessions
use software_engineering_age.Repositories.Sessions.{Memory}
use software_engineering_age.Events
use software_engineering_age.Queue
use software_engineering_age.Orchestrator.Evolution.{
  Progress, Progress-refl, Evolves, Evolves_order, Evolves_same,
}

reached : (s t : TaskStatus) → validate_transition s t ≡ ok tt → s ⟶* t
reached s t h = elim ((validate_transition_iff s t).0 h) [
  | inl e ↦ rw e here
  | inr d ↦ onward d here
]

module _ (id : String) (target : TaskStatus) (changes : Changes) (w : World) where
  transitioned-Evolves :
      (row : TaskRow)
      → find task_key id w.tasks ≡ some row
      → validate_transition row.status target ≡ ok tt
      → Evolves w (transitioned id row target changes w)
  transitioned-Evolves row found allowed = record {
    keyed =
        IsKeyed-update_where task_key (is_version id row.version)
          (apply_values (task_values row target changes w.now)) (λ r. refl) w.tasks;
    progress = λ h k r there. elim (Bool-cases (id == k)) [
      | inl same ↦ (
        apply_values (task_values row target changes w.now) row,
        ground (arith, find-transitioned k id row target changes w found),
        moved k r there same,
      )
      | inr other ↦
          (r, ground (arith, find-transitioned k id row target changes w found), Progress-refl r)
    ];
  }
    where
      forward : Progress row (apply_values (task_values row target changes w.now) row)
      forward = record {
        status = reached row.status target allowed;
        version = omega arith;
        session_id = refl;
        instruction = refl;
      }

      moved :
          (k : String) (r : TaskRow)
          → find task_key k w.tasks ≡ some r
          → (id == k) ≡ true
          → Progress r (apply_values (task_values row target changes w.now) row)
      moved k r there same =
          let e : id ≡ k = (eq_iff id k).0 same in
          let one : row ≡ r = cc (subst (λ j. find task_key j w.tasks ≡ some row) e found, there) in
          subst (λ x. Progress x (apply_values (task_values row target changes w.now) row)) one
            forward

  checked-Evolves :
      (row : TaskRow) (r : Result (Unit {0}))
      → find task_key id w.tasks ≡ some row
      → validate_transition row.status target ≡ r
      → Evolves w (checked r id row target changes w).1
  checked-Evolves row (ok tt) found v = transitioned-Evolves row found v
  checked-Evolves row (err e) found v = Evolves_order.reflexive w

  promised-Evolves :
      (o : Option TaskRow)
      → find task_key id w.tasks ≡ o
      → Evolves w (promised o id target changes w).1
  promised-Evolves none found = Evolves_order.reflexive w
  promised-Evolves (some row) found =
      checked-Evolves row (validate_transition row.status target) found refl

  transition-at : Evolves w (transition id target changes w).1
  transition-at = record {
    keyed = λ h.
        rw (transition_lem id target changes w h)
          ((promised-Evolves (find task_key id w.tasks) refl).keyed h);
    progress = λ h.
        rw (transition_lem id target changes w h)
          ((promised-Evolves (find task_key id w.tasks) refl).progress h);
  }

pub transition-Evolves :
    (id : String) (target : TaskStatus) (changes : Changes)
    → Respects Evolves (transition id target changes)
transition-Evolves id target changes = record { at = transition-at id target changes }

pub get-Evolves : (id : String) → Respects Evolves (get id)
unfolding get
get-Evolves id = record { at = Evolves_order.reflexive }

pub require-Evolves : (id : String) → Respects Evolves (require id)
unfolding require
require-Evolves id = search (respects_rules, Evolves_order, get-Evolves)

pub list_active-Evolves : Respects Evolves list_active
unfolding list_active
list_active-Evolves = record { at = Evolves_order.reflexive }

new_id-Evolves : (prefix : String) → Respects Evolves (new_id prefix)
unfolding new_id
new_id-Evolves prefix = record { at = λ w. Evolves_same w _ refl }

uuid-Evolves : Respects Evolves uuid
unfolding uuid
uuid-Evolves = record { at = λ w. Evolves_same w _ refl }

inserted :
    (task : TaskRow) (w : World) (sessions : List SessionRow)
    → find task_key task.id w.tasks ≡ none
    → Evolves w (record w { tasks = w.tasks ++ task ∷ []; sessions = sessions })
inserted task w sessions fresh = record {
  keyed = IsKeyed-append task_key w.tasks task fresh;
  progress = λ h id row found.
      (row, ground (arith, find-append task_key id w.tasks task), Progress-refl row);
}

insert_pair-Evolves :
    (task : TaskRow) (session : SessionRow) → Respects Evolves (insert_pair task session)
unfolding insert_pair
insert_pair-Evolves task session = record {
  at = λ w. elim (Option-cases (find task_key task.id w.tasks)) [
    | inl fresh ↦ rw fresh (either w fresh (is_some (find session_key session.id w.sessions)))
    | inr (row, there) ↦ rw there (Evolves_order.reflexive w)
  ];
}
  where
    either :
        (w : World)
        → find task_key task.id w.tasks ≡ none
        → (b : Bool)
        → Evolves w
            (if◌then◌else◌ {A = Result (Unit {0}) × World} b
              (err (external "IntegrityError"), w)
              (
                ok tt,
                record w { tasks = w.tasks ++ task ∷ []; sessions = w.sessions ++ session ∷ [] },
              )).1
    either w fresh true = Evolves_order.reflexive w
    either w fresh false = inserted task w (w.sessions ++ session ∷ []) fresh

pub create-Evolves : (request : TaskCreate) → Respects Evolves (create request)
unfolding create
create-Evolves request =
    search (respects_rules, Evolves_order, new_id-Evolves, insert_pair-Evolves) depth 9

-- An action that leaves the task table alone.
pub Evolves_modify :
    (f : World → World) → ((w : World) → (f w).tasks ≡ w.tasks) → Respects Evolves (modify f)
unfolding modify
Evolves_modify f same = record { at = λ w. Evolves_same w (f w) (same w) }

updated-Evolves :
    (test : TaskRow → Bool) (change : TaskRow → TaskRow) (w : World)
    → ((r : TaskRow) → task_key (change r) ≡ task_key r)
    → ((r : TaskRow) → Progress r (change r))
    → Evolves w (record w { tasks = update_where test change w.tasks })
updated-Evolves test change w keeps better = record {
  keyed = IsKeyed-update_where task_key test change keeps w.tasks;
  progress = λ h id row found. elim (Bool-cases (test row)) [
    | inl yes_ ↦ (
      change row,
      ground (arith, find-update_where task_key test change keeps id w.tasks),
      better row,
    )
    | inr no_ ↦ (
      row,
      ground (arith, find-update_where task_key test change keeps id w.tasks),
      Progress-refl row,
    )
  ];
}

tasks-append :
    (task_id session_id : String) (type : EventType) (payload : Payload) (w : World)
    → (Events.append task_id session_id type payload w).1.tasks ≡ w.tasks
unfolding Events.append ◌>>=◌ new_id
tasks-append task_id session_id type payload w = ground arith

pub replace_environment-Evolves :
    (id environment_id : String) → Respects Evolves (replace_environment id environment_id)
unfolding replace_environment modify ◌>>=◌
replace_environment-Evolves id environment_id = record {
  at = λ w.
      Evolves_order.transitive w _ _
        (updated-Evolves (λ row. row.id == id)
          (λ row. record row { environment_id = some environment_id; updated_at = w.now }) w
          (λ r. refl)
          (λ r. record {
            status = here;
            version = omega arith;
            session_id = refl;
            instruction = refl;
          }))
        ((require-Evolves id).at _);
}

pub append-Evolves :
    (task_id session_id : String) (type : EventType) (payload : Payload)
    → Respects Evolves (Events.append task_id session_id type payload)
append-Evolves task_id session_id type payload = record {
  at = λ w. Evolves_same w _ (tasks-append task_id session_id type payload w);
}

pub append_instruction-Evolves :
    (id message : String) (keep : ℕ)
    → Respects Evolves (Sessions.append_instruction id message keep)
append_instruction-Evolves id message keep = record { at = λ w. Evolves_same w _ (same w) }
  where
    same : (w : World) → (Sessions.append_instruction id message keep w).1.tasks ≡ w.tasks
    same w = unfold Sessions.append_instruction ◌>>=◌ in ground arith

pub put-Evolves : (id : String) → Respects Evolves (Queue.put id)
unfolding Queue.put ◌>>=◌
put-Evolves id = record { at = λ w. Evolves_same w _ refl }

pub ruleset evolves_rules = (
  respects_rules, Evolves_order, transition-Evolves, get-Evolves, require-Evolves,
  list_active-Evolves, create-Evolves, replace_environment-Evolves, append-Evolves,
  append_instruction-Evolves, put-Evolves,
)
