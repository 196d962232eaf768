-- ===== src/Repositories/Tasks.antt =====
-- `TaskRepository` of src/minion/repositories.py. `transition` is two steps, the read with its check
-- and the guarded `UPDATE`, since another connection may write between them.
pub mod Transition
pub mod Moved
pub mod Race
use software_engineering_age.Prelude.{
  ℕ, suc, ◌+◌, String, Bool, ◌&&◌, true, false, Option, none, some, List, [], ◌∷◌, ◌++◌, map, ◌==◌,
  eqb, is_some, select, if◌then◌else◌,
}
use software_engineering_age.Domain.{
  TaskStatus, TaskStatus-discrete, created, queued, running, waiting_for_user, cancelling, failed,
  same_status, status_in, Payload, TaskCreate, TaskView, status_value,
}
use software_engineering_age.Effects.{
  Action, Result, ok, err, external, key_error, invalid_state_transition, pure, raise, lift, gets,
  modify, ◌>>=◌, ◌>>◌,
}
use software_engineering_age.Lifecycle.{validate_transition}
use software_engineering_age.Table.{find, count_where, update_where}
use software_engineering_age.Models.{TaskRow, SessionRow, World, new_id}

-- `_task_view`
abbrev pub task_view : TaskRow → TaskView
task_view row = record {
  id = row.id;
  session_id = row.session_id;
  environment_id = row.environment_id;
  user_id = row.user_id;
  instruction = row.instruction;
  status = row.status;
  repositories = row.repositories;
  publish_pr = row.publish_pr;
  created_at = row.created_at;
  updated_at = row.updated_at;
  error = row.error;
  result = row.result;
}

abbrev pub task_key : TaskRow → String
task_key row = row.id

abbrev pub session_key : SessionRow → String
session_key row = row.id

-- The row of a request, and its session's, with the column defaults of models.py.
abbrev pub new_task_row : String → String → TaskCreate → ℕ → TaskRow
new_task_row task_id session_id request now = record {
  id = task_id;
  session_id = session_id;
  environment_id = none;
  user_id = request.user_id;
  instruction = request.instruction;
  status = created;
  repositories = request.repositories;
  publish_pr = request.publish_pr;
  version = 0;
  error = none;
  result = none;
  created_at = now;
  updated_at = now;
}

abbrev pub new_session_row : String → String → ℕ → SessionRow
new_session_row session_id task_id now = record {
  id = session_id;
  task_id = task_id;
  summary = "";
  current_plan = [];
  active_constraints = [];
  active_skills = [];
  last_event_sequence = 0;
  created_at = now;
  updated_at = now;
}

-- `db.add_all([task, session])` and `commit`: both primary keys must be new.
unfoldable pub insert_pair : TaskRow → SessionRow → Action World Unit
insert_pair task session w =
    if is_some (find task_key task.id w.tasks)
    then (err (external "IntegrityError"), w)
    else if is_some (find session_key session.id w.sessions)
    then (err (external "IntegrityError"), w)
    else (ok tt, record w { tasks = w.tasks ++ task ∷ []; sessions = w.sessions ++ session ∷ [] })

unfoldable pub create : TaskCreate → Action World TaskView
create request = do
  task_id ← new_id "task"
  session_id ← new_id "session"
  now ← gets (λ w. w.now)
  let task = new_task_row task_id session_id request now
  insert_pair task (new_session_row session_id task_id now)
  pure (task_view task)

abbrev pub view_of : Option TaskRow → Option TaskView
view_of none = none
view_of (some row) = some (task_view row)

unfoldable pub get : String → Action World (Option TaskView)
get task_id w = (ok (view_of (find task_key task_id w.tasks)), w)

abbrev pub or_key_error {ℓ} : {A : Type ℓ} → String → Option A → Result A
or_key_error key none = err (key_error key)
or_key_error key (some a) = ok a

unfoldable pub require : String → Action World TaskView
unfolding get
require task_id = do found ← get task_id; lift (or_key_error task_id found)

-- The optional keyword arguments of `transition`.
pub record Changes : Type 0 where
  pub environment_id : Option String
  pub error : Option String
  pub result : Option Payload

abbrev pub no_changes : Changes
no_changes = record { environment_id = none; error = none; result = none }

-- `values`: a column that is `none` is not written, and the two columns that a retry sets to NULL
-- are `some none`.
pub record TaskValues : Type 0 where
  pub status : TaskStatus
  pub version : ℕ
  pub updated_at : ℕ
  pub environment_id : Option String
  pub error : Option (Option String)
  pub result : Option (Option Payload)

abbrev written {ℓ} : {A : Type ℓ} → Option A → Option (Option A)
written none = none
written (some a) = some (some a)

abbrev is_retry : TaskStatus → TaskStatus → Bool
is_retry failed queued = true
is_retry _ _ = false

abbrev pub task_values : TaskRow → TaskStatus → Changes → ℕ → TaskValues
task_values row target changes now =
    let retry = is_retry row.status target in
    record {
      status = target;
      version = row.version + 1;
      updated_at = now;
      environment_id = changes.environment_id;
      error = if retry then some none else written changes.error;
      result = if retry then some none else written changes.result;
    }

abbrev pub overwrite {ℓ} : {A : Type ℓ} → Option A → A → A
overwrite none old = old
overwrite (some new) old = new

abbrev pub apply_values : TaskValues → TaskRow → TaskRow
apply_values v row = record row {
  status = v.status;
  version = v.version;
  updated_at = v.updated_at;
  environment_id = elim v.environment_id [ none ↦ row.environment_id | some e ↦ some e ];
  error = overwrite v.error row.error;
  result = overwrite v.result row.result;
}

pub record Claim : Type 0 where
  pub expected_version : ℕ
  pub values : TaskValues

-- `transition` up to the statement: it reads and checks, and writes nothing.
unfoldable pub claim_transition : String → TaskStatus → Changes → Action World Claim
claim_transition task_id target changes = do
  found ← gets (λ w. find task_key task_id w.tasks)
  row ← lift (or_key_error task_id found)
  lift (validate_transition row.status target)
  now ← gets (λ w. w.now)
  pure (record { expected_version = row.version; values = task_values row target changes now })

abbrev pub is_version : String → ℕ → TaskRow → Bool
is_version task_id version row = row.id == task_id && eqb row.version version

-- `transition` from `UPDATE … WHERE id = … AND version = …` on
unfoldable pub commit_transition : String → Claim → Action World TaskView
unfolding require
commit_transition task_id claim w =
    let matches = is_version task_id claim.expected_version in
    if eqb (count_where matches w.tasks) 1
    then require task_id
        (record w { tasks = update_where matches (apply_values claim.values) w.tasks })
    else (err (invalid_state_transition "task changed concurrently; retry from fresh state"), w)

unfoldable pub transition : String → TaskStatus → Changes → Action World TaskView
unfolding claim_transition commit_transition
transition task_id target changes = do
  claim ← claim_transition task_id target changes
  commit_transition task_id claim

unfoldable pub replace_environment : String → String → Action World TaskView
unfolding require
replace_environment task_id environment_id = do
  modify (λ w. record w {
    tasks =
        update_where (λ row. row.id == task_id)
          (λ row. record row { environment_id = some environment_id; updated_at = w.now }) w.tasks;
  })
  require task_id

abbrev pub active_statuses : List TaskStatus
active_statuses = queued ∷ TaskStatus.provisioning ∷ running ∷ waiting_for_user ∷ cancelling ∷ []

unfoldable pub list_active : Action World (List TaskView)
unfolding TaskStatus-discrete
list_active w =
    (ok (map task_view (select (λ row. status_in row.status active_statuses) w.tasks)), w)
