-- ===== src/Repositories/Sessions.antt =====
-- `SessionRepository` of src/minion/repositories.py.
pub mod Constraints
use software_engineering_age.Prelude.{
  ℕ, String, Option, none, some, List, [], ◌∷◌, ◌++◌, ◌==◌, last_items,
}
use software_engineering_age.Domain.{SessionView}
use software_engineering_age.Effects.{Action, ok, lift, modify, ◌>>=◌}
use software_engineering_age.Table.{find, update_where}
use software_engineering_age.Models.{SessionRow, World}
use software_engineering_age.Repositories.Tasks.{session_key, or_key_error, overwrite}

abbrev pub session_view : SessionRow → SessionView
session_view row = record {
  id = row.id;
  task_id = row.task_id;
  summary = row.summary;
  current_plan = row.current_plan;
  active_constraints = row.active_constraints;
  active_skills = row.active_skills;
  last_event_sequence = row.last_event_sequence;
  created_at = row.created_at;
  updated_at = row.updated_at;
}

abbrev pub view_of : Option SessionRow → Option SessionView
view_of none = none
view_of (some row) = some (session_view row)

unfoldable pub get : String → Action World (Option SessionView)
get session_id w = (ok (view_of (find session_key session_id w.sessions)), w)

-- `session = await sessions.get(id)`, `if not session: raise KeyError(id)`
unfoldable pub require : String → Action World SessionView
unfolding get
require session_id = do found ← get session_id; lift (or_key_error session_id found)

-- The optional keyword arguments of `update_memory`.
pub record Memory : Type 0 where
  pub summary : Option String
  pub current_plan : Option (List String)
  pub active_constraints : Option (List String)
  pub active_skills : Option (List String)

abbrev pub no_memory : Memory
no_memory = record {
  summary = none;
  current_plan = none;
  active_constraints = none;
  active_skills = none;
}

abbrev pub apply_memory : Memory → ℕ → SessionRow → SessionRow
apply_memory m now row = record row {
  summary = overwrite m.summary row.summary;
  current_plan = overwrite m.current_plan row.current_plan;
  active_constraints = overwrite m.active_constraints row.active_constraints;
  active_skills = overwrite m.active_skills row.active_skills;
  updated_at = now;
}

unfoldable pub update_memory : String → Memory → Action World Unit
update_memory session_id m = modify (λ w. record w {
  sessions = update_where (λ row. row.id == session_id) (apply_memory m w.now) w.sessions;
})

unfoldable pub append_instruction : String → String → ℕ → Action World Unit
unfolding require update_memory
append_instruction session_id message keep = do
  current ← require session_id
  update_memory session_id (record no_memory {
    active_constraints = some (last_items keep (current.active_constraints ++ message ∷ []));
  })
