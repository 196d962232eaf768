-- ===== src/Repositories/Sessions/Constraints.antt =====
-- The bounded list of a session's instructions.
use software_engineering_age.Prelude.{ℕ, String, some, List, [], ◌∷◌, ◌++◌, ◌==◌, last_items}
use mathlib.Core.Option
use software_engineering_age.Table.{update_where}
use software_engineering_age.Models.{SessionRow, World}
use software_engineering_age.Repositories.Sessions.{Memory, apply_memory, no_memory}

abbrev pub instructed : String → ℕ → ℕ → SessionRow → SessionRow
instructed message keep now row =
    apply_memory
      (record no_memory {
        active_constraints = some (last_items keep (row.active_constraints ++ message ∷ []));
      })
      now row

abbrev remembered : String → Memory → World → List SessionRow
remembered id m w = update_where (λ row. row.id == id) (apply_memory m w.now) w.sessions
