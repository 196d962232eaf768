-- ===== src/Repositories/Environments.antt =====
-- `EnvironmentRepository` of src/minion/repositories.py.
use software_engineering_age.Prelude.{
  String, none, some, List, [], ◌∷◌, ◌++◌, ◌==◌, is_empty, if◌then◌else◌,
}
use software_engineering_age.Domain.{EnvironmentStatus, Payload}
use software_engineering_age.Effects.{Action, modify}
use software_engineering_age.Table.{find, update_where}
use software_engineering_age.Models.{EnvironmentLeaseRow, World}

abbrev pub lease_key : EnvironmentLeaseRow → String
lease_key row = row.id

-- The keyword arguments of `upsert`.
pub record Lease : Type 0 where
  pub environment_id : String
  pub task_id : String
  pub provider : String
  pub workspace_path : String
  pub status : EnvironmentStatus
  pub metadata : Payload  -- `{}` where the call leaves it out

unfoldable pub upsert_rows : Lease → World → List EnvironmentLeaseRow
upsert_rows l w = elim (find lease_key l.environment_id w.leases) [
  | none ↦
      w.leases
      ++ record {
        id = l.environment_id;
        task_id = some l.task_id;
        provider = l.provider;
        status = l.status;
        workspace_path = l.workspace_path;
        metadata = l.metadata;
        last_heartbeat_at = w.now;
        created_at = w.now;
        updated_at = w.now;
      }
        ∷ []
  | some old ↦
      update_where (λ row. row.id == l.environment_id)
        (λ row. record row {
          task_id = some l.task_id;
          provider = l.provider;
          workspace_path = l.workspace_path;
          status = l.status;
          metadata = if is_empty l.metadata then row.metadata else l.metadata;
          updated_at = w.now;
          last_heartbeat_at = w.now;
        })
        w.leases
]

unfoldable pub upsert : Lease → Action World Unit
unfolding upsert_rows
upsert l = modify (λ w. record w { leases = upsert_rows l w })

unfoldable pub heartbeat : String → Action World Unit
heartbeat environment_id = modify (λ w. record w {
  leases =
      update_where (λ row. row.id == environment_id)
        (λ row. record row { last_heartbeat_at = w.now; updated_at = w.now }) w.leases;
})

unfoldable pub mark : String → EnvironmentStatus → Action World Unit
mark environment_id status = modify (λ w. record w {
  leases =
      update_where (λ row. row.id == environment_id)
        (λ row. record row { status = status; updated_at = w.now }) w.leases;
})
