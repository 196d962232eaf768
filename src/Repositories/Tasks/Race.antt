-- ===== src/Repositories/Tasks/Race.antt =====
-- Two writers of one task: the version check of `TaskRepository.transition`.
use software_engineering_age.Prelude.{◌+◌, ap, String, ◌≡◌, ◌≢◌, refl, some, arith, eq_iff}
use software_engineering_age.Domain.{TaskStatus, TaskView}
use software_engineering_age.Effects.{ok, err, invalid_state_transition, ◌>>=◌}
use software_engineering_age.Lifecycle.{validate_transition}
use software_engineering_age.Table.{find, IsKeyed, update_where, find-key, IsKeyed-update_where}
use software_engineering_age.Models.{TaskRow, World}
use software_engineering_age.Repositories.Tasks.{
  task_key, task_values, Claim, Changes, claim_transition, commit_transition, apply_values,
  is_version, task_view, TaskValues,
}
use software_engineering_age.Repositories.Tasks.Transition.{
  count_where-find, commit_transition_ok, find-apply_values,
}

-- What a successful claim says: the task's row, and its version.
pub claim_row :
    (id : String) (target : TaskStatus) (changes : Changes) (w : World) (claim : Claim)
    → (claim_transition id target changes w).0 ≡ ok claim
    → (row : TaskRow) × (find task_key id w.tasks ≡ some row)
      × (row.version ≡ claim.expected_version)
      × (claim.values ≡ task_values row target changes w.now)
      × (validate_transition row.status target ≡ ok tt)
unfolding claim_transition ◌>>=◌
claim_row id target changes w claim h = ground arith

-- The statement of a claim whose version another write has overtaken writes nothing.
pub commit_transition_stale :
    (id : String) (claim : Claim) (w : World) (row : TaskRow)
    → IsKeyed task_key w.tasks
    → find task_key id w.tasks ≡ some row
    → row.version ≢ claim.expected_version
    → commit_transition id claim w
      ≡ (err (invalid_state_transition "task changed concurrently; retry from fresh state"), w)
unfolding commit_transition
commit_transition_stale id claim w row keyed found stale =
    ground (arith, count_where-find id claim.expected_version w.tasks keyed)

abbrev carried_out : String → Claim → World → World
carried_out id claim w = record w {
  tasks = update_where (is_version id claim.expected_version) (apply_values claim.values) w.tasks;
}

IsKeyed-carried_out :
    (id : String) (claim : Claim) (w : World)
    → IsKeyed task_key w.tasks
    → IsKeyed task_key (carried_out id claim w).tasks
IsKeyed-carried_out id claim w =
    IsKeyed-update_where task_key (is_version id claim.expected_version) (apply_values claim.values)
      (λ r. refl) w.tasks

carried_out_found :
    (id : String) (claim : Claim) (w : World) (row : TaskRow)
    → find task_key id w.tasks ≡ some row
    → row.version ≡ claim.expected_version
    → find task_key id (carried_out id claim w).tasks ≡ some (apply_values claim.values row)
carried_out_found id claim w row found version = ground (
  arith,
  find-apply_values id id claim w.tasks,
  find-key task_key id w.tasks row found,
  eq_iff row.id id,
)

-- A second claim on the row that the first one read is outdated once the first is carried out.
outdated :
    (first second : Claim) (row row' : TaskRow)
    → some row ≡ some row'
    → first.values.version ≡ row.version + 1
    → row'.version ≡ second.expected_version
    → (apply_values first.values row).version ≢ second.expected_version
outdated first second row row' same values version = ground arith

-- On a table with one row to an id, two connections read one task and both find their transition
-- allowed. The one that writes first succeeds, and the other is refused and writes nothing,
-- whatever the two targets are.
pub one_writer_wins :
    (id : String) (t₁ t₂ : TaskStatus) (ch₁ ch₂ : Changes) (w : World) (first second : Claim)
    → IsKeyed task_key w.tasks
    → (claim_transition id t₁ ch₁ w).0 ≡ ok first
    → (claim_transition id t₂ ch₂ w).0 ≡ ok second
    → let (r, w') = commit_transition id first w in
      ((v : TaskView) × (r ≡ ok v) × (v.status ≡ t₁))
      × (commit_transition id second w' ≡ (
        err (invalid_state_transition "task changed concurrently; retry from fresh state"),
        w',
      ))
one_writer_wins id t₁ t₂ ch₁ ch₂ w first second keyed c₁ c₂ =
    let (row, found, version, values, _) = claim_row id t₁ ch₁ w first c₁ in
    let (row', found', version', _, _) = claim_row id t₂ ch₂ w second c₂ in
    let wrote = commit_transition_ok id first w row keyed found version in
    let stale =
      commit_transition_stale id second (carried_out id first w) (apply_values first.values row)
        (IsKeyed-carried_out id first w keyed) (carried_out_found id first w row found version)
        (outdated first second row row' (cc (found, found'))
          (ap (λ (v : TaskValues). v.version) values) version') in
    rw wrote (
      (task_view (apply_values first.values row), refl, ap (λ (v : TaskValues). v.status) values),
      stale,
    )
