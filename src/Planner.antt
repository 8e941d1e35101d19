-- ===== src/Planner.antt =====
-- internal/migrator/planner.go: the plan that a comparison of files and database gives.
pub mod Sets
pub mod Interleaving
pub mod Convergence
use pg_migrate.Prelude.{Bool, not, ◌&&◌, List, [], ◌∷◌, reverse, is_nil, if◌then◌else◌}
use pg_migrate.Text.{Bytes, lt, contains}
use pg_migrate.Migration.{Migration, migration_ids}

pub record MigrationPlan : Type 0 where
  pub to_rollback : List Migration
  pub to_apply : List Migration
  pub interleaved : List Migration

-- The loop for `maxAppliedID`; `files` are the keys of `filesMap`.
pub max_applied_id : List Bytes → Bool → Bytes → List Migration → Bytes
max_applied_id files rollback_extras acc [] = acc
max_applied_id files rollback_extras acc (m ∷ ms) =
    max_applied_id files rollback_extras
      (if rollback_extras && not (contains files m.id)
        then acc
        else if lt acc m.id
        then m.id
        else acc)
      ms

-- The loop for `plan.ToRollback`, over the records in reverse order.
pub extras : List Bytes → List Migration → List Migration
extras files [] = []
extras files (m ∷ ms) = let rest = extras files ms in if contains files m.id then rest else m ∷ rest

-- The test of the second `if` of the last loop.
pub is_interleaved : Bytes → Migration → Bool
is_interleaved max_applied m = not (is_nil max_applied) && lt m.id max_applied

-- The loop for `plan.ToApply` and `plan.Interleaved`; `db` are the keys of `dbMap`.
pub pending : List Bytes → Bytes → List Migration → List Migration × List Migration
unfolding is_interleaved
pending db max_applied [] = ([], [])
pending db max_applied (m ∷ ms) =
    let (to_apply, interleaved) = pending db max_applied ms in
    if contains db m.id
    then (to_apply, interleaved)
    else (m ∷ to_apply, if is_interleaved max_applied m then m ∷ interleaved else interleaved)

-- `BuildPlan`
unfoldable pub build_plan : List Migration → List Migration → Bool → MigrationPlan
unfolding max_applied_id extras pending
build_plan from_files from_db rollback_extras =
    let files = migration_ids from_files in
    let db = migration_ids from_db in
    let max_applied = max_applied_id files rollback_extras [] from_db in
    let (to_apply, interleaved) = pending db max_applied from_files in
    record {
      to_rollback = extras files (reverse from_db);
      to_apply = to_apply;
      interleaved = interleaved;
    }
