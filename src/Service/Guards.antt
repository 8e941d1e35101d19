-- ===== src/Service/Guards.antt =====
-- What the service reads before it acts, and the guards that make it refuse.
use pg_migrate.Prelude.{
  Bool, true, false, not, ◌&&◌, Option, none, some, List, [], ◌∷◌, if◌then◌else◌, is_nil, map,
  filter,
}
use pg_migrate.Result.{Result}
use pg_migrate.Error.{
  Error, get_migrations as getting_migrations, sentinel, get_applied, get_files, failed_migrations,
  divergence, interleaved, empty_source, check_table,
}
use pg_migrate.Migration.{Migration, migration_ids}
use pg_migrate.Planner.{MigrationPlan, build_plan}
use pg_migrate.Database.{Server}
use pg_migrate.Database.Calls.{M, pure, raise, lift, wrapping, ◌>>=◌}
use pg_migrate.Executor.Rows.{AppliedMigration, table_exists, get_applied_migrations}

-- `RunOptions`
pub record RunOptions : Type 0 where
  pub allow_rollback : Bool
  pub allow_interleaved : Bool
  pub allow_empty_source : Bool

-- `ReconcileAnalysis`
pub record ReconcileAnalysis : Type 0 where
  pub plan : MigrationPlan
  pub blocked_by : Option Error

abbrev pub is_failed : AppliedMigration → Bool
is_failed m = elim m.error [ none ↦ false | some _ ↦ true ]

abbrev pub refuse_failed : {S : Type 0} → List AppliedMigration → M S (Unit {0})
refuse_failed [] = pure tt
refuse_failed (m ∷ ms) = raise (sentinel failed_migrations (map (λ a. a.id) (m ∷ ms)))

-- A record as a `Migration`: its scripts are left empty.
abbrev pub of_record : AppliedMigration → Migration
of_record r = record { applied_at = r.applied_at; id = r.id; up_script = []; down_script = [] }

-- `blockedBy`
unfoldable pub blocked_by : MigrationPlan → List Migration → RunOptions → Option Error
blocked_by plan from_files opts =
    if is_nil from_files && not (is_nil plan.to_rollback) && not opts.allow_empty_source
    then some (sentinel empty_source [])
    else if not (is_nil plan.to_rollback) && not opts.allow_rollback
    then some (sentinel divergence (migration_ids plan.to_rollback))
    else if not (is_nil plan.interleaved) && not opts.allow_interleaved
    then some (sentinel interleaved (migration_ids plan.interleaved))
    else none

abbrev pub Source : Type 0
Source = Result Error (List Migration)

module _ {S : Type 0} (sv : Server S) where
  -- `refuseIfFailed`
  unfoldable pub refuse_if_failed : M S (Unit {0})
  refuse_if_failed = do
    applied ← wrapping get_applied (get_applied_migrations sv)
    refuse_failed (filter is_failed applied)

  -- `AppliedMigrations`
  unfoldable pub applied_migrations : M S (List AppliedMigration)
  applied_migrations = do
    there ← wrapping check_table (table_exists sv)
    (if not there then pure [] else wrapping get_applied (get_applied_migrations sv))

  -- `GetMigrations`: the files and the records
  unfoldable pub get_migrations : Source → M S (List Migration × List Migration)
  get_migrations source = do
    from_files ← wrapping get_files (lift source)
    applied ← applied_migrations
    pure (from_files, map of_record applied)

  -- `BuildReconcilePlan`
  unfoldable pub build_reconcile_plan : Source → RunOptions → M S ReconcileAnalysis
  build_reconcile_plan source opts = do
    both ← wrapping getting_migrations (get_migrations source)
    let plan = build_plan both.0 both.1 true
    pure (record { plan = plan; blocked_by = blocked_by plan both.0 opts })
