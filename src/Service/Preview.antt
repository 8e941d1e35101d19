-- ===== src/Service/Preview.antt =====
-- `BuildReconcilePlan` foretells what `Reconcile` does.
use pg_migrate.Prelude.{◌≡◌, ◌⊎◌, true, Option, none, some, List}
use pg_migrate.Result.{ok, err}
use pg_migrate.Error.{Error, wrap, acquire_lock, get_migrations as getting_migrations}
use pg_migrate.Text.Unicode.{Unicode}
use pg_migrate.Migration.{Migration, migration_ids}
use pg_migrate.Planner.{MigrationPlan, build_plan}
use pg_migrate.Database.{Db, Row, Server}
use pg_migrate.Executor.Plan.{ExecutionResult}
use pg_migrate.Executor.Progress.{Progress}
use pg_migrate.Executor.Outcome.{Executed}
use pg_migrate.Service.Guards.{RunOptions, ReconcileAnalysis, Source, blocked_by, get_migrations}
use pg_migrate.Service.Operations.{RunResult, loaded, wrap_error}
use pg_migrate.Service.Runs.{Goal}
use pg_migrate.Service.Loading.{records}
use pg_migrate.Service.Refusals.{IsRefused}

record IsPreview (source : Source) (rows : List Row) (opts : RunOptions) (a : ReconcileAnalysis)
    : Type 0 where
  from_files : List Migration
  read : source ≡ ok from_files
  same_plan : a.plan ≡ build_plan from_files (records rows) true
  same_block : a.blocked_by ≡ blocked_by (build_plan from_files (records rows) true) from_files opts

-- The error is that of the lock, or of the steps before the plan is made: the table is made sure of, no
-- failed row is found, and files and rows are read.
abbrev pub CannotStart : {S : Type 0} → Server S → Source → Db S → Option Error → Type 0
CannotStart sv source d error =
    ((e : Error) × (error ≡ some (wrap acquire_lock e)))
    ⊎ ((e : Error) × ((loaded sv source d).0 ≡ err e) × (error ≡ some e))

-- `ExecutePlan` has run with the plan on the ledger `l₀`, and what it returned is reported.
abbrev pub HasExecuted :
    MigrationPlan → Option (List Row) → RunResult × Option Error → Option (List Row) → Type 0
HasExecuted plan l₀ r l =
    (done : ExecutionResult × Option Error) × Executed plan l₀ done l
    × (r.0.applied ≡ done.0.applied)
    × (r.0.rolled_back ≡ done.0.rolled_back)
    × (r.1 ≡ wrap_error done.1)

-- What `Reconcile` did, which ended as `x` from `d`, is what the analysis `a` says: it refuses if `a`
-- is blocked, and it did a beginning of the plan's lists, or all of them if there is no error. If `a`
-- is not blocked, it executes the plan, unless the lock or what comes before the plan fails.
pub record IsFollowed {S L : Type 0} (sv : Server S) (source : Source) (a : ReconcileAnalysis)
    (d : Db S) (x : (RunResult × Option Error) × L × Db S) : Type 0 where
  pub blocked : {e : Error} → a.blocked_by ≡ some e → IsRefused d x
  pub back : Progress (migration_ids a.plan.to_rollback) (migration_ids x.0.0.rolled_back) x.0.1
  pub forward : Progress (migration_ids a.plan.to_apply) (migration_ids x.0.0.applied) x.0.1
  pub unblocked :
      a.blocked_by ≡ none
      → CannotStart sv source d x.0.1 ⊎ HasExecuted a.plan d.ledger x.0 x.2.ledger

abbrev BothProgress : {S : Type 0} → MigrationPlan → Goal S RunResult
BothProgress plan r s l =
    Progress (migration_ids plan.to_rollback) (migration_ids r.0.rolled_back) r.1
    × Progress (migration_ids plan.to_apply) (migration_ids r.0.applied) r.1
