-- ===== src/Api/Calls.antt =====
-- The calls of the package in migrate.go, on a database handle.
use pg_migrate.Prelude.{
  not, Option, none, some, List, map, ℤ, negsuc, is_positive, is_nil, if◌then◌else◌,
}
use pg_migrate.Result.{Result, ok, err}
use pg_migrate.Error.{Error}
use pg_migrate.Text.{Bytes}
use pg_migrate.Text.Unicode.{Unicode}
use pg_migrate.Database.{Db, Server}
use pg_migrate.Executor.Rows.{AppliedMigration}
use pg_migrate.Source.Files.{FileSystem}
use pg_migrate.Service.Guards.{ReconcileAnalysis, build_reconcile_plan, applied_migrations}
use pg_migrate.Service.Operations.{up, reconcile, rollback, forget, baseline}
use pg_migrate.Lock.{Network, Lock, Pool}
use pg_migrate.Lock.Held.{postgres_locker}
use pg_migrate.Api.{
  Configure, ApiError, bad_count, no_through_id, of_service, Analysis, ApiResult, StatusRow, SqlDb,
  MigrateService, new_service, run_options, to_analysis, to_result, empty_fs, files_of, is_error,
}

-- What a call returns, nil for no result or no error, and the handle as it is then.
abbrev pub Outcome : Type 0 → Type 0 → Type 0
Outcome S R = (Option R × Option ApiError) × Option (SqlDb S)

abbrev pub service_error : Option Error → Option ApiError
service_error none = none
service_error (some e) = some (of_service e)

-- the handle after a call of a service
abbrev pub handle_of : {S : Type 0} → MigrateService S → Pool → Db S → SqlDb S
handle_of svc pool db = record { pool = pool; table = svc.table; db = db; others = svc.others }

abbrev pub ended :
    {S A R : Type 0} → MigrateService S → (A → R) → (A × Option Error) × Lock × Db S → Outcome S R
ended svc show ((a, e), l, db) = ((some (show a), service_error e), some (handle_of svc l.pool db))

-- `if err != nil { return nil, err }` after `newService`, and what follows
abbrev pub with_service :
    {S R : Type 0}
    → Option (SqlDb S)
    → Result ApiError (MigrateService S)
    → (MigrateService S → Outcome S R)
    → Outcome S R
with_service sql_db (ok svc) f = f svc
with_service sql_db (err e) f = ((none, some e), sql_db)

-- `if err != nil { return nil, err }` after a call that only reads
abbrev pub after_read :
    {S A R : Type 0} → MigrateService S → (A → R) → Result Error A × Db S → Outcome S R
after_read svc show (ok a, db) = ((some (show a), none), some (handle_of svc svc.lock.pool db))
after_read svc show (err e, db) =
    ((none, some (of_service e)), some (handle_of svc svc.lock.pool db))

-- one entry of what `Status` returns
unfoldable pub status_row : AppliedMigration → StatusRow
status_row m = record {
  applied_at = m.applied_at;
  id = m.id;
  error = m.error;
  down_script = m.down_script;
  failed = is_error m.error;
}

-- `before` and `after` are the network while the lock is taken and while it is released.
module _ {S : Type 0} (before after : Network) (sv : Server S) (u : Unicode)
    (sql_db : Option (SqlDb S)) where
  -- `Reconcile`
  unfoldable pub migrate_reconcile : Option FileSystem → List Configure → Outcome S ApiResult
  unfolding new_service run_options
  migrate_reconcile fsys opts = with_service sql_db (new_service sql_db fsys opts) (λ svc.
      ended svc to_result (
        reconcile sv u (postgres_locker before after) (files_of u svc.fsys) (run_options svc.config)
          svc.lock svc.db))

  -- `Up`
  unfoldable pub migrate_up : Option FileSystem → List Configure → Outcome S ApiResult
  unfolding new_service
  migrate_up fsys opts = with_service sql_db (new_service sql_db fsys opts) (λ svc.
      ended svc to_result
        (up sv u (postgres_locker before after) (files_of u svc.fsys) svc.lock svc.db))

  -- `rollback` of the package
  unfoldable pub migrate_rollback : ℤ → List Configure → Outcome S ApiResult
  unfolding new_service
  migrate_rollback count opts =
      with_service sql_db (new_service sql_db (some empty_fs) opts) (λ svc.
        ended svc to_result (rollback sv u (postgres_locker before after) count svc.lock svc.db))

  -- `Down`
  unfoldable pub migrate_down : ℤ → List Configure → Outcome S ApiResult
  unfolding migrate_rollback
  migrate_down count opts =
      if not (is_positive count)
      then ((none, some bad_count), sql_db)
      else migrate_rollback count opts

  -- `DownAll`, with `allMigrations`, which is -1
  unfoldable pub migrate_down_all : List Configure → Outcome S ApiResult
  unfolding migrate_rollback
  migrate_down_all opts = migrate_rollback (negsuc 0) opts

  -- `Plan`
  unfoldable pub migrate_plan : Option FileSystem → List Configure → Outcome S Analysis
  unfolding new_service run_options to_analysis
  migrate_plan fsys opts = with_service sql_db (new_service sql_db fsys opts) (λ svc.
      after_read svc (λ (a : ReconcileAnalysis). to_analysis a.plan a.blocked_by)
        (build_reconcile_plan sv (files_of u svc.fsys) (run_options svc.config) svc.db))

  -- `Forget`
  unfoldable pub migrate_forget : Bytes → List Configure → Outcome S (Unit {0})
  unfolding new_service
  migrate_forget id opts =
      with_service sql_db (new_service sql_db (some empty_fs) opts)
        (λ svc. ended svc (λ t. t) (forget sv (postgres_locker before after) id svc.lock svc.db))

  -- `Baseline`
  unfoldable pub migrate_baseline : Option FileSystem → Bytes → List Configure → Outcome S ApiResult
  unfolding new_service
  migrate_baseline fsys through_id opts =
      if is_nil through_id
      then ((none, some no_through_id), sql_db)
      else with_service sql_db (new_service sql_db fsys opts) (λ svc. ended svc to_result (
          baseline sv (postgres_locker before after) (files_of u svc.fsys) through_id svc.lock
            svc.db))

  -- `Status`
  unfoldable pub migrate_status : List Configure → Outcome S (List StatusRow)
  unfolding new_service status_row
  migrate_status opts =
      with_service sql_db (new_service sql_db (some empty_fs) opts)
        (λ svc. after_read svc (map status_row) (applied_migrations sv svc.db))
