-- ===== src/Api/Foretold.antt =====
-- `Plan` and `Reconcile` of migrate.go with the same files and options.
use pg_migrate.Prelude.{◌≡◌, ◌⊎◌, true, false, not, ◌&&◌, ◌||◌, Option, none, some, List, [], ◌++◌}
use pg_migrate.Result.{Result, ok}
use pg_migrate.Error.{Error}
use pg_migrate.Text.{Bytes, contains}
use pg_migrate.Text.Unicode.{Unicode}
use pg_migrate.Database.{Db, Row, Server}
use pg_migrate.Source.Files.{FileSystem}
use pg_migrate.Executor.Progress.{Progress}
use pg_migrate.Service.Guards.{Source, ReconcileAnalysis, build_reconcile_plan}
use pg_migrate.Service.Operations.{wrap_error}
use pg_migrate.Executor.Ids.{is_recorded}
use pg_migrate.Service.Preview.{CannotStart}
use pg_migrate.Lock.{Lock}
use pg_migrate.Api.{
  Configure, ApiError, Analysis, ApiResult, SqlDb, MigrateService, files_of, run_options,
  to_analysis,
}
use pg_migrate.Api.Calls.{Outcome, service_error}
use pg_migrate.Api.Setup.{IsSetUp}
use pg_migrate.Api.Refusal.{IsRefusedCall, has_error}

-- What was done is a beginning of what was foretold, and all of it unless there is an error.
abbrev pub Follows : List Bytes → List Bytes → Option ApiError → Type 0
Follows foretold done e =
    (rest : List Bytes) × (foretold ≡ done ++ rest) × ((has_error e ≡ true) ⊎ (rest ≡ []))

abbrev pub result_ids : (ApiResult → List Bytes) → Option ApiResult → List Bytes
result_ids f none = []
result_ids f (some r) = f r

abbrev pub ledger_of : {S : Type 0} → Option (SqlDb S) → Option (List Row)
ledger_of none = none
ledger_of (some handle) = handle.db.ledger

-- There is no service; or the error is that of the lock, or of the steps before the plan is made.
abbrev pub IsStopped : {S : Type 0} → Server S → Source → Db S → Outcome S ApiResult → Type 0
IsStopped sv source db x =
    (IsRefusedCall db x × (x.0.0 ≡ none))
    ⊎ ((e : Option Error) × (x.0.1 ≡ service_error e) × CannotStart sv source db e)

-- The plan was executed, with this error: without one the recorded IDs have changed as foretold, and
-- with or without one no ID is lost that was not to roll back.
pub record IsCarriedOut {S : Type 0} (a : Analysis) (db : Db S) (x : Outcome S ApiResult)
    : Type 0 where
  pub error : Option Error
  pub reported : x.0.1 ≡ service_error (wrap_error error)
  pub ids :
      error ≡ none
      → (k : Bytes)
      → is_recorded (ledger_of x.1) k
        ≡ (is_recorded db.ledger k && not (contains a.to_rollback k) || contains a.to_apply k)
  pub kept :
      (k : Bytes)
      → contains a.to_rollback k ≡ false
      → is_recorded db.ledger k ≡ true
      → is_recorded (ledger_of x.1) k ≡ true

-- A call does what an analysis foretold of the database `db`.
pub record IsForetold {S : Type 0} (sv : Server S) (source : Source) (a : Analysis) (db : Db S)
    (x : Outcome S ApiResult) : Type 0 where
  pub unblocked : a.blocked ≡ false → IsStopped sv source db x ⊎ IsCarriedOut a db x
  pub block : (a.blocked ≡ false) ⊎ IsRefusedCall db x
  pub back : Follows a.to_rollback (result_ids (λ r. r.rolled_back) x.0.0) x.0.1
  pub forward : Follows a.to_apply (result_ids (λ r. r.applied) x.0.0) x.0.1

-- A call of `Plan` that returns an analysis has built a plan of the service.
abbrev Planned :
    {S : Type 0}
    → Server S
    → Unicode
    → SqlDb S
    → FileSystem
    → List Configure
    → Outcome S Analysis
    → Type 0
Planned sv u handle files opts ((some a, none), some handle') =
    (svc : MigrateService _) × (b : ReconcileAnalysis) × IsSetUp handle files opts svc
    × (build_reconcile_plan sv (files_of u svc.fsys) (run_options svc.config) svc.db
        ≡ (ok b, handle'.db))
    × (a ≡ to_analysis b.plan b.blocked_by)
    × (handle'.table ≡ svc.table)
Planned sv u handle files opts x = Unit {0}
