-- ===== src/Api.antt =====
-- migrate.go: the package's options, its results, and the service that a call sets up.
pub mod Calls
pub mod Setup
pub mod Releases
pub mod Refusal
pub mod Foretold
pub mod Failed
pub mod Unasked
pub mod Apart
use pg_migrate.Prelude.{
  ℕ, Bool, true, false, Option, none, some, List, [], ◌∷◌, map, ℤ, pos, negsuc, is_nil,
  if◌then◌else◌,
}
use pg_migrate.Result.{Result, ok, err, ◌>>=◌}
use pg_migrate.Error.{Error, source_error}
use pg_migrate.Text.{Bytes, equal}
use pg_migrate.Text.Unicode.{Unicode}
use pg_migrate.Migration.{Migration, migration_ids}
use pg_migrate.Planner.{MigrationPlan}
use pg_migrate.Database.{Db, Row}
use pg_migrate.Table.{TableConfig, NameError, resolve}
use pg_migrate.Source.{SourceError}
use pg_migrate.Source.Files.{FileSystem, get_file_migrations}
use pg_migrate.Service.Guards.{RunOptions, Source}
use pg_migrate.Service.Operations.{RunResult}
use pg_migrate.Lock.{Pool, Lock, LockConfig, new_postgres_from_db}

-- `config` without the logger. The timeout is in nanoseconds.
pub record Config : Type 0 where
  pub table : TableConfig
  pub lock_timeout : ℤ
  pub lock_id : ℤ
  pub allow_rollback : Bool
  pub allow_interleaved : Bool
  pub allow_empty_source : Bool
  pub lock_timeout_set : Bool

-- `&config{}`
abbrev pub zero_config : Config
zero_config = record {
  table = record { schema = []; name = [] };
  lock_timeout = pos 0;
  lock_id = pos 0;
  allow_rollback = false;
  allow_interleaved = false;
  allow_empty_source = false;
  lock_timeout_set = false;
}

-- `Option` of the package
abbrev pub Configure : Type 0
Configure = Config → Config

-- `WithRollback`
unfoldable pub with_rollback : Configure
with_rollback c = record c { allow_rollback = true }

-- `WithInterleaved`
unfoldable pub with_interleaved : Configure
with_interleaved c = record c { allow_interleaved = true }

-- `WithLockTimeout`
unfoldable pub with_lock_timeout : ℤ → Configure
with_lock_timeout d c = record c { lock_timeout = d; lock_timeout_set = true }

-- `WithLockID`
unfoldable pub with_lock_id : ℤ → Configure
with_lock_id id c = record c { lock_id = id }

-- `WithAllowEmptySource`
unfoldable pub with_allow_empty_source : Configure
with_allow_empty_source c = record c { allow_empty_source = true }

-- `WithTableName`
unfoldable pub with_table_name : Bytes → Configure
with_table_name name c = record c { table = record { schema = c.table.schema; name = name } }

-- `WithSchema`
unfoldable pub with_schema : Bytes → Configure
with_schema schema c = record c { table = record { schema = schema; name = c.table.name } }

-- What a call of the package returns as its error. Those before `of_service` are found before the
-- service is asked.
pub data ApiError : Type 0 where
  negative_timeout nil_db nil_fsys bad_count no_through_id : ApiError
  bad_table : NameError → ApiError
  of_service : Error → ApiError

abbrev pub apply_options : List Configure → Config → Config
apply_options [] c = c
apply_options (opt ∷ opts) c = apply_options opts (opt c)

-- A duration that is not negative, in nanoseconds.
abbrev pub check_timeout : ℤ → Result ApiError ℕ
check_timeout (pos n) = ok n
check_timeout (negsuc n) = err negative_timeout

-- `resolveOptions`, with the timeout that is checked there
unfoldable pub resolve_options : List Configure → Result ApiError (Config × ℕ)
resolve_options opts = do
  let cfg = apply_options opts zero_config
  timeout ← check_timeout cfg.lock_timeout
  ok (cfg, timeout)

-- `runOptions`
unfoldable pub run_options : Config → RunOptions
run_options c = record {
  allow_rollback = c.allow_rollback;
  allow_interleaved = c.allow_interleaved;
  allow_empty_source = c.allow_empty_source;
}

-- `Analysis`; the reason is the error whose text it is
pub record Analysis : Type 0 where
  pub blocked_reason : Option Error
  pub to_apply : List Bytes
  pub to_rollback : List Bytes
  pub interleaved : List Bytes
  pub blocked : Bool

-- `Result` of the package
pub record ApiResult : Type 0 where
  pub applied : List Bytes
  pub rolled_back : List Bytes
  pub extras_left : List Bytes
  pub interleaved : List Bytes

-- `AppliedMigration` of the package; the error is the one whose text it is
pub record StatusRow : Type 0 where
  pub applied_at : ℕ
  pub id : Bytes
  pub error : Option Error
  pub down_script : Bytes
  pub failed : Bool

-- the test `blockedBy != nil`
abbrev pub is_error : Option Error → Bool
is_error none = false
is_error (some e) = true

-- `toAnalysis`
unfoldable pub to_analysis : MigrationPlan → Option Error → Analysis
to_analysis plan blocked_by = record {
  blocked_reason = blocked_by;
  to_apply = migration_ids plan.to_apply;
  to_rollback = migration_ids plan.to_rollback;
  interleaved = migration_ids plan.interleaved;
  blocked = is_error blocked_by;
}

-- `toResult`
unfoldable pub to_result : RunResult → ApiResult
to_result r = record {
  applied = migration_ids r.applied;
  rolled_back = migration_ids r.rolled_back;
  extras_left = migration_ids r.extras_left;
  interleaved = migration_ids r.interleaved;
}

-- A `*sql.DB`: its pool, and the database behind it. `db` shows the bookkeeping table that has the
-- quoted name `table`; `others` has the rows and the identity sequence of the tables of other names.
pub record SqlDb (S : Type 0) : Type 0 where
  pub pool : Pool
  pub table : Bytes
  pub db : Db S
  pub others : Bytes → Option (List Row) × ℕ

-- The parts that `newService` puts together: what `NewPostgresFromDB`, `NewFS` and
-- `NewCustomExecutor` make of the arguments, and the options.
pub record MigrateService (S : Type 0) : Type 0 where
  pub lock : Lock
  pub fsys : FileSystem
  pub config : Config
  pub table : Bytes
  pub db : Db S
  pub others : Bytes → Option (List Row) × ℕ

-- The database with the bookkeeping table of this name, for which the executor makes its queries.
abbrev pub open_table : {S : Type 0} → SqlDb S → Bytes → Db S
open_table handle name =
    if equal name handle.table
    then handle.db
    else record handle.db { ledger = (handle.others name).0; next_seq = (handle.others name).1 }

-- the tables besides that one
abbrev pub other_tables : {S : Type 0} → SqlDb S → Bytes → Option (List Row) × ℕ
other_tables handle name =
    if equal name handle.table then (handle.db.ledger, handle.db.next_seq) else handle.others name

abbrev pub check_db : {A : Type 0} → Option A → Result ApiError A
check_db none = err nil_db
check_db (some a) = ok a

abbrev pub check_fsys : {A : Type 0} → Option A → Result ApiError A
check_fsys none = err nil_fsys
check_fsys (some a) = ok a

abbrev pub check_table : Result NameError Bytes → Result ApiError Bytes
check_table (ok q) = ok q
check_table (err e) = err (bad_table e)

-- `newService`, with `NewCustomExecutor`, `NewPostgresFromDB` and `NewService`. `none` is nil.
unfoldable pub new_service :
    {S : Type 0}
    → Option (SqlDb S)
    → Option FileSystem
    → List Configure
    → Result ApiError (MigrateService S)
unfolding resolve_options equal
new_service sql_db fsys opts = do
  handle ← check_db sql_db
  files ← check_fsys fsys
  (cfg, timeout) ← resolve_options opts
  table ← check_table (resolve cfg.table)
  ok (record {
    lock = new_postgres_from_db handle.pool (record {
      lock_timeout = timeout;
      lock_timeout_set = cfg.lock_timeout_set;
      lock_id = cfg.lock_id;
    });
    fsys = files;
    config = cfg;
    table = table;
    db = open_table handle table;
    others = other_tables handle;
  })

-- `emptyFS`
abbrev pub empty_fs : FileSystem
empty_fs = record { read_dir = λ name. none; read_file = λ name. none }

abbrev pub from_source : Result SourceError (List Migration) → Source
from_source (ok ms) = ok ms
from_source (err e) = err (source_error e)

-- The source of a service: the migrations that are in its files when they are read.
abbrev pub files_of : Unicode → FileSystem → Source
files_of u fsys = from_source (get_file_migrations fsys u)
