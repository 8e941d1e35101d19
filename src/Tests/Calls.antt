-- ===== src/Tests/Calls.antt =====
-- Instances of the theorems on the calls of the package.
use pg_migrate.Prelude.{◌≡◌, refl, true, false, none, some, Option, ℕ, List, [], ◌∷◌, pos, arith}
use pg_migrate.Text.{Bytes, codes, equal}
use pg_migrate.Text.Space.{has_byte}
use pg_migrate.Text.Unicode.{ascii}
use pg_migrate.Table.{resolve, quote_identifier, double_quotes}
use pg_migrate.Database.Calls.{call, ◌>>=◌}
use pg_migrate.Executor.Rows.{table_exists, get_applied_migrations}
use pg_migrate.Source.Files.{FileSystem}
use pg_migrate.Service.Guards.{applied_migrations}
use pg_migrate.Lock.{new_postgres_from_db}
use pg_migrate.Api.{
  Configure, Analysis, StatusRow, SqlDb, other_tables, with_rollback, with_allow_empty_source,
  new_service, resolve_options,
}
use pg_migrate.Api.Calls.{
  migrate_plan, migrate_status, migrate_reconcile, migrate_up, migrate_down, migrate_down_all,
  migrate_forget, migrate_baseline, status_row,
}
use pg_migrate.Api.Setup.{Names}
use pg_migrate.Api.Releases.{LeavesFree, calls-LeavesFree}
use pg_migrate.Api.{with_table_name}
use pg_migrate.Api.Refusal.{IsRefusedCall}
use pg_migrate.Api.Failed.{failed_status-IsRefusedCall}
use pg_migrate.Api.Unasked.{KeepsRecords, unasked_rollback}
use pg_migrate.Error.{driver_error}
use pg_migrate.Database.{Row}
use pg_migrate.Tests.Fixtures.{Schema, server, second, row, failed_row, db_of, quiet, pool}

-- A folder with nothing in it.
abbrev no_files : FileSystem
no_files = record { read_dir = λ name. some []; read_file = λ name. none }

-- There are no other tables.
abbrev no_tables : Bytes → Option (List Row) × ℕ
no_tables name = (none, 1)

abbrev handle : SqlDb Schema
handle = record {
  pool = pool;
  table = codes "\"migrations\"";
  others = no_tables;
  db = db_of (row 1 second ∷ []);
}

calls-LeavesFree_example :
    LeavesFree (migrate_reconcile quiet quiet server ascii (some handle) (some no_files) [])
    × LeavesFree (migrate_up quiet quiet server ascii (some handle) (some no_files) [])
    × LeavesFree (migrate_down quiet quiet server ascii (some handle) (pos 1) [])
    × LeavesFree (migrate_down_all quiet quiet server ascii (some handle) [])
    × LeavesFree (migrate_plan quiet quiet server ascii (some handle) (some no_files) [])
    × LeavesFree (migrate_forget quiet quiet server ascii (some handle) (codes "2") [])
    × LeavesFree
        (migrate_baseline quiet quiet server ascii (some handle) (some no_files) (codes "2") [])
    × LeavesFree (migrate_status quiet quiet server ascii (some handle) [])
calls-LeavesFree_example =
    calls-LeavesFree quiet quiet server ascii handle (refl, (omega arith, tt)) no_files [] (pos 1)
      (codes "2")

abbrev options : List Configure
options = with_rollback ∷ with_allow_empty_source ∷ []

names_plain : Names handle []
unfolding resolve quote_identifier double_quotes has_byte
names_plain = refl

names_options : Names handle options
unfolding resolve quote_identifier double_quotes has_byte with_rollback with_allow_empty_source
names_options = refl

names_lenient : Names handle (with_allow_empty_source ∷ [])
unfolding resolve quote_identifier double_quotes has_byte with_allow_empty_source
names_lenient = refl

abbrev analysis : Analysis
analysis = record {
  blocked_reason = none;
  to_apply = [];
  to_rollback = codes "2" ∷ [];
  interleaved = [];
  blocked = false;
}

abbrev planned_handle : SqlDb Schema
planned_handle = record {
  pool = pool;
  table = codes "\"migrations\"";
  others = other_tables handle;
  db = record (db_of (row 1 second ∷ [])) { calls = 2 };
}

abbrev failed_handle : SqlDb Schema
failed_handle = record {
  pool = pool;
  table = codes "\"migrations\"";
  others = no_tables;
  db = db_of (failed_row ∷ []);
}

abbrev status : List StatusRow
status =
    record {
      applied_at = 0;
      id = codes "1";
      error = some (driver_error 3);
      down_script = codes "B";
      failed = true;
    }
    ∷ []

abbrev seen_handle : SqlDb Schema
seen_handle = record {
  pool = pool;
  table = codes "\"migrations\"";
  others = other_tables failed_handle;
  db = record (db_of (failed_row ∷ [])) { calls = 2 };
}

shows :
    migrate_status quiet quiet server ascii (some failed_handle) []
    ≡ ((some status, none), some seen_handle)
unfolding migrate_status new_service resolve_options resolve quote_identifier double_quotes has_byte
    new_postgres_from_db applied_migrations table_exists get_applied_migrations ◌>>=◌ call
    status_row equal
shows = refl

failed_status-IsRefusedCall_example :
    IsRefusedCall seen_handle.db
      (migrate_up quiet quiet server ascii (some seen_handle) (some no_files) options)
    × IsRefusedCall seen_handle.db
        (migrate_reconcile quiet quiet server ascii (some seen_handle) (some no_files) options)
    × IsRefusedCall seen_handle.db
        (migrate_down quiet quiet server ascii (some seen_handle) (pos 1) options)
    × IsRefusedCall seen_handle.db
        (migrate_down_all quiet quiet server ascii (some seen_handle) options)
unfolding with_allow_empty_source with_rollback
failed_status-IsRefusedCall_example =
    failed_status-IsRefusedCall quiet quiet server ascii failed_handle seen_handle [] options
      (failed_row ∷ []) status no_files (pos 1) names_plain names_options refl shows refl

unasked_rollback_example :
    KeepsRecords handle.db (
      migrate_reconcile quiet quiet server ascii
        (some handle)
        (some no_files)
        (with_allow_empty_source ∷ []))
    × KeepsRecords handle.db
        (migrate_up quiet quiet server ascii (some handle) (some no_files) options)
unfolding with_allow_empty_source
unasked_rollback_example =
    unasked_rollback quiet quiet server ascii handle no_files (with_allow_empty_source ∷ []) options
      names_lenient names_options refl

-- a table of another name
abbrev elsewhere : List Configure
elsewhere = with_table_name (codes "other") ∷ with_rollback ∷ with_allow_empty_source ∷ []
