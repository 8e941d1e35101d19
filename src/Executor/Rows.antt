-- ===== src/Executor/Rows.antt =====
-- The methods that read the bookkeeping table, create it or delete a row of it.
use pg_migrate.Prelude.{ℕ, Bool, Option, List, map}
use pg_migrate.Error.{
  Error, create_table as create_table_step, check_table, delete_record, query_migrations,
}
use pg_migrate.Text.{Bytes}
use pg_migrate.Database.{Row, Server}
use pg_migrate.Database.Calls.{M, pure, wrapping, ◌>>=◌}
use pg_migrate.Database.Table.{create_table, delete_row, select_rows, table_exists_query}

-- `AppliedMigration`
pub record AppliedMigration : Type 0 where
  pub id : Bytes
  pub applied_at : ℕ
  pub error : Option Error
  pub down_script : Bytes

-- what `rows.Scan` reads of a row
abbrev pub scan_row : Row → AppliedMigration
scan_row r = record {
  id = r.id;
  applied_at = r.applied_at;
  error = r.error;
  down_script = r.down_script;
}

module _ {S : Type 0} (sv : Server S) where
  -- `EnsureMigrationsTable`
  unfoldable pub ensure_migrations_table : M S (Unit {0})
  ensure_migrations_table = wrapping create_table_step (create_table sv)

  -- `TableExists`
  unfoldable pub table_exists : M S Bool
  table_exists = wrapping check_table (table_exists_query sv)

  -- `DeleteRecord`
  unfoldable pub delete_record_of : Bytes → M S Bool
  delete_record_of id = wrapping delete_record (delete_row sv id)

  -- `GetAppliedMigrations`
  unfoldable pub get_applied_migrations : M S (List AppliedMigration)
  get_applied_migrations = do
    rows ← wrapping query_migrations (select_rows sv)
    pure (map scan_row rows)
