-- ===== src/Executor/Apply.antt =====
-- `ApplyMigration` and `RecordApplied`.
use pg_migrate.Prelude.{Option, none, some, List, [], ◌∷◌, if◌then◌else◌}
use pg_migrate.Result.{Result, ok, err}
use pg_migrate.Error.{
  Error, sentinel_with, join_option, execute_up, insert_record, parse_up, split_up,
  record_as_applied, unrecorded,
}
use pg_migrate.Text.{Bytes, contains}
use pg_migrate.Text.Unicode.{Unicode}
use pg_migrate.Migration.{Migration}
use pg_migrate.Directives.{parse_directive_header, notransaction}
use pg_migrate.Script.{split_sql_statements}
use pg_migrate.Database.{Server}
use pg_migrate.Database.Calls.{M, pure, raise, lift, wrapping, attempt, ◌>>=◌, in_transaction}
use pg_migrate.Database.Table.{insert_row, exec_script}
use pg_migrate.Executor.Statements.{
  of_script, run_statements, on_pinned_conn, error_of, was_not_run,
}

module _ {S : Type 0} (sv : Server S) where
  abbrev pub unrecorded_as : Bytes → Option Error → Result Error (Unit {0}) → M S (Unit {0})
  unrecorded_as id execution_error (err e) =
      raise (join_option execution_error (sentinel_with unrecorded (id ∷ []) e))
  unrecorded_as id none (ok _) = pure tt
  unrecorded_as id (some e) (ok _) = raise e

  -- `applyWithoutTransaction` from the insert on
  unfoldable pub record_outcome : Migration → Option Error → M S (Unit {0})
  record_outcome m execution_error = do
    inserted ← attempt (insert_row sv m execution_error)
    unrecorded_as m.id execution_error inserted

  -- the body of the transaction of `ApplyMigration`
  unfoldable pub apply_in_transaction : Migration → Bytes → M S (Unit {0})
  apply_in_transaction m up_sql = in_transaction sv (do
    _ ← wrapping execute_up (exec_script sv up_sql)
    wrapping insert_record (insert_row sv m none))

  unfoldable pub record_all : List Migration → M S (Unit {0})
  record_all [] = pure tt
  record_all (m ∷ rest) = do
    _ ← wrapping (record_as_applied m.id) (insert_row sv m none)
    record_all rest

  -- `RecordApplied`
  unfoldable pub record_applied : List Migration → M S (Unit {0})
  record_applied [] = pure tt
  record_applied (m ∷ rest) = in_transaction sv (record_all (m ∷ rest))

module _ {S : Type 0} (sv : Server S) (u : Unicode) where
  -- `applyWithoutTransaction`
  unfoldable pub apply_without_transaction : Migration → Bytes → M S (Unit {0})
  unfolding record_outcome
  apply_without_transaction m up_sql = do
    statements ← wrapping (split_up m.id) (lift (of_script (split_sql_statements u up_sql)))
    outcome ← attempt (on_pinned_conn sv (run_statements sv 0 statements))
    if was_not_run outcome then lift outcome else record_outcome sv m (error_of outcome)

  -- `ApplyMigration`
  unfoldable pub apply_migration : Migration → M S (Unit {0})
  apply_migration m = do
    parsed ← wrapping (parse_up m.id) (lift (of_script (parse_directive_header m.up_script)))
    (if contains parsed.0 notransaction
        then apply_without_transaction m parsed.1
        else apply_in_transaction sv m parsed.1)
