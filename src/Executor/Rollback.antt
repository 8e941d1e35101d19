-- ===== src/Executor/Rollback.antt =====
-- `RollbackMigration` and `EnsureReversible`.
use pg_migrate.Prelude.{Bool, false, Option, none, some, List, [], ◌∷◌, if◌then◌else◌}
use pg_migrate.Result.{Result, ok, err}
use pg_migrate.Error.{
  Error, sentinel, sentinel_with, wrap, join, not_in_database, execute_down, delete_record,
  get_down_script, parse_down, split_down, unrecorded, irreversible,
}
use pg_migrate.Text.{Bytes, contains}
use pg_migrate.Text.Unicode.{Unicode}
use pg_migrate.Directives
use pg_migrate.Directives.{ScriptError, parse_directive_header, notransaction}
use pg_migrate.Script.{split_sql_statements}
use pg_migrate.Database.{Row, Server}
use pg_migrate.Database.Calls.{M, pure, raise, lift, wrapping, attempt, ◌>>=◌, in_transaction}
use pg_migrate.Database.Table.{delete_row, update_error, select_down_script, exec_script}
use pg_migrate.Executor.Statements.{
  of_script, run_statements, on_pinned_conn, error_of, was_not_run,
}

module _ {S : Type 0} (sv : Server S) where
  unfoldable pub rollback_in_transaction : Bytes → Bytes → M S (Unit {0})
  rollback_in_transaction id down_sql = in_transaction sv (do
    _ ← wrapping execute_down (exec_script sv down_sql)
    _ ← wrapping delete_record (delete_row sv id)
    pure tt)

  abbrev pub marked : Error → Result Error (Unit {0}) → M S (Unit {0})
  marked e (ok _) = raise (wrap execute_down e)
  marked e (err mark_error) = raise (join e mark_error)

  abbrev pub or_unrecorded : {A : Type 0} → Bytes → Result Error A → M S (Unit {0})
  or_unrecorded id (ok _) = pure tt
  or_unrecorded id (err e) = raise (sentinel_with unrecorded (id ∷ []) e)

  -- `markFailed`
  unfoldable pub mark_failed : Bytes → Error → M S (Unit {0})
  mark_failed id cause = do updated ← attempt (update_error sv id cause); or_unrecorded id updated

  abbrev pub after_down : Bytes → Option Error → M S (Unit {0})
  after_down id (some e) = do stamped ← attempt (mark_failed id e); marked e stamped
  after_down id none = do deleted ← attempt (delete_row sv id); or_unrecorded id deleted

  abbrev pub irreversible_row : Bytes → Option Row → M S Bool
  irreversible_row id none = pure false
  irreversible_row id (some r) = do
    parsed ← wrapping (parse_down id) (lift (of_script (parse_directive_header r.down_script)))
    pure (contains parsed.0 Directives.irreversible)

  -- the loop of `EnsureReversible`: the IDs that are marked
  unfoldable pub irreversible_ids : List Bytes → M S (List Bytes)
  irreversible_ids [] = pure []
  irreversible_ids (id ∷ rest) = do
    found ← wrapping get_down_script (select_down_script sv id)
    marked ← irreversible_row id found
    others ← irreversible_ids rest
    pure (if marked then id ∷ others else others)

  abbrev pub refuse_irreversible : List Bytes → M S (Unit {0})
  refuse_irreversible [] = pure tt
  refuse_irreversible (id ∷ ids) = raise (sentinel irreversible (id ∷ ids))

  -- `EnsureReversible`
  unfoldable pub ensure_reversible : List Bytes → M S (Unit {0})
  unfolding irreversible_ids
  ensure_reversible ids = do marked ← irreversible_ids ids; refuse_irreversible marked

module _ {S : Type 0} (sv : Server S) (u : Unicode) where
  -- `rollbackWithoutTransaction`
  unfoldable pub rollback_without_transaction : Bytes → Bytes → M S (Unit {0})
  unfolding mark_failed
  rollback_without_transaction id down_sql = do
    statements ← wrapping (split_down id) (lift (of_script (split_sql_statements u down_sql)))
    outcome ← attempt (on_pinned_conn sv (run_statements sv 0 statements))
    if was_not_run outcome then lift outcome else after_down sv id (error_of outcome)

  abbrev pub roll_back_row : Bytes → Option Row → M S (Unit {0})
  roll_back_row id none = raise (not_in_database id)
  roll_back_row id (some r) = do
    parsed ← wrapping (parse_down id) (lift (of_script (parse_directive_header r.down_script)))
    (if contains parsed.0 notransaction
        then rollback_without_transaction id parsed.1
        else rollback_in_transaction sv id parsed.1)

  -- `RollbackMigration`
  unfoldable pub rollback_migration : Bytes → M S (Unit {0})
  rollback_migration id = do
    found ← wrapping get_down_script (select_down_script sv id)
    roll_back_row id found
