-- ===== src/Executor/Statements.antt =====
-- How a script runs outside a transaction: `runStatements` and `onPinnedConn`.
use pg_migrate.Prelude.{
  ℕ, suc, Bool, false, Option, none, some, List, [], ◌∷◌, if◌then◌else◌, is_nil,
}
use pg_migrate.Result.{Result, ok, err}
use pg_migrate.Error.{
  Error, script_error, sentinel_with, wrap, errors_is, dedicated_conn, statement, no_pinned_conn,
}
use pg_migrate.Text.{Bytes}
use pg_migrate.Text.Space.{trim_space}
use pg_migrate.Directives.{ScriptError}
use pg_migrate.Database.{Server}
use pg_migrate.Database.Calls.{M, attempt, pure, lift, wrapping, ◌>>=◌, call}
use pg_migrate.Database.Table.{exec_script}

-- an error of a parser as an error of the executor
abbrev pub of_script : {A : Type 0} → Result ScriptError A → Result Error A
of_script (ok a) = ok a
of_script (err e) = err (script_error e)

abbrev pub was_not_run : Result Error (Unit {0}) → Bool
was_not_run (ok _) = false
was_not_run (err e) = errors_is e no_pinned_conn

abbrev pub error_of : Result Error (Unit {0}) → Option Error
error_of (ok _) = none
error_of (err e) = some e

abbrev pub without_conn : Result Error (Unit {0}) → Result Error (Unit {0})
without_conn (ok a) = ok a
without_conn (err e) = err (sentinel_with no_pinned_conn [] (wrap dedicated_conn e))

module _ {S : Type 0} (sv : Server S) where
  -- `runStatements`; the number counts from 0
  unfoldable pub run_statements : ℕ → List Bytes → M S (Unit {0})
  run_statements i [] = pure tt
  run_statements i (stmt ∷ rest) =
      if is_nil (trim_space stmt) then run_statements (suc i) rest else (do
        _ ← wrapping (statement (suc i)) (exec_script sv (trim_space stmt))
        run_statements (suc i) rest)

  -- `onPinnedConn`. The session and its end in `releaseConn` are not part of the state.
  unfoldable pub on_pinned_conn : M S (Unit {0}) → M S (Unit {0})
  on_pinned_conn body = do
    connected ← attempt (call sv (pure tt))
    _ ← lift (without_conn connected)
    body
