-- ===== src/Tests/Services.antt =====
-- Instances of the theorems on the operations of the service.
use pg_migrate.Prelude.{◌≡◌, refl, true, false, none, some, [], ◌∷◌, pos}
use pg_migrate.Result.{ok}
use pg_migrate.Text.{codes, contains, equal, lt}
use pg_migrate.Text.Space.{trim_space, fields}
use pg_migrate.Text.Lines.{lines, cut_head, cut_rest, has_prefix}
use pg_migrate.Text.Unicode.{ascii}
use pg_migrate.Directives.{
  parse_directive_header, directive_names, looks_like_directive, is_statement_marker_line,
  check_no_late_directives,
}
use pg_migrate.Planner.{build_plan}
use pg_migrate.Database.{Db, can_insert, without, find_row}
use pg_migrate.Database.Calls.{call, in_transaction, ◌>>=◌}
use pg_migrate.Executor.Rows.{ensure_migrations_table, table_exists, get_applied_migrations}
use pg_migrate.Executor.Apply.{apply_migration, apply_in_transaction}
use pg_migrate.Executor.Rollback.{rollback_migration, rollback_in_transaction, ensure_reversible}
use pg_migrate.Executor.Plan.{execute_plan, rollback_loop, apply_loop, find_migration}
use pg_migrate.Service.Guards.{
  ReconcileAnalysis, blocked_by, refuse_if_failed, get_migrations, applied_migrations,
}
use pg_migrate.Service.Operations.{
  reconcile, reconcile_locked, up, up_locked, rollback, forget, baseline, with_lock,
  record_execution,
}
use pg_migrate.Service.Recorded.{IsReconciled, IsUp, reconcile_recorded, up_recorded}
use pg_migrate.Service.Refusals.{IsRefused, failed_row-IsRefused, reconcile_blocked}
use pg_migrate.Service.Removed.{IsRolledBack, rollback_newest}
use pg_migrate.Service.Forgetting.{IsForgotten, forget_ends}
use pg_migrate.Service.Baselining.{BaselineEnds, baseline_ends}
use pg_migrate.Service.Loading.{records}
use pg_migrate.Error.{sentinel, divergence}
use pg_migrate.Tests.Fixtures.{
  Schema, migration, server, lock, first, second, row, failed_row, db_of, strict, lenient,
}

reconcile_ran :
    (reconcile server ascii lock (ok (first ∷ [])) lenient false (db_of (row 1 second ∷ []))).0.1
    ≡ none
unfolding reconcile reconcile_locked with_lock ◌>>=◌ call in_transaction ensure_migrations_table
    refuse_if_failed get_applied_migrations table_exists get_migrations applied_migrations
    build_plan blocked_by execute_plan rollback_loop apply_loop find_migration ensure_reversible
    rollback_migration rollback_in_transaction apply_migration apply_in_transaction record_execution
    can_insert without find_row contains equal lt parse_directive_header directive_names fields
    trim_space lines cut_head cut_rest check_no_late_directives looks_like_directive has_prefix
    is_statement_marker_line
reconcile_ran = refl

reconcile_recorded_example :
    IsReconciled
      (ok (first ∷ []))
      (reconcile server ascii lock
        (ok (first ∷ []))
        lenient
        false
        (db_of (row 1 second ∷ []))).2.ledger
reconcile_recorded_example =
    reconcile_recorded server ascii lock (ok (first ∷ [])) lenient false (db_of (row 1 second ∷ []))
      reconcile_ran

up_ran :
    (up server ascii lock (ok (first ∷ second ∷ [])) false (db_of (row 1 first ∷ []))).0.1 ≡ none
unfolding up up_locked with_lock ◌>>=◌ call in_transaction ensure_migrations_table refuse_if_failed
    get_applied_migrations table_exists get_migrations applied_migrations build_plan execute_plan
    rollback_loop apply_loop find_migration ensure_reversible apply_migration apply_in_transaction
    record_execution can_insert contains equal lt parse_directive_header directive_names fields
    trim_space lines cut_head cut_rest check_no_late_directives looks_like_directive has_prefix
    is_statement_marker_line
up_ran = refl

up_recorded_example :
    IsUp
      (ok (first ∷ second ∷ []))
      (some (row 1 first ∷ []))
      (up server ascii lock (ok (first ∷ second ∷ [])) false (db_of (row 1 first ∷ []))).2.ledger
up_recorded_example =
    up_recorded server ascii lock (ok (first ∷ second ∷ [])) false (db_of (row 1 first ∷ [])) up_ran

failed_row-IsRefused_example :
    IsRefused
      (db_of (failed_row ∷ []))
      (up server ascii lock (ok (first ∷ [])) false (db_of (failed_row ∷ [])))
    × IsRefused
        (db_of (failed_row ∷ []))
        (reconcile server ascii lock (ok (first ∷ [])) lenient false (db_of (failed_row ∷ [])))
    × IsRefused
        (db_of (failed_row ∷ []))
        (rollback server ascii lock (pos 1) false (db_of (failed_row ∷ [])))
failed_row-IsRefused_example =
    failed_row-IsRefused server ascii lock (failed_row ∷ []) false (db_of (failed_row ∷ []))
      (ok (first ∷ [])) lenient (pos 1) refl refl

is_blocked :
    blocked_by (build_plan (first ∷ []) (records (row 1 second ∷ [])) true) (first ∷ []) strict
    ≡ some (sentinel divergence (codes "2" ∷ []))
unfolding blocked_by build_plan contains
is_blocked = refl

reconcile_blocked_example :
    IsRefused
      (db_of (row 1 second ∷ []))
      (reconcile server ascii lock (ok (first ∷ [])) strict false (db_of (row 1 second ∷ [])))
reconcile_blocked_example =
    reconcile_blocked server ascii lock (row 1 second ∷ []) false (db_of (row 1 second ∷ []))
      (first ∷ []) strict refl is_blocked

abbrev analysis : ReconcileAnalysis
analysis = record {
  plan = record {
    to_rollback = migration (codes "2") [] [] ∷ [];
    to_apply = first ∷ [];
    interleaved = [];
  };
  blocked_by = none;
}

abbrev previewed : Db Schema
previewed = record (db_of (row 1 second ∷ [])) { calls = 2 }

rollback_newest_example :
    IsRolledBack
      (pos 1)
      (some (row 1 first ∷ row 2 second ∷ []))
      (rollback server ascii lock (pos 1) false (db_of (row 1 first ∷ row 2 second ∷ []))).0
      (rollback server ascii lock (pos 1) false (db_of (row 1 first ∷ row 2 second ∷ []))).2.ledger
rollback_newest_example =
    rollback_newest server ascii (pos 1) (db_of (row 1 first ∷ row 2 second ∷ [])) lock false

baseline_ends_example :
    BaselineEnds
      (ok (first ∷ second ∷ []))
      (codes "1")
      []
      (some [])
      (baseline server lock (ok (first ∷ second ∷ [])) (codes "1") false (db_of [])).0
      (baseline server lock (ok (first ∷ second ∷ [])) (codes "1") false (db_of [])).2.schema
      (baseline server lock (ok (first ∷ second ∷ [])) (codes "1") false (db_of [])).2.ledger
baseline_ends_example =
    baseline_ends server lock (ok (first ∷ second ∷ [])) (codes "1") false (db_of [])

forget_ends_example :
    IsForgotten []
      (some (failed_row ∷ []))
      (codes "1")
      (forget server lock (codes "1") false (db_of (failed_row ∷ []))).0.1
      (forget server lock (codes "1") false (db_of (failed_row ∷ []))).2.schema
      (forget server lock (codes "1") false (db_of (failed_row ∷ []))).2.ledger
forget_ends_example = forget_ends server lock (codes "1") false (db_of (failed_row ∷ []))
