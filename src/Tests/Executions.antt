-- ===== src/Tests/Executions.antt =====
-- Instances of the theorems on the executor.
use pg_migrate.Prelude.{◌≡◌, refl, true, false, some, [], ◌∷◌}
use pg_migrate.Text.{codes, contains, equal}
use pg_migrate.Text.Space.{trim_space, fields}
use pg_migrate.Text.Lines.{lines, cut_head, cut_rest}
use pg_migrate.Text.Unicode.{ascii}
use pg_migrate.Directives.{
  parse_directive_header, directive_names, accept_names, check_no_late_directives,
}
use pg_migrate.Planner.{MigrationPlan}
use pg_migrate.Database.{find_row}
use pg_migrate.Database.Triples.{Post}
use pg_migrate.Executor.Rollback.{ensure_reversible}
use pg_migrate.Executor.Plan.{nothing_done, execute_plan}
use pg_migrate.Executor.Outcome.{Executed, execute_plan_progress}
use pg_migrate.Executor.Reversible.{AllReversible, reversible_in, ensure_reversible_ends}
use pg_migrate.Executor.Refusal.{Refused, execute_plan_refuses}
use pg_migrate.Tests.Fixtures.{server, first, second, third, row, db_of, switch}

execute_plan_progress_example :
    Executed switch
      (some (row 1 second ∷ []))
      (execute_plan server ascii switch (first ∷ []) (db_of (row 1 second ∷ []))).0
      (execute_plan server ascii switch (first ∷ []) (db_of (row 1 second ∷ []))).1.ledger
execute_plan_progress_example =
    execute_plan_progress server ascii switch (first ∷ []) (db_of (row 1 second ∷ []))

ensure_reversible_ends_example :
    Post
      (λ _ s l.
        (s ≡ [])
        × (l ≡ some (row 1 third ∷ []))
        × AllReversible (some (row 1 third ∷ [])) (codes "3" ∷ []))
      (λ _ s l. (s ≡ []) × (l ≡ some (row 1 third ∷ [])))
      (ensure_reversible server (codes "3" ∷ []) (db_of (row 1 third ∷ []))).0
      (ensure_reversible server (codes "3" ∷ []) (db_of (row 1 third ∷ []))).1.schema
      (ensure_reversible server (codes "3" ∷ []) (db_of (row 1 third ∷ []))).1.ledger
ensure_reversible_ends_example =
    ensure_reversible_ends server (codes "3" ∷ []) (db_of (row 1 third ∷ []))

abbrev back_from_third : MigrationPlan
back_from_third = record { to_rollback = third ∷ []; to_apply = []; interleaved = [] }

third_there : contains (codes "3" ∷ []) (codes "3") ≡ true
unfolding contains
third_there = refl

third_marked : reversible_in (some (row 1 third ∷ [])) (codes "3") ≡ false
unfolding find_row equal parse_directive_header directive_names fields trim_space lines cut_head
    cut_rest accept_names check_no_late_directives contains
third_marked = refl

execute_plan_refuses_example :
    Refused nothing_done
      (db_of (row 1 third ∷ []))
      (execute_plan server ascii back_from_third [] (db_of (row 1 third ∷ [])))
execute_plan_refuses_example =
    execute_plan_refuses server ascii back_from_third [] (db_of (row 1 third ∷ [])) (codes "3")
      third_there third_marked
