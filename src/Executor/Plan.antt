-- ===== src/Executor/Plan.antt =====
-- `ExecutePlan`.
use pg_migrate.Prelude.{◌&&◌, Option, none, some, List, [], ◌∷◌, if◌then◌else◌, is_nil}
use pg_migrate.Result.{Result, ok, err}
use pg_migrate.Error.{Error, wrap, not_in_files, rollback_of, apply_of}
use pg_migrate.Text.{Bytes, equal}
use pg_migrate.Text.Unicode.{Unicode}
use pg_migrate.Migration.{Migration, migration_ids}
use pg_migrate.Planner.{MigrationPlan}
use pg_migrate.Database.{Server}
use pg_migrate.Database.Calls.{Run, run_after, done_with}
use pg_migrate.Executor.Apply.{apply_migration}
use pg_migrate.Executor.Rollback.{rollback_migration, ensure_reversible}

-- `ExecutionResult`
pub record ExecutionResult : Type 0 where
  pub applied : List Migration
  pub rolled_back : List Migration

abbrev pub nothing_done : ExecutionResult
nothing_done = record { applied = []; rolled_back = [] }

-- `allMigrationsMap[id]`: of two with one ID the later is kept
unfoldable pub find_migration : Bytes → List Migration → Option Migration
unfolding equal
find_migration id [] = none
find_migration id (m ∷ ms) = elim (find_migration id ms) [
  | some x ↦ some x
  | none ↦ if equal m.id id then some m else none
]

module _ {S : Type 0} (sv : Server S) (u : Unicode) where
  abbrev pub Loop : Type 0
  Loop = Run S (List Migration)

  abbrev pub rolled_back_first : Migration → Loop → Result Error (Unit {0}) → Loop
  rolled_back_first m more (ok _) db = let (r, db') = more db in ((m ∷ r.0, r.1), db')
  rolled_back_first m more (err e) db = (([], some (wrap (rollback_of m.id) e)), db)

  -- the loop over `plan.ToRollback`: those rolled back, and the error that stopped it
  unfoldable pub rollback_loop : List Migration → Loop
  rollback_loop [] db = (([], none), db)
  rollback_loop (m ∷ ms) db =
      let (r, db') = rollback_migration sv u m.id db in
      rolled_back_first m (λ d. rollback_loop ms d) r db'

  abbrev pub applied_first : Migration → Loop → Result Error (Unit {0}) → Loop
  applied_first m more (ok _) db = let (r, db') = more db in ((m ∷ r.0, r.1), db')
  applied_first m more (err e) db = (([], some (wrap (apply_of m.id) e)), db)

  abbrev pub apply_found : Bytes → Loop → Option Migration → Loop
  apply_found id more none db = (([], some (not_in_files id)), db)
  apply_found id more (some full) db =
      let (r, db') = apply_migration sv u full db in applied_first full more r db'

  -- the loop over `plan.ToApply`
  unfoldable pub apply_loop : List Migration → List Migration → Loop
  apply_loop all [] db = (([], none), db)
  apply_loop all (m ∷ ms) db =
      apply_found m.id (λ d. apply_loop all ms d) (find_migration m.id all) db

  abbrev pub apply_after :
      List Migration → List Migration → List Migration × Option Error → Run S ExecutionResult
  apply_after all to_apply (done, some e) db =
      ((record { applied = []; rolled_back = done }, some e), db)
  apply_after all to_apply (done, none) db =
      let (r, db') = apply_loop all to_apply db in
      ((record { applied = r.0; rolled_back = done }, r.1), db')

  abbrev pub run_plan : MigrationPlan → List Migration → Run S ExecutionResult
  run_plan plan all db =
      let (r, db') = rollback_loop plan.to_rollback db in apply_after all plan.to_apply r db'

  -- `ExecutePlan`
  unfoldable pub execute_plan : MigrationPlan → List Migration → Run S ExecutionResult
  execute_plan plan all =
      if is_nil plan.to_rollback && is_nil plan.to_apply
      then done_with nothing_done
      else run_after nothing_done (ensure_reversible sv (migration_ids plan.to_rollback))
          (λ _. run_plan plan all)
