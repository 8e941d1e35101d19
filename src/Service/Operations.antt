-- ===== src/Service/Operations.antt =====
-- `Up`, `Reconcile`, `Rollback`, `Forget` and `Baseline`.
use pg_migrate.Prelude.{
  ℕ, ◌-◌, true, false, not, ◌||◌, Option, none, some, List, [], ◌∷◌, if◌then◌else◌, map, filter,
  reverse, length, drop, ltb, ◌==◌, ℤ, pos, negsuc,
}
use pg_migrate.Result.{Result, ok, err}
use pg_migrate.Error.{
  Error, sentinel, wrap, get_applied, get_files, ensure_table, execute_plan as executing,
  ensure_reversible as ensuring, get_migrations as getting_migrations, record_baseline,
  acquire_lock, check_table, forget_of, already_recorded, baseline_not_found, no_bookkeeping_table,
  not_recorded,
}
use pg_migrate.Text.{Bytes, equal, contains}
use pg_migrate.Text.Unicode.{Unicode}
use pg_migrate.Migration.{Migration, migration_ids}
use pg_migrate.Planner.{MigrationPlan, build_plan}
use pg_migrate.Database.{Db, Server}
use pg_migrate.Database.Calls.{M, Run, run_after, done_with, pure, raise, lift, wrapping, ◌>>=◌}
use pg_migrate.Executor.Rows.{
  AppliedMigration, ensure_migrations_table, table_exists, get_applied_migrations, delete_record_of,
}
use pg_migrate.Executor.Apply.{record_applied}
use pg_migrate.Executor.Rollback.{ensure_reversible}
use pg_migrate.Executor.Plan.{ExecutionResult, execute_plan, rollback_loop}
use pg_migrate.Service.Guards.{
  RunOptions, Source, blocked_by, of_record, refuse_if_failed, get_migrations,
}

-- `Result`
pub record RunResult : Type 0 where
  pub applied : List Migration
  pub rolled_back : List Migration
  pub extras_left : List Migration
  pub interleaved : List Migration

abbrev pub no_result : RunResult
no_result = record { applied = []; rolled_back = []; extras_left = []; interleaved = [] }

-- The interface `locker` over a state of the lock. What `ReleaseLock` returns is only logged.
pub record Locker (L : Type 0) : Type 0 where
  pub acquire_lock : L → Result Error (Unit {0}) × L
  pub release_lock : L → L

abbrev pub under_lock :
    {S L R : Type 0}
    → Locker L
    → R
    → Run S R
    → Result Error (Unit {0}) × L
    → Db S
    → (R × Option Error) × L × Db S
under_lock lk r body (err e, l) db = ((r, some (wrap acquire_lock e)), l, db)
under_lock lk r body (ok _, l) db = let (done, db') = body db in (done, lk.release_lock l, db')

-- `withLock`; `r` is what the caller returns if the body does not run
unfoldable pub with_lock :
    {S L R : Type 0} → Locker L → R → Run S R → L → Db S → (R × Option Error) × L × Db S
with_lock lk r body l db = under_lock lk r body (lk.acquire_lock l) db

-- `record`
unfoldable pub record_execution : RunResult → ExecutionResult → MigrationPlan → RunResult
record_execution result executed plan = record result {
  applied = executed.applied;
  rolled_back = executed.rolled_back;
  interleaved = filter (λ m. contains (migration_ids executed.applied) m.id) plan.interleaved;
}

abbrev pub through_first : Migration → Result Error (List Migration) → Result Error (List Migration)
through_first m (ok ms) = ok (m ∷ ms)
through_first m (err e) = err e

-- `migrationsThrough`
unfoldable pub migrations_through : List Migration → Bytes → Result Error (List Migration)
unfolding equal
migrations_through [] through_id = err (sentinel baseline_not_found (through_id ∷ []))
migrations_through (m ∷ ms) through_id =
    let rest = migrations_through ms through_id in
    if equal m.id through_id then ok (m ∷ []) else through_first m rest

-- how many of `len` records a `Rollback` with this count takes
abbrev pub rollback_count : ℤ → ℕ → ℕ
rollback_count (negsuc n) len = len
rollback_count (pos n) len = if n == 0 || ltb len n then len else n

abbrev pub wrap_error : Option Error → Option Error
wrap_error none = none
wrap_error (some e) = some (wrap executing e)

-- The call of `ExecutePlan`, with `record` behind it.
abbrev pub execute_and_record :
    {S : Type 0} → RunResult → MigrationPlan → Run S ExecutionResult → Run S RunResult
execute_and_record result plan run db =
    let (done, db') = run db in ((record_execution result done.0 plan, wrap_error done.1), db')

-- An operation that returns an error alone.
abbrev pub as_run : {S : Type 0} → M S (Unit {0}) → Run S (Unit {0})
as_run m = run_after tt m (λ _. done_with tt)

abbrev pub rolled_back_result : {S : Type 0} → Run S (List Migration) → Run S RunResult
rolled_back_result loop db =
    let (done, db') = loop db in ((record no_result { rolled_back = done.0 }, done.1), db')

-- the records that a `Rollback` takes, in the order of their application
abbrev pub candidates : ℤ → List AppliedMigration → List AppliedMigration
candidates count applied = drop (length applied - rollback_count count (length applied)) applied

abbrev pub refuse_recorded : {S : Type 0} → List AppliedMigration → M S (Unit {0})
refuse_recorded [] = pure tt
refuse_recorded (a ∷ applied) = raise (sentinel already_recorded [])

module _ {S : Type 0} (sv : Server S) where
  -- the first steps of `Up`, `Reconcile` and `Rollback`
  abbrev pub ready : M S (Unit {0})
  ready = do _ ← wrapping ensure_table (ensure_migrations_table sv); refuse_if_failed sv

  abbrev pub loaded : Source → M S (List Migration × List Migration)
  loaded source = do _ ← ready; wrapping getting_migrations (get_migrations sv source)

  -- the function that `Forget` runs under the lock
  unfoldable pub forget_locked : Bytes → M S (Unit {0})
  forget_locked id = do
    there ← wrapping check_table (table_exists sv)
    forgotten ←
        (if not there
          then raise (no_bookkeeping_table id)
          else wrapping (forget_of id) (delete_record_of sv id))
    (if not forgotten then raise (not_recorded id) else pure tt)

  abbrev pub baseline_rows : Source → Bytes → M S (List Migration)
  baseline_rows source through_id = do
    _ ← wrapping ensure_table (ensure_migrations_table sv)
    applied ← wrapping get_applied (get_applied_migrations sv)
    _ ← refuse_recorded applied
    from_files ← wrapping get_files (lift source)
    to_record ← lift (migrations_through from_files through_id)
    _ ← wrapping record_baseline (record_applied sv to_record)
    pure to_record

  -- the function that `Baseline` runs under the lock
  unfoldable pub baseline_locked : Source → Bytes → Run S RunResult
  baseline_locked source through_id =
      run_after no_result (baseline_rows source through_id)
        (λ recorded. done_with (record no_result { applied = recorded }))

module _ {S : Type 0} (sv : Server S) (u : Unicode) where
  abbrev pub up_with : List Migration × List Migration → Run S RunResult
  up_with (from_files, from_db) =
      let plan = build_plan from_files from_db false in
      execute_and_record (record no_result { extras_left = plan.to_rollback }) plan
        (execute_plan sv u (record { to_rollback = []; to_apply = plan.to_apply; interleaved = [] })
          from_files)

  -- the function that `Up` runs under the lock
  unfoldable pub up_locked : Source → Run S RunResult
  up_locked source = run_after no_result (loaded sv source) up_with

  abbrev pub reconcile_unless : MigrationPlan → List Migration → Option Error → Run S RunResult
  reconcile_unless plan from_files (some blocked) db = ((no_result, some blocked), db)
  reconcile_unless plan from_files none db =
      execute_and_record no_result plan (execute_plan sv u plan from_files) db

  abbrev pub reconcile_with : RunOptions → List Migration × List Migration → Run S RunResult
  reconcile_with opts (from_files, from_db) =
      let plan = build_plan from_files from_db true in
      reconcile_unless plan from_files (blocked_by plan from_files opts)

  -- the function that `Reconcile` runs under the lock
  unfoldable pub reconcile_locked : Source → RunOptions → Run S RunResult
  reconcile_locked source opts = run_after no_result (loaded sv source) (reconcile_with opts)

  abbrev pub rollback_of_applied : ℤ → List AppliedMigration → Run S RunResult
  rollback_of_applied count [] = done_with no_result
  rollback_of_applied count (a ∷ applied) =
      run_after no_result
        (wrapping ensuring
          (ensure_reversible sv (map (λ r. r.id) (candidates count (a ∷ applied)))))
        (λ _.
          rolled_back_result
            (rollback_loop sv u (map of_record (reverse (candidates count (a ∷ applied))))))

  -- the function that `Rollback` runs under the lock; its loop is that of `ExecutePlan`
  unfoldable pub rollback_locked : ℤ → Run S RunResult
  rollback_locked count =
      run_after no_result (do _ ← ready sv; wrapping get_applied (get_applied_migrations sv))
        (rollback_of_applied count)

  module _ {L : Type 0} (lk : Locker L) where
    -- `Up`
    unfoldable pub up : Source → L → Db S → (RunResult × Option Error) × L × Db S
    unfolding with_lock
    up source = with_lock lk no_result (up_locked source)

    -- `Reconcile`
    unfoldable pub reconcile :
        Source → RunOptions → L → Db S → (RunResult × Option Error) × L × Db S
    unfolding with_lock
    reconcile source opts = with_lock lk no_result (reconcile_locked source opts)

    -- `Rollback`
    unfoldable pub rollback : ℤ → L → Db S → (RunResult × Option Error) × L × Db S
    unfolding with_lock
    rollback count = with_lock lk no_result (rollback_locked count)

module _ {S L : Type 0} (sv : Server S) (lk : Locker L) where
  -- `Forget`
  unfoldable pub forget : Bytes → L → Db S → (Unit {0} × Option Error) × L × Db S
  unfolding with_lock
  forget id = with_lock lk tt (as_run (forget_locked sv id))

  -- `Baseline`
  unfoldable pub baseline : Source → Bytes → L → Db S → (RunResult × Option Error) × L × Db S
  unfolding with_lock
  baseline source through_id = with_lock lk no_result (baseline_locked sv source through_id)
