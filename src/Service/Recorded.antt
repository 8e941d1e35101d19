-- ===== src/Service/Recorded.antt =====
-- Which IDs are recorded after `Up`, `Reconcile` and `Rollback`.
use pg_migrate.Prelude.{
  ◌≡◌, refl, ◌∙◌, true, false, not, ◌&&◌, ◌||◌, Option, none, some, List, [], arith,
}
use pg_migrate.Result.{ok}
use pg_migrate.Error.{Error}
use pg_migrate.Text.{Bytes, contains}
use pg_migrate.Text.Unicode.{Unicode}
use pg_migrate.Migration.{Migration, migration_ids}
use pg_migrate.Planner.{build_plan}
use pg_migrate.Planner.Sets.{build_plan-filter}
use pg_migrate.Planner.Convergence.{contains-filter, contains-to_rollback, contains-to_apply}
use pg_migrate.Database.{Db, Row, Server}
use pg_migrate.Executor.Ids.{is_recorded}
use pg_migrate.Executor.Outcome.{execute_plan_progress}
use pg_migrate.Service.Guards.{RunOptions, Source, blocked_by}
use pg_migrate.Service.Operations.{
  no_result, Locker, wrap_error, loaded, up_with, up_locked, reconcile_unless, reconcile_with,
  reconcile_locked, up, reconcile,
}
use pg_migrate.Service.Runs.{Ends, run_after-Ends, with_lock-Ends}
use pg_migrate.Service.Loading.{rows_of, records, migration_ids-records, IsLoaded, loaded-Triple}

some≢none : {A B : Type 0} {a : A} → some a ≡ none → B
some≢none h = cc

pub none_of-wrap_error : (e : Option Error) → wrap_error e ≡ none → e ≡ none
none_of-wrap_error none h = refl
none_of-wrap_error (some x) h = some≢none h

pub is_recorded-rows_of :
    (l : Option (List Row)) (k : Bytes) → is_recorded (some (rows_of l)) k ≡ is_recorded l k
unfolding contains
is_recorded-rows_of none k = refl
is_recorded-rows_of (some rows) k = refl

contains-records :
    (l : Option (List Row)) (k : Bytes)
    → contains (migration_ids (records (rows_of l))) k ≡ is_recorded l k
contains-records l k = rw (migration_ids-records (rows_of l)) (is_recorded-rows_of l k)

-- The source was read, and an ID is recorded exactly if it was or has a file.
pub record IsUp (source : Source) (l₀ l : Option (List Row)) : Type 0 where
  pub from_files : List Migration
  pub read : source ≡ ok from_files
  pub ids :
      (k : Bytes) → is_recorded l k ≡ (is_recorded l₀ k || contains (migration_ids from_files) k)

-- The source was read, and an ID is recorded exactly if it has a file.
pub record IsReconciled (source : Source) (l : Option (List Row)) : Type 0 where
  pub from_files : List Migration
  pub read : source ≡ ok from_files
  pub ids : (k : Bytes) → is_recorded l k ≡ contains (migration_ids from_files) k

module _ {S : Type 0} {s₀ s : S} {l₀ l : Option (List Row)} {source : Source}
    {both : List Migration × List Migration} where
  up_ids :
      IsLoaded s₀ l₀ source both s l
      → (k : Bytes)
      → (is_recorded l k && not (contains [] k)
          || contains (migration_ids (build_plan both.0 both.1 false).to_apply) k)
        ≡ (is_recorded l₀ k || contains (migration_ids both.0) k)
  unfolding contains
  up_ids h k =
      rw (h.is_ready.1, h.from_db, (build_plan-filter both.0 (records (rows_of l₀)) false).1)
        (ground (
          arith,
          is_recorded-rows_of l₀ k,
          contains-records l₀ k,
          contains-filter (λ j. not (contains (migration_ids (records (rows_of l₀))) j)) both.0 k,
        ))

  reconcile_ids :
      IsLoaded s₀ l₀ source both s l
      → (k : Bytes)
      → (is_recorded l k
            && not (contains (migration_ids (build_plan both.0 both.1 true).to_rollback) k)
          || contains (migration_ids (build_plan both.0 both.1 true).to_apply) k)
        ≡ contains (migration_ids both.0) k
  reconcile_ids h k =
      rw (h.is_ready.1, h.from_db)
        (ground (
          arith,
          is_recorded-rows_of l₀ k,
          contains-records l₀ k,
          contains-to_rollback both.0 (records (rows_of l₀)) k,
          contains-to_apply both.0 (records (rows_of l₀)) k,
        ))

module _ {S : Type 0} (sv : Server S) (u : Unicode) where
  up_locked_recorded :
      (source : Source) (db : Db S)
      → Ends (λ r s l. r.1 ≡ none → IsUp source db.ledger l) (up_locked sv u source db)
  unfolding up_locked
  up_locked_recorded source db =
      run_after-Ends (λ r s l. r.1 ≡ none → IsUp source db.ledger l) no_result (loaded sv source)
        (up_with sv u) (loaded-Triple db.schema db.ledger sv source) (λ both d h. went both d h)
        (λ e s l h. some≢none) db (refl, refl)
    where
      went :
          (both : List Migration × List Migration) (d : Db S)
          → IsLoaded db.schema db.ledger source both d.schema d.ledger
          → Ends (λ r s l. r.1 ≡ none → IsUp source db.ledger l) (up_with sv u both d)
      went both d h none_left = record {
        from_files = both.0;
        read = h.files;
        ids = λ k.
            (execute_plan_progress sv u
                (record {
                  to_rollback = [];
                  to_apply = (build_plan both.0 both.1 false).to_apply;
                  interleaved = [];
                })
                both.0 d).ids
              (none_of-wrap_error _ none_left) k
            ∙ up_ids h k;
      }

  reconcile_locked_recorded :
      (source : Source) (opts : RunOptions) (db : Db S)
      → Ends (λ r s l. r.1 ≡ none → IsReconciled source l) (reconcile_locked sv u source opts db)
  unfolding reconcile_locked
  reconcile_locked_recorded source opts db =
      run_after-Ends (λ r s l. r.1 ≡ none → IsReconciled source l) no_result (loaded sv source)
        (reconcile_with sv u opts) (loaded-Triple db.schema db.ledger sv source)
        (λ both d h. went both d h (blocked_by (build_plan both.0 both.1 true) both.0 opts))
        (λ e s l h. some≢none) db (refl, refl)
    where
      went :
          (both : List Migration × List Migration) (d : Db S)
          → IsLoaded db.schema db.ledger source both d.schema d.ledger
          → (blocked : Option Error)
          → Ends
              (λ r s l. r.1 ≡ none → IsReconciled source l)
              (reconcile_unless sv u (build_plan both.0 both.1 true) both.0 blocked d)
      went both d h (some e) none_left = some≢none none_left
      went both d h none none_left = record {
        from_files = both.0;
        read = h.files;
        ids = λ k.
            (execute_plan_progress sv u (build_plan both.0 both.1 true) both.0 d).ids
              (none_of-wrap_error _ none_left) k
            ∙ reconcile_ids h k;
      }

  module _ {L : Type 0} (lk : Locker L) where
    -- `Up` returns without an error only once it has read the source, and then an ID is recorded
    -- exactly if it was recorded before or has a file.
    pub up_recorded :
        (source : Source) (l : L) (db : Db S)
        → (up sv u lk source l db).0.1 ≡ none
        → IsUp source db.ledger (up sv u lk source l db).2.ledger
    unfolding up
    up_recorded source l db =
        with_lock-Ends (λ r s k. r.1 ≡ none → IsUp source db.ledger k) lk no_result
          (up_locked sv u source) l db (up_locked_recorded source db) (λ e. some≢none)

    -- `Reconcile` returns without an error only once it has read the source, and then an ID is
    -- recorded exactly if it has a file.
    pub reconcile_recorded :
        (source : Source) (opts : RunOptions) (l : L) (db : Db S)
        → (reconcile sv u lk source opts l db).0.1 ≡ none
        → IsReconciled source (reconcile sv u lk source opts l db).2.ledger
    unfolding reconcile
    reconcile_recorded source opts l db =
        with_lock-Ends (λ r s k. r.1 ≡ none → IsReconciled source k) lk no_result
          (reconcile_locked sv u source opts) l db (reconcile_locked_recorded source opts db)
          (λ e. some≢none)
