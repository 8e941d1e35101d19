-- ===== src/Service/Refusals.antt =====
-- When `Up`, `Reconcile` and `Rollback` refuse, and that a refusal changes nothing.
use pg_migrate.Prelude.{◌≡◌, refl, sym, ◌∙◌, ap, inl, inr, true, false, Option, some, List, [], ℤ}
use mathlib.Core.Bool.{false≢true}
use pg_migrate.Result.{Result, ok, err}
use pg_migrate.Error.{Error, get_applied}
use pg_migrate.Text.Unicode.{Unicode}
use pg_migrate.Migration.{Migration}
use pg_migrate.Planner.{build_plan}
use pg_migrate.Database.{Db, Row, Server}
use pg_migrate.Database.Calls.{Run, run_after, wrapping, ◌>>=◌}
use pg_migrate.Database.Triples.{Triple, Triple-mono}
use pg_migrate.Executor.Rows.{get_applied_migrations}
use pg_migrate.Executor.Refusal.{is_error, Refused}
use pg_migrate.Service.Guards.{RunOptions, Source, blocked_by}
use pg_migrate.Service.Operations.{
  RunResult, no_result, Locker, with_lock, loaded, ready, up_with, up_locked, reconcile_with,
  reconcile_locked, rollback_of_applied, rollback_locked, up, reconcile, rollback,
}
use pg_migrate.Service.Runs.{Goal, Ends, run_after-Ends, with_lock-Ends}
use pg_migrate.Service.Loading.{
  rows_of, records, has_failed_row, AtMostReady, IsLoaded, loaded-Triple, ready_rows-Triple,
}

-- A run of the service that reports nothing done and an error, and leaves all as it was.
abbrev pub IsRefused : {S L : Type 0} → Db S → (RunResult × Option Error) × L × Db S → Type 0
IsRefused db x = Refused no_result db (x.0, x.2)

module _ {S : Type 0} (s₀ : S) (rows : List Row) where
  abbrev Untouched : Goal S RunResult
  Untouched r s l = (r.0 ≡ no_result) × (is_error r.1 ≡ true) × (s ≡ s₀) × (l ≡ some rows)

  untouched_of-AtMostReady :
      (e : Error) (s : S) (l l₀ : Option (List Row))
      → l₀ ≡ some rows
      → AtMostReady s₀ l₀ s l
      → Untouched (no_result, some e) s l
  untouched_of-AtMostReady e s l l₀ there (same, inl k) = (refl, refl, same, k ∙ there)
  untouched_of-AtMostReady e s l l₀ there (same, inr k) =
      (refl, refl, same, k ∙ ap (λ o. some (rows_of o)) there)

module _ {S : Type 0} where
  IsRefused-of-Ends :
      {L : Type 0} {rows : List Row} (db : Db S) (x : (RunResult × Option Error) × L × Db S)
      → db.ledger ≡ some rows
      → Ends (Untouched db.schema rows) (x.0, x.2)
      → IsRefused db x
  IsRefused-of-Ends db x there h = record {
    result = h.0;
    error = h.1;
    schema = h.2;
    ledger = h.3 ∙ sym there;
  }

module _ {S L : Type 0} (sv : Server S) (u : Unicode) (lk : Locker L) (rows : List Row) (l : L)
    (db : Db S) where
  -- A failed row stops what starts with `ready` or `loaded`.
  failed_stops :
      {A : Type 0} (m : Db S → Result Error A × Db S) (f : A → Run S RunResult)
      → db.ledger ≡ some rows
      → has_failed_row rows ≡ true
      → Triple
          (λ s l. (s ≡ db.schema) × (l ≡ db.ledger))
          m
          (λ a s l. has_failed_row (rows_of db.ledger) ≡ false)
          (λ _. AtMostReady db.schema db.ledger)
      → Ends (Untouched db.schema rows) (run_after no_result m f db)
  failed_stops m f there failed t =
      run_after-Ends (Untouched db.schema rows) no_result m f t
        (λ a d h. absurd (false≢true (sym (rw there at h) ∙ failed)))
        (λ e s k h. untouched_of-AtMostReady db.schema rows e s k db.ledger there h) db (refl, refl)

  -- If a row holds the error of a failed run, then `Up`, `Reconcile` and `Rollback` report an error
  -- and nothing done, and change neither schema nor table, whatever the server and the lock answer.
  pub failed_row-IsRefused :
      (source : Source) (opts : RunOptions) (count : ℤ)
      → db.ledger ≡ some rows
      → has_failed_row rows ≡ true
      → IsRefused db (up sv u lk source l db)
        × IsRefused db (reconcile sv u lk source opts l db)
        × IsRefused db (rollback sv u lk count l db)
  unfolding up reconcile rollback up_locked reconcile_locked rollback_locked
  failed_row-IsRefused source opts count there failed = (
    IsRefused-of-Ends db (up sv u lk source l db) there (
        locked (up_locked sv u source)
          (failed_stops (loaded sv source) (up_with sv u) there failed after_load)),
    IsRefused-of-Ends db (reconcile sv u lk source opts l db) there (
        locked (reconcile_locked sv u source opts)
          (failed_stops (loaded sv source) (reconcile_with sv u opts) there failed after_load)),
    IsRefused-of-Ends db (rollback sv u lk count l db) there (
        locked (rollback_locked sv u count)
          (failed_stops _ (rollback_of_applied sv u count) there failed after_ready)),
  )
    where
      locked :
          (body : Run S RunResult)
          → Ends (Untouched db.schema rows) (body db)
          → Ends
              (Untouched db.schema rows)
              ((with_lock lk no_result body l db).0, (with_lock lk no_result body l db).2)
      locked body h =
          with_lock-Ends (Untouched db.schema rows) lk no_result body l db h
            (λ e. (refl, refl, refl, there))

      after_load :
          Triple
            (λ s l. (s ≡ db.schema) × (l ≡ db.ledger))
            (loaded sv source)
            (λ a s l. has_failed_row (rows_of db.ledger) ≡ false)
            (λ _. AtMostReady db.schema db.ledger)
      after_load =
          Triple-mono (loaded sv source) (loaded-Triple db.schema db.ledger sv source)
            (λ both s l h. h.none_failed) (λ e s l h. h)

      after_ready :
          Triple
            (λ s l. (s ≡ db.schema) × (l ≡ db.ledger))
            (do _ ← ready sv; wrapping get_applied (get_applied_migrations sv))
            (λ a s l. has_failed_row (rows_of db.ledger) ≡ false)
            (λ _. AtMostReady db.schema db.ledger)
      after_ready =
          Triple-mono _ (ready_rows-Triple db.schema db.ledger sv) (λ a s l h. h.2) (λ e s l h. h)

  -- If `blockedBy` reports an error for the files and the rows, then `Reconcile` reports an error and
  -- nothing done, and changes neither schema nor table, whatever the server and the lock answer.
  pub reconcile_blocked :
      (from_files : List Migration) (opts : RunOptions) {e : Error}
      → db.ledger ≡ some rows
      → blocked_by (build_plan from_files (records rows) true) from_files opts ≡ some e
      → IsRefused db (reconcile sv u lk (ok from_files) opts l db)
  unfolding reconcile reconcile_locked
  reconcile_blocked from_files opts {e} there blocked =
      IsRefused-of-Ends db (reconcile sv u lk (ok from_files) opts l db) there (
        with_lock-Ends (Untouched db.schema rows) lk no_result
          (reconcile_locked sv u (ok from_files) opts) l db
          (run_after-Ends (Untouched db.schema rows) no_result (loaded sv (ok from_files))
            (reconcile_with sv u opts) (loaded-Triple db.schema db.ledger sv (ok from_files))
            (λ both d h. stops both d h)
            (λ e s k h. untouched_of-AtMostReady db.schema rows e s k db.ledger there h) db
            (refl, refl))
          (λ e. (refl, refl, refl, there)))
    where
      files_of : Source → List Migration
      files_of (ok files) = files
      files_of (err e) = []

      stops :
          (both : List Migration × List Migration) (d : Db S)
          → IsLoaded db.schema db.ledger (ok from_files) both d.schema d.ledger
          → Ends (Untouched db.schema rows) (reconcile_with sv u opts both d)
      stops (files, from_db) d h =
          let same : files ≡ from_files = sym (ap files_of h.files) in
          let recorded : from_db ≡ records rows = h.from_db ∙ ap (λ o. records (rows_of o)) there in
          rw (same, recorded, blocked)
            (refl, refl, h.is_ready.0, h.is_ready.1 ∙ ap (λ o. some (rows_of o)) there)
