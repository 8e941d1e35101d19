-- ===== src/Api/Failed.antt =====
-- `Status` of migrate.go, and the other calls, on a table with a failed row.
use pg_migrate.Prelude.{
  ◌≡◌, refl, ap, sym, ◌∙◌, Bool, true, false, not, none, some, List, [], ◌∷◌, map, any, ℤ, pos,
  negsuc, is_positive, if◌then◌else◌,
}
use mathlib.Core.Path.{subst}
use pg_migrate.Result.{Result, ok, err}
use pg_migrate.Error.{Error}
use pg_migrate.Text.Unicode.{Unicode}
use pg_migrate.Database.{Db, Row, Server}
use pg_migrate.Executor.Rows.{AppliedMigration, scan_row}
use pg_migrate.Source.Files.{FileSystem}
use pg_migrate.Service.Guards.{RunOptions, Source, applied_migrations}
use pg_migrate.Service.Loading.{applied-Triple, has_failed_row}
use pg_migrate.Service.Refusals.{failed_row-IsRefused}
use pg_migrate.Service.Operations.{up, reconcile, rollback}
use pg_migrate.Lock.{Network, Lock}
use pg_migrate.Lock.Held.{postgres_locker}
use pg_migrate.Api.{
  Configure, StatusRow, SqlDb, MigrateService, empty_fs, files_of, run_options, bad_count,
  to_result,
}
use pg_migrate.Api.Calls.{
  Outcome, ended, status_row, after_read, migrate_status, migrate_up, migrate_reconcile,
  migrate_rollback, migrate_down, migrate_down_all,
}
use pg_migrate.Api.Setup.{Names, with_service-elim}
use pg_migrate.Api.Refusal.{IsRefusedCall, ended-IsRefusedCall}

-- the rows of the table as `Status` shows them
abbrev pub shown : List Row → List StatusRow
shown rows = map (λ r. status_row (scan_row r)) rows

shown-map : (rows : List Row) → map status_row (map scan_row rows) ≡ shown rows
shown-map [] = refl
shown-map (r ∷ rows) = ap (◌∷◌ (status_row (scan_row r))) (shown-map rows)

abbrev ShowsRows : {S : Type 0} → SqlDb S → List Row → Outcome S (List StatusRow) → Type 0
ShowsRows handle rows ((some list, none), some handle') =
    (list ≡ shown rows)
    × (handle'.db.schema ≡ handle.db.schema)
    × (handle'.db.ledger ≡ some rows)
    × (handle'.table ≡ handle.table)
ShowsRows handle rows x = Unit {0}

failed-shown :
    (rows : List Row) → any (λ (r : StatusRow). r.failed) (shown rows) ≡ has_failed_row rows
unfolding status_row
failed-shown [] = refl
failed-shown (r ∷ rows) = rw (failed-shown rows) refl

module _ {S : Type 0} (before after : Network) (sv : Server S) (u : Unicode) (handle : SqlDb S)
    (opts : List Configure) (names : Names handle opts) where
  read-ShowsRows :
      (rows : List Row) (svc : MigrateService S) (r : Result Error (List AppliedMigration) × Db S)
      → svc.db ≡ handle.db
      → svc.table ≡ handle.table
      → handle.db.ledger ≡ some rows
      → applied_migrations sv svc.db ≡ r
      → ShowsRows handle rows (after_read svc (map status_row) r)
  read-ShowsRows rows svc (err e, d) same table there ran = tt
  read-ShowsRows rows svc (ok applied, d) same table there ran =
      let at_handle = ap (applied_migrations sv) (sym same) ∙ ran in
      let (kept, read) : ((d.schema ≡ handle.db.schema) × (d.ledger ≡ some rows))
          × (applied ≡ map scan_row rows) =
        rw at_handle at
          ((applied-Triple handle.db.schema (some rows) sv).at handle.db (refl, there)) in
      (ap (map status_row) read ∙ shown-map rows, kept.0, kept.1, table)

  status-ShowsRows :
      (rows : List Row)
      → handle.db.ledger ≡ some rows
      → ShowsRows handle rows (migrate_status before after sv u (some handle) opts)
  unfolding migrate_status
  status-ShowsRows rows there =
      with_service-elim handle empty_fs opts (ShowsRows handle rows) _
        (λ svc h. read-ShowsRows rows svc _ (h.db names) (h.table names) there refl) (λ e. tt)

  -- While the bookkeeping table that the options name exists, what `Status` returns without an error are its rows, in
  -- their order, each marked as failed exactly if it has a recorded error; neither schema nor table
  -- change.
  pub status_shows_rows :
      (rows : List Row) (list : List StatusRow) (handle' : SqlDb S)
      → handle.db.ledger ≡ some rows
      → migrate_status before after sv u (some handle) opts ≡ ((some list, none), some handle')
      → (list ≡ shown rows)
        × (handle'.db.schema ≡ handle.db.schema)
        × (handle'.db.ledger ≡ some rows)
        × (handle'.table ≡ handle.table)
  status_shows_rows rows list handle' there ran =
      subst (ShowsRows handle rows) ran (status-ShowsRows rows there)

module _ {S : Type 0} (before after : Network) (sv : Server S) (u : Unicode) (handle : SqlDb S)
    (opts : List Configure) (names : Names handle opts) (rows : List Row)
    (there : handle.db.ledger ≡ some rows) (failed : has_failed_row rows ≡ true) where
  stopped :
      (svc : MigrateService S) (source : Source) (ropts : RunOptions) (count : ℤ) (l : Lock)
      → let lk = postgres_locker before after in
        IsRefusedCall handle.db (ended svc to_result (up sv u lk source l handle.db))
        × IsRefusedCall handle.db (ended svc to_result (reconcile sv u lk source ropts l handle.db))
        × IsRefusedCall handle.db (ended svc to_result (rollback sv u lk count l handle.db))
  stopped svc source ropts count l =
      let lk = postgres_locker before after in
      let all = failed_row-IsRefused sv u lk rows l handle.db source ropts count there failed in
      (
        ended-IsRefusedCall svc handle.db (up sv u lk source l handle.db) all.0,
        ended-IsRefusedCall svc handle.db (reconcile sv u lk source ropts l handle.db) all.1,
        ended-IsRefusedCall svc handle.db (rollback sv u lk count l handle.db) all.2,
      )

  up-IsRefusedCall :
      (files : FileSystem)
      → IsRefusedCall handle.db (migrate_up before after sv u (some handle) (some files) opts)
  unfolding migrate_up
  up-IsRefusedCall files =
      with_service-elim handle files opts (IsRefusedCall handle.db) _
        (λ svc h.
          rw (h.db names)
            ((stopped svc (files_of u svc.fsys) (run_options svc.config) (pos 0) svc.lock).0))
        (λ e. (tt, refl, refl, refl))

  reconcile-IsRefusedCall :
      (files : FileSystem)
      → IsRefusedCall handle.db
          (migrate_reconcile before after sv u (some handle) (some files) opts)
  unfolding migrate_reconcile
  reconcile-IsRefusedCall files =
      with_service-elim handle files opts (IsRefusedCall handle.db) _
        (λ svc h.
          rw (h.db names)
            ((stopped svc (files_of u svc.fsys) (run_options svc.config) (pos 0) svc.lock).1))
        (λ e. (tt, refl, refl, refl))

  rollback-IsRefusedCall :
      (count : ℤ)
      → IsRefusedCall handle.db (migrate_rollback before after sv u (some handle) count opts)
  unfolding migrate_rollback
  rollback-IsRefusedCall count =
      with_service-elim handle empty_fs opts (IsRefusedCall handle.db) _
        (λ svc h.
          rw (h.db names)
            ((stopped svc (files_of u svc.fsys) (run_options svc.config) count svc.lock).2))
        (λ e. (tt, refl, refl, refl))

  down-IsRefusedCall :
      (count : ℤ)
      → IsRefusedCall handle.db (migrate_down before after sv u (some handle) count opts)
  unfolding migrate_down
  down-IsRefusedCall count = by_sign (is_positive count)
    where
      by_sign :
          (positive : Bool)
          → IsRefusedCall handle.db (
              if not positive
              then ((none, some bad_count), some handle)
              else migrate_rollback before after sv u (some handle) count opts)
      by_sign false = (tt, refl, refl, refl)
      by_sign true = rollback-IsRefusedCall count

  down_all-IsRefusedCall :
      IsRefusedCall handle.db (migrate_down_all before after sv u (some handle) opts)
  unfolding migrate_down_all
  down_all-IsRefusedCall = rollback-IsRefusedCall (negsuc 0)

-- If `Status` returns a migration that is marked as failed, while the bookkeeping table that its options
-- name exists, then on the database as `Status` leaves it `Up`, `Reconcile`, `Down` and `DownAll`,
-- with options that name the same table and are else any, report an error and nothing done, and change neither schema nor
-- table, whatever network and server answer.
pub failed_status-IsRefusedCall :
    {S : Type 0} (before after : Network) (sv : Server S) (u : Unicode) (handle handle' : SqlDb S)
    (opts later : List Configure) (rows : List Row) (list : List StatusRow) (files : FileSystem)
    (count : ℤ)
    → Names handle opts
    → Names handle later
    → handle.db.ledger ≡ some rows
    → migrate_status before after sv u (some handle) opts ≡ ((some list, none), some handle')
    → any (λ (r : StatusRow). r.failed) list ≡ true
    → IsRefusedCall handle'.db (migrate_up before after sv u (some handle') (some files) later)
      × IsRefusedCall handle'.db
          (migrate_reconcile before after sv u (some handle') (some files) later)
      × IsRefusedCall handle'.db (migrate_down before after sv u (some handle') count later)
      × IsRefusedCall handle'.db (migrate_down_all before after sv u (some handle') later)
failed_status-IsRefusedCall before after sv u handle handle' opts later rows list files count names
      same_table there ran failed =
    let (shows, schema, kept, table) =
      status_shows_rows before after sv u handle opts names rows list handle' there ran in
    let failed' : has_failed_row rows ≡ true =
      sym (failed-shown rows) ∙ ap (any (λ (r : StatusRow). r.failed)) (sym shows) ∙ failed in
    let names' : Names handle' later = same_table ∙ ap ok (sym table) in
    (
      up-IsRefusedCall before after sv u handle' later names' rows kept failed' files,
      reconcile-IsRefusedCall before after sv u handle' later names' rows kept failed' files,
      down-IsRefusedCall before after sv u handle' later names' rows kept failed' count,
      down_all-IsRefusedCall before after sv u handle' later names' rows kept failed',
    )
