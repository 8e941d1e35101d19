-- ===== src/Api/Releases.antt =====
-- The sessions of the pool and the advisory lock, after a call of the package in migrate.go.
use pg_migrate.Prelude.{
  Bool, true, false, not, Option, none, some, List, [], ◌∷◌, ℤ, pos, negsuc, is_positive,
  if◌then◌else◌,
}
use pg_migrate.Result.{Result, ok, err}
use pg_migrate.Error.{Error}
use pg_migrate.Text.{Bytes}
use pg_migrate.Text.Unicode.{Unicode}
use pg_migrate.Database.{Db, Server}
use pg_migrate.Source.Files.{FileSystem}
use pg_migrate.Lock.{Network, Lock}
use pg_migrate.Lock.Tracked.{IsFree}
use pg_migrate.Lock.Tracking.{IsTracked, IsReleased, unacquired}
use pg_migrate.Lock.Held.{service-RunsHeld}
use pg_migrate.Api.{
  Configure, SqlDb, MigrateService, empty_fs, files_of, run_options, to_result, new_service,
  bad_count,
}
use pg_migrate.Api.Calls.{
  Outcome, ended, after_read, with_service, migrate_reconcile, migrate_up, migrate_rollback,
  migrate_down, migrate_down_all, migrate_plan, migrate_forget, migrate_baseline, migrate_status,
}
use pg_migrate.Api.Setup.{with_service-elim, IsSetUp-IsTracked}

-- No session of the pool holds the lock.
abbrev pub LeavesFree : {S R : Type 0} → Outcome S R → Type 0
LeavesFree (answer, none) = ⊥
LeavesFree (answer, some handle) = IsFree handle.pool

ended-LeavesFree :
    {S A R : Type 0} (svc : MigrateService S) (show : A → R) (x : (A × Option Error) × Lock × Db S)
    → IsTracked x.1
    → IsReleased x.1
    → LeavesFree (ended svc show x)
ended-LeavesFree svc show ((a, e), l, db) t free = (unacquired l t free.1).1

after_read-LeavesFree :
    {S A R : Type 0} (svc : MigrateService S) (show : A → R) (r : Result Error A × Db S)
    → IsFree svc.lock.pool
    → LeavesFree (after_read svc show r)
after_read-LeavesFree svc show (ok a, db) h = h
after_read-LeavesFree svc show (err e, db) h = h

module _ {S : Type 0} (before after : Network) (sv : Server S) (u : Unicode) (handle : SqlDb S)
    (free : IsFree handle.pool) where
  locked_call :
      {A R : Type 0} (show : A → R) (files : FileSystem) (opts : List Configure)
      (f : MigrateService S → (A × Option Error) × Lock × Db S)
      → ((svc : MigrateService S)
          → IsTracked svc.lock
          → IsReleased svc.lock
          → IsTracked (f svc).1 × IsReleased (f svc).1)
      → LeavesFree (
          with_service
            (some handle)
            (new_service (some handle) (some files) opts)
            (λ svc. ended svc show (f svc)))
  locked_call show files opts f runs =
      with_service-elim handle files opts LeavesFree _
        (λ svc h.
          let tracked = IsSetUp-IsTracked handle files opts svc free h in
          let both = runs svc tracked (h.conn, h.flag, rw h.pool free.0) in
          ended-LeavesFree svc show (f svc) both.0 both.1)
        (λ e. free)

  reading_call :
      {A R : Type 0} (show : A → R) (files : FileSystem) (opts : List Configure)
      (f : MigrateService S → Result Error A × Db S)
      → LeavesFree (
          with_service
            (some handle)
            (new_service (some handle) (some files) opts)
            (λ svc. after_read svc show (f svc)))
  reading_call show files opts f =
      with_service-elim handle files opts LeavesFree _
        (λ svc h. after_read-LeavesFree svc show (f svc) (rw h.pool free)) (λ e. free)

  module _ (files : FileSystem) (opts : List Configure) where
    reconcile-LeavesFree :
        LeavesFree (migrate_reconcile before after sv u (some handle) (some files) opts)
    unfolding migrate_reconcile
    reconcile-LeavesFree = locked_call to_result files opts _ λ svc t r.
        let all =
          service-RunsHeld before after svc.lock t r sv u (files_of u svc.fsys)
            (run_options svc.config) (pos 0) [] svc.db in
        (all.1.0, all.1.1)

    up-LeavesFree : LeavesFree (migrate_up before after sv u (some handle) (some files) opts)
    unfolding migrate_up
    up-LeavesFree = locked_call to_result files opts _ λ svc t r.
        let all =
          service-RunsHeld before after svc.lock t r sv u (files_of u svc.fsys)
            (run_options svc.config) (pos 0) [] svc.db in
        (all.0.0, all.0.1)

    plan-LeavesFree : LeavesFree (migrate_plan before after sv u (some handle) (some files) opts)
    unfolding migrate_plan
    plan-LeavesFree = reading_call _ files opts _

    baseline-LeavesFree :
        (id : Bytes)
        → LeavesFree (migrate_baseline before after sv u (some handle) (some files) id opts)
    unfolding migrate_baseline
    baseline-LeavesFree [] = free
    baseline-LeavesFree (c ∷ id) = locked_call to_result files opts _ λ svc t r.
        let all =
          service-RunsHeld before after svc.lock t r sv u (files_of u svc.fsys)
            (run_options svc.config) (pos 0) (c ∷ id) svc.db in
        (all.4.0, all.4.1)

  rollback-LeavesFree :
      (opts : List Configure) (count : ℤ)
      → LeavesFree (migrate_rollback before after sv u (some handle) count opts)
  unfolding migrate_rollback
  rollback-LeavesFree opts count = locked_call to_result empty_fs opts _ λ svc t r.
      let all =
        service-RunsHeld before after svc.lock t r sv u (files_of u svc.fsys)
          (run_options svc.config) count [] svc.db in
      (all.2.0, all.2.1)

  down-LeavesFree :
      (opts : List Configure) (count : ℤ)
      → LeavesFree (migrate_down before after sv u (some handle) count opts)
  unfolding migrate_down
  down-LeavesFree opts count = by_sign (is_positive count)
    where
      by_sign :
          (positive : Bool)
          → LeavesFree (
              if not positive
              then ((none, some bad_count), some handle)
              else migrate_rollback before after sv u (some handle) count opts)
      by_sign false = free
      by_sign true = rollback-LeavesFree opts count

  down_all-LeavesFree :
      (opts : List Configure) → LeavesFree (migrate_down_all before after sv u (some handle) opts)
  unfolding migrate_down_all
  down_all-LeavesFree opts = rollback-LeavesFree opts (negsuc 0)

  forget-LeavesFree :
      (opts : List Configure) (id : Bytes)
      → LeavesFree (migrate_forget before after sv u (some handle) id opts)
  unfolding migrate_forget
  forget-LeavesFree opts id =
      locked_call (λ t. t) empty_fs opts _
        λ svc t r.
          let all =
            service-RunsHeld before after svc.lock t r sv u (files_of u svc.fsys)
              (run_options svc.config) (pos 0) id svc.db in
          (all.3.0, all.3.1)

  status-LeavesFree :
      (opts : List Configure) → LeavesFree (migrate_status before after sv u (some handle) opts)
  unfolding migrate_status
  status-LeavesFree opts = reading_call _ empty_fs opts _

  -- After any call of the package, on a handle of whose pool no session holds the lock, no session of
  -- the pool holds it, whatever the options, the files, the network and the server do.
  pub calls-LeavesFree :
      (files : FileSystem) (opts : List Configure) (count : ℤ) (id : Bytes)
      → let h = some handle in
        LeavesFree (migrate_reconcile before after sv u h (some files) opts)
        × LeavesFree (migrate_up before after sv u h (some files) opts)
        × LeavesFree (migrate_down before after sv u h count opts)
        × LeavesFree (migrate_down_all before after sv u h opts)
        × LeavesFree (migrate_plan before after sv u h (some files) opts)
        × LeavesFree (migrate_forget before after sv u h id opts)
        × LeavesFree (migrate_baseline before after sv u h (some files) id opts)
        × LeavesFree (migrate_status before after sv u h opts)
  calls-LeavesFree files opts count id = (
    reconcile-LeavesFree files opts,
    up-LeavesFree files opts,
    down-LeavesFree opts count,
    down_all-LeavesFree opts,
    plan-LeavesFree files opts,
    forget-LeavesFree opts id,
    baseline-LeavesFree files opts id,
    status-LeavesFree opts,
  )
