-- ===== src/Lock/Held.antt =====
-- The operations of the service under the advisory lock of `Postgres`.
use pg_migrate.Prelude.{◌≡◌, refl, ◌⊎◌, inl, inr, Option, some, ℤ}
use pg_migrate.Result.{Result, ok, err}
use pg_migrate.Error.{Error, wrap, acquire_lock as acquiring}
use pg_migrate.Text.{Bytes}
use pg_migrate.Text.Unicode.{Unicode}
use pg_migrate.Database.{Db, Server}
use pg_migrate.Database.Calls.{Run}
use pg_migrate.Service.Guards.{Source, RunOptions}
use pg_migrate.Service.Operations.{
  Locker, no_result, under_lock, with_lock, up, up_locked, reconcile, reconcile_locked, rollback,
  rollback_locked, forget, forget_locked, baseline, baseline_locked, as_run,
}
use pg_migrate.Lock.{Network, Lock}
use pg_migrate.Lock.Postgres.{acquire_lock, release_lock}
use pg_migrate.Lock.Tracking.{IsTracked, IsHeld, IsReleased, AcquireEnds}
use pg_migrate.Lock.Ending.{acquire_lock_ends, release_lock_ends, ReleaseEnds}

-- `Postgres` as the service's `locker`: the network is as `before` says when the lock is taken, and
-- as `after` says when it is released.
unfoldable pub postgres_locker : Network → Network → Locker Lock
postgres_locker before after = record {
  acquire_lock = acquire_lock before;
  release_lock = λ l. (release_lock after l).1;
}

-- What an operation under the lock comes to: either the lock could not be taken, and nothing was done;
-- or outcome and database are those of the body, and a held state of the lock exists. In the end the
-- lock is released.
abbrev pub RunsHeld :
    {S R : Type 0} → R → Run S R → Db S → (R × Option Error) × Lock × Db S → Type 0
RunsHeld r body db (done, l', db') =
    IsTracked l'
    × IsReleased l'
    × (((e : Error) × (done ≡ (r, some (wrap acquiring e))) × (db' ≡ db))
        ⊎ ((held : Lock) × IsHeld held × ((done, db') ≡ body db)))

module _ (before after : Network) (l : Lock) (tracked : IsTracked l) (free : IsReleased l) where
  release_frees :
      (h : Lock)
      → IsTracked h
      → IsHeld h
      → ReleaseEnds h (release_lock after h)
      → IsReleased (release_lock after h).1
  release_frees h t held (inl (flag, refused, same)) = cc (held.2)
  release_frees h t held (inr (flag, done)) = done

  under_lock-RunsHeld :
      {S R : Type 0} (r : R) (body : Run S R) (db : Db S) (got : Result Error (Unit {0}) × Lock)
      → IsTracked got.1
      → AcquireEnds l got
      → RunsHeld r body db (under_lock (postgres_locker before after) r body got db)
  unfolding postgres_locker
  under_lock-RunsHeld r body db (ok _, h) t (_, held) =
      let (t', ends) = release_lock_ends after h t in
      (t', release_frees h t held ends, inr (h, held, refl))
  under_lock-RunsHeld r body db (err e, h) t (inl (flag, same)) = cc (free.1)
  under_lock-RunsHeld r body db (err e, h) t (inr (flag, done)) = (t, done, inl (e, refl, refl))

  -- `withLock` with `Postgres`, from a lock that is not held, whatever the network does: either the
  -- lock could not be taken, which the error says, and nothing was done; or outcome and database are
  -- those of the body. In the end no session of the program holds the lock.
  pub with_lock-RunsHeld :
      {S R : Type 0} (r : R) (body : Run S R) (db : Db S)
      → RunsHeld r body db (with_lock (postgres_locker before after) r body l db)
  unfolding with_lock postgres_locker
  with_lock-RunsHeld r body db =
      let (t, ends) = acquire_lock_ends before l tracked in
      under_lock-RunsHeld r body db (acquire_lock before l) t ends

  -- `Up`, `Reconcile`, `Rollback`, `Forget` and `Baseline` with the lock of `Postgres`, from a lock that
  -- is not held, whatever network, server and files do: each does what its body does, or nothing, with
  -- an error, if the lock cannot be taken. When it returns, no session of the program holds the lock.
  pub service-RunsHeld :
      {S : Type 0} (sv : Server S) (u : Unicode) (source : Source) (opts : RunOptions) (count : ℤ)
      (id : Bytes) (db : Db S)
      → let lk = postgres_locker before after in
        RunsHeld no_result (up_locked sv u source) db (up sv u lk source l db)
        × RunsHeld no_result
            (reconcile_locked sv u source opts)
            db
            (reconcile sv u lk source opts l db)
        × RunsHeld no_result (rollback_locked sv u count) db (rollback sv u lk count l db)
        × RunsHeld tt (as_run (forget_locked sv id)) db (forget sv lk id l db)
        × RunsHeld no_result (baseline_locked sv source id) db (baseline sv lk source id l db)
  unfolding up reconcile rollback forget baseline
  service-RunsHeld sv u source opts count id db = (
    with_lock-RunsHeld no_result (up_locked sv u source) db,
    with_lock-RunsHeld no_result (reconcile_locked sv u source opts) db,
    with_lock-RunsHeld no_result (rollback_locked sv u count) db,
    with_lock-RunsHeld tt (as_run (forget_locked sv id)) db,
    with_lock-RunsHeld no_result (baseline_locked sv source id) db,
  )
