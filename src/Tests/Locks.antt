-- ===== src/Tests/Locks.antt =====
-- Instances of the theorems on the advisory lock.
use pg_migrate.Prelude.{
  ◌/◌, ◌+◌, ◌≡◌, refl, inr, Bool, true, false, none, some, [], ◌∷◌, pos, arith,
}
use pg_migrate.Error.{sentinel, lock_timeout}
use pg_migrate.Database.{lost}
use pg_migrate.Text.{codes}
use pg_migrate.Text.Space.{has_byte}
use pg_migrate.Text.Lines.{has_prefix}
use pg_migrate.Lock.{Network, Lock, LockConfig, new_postgres_from_db}
use pg_migrate.Lock.Postgres.{acquire_lock, release_lock, is_lock_timeout, contains_text}
use pg_migrate.Lock.Tracked.{IsFree}
use pg_migrate.Lock.Tracking.{IsTracked, AcquireEnds, Keeps}
use pg_migrate.Lock.Ending.{ReleaseEnds, acquire_lock_ends, release_lock_ends}
use pg_migrate.Lock.Stranding.{NoneStranded, acquires, here, next, Reach-NoneStranded}
use pg_migrate.Lock.Waiting.{Within, acquire_lock_bounds}
use pg_migrate.Lock.Busy.{Refused, refusal, lock_call, acquire_lock_times_out, acquire_lock_endless}
use pg_migrate.Lock.Refinement.{acquiring, releasing, Moves, Represents, run_calls, run_calls-Moves}
use pg_migrate.Tests.Fixtures.{quiet, pool}

-- Another process never lets go of the lock.
abbrev busy : Network
busy = record quiet {
  frees_after = λ n. none;
  error_text = λ n. codes "canceling (SQLSTATE 55P03)";
}

-- Each answer is lost.
abbrev losing : Network
losing = record quiet { reply = λ n. lost }

abbrev config : LockConfig
config = record { lock_timeout = 0; lock_timeout_set = false; lock_id = pos 0 }

abbrev free_lock : Lock
free_lock = record {
  pool = pool;
  lock_conn = none;
  is_lock_acquired = false;
  lock_timeout = 5000000000;
  lock_id = pos 7;
}

abbrev held_lock : Lock
held_lock = record free_lock {
  pool = record pool { idle = []; grants = 3 ∷ [] };
  lock_conn = some 3;
  is_lock_acquired = true;
}

pool-IsFree : IsFree pool
pool-IsFree = (refl, (omega arith, tt))

free_lock-IsTracked : IsTracked free_lock
free_lock-IsTracked = record { flag = refl; conn = pool-IsFree }

held_lock-IsTracked : IsTracked held_lock
unfolding has_byte
held_lock-IsTracked = record { flag = refl; conn = ((tt, refl, omega arith), inr refl) }

acquire_lock_ends_example : Keeps (AcquireEnds free_lock) (acquire_lock quiet free_lock)
acquire_lock_ends_example = acquire_lock_ends quiet free_lock free_lock-IsTracked

release_lock_ends_example : Keeps (ReleaseEnds held_lock) (release_lock losing held_lock)
release_lock_ends_example = release_lock_ends losing held_lock held_lock-IsTracked

Reach-NoneStranded_example :
    NoneStranded (acquire_lock losing (acquire_lock quiet (new_postgres_from_db pool config)).1).1
Reach-NoneStranded_example =
    Reach-NoneStranded config pool pool-IsFree (next (next here (acquires quiet)) (acquires losing))

acquire_lock_bounds_example :
    Within (0 + 5000000000 / 1000000) (acquire_lock busy free_lock).1.pool.waited
acquire_lock_bounds_example = acquire_lock_bounds busy free_lock 0 (omega arith) (omega arith)

says_55P03 : is_lock_timeout (codes "canceling (SQLSTATE 55P03)") ≡ true
unfolding is_lock_timeout contains_text has_prefix
says_55P03 = refl

acquire_lock_times_out_example :
    Refused
      (sentinel lock_timeout [])
      (some (0 + 5000000000 / 1000000))
      (acquire_lock busy free_lock)
acquire_lock_times_out_example =
    acquire_lock_times_out busy (λ n. refl) free_lock refl refl refl 0 refl (omega arith) tt
      says_55P03

-- half a millisecond
abbrev hasty_lock : Lock
hasty_lock = record free_lock { lock_timeout = 500000 }

acquire_lock_endless_example :
    Refused (refusal busy 500000 (lock_call hasty_lock)) none (acquire_lock busy hasty_lock)
acquire_lock_endless_example =
    acquire_lock_endless busy (λ n. refl) hasty_lock refl refl refl (omega arith) refl

run_calls-Moves_example :
    (c : Bool) × Moves false
      (run_calls ((quiet, acquiring) ∷ (busy, acquiring) ∷ (losing, releasing) ∷ []) free_lock).0
      c
    × Represents c
        (run_calls ((quiet, acquiring) ∷ (busy, acquiring) ∷ (losing, releasing) ∷ []) free_lock).1
run_calls-Moves_example =
    run_calls-Moves ((quiet, acquiring) ∷ (busy, acquiring) ∷ (losing, releasing) ∷ []) false
      free_lock (free_lock-IsTracked, (refl, refl, refl))
