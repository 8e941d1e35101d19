-- ===== src/Lock.antt =====
-- internal/db/postgres.go: the advisory lock, on a connection of its own. The state is what `Postgres`
-- keeps, with the pool of its process and what the server grants to the sessions of that process.
--
-- Which sessions of other processes hold the lock, and for how long, is a parameter of each call.
pub mod Calls
pub mod Postgres
pub mod Tracked
pub mod Tracking
pub mod Ending
pub mod Stranding
pub mod Waiting
pub mod Busy
pub mod Refinement
pub mod Held
use pg_migrate.Prelude.{
  ℕ, ◌+◌, ◌*◌, Bool, true, false, not, ◌&&◌, Option, none, some, List, [], ◌∷◌, if◌then◌else◌, ◌==◌,
  filter, ℤ, pos,
}
use pg_migrate.Text.{Bytes}
use pg_migrate.Database.{Reply}

-- The connection pool and the server. A session has a number. `grants` has an entry for each grant of
-- the lock to a session of this pool. `waited` is for how many milliseconds calls have waited for
-- the lock, and `none` once one has waited with no end of its own. `limit` is the `lock_timeout` of the
-- server that is in force for the transaction that takes the lock, in milliseconds; 0 is no limit.
pub record Pool : Type 0 where
  pub calls : ℕ
  pub max_open : ℕ
  pub idle : List ℕ
  pub next : ℕ
  pub grants : List ℕ
  pub waited : Option ℕ
  pub limit : ℕ

-- The call with number n is answered so; `error_text n` is the error's text if it fails.
-- `picks n` chooses the connection that the pool hands out. `frees_after n` is for how many
-- milliseconds from that call on other processes keep the lock; `none` if they never let go.
-- `context_ended n`: the caller's context has ended when the call returns. `session_limit` is the
-- `lock_timeout` that a transaction of these sessions begins with.
pub record Network : Type 0 where
  pub reply : ℕ → Reply
  pub error_text : ℕ → Bytes
  pub picks : ℕ → ℕ
  pub frees_after : ℕ → Option ℕ
  pub context_ended : ℕ → Bool
  pub session_limit : ℕ

-- `Postgres`, and the pool behind its `db`. The timeout is in nanoseconds.
pub record Lock : Type 0 where
  pub pool : Pool
  pub lock_conn : Option ℕ
  pub is_lock_acquired : Bool
  pub lock_timeout : ℕ
  pub lock_id : ℤ

-- the part of `PostgresConfig` that is about the lock
pub record LockConfig : Type 0 where
  pub lock_timeout : ℕ
  pub lock_timeout_set : Bool
  pub lock_id : ℤ

-- `defaultLockID`
abbrev pub default_lock_id : ℤ
default_lock_id = pos 2718281828459045235

-- `defaultLockTimeout`
abbrev pub default_lock_timeout : ℕ
default_lock_timeout = 5 * 1000000000

abbrev is_zero : ℤ → Bool
is_zero (pos n) = n == 0
is_zero _ = false

-- `NewPostgresFromDB`
unfoldable pub new_postgres_from_db : Pool → LockConfig → Lock
new_postgres_from_db pool cfg = record {
  pool = pool;
  lock_conn = none;
  is_lock_acquired = false;
  lock_timeout =
      if not cfg.lock_timeout_set && cfg.lock_timeout == 0
      then default_lock_timeout
      else cfg.lock_timeout;
  lock_id = if is_zero cfg.lock_id then default_lock_id else cfg.lock_id;
}

-- the entries of other sessions
abbrev pub others : ℕ → List ℕ → List ℕ
others s = filter (λ r. not (r == s))
