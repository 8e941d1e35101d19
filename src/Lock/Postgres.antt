-- ===== src/Lock/Postgres.antt =====
-- `AcquireLock`, `ReleaseLock` and what they call in internal/db/postgres.go.
use pg_migrate.Prelude.{
  ℕ, ◌/◌, Bool, true, false, not, ◌&&◌, ◌||◌, Option, none, some, [], ◌∷◌, if◌then◌else◌, ◌==◌,
  is_nil,
}
use pg_migrate.Result.{Result, ok, err}
use pg_migrate.Error.{
  Error, wrap, sentinel, lock_already_acquired, pool_too_small, lock_not_acquired, lock_timeout,
  lock_not_held, get_lock_conn, begin_lock, set_lock_timeout, advisory_lock, advisory_lock_forever,
  commit_lock, advisory_unlock, return_lock_conn,
}
use pg_migrate.Text.{Bytes, codes}
use pg_migrate.Text.Lines.{has_prefix}
use pg_migrate.Lock.{Pool, Network, Lock}
use pg_migrate.Lock.Calls.{
  M, ◌>>=◌, wrapping, get_conn, begin_call, set_limit_call, plain_call, close_conn, destroy,
  advisory_unlock_call, unlock_all_call, advisory_lock_call,
}

-- `strings.Contains`
unfoldable pub contains_text : Bytes → Bytes → Bool
unfolding has_prefix
contains_text [] sub = is_nil sub
contains_text (c ∷ s) sub = has_prefix (c ∷ s) sub || contains_text s sub

-- `isLockTimeout`, of an error with this text
unfoldable pub is_lock_timeout : Bytes → Bool
unfolding contains_text
is_lock_timeout text = contains_text text (codes "55P03")

-- `Duration.Milliseconds`
abbrev pub milliseconds : ℕ → ℕ
milliseconds d = d / 1000000

-- What `lockOnConn` makes of an error of `pg_advisory_lock`; `n` is that call.
unfoldable pub lock_error : Network → ℕ → ℕ → Error → Error
unfolding is_lock_timeout
lock_error nw timeout n e =
    if is_lock_timeout (nw.error_text n)
    then sentinel lock_timeout []
    else if timeout == 0 && nw.context_ended n
    then wrap advisory_lock_forever e
    else wrap advisory_lock e

abbrev pub explain :
    Network → ℕ → ℕ → Result Error (Unit {0}) × Pool → Result Error (Unit {0}) × Pool
explain nw timeout n (ok _, w) = (ok tt, w)
explain nw timeout n (err e, w) = (err (lock_error nw timeout n e), w)

unfoldable pub take_lock : Network → ℕ → ℕ → M (Unit {0})
unfolding lock_error
take_lock nw timeout s w = explain nw timeout w.calls (advisory_lock_call nw s w)

-- `lockOnConn`. The deferred `Rollback` leaves a session's lock alone, as does the commit.
unfoldable pub lock_on_conn : Network → ℕ → ℕ → M (Unit {0})
unfolding take_lock
lock_on_conn nw timeout s = do
  _ ← wrapping begin_lock (begin_call nw)
  _ ← wrapping set_lock_timeout (set_limit_call nw (milliseconds timeout))
  _ ← take_lock nw timeout s
  wrapping commit_lock (plain_call nw)

abbrev pub close_or_destroy : Network → ℕ → Result Error (Unit {0}) × Pool → Pool
close_or_destroy nw s (ok _, w) = (close_conn nw s w).1
close_or_destroy nw s (err e, w) = destroy s w

-- `releaseAllAndClose`
unfoldable pub release_all_and_close : Network → ℕ → Pool → Pool
release_all_and_close nw s w = close_or_destroy nw s (unlock_all_call nw s w)

abbrev pub hold : Lock → ℕ → Pool → Lock
hold l s w = record l { pool = w; lock_conn = some s; is_lock_acquired = true }

abbrev pub locked_on :
    Network → Lock → ℕ → Result Error (Unit {0}) × Pool → Result Error (Unit {0}) × Lock
locked_on nw l s (ok _, w) = (ok tt, hold l s w)
locked_on nw l s (err e, w) = (err e, record l { pool = release_all_and_close nw s w })

abbrev pub lock_with : Network → Lock → Result Error ℕ × Pool → Result Error (Unit {0}) × Lock
lock_with nw l (ok s, w) = locked_on nw l s (lock_on_conn nw l.lock_timeout s w)
lock_with nw l (err e, w) = (err (wrap get_lock_conn e), record l { pool = w })

-- `AcquireLock`
unfoldable pub acquire_lock : Network → Lock → Result Error (Unit {0}) × Lock
acquire_lock nw l =
    if l.is_lock_acquired
    then (err (sentinel lock_already_acquired []), l)
    else if l.pool.max_open == 1
    then (err (sentinel pool_too_small []), l)
    else lock_with nw l (get_conn nw l.pool)

abbrev pub unlocked : Network → ℕ → Result Error Bool × Pool → Result Error (Unit {0}) × Pool
unlocked nw s (err e, w) = (err (wrap advisory_unlock e), destroy s w)
unlocked nw s (ok false, w) = (err (sentinel lock_not_held []), (close_conn nw s w).1)
unlocked nw s (ok true, w) = wrapping return_lock_conn (close_conn nw s) w

abbrev pub release_conn : Network → Lock → Option ℕ → Result Error (Unit {0}) × Lock
release_conn nw l none = (err (sentinel lock_not_acquired []), l)
release_conn nw l (some s) =
    let (r, w) = unlocked nw s (advisory_unlock_call nw s l.pool) in
    (r, record l { pool = w; lock_conn = none; is_lock_acquired = false })

-- `ReleaseLock`
unfoldable pub release_lock : Network → Lock → Result Error (Unit {0}) × Lock
release_lock nw l =
    if not l.is_lock_acquired
    then (err (sentinel lock_not_acquired []), l)
    else release_conn nw l l.lock_conn
