-- ===== src/Lock/Ending.antt =====
-- How `AcquireLock` and `ReleaseLock` end, whatever calls fail.
use pg_migrate.Prelude.{
  ℕ, ◌≡◌, refl, ◌⊎◌, inl, inr, Bool, true, false, Option, none, some, [], not, if◌then◌else◌, ◌==◌,
  sym, ◌∙◌,
}
use pg_migrate.Result.{Result, ok, err}
use pg_migrate.Error.{Error, sentinel, lock_already_acquired, lock_not_acquired, pool_too_small}
use pg_migrate.Lock.{Pool, Network, Lock}
use pg_migrate.Lock.Calls.{get_conn, close_conn}
use pg_migrate.Lock.Postgres.{acquire_lock, release_lock, lock_with, unlocked, release_conn}
use pg_migrate.Lock.Tracked.{
  Ends, wrapping-Ends, IsFree, IsLentClean, IsLentUnsure, get_conn-Ends, close_conn-Ends,
  destroy-IsFree, advisory_unlock_call-Ends,
}
use pg_migrate.Lock.Tracking.{
  IsTracked, Tracks, is_some, IsReleased, AcquireEnds, Keeps, lock_with-Keeps, closed-IsFree,
  unacquired,
}

acquire_by-Keeps :
    (nw : Network) (l : Lock) (acquired small : Bool)
    → IsTracked l
    → l.is_lock_acquired ≡ acquired
    → Keeps (AcquireEnds l) (
        if acquired
        then (err (sentinel lock_already_acquired []), l)
        else if small
        then (err (sentinel pool_too_small []), l)
        else lock_with nw l (get_conn nw l.pool))
acquire_by-Keeps nw l true small t e = (t, inl (e, refl))
acquire_by-Keeps nw l false true t e =
    let (conn, free) = unacquired l t e in (t, inr (e, (conn, e, free.0)))
acquire_by-Keeps nw l false false t e =
    let (conn, free) = unacquired l t e in
    lock_with-Keeps l conn e nw (get_conn nw l.pool) free.0 (get_conn-Ends nw l.pool free)

-- `AcquireLock` returns nil only if the lock was not held by this `Postgres`, and is now held by its
-- lock connection, which is out of the pool. With an error it was acquired before and nothing changes,
-- or no session of the program holds the lock.
pub acquire_lock_ends :
    (nw : Network) (l : Lock) → IsTracked l → Keeps (AcquireEnds l) (acquire_lock nw l)
unfolding acquire_lock
acquire_lock_ends nw l t = acquire_by-Keeps nw l l.is_lock_acquired (l.pool.max_open == 1) t refl

abbrev pub ReleaseEnds : Lock → Result Error (Unit {0}) × Lock → Type 0
ReleaseEnds l (r, l') =
    (l.is_lock_acquired ≡ false × r ≡ err (sentinel lock_not_acquired []) × l' ≡ l)
    ⊎ (l.is_lock_acquired ≡ true × IsReleased l')

unlocked-IsFree :
    (nw : Network) (s : ℕ) (r : Result Error Bool × Pool)
    → Ends (λ _. IsLentClean s) (IsLentUnsure s) r
    → IsFree (unlocked nw s r).1
unlocked-IsFree nw s (err e, w) h = destroy-IsFree s w h
unlocked-IsFree nw s (ok false, w) h = closed-IsFree _ (close_conn-Ends nw s w h)
unlocked-IsFree nw s (ok true, w) h =
    closed-IsFree _
      (wrapping-Ends (λ _. IsFree) IsFree _ (close_conn nw s w) (close_conn-Ends nw s w h))

release_conn-Keeps :
    (nw : Network) (l : Lock) (o : Option ℕ)
    → l.is_lock_acquired ≡ true
    → true ≡ is_some o
    → Tracks o l.pool
    → Keeps (ReleaseEnds l) (release_conn nw l o)
release_conn-Keeps nw l none flag h t = cc
release_conn-Keeps nw l (some s) flag h t =
    let free = unlocked-IsFree nw s _ (advisory_unlock_call-Ends nw s l.pool t) in
    (record { flag = refl; conn = free }, inr (flag, (refl, refl, free.0)))

release_by-Keeps :
    (nw : Network) (l : Lock) (acquired : Bool)
    → IsTracked l
    → l.is_lock_acquired ≡ acquired
    → Keeps (ReleaseEnds l) (
        if not acquired
        then (err (sentinel lock_not_acquired []), l)
        else release_conn nw l l.lock_conn)
release_by-Keeps nw l true t e = release_conn-Keeps nw l l.lock_conn e (sym e ∙ t.flag) t.conn
release_by-Keeps nw l false t e = (t, inl (e, refl, refl))

-- `ReleaseLock` refuses if the lock is not acquired, and changes nothing then. Otherwise no session
-- of the program holds the lock afterwards, whatever calls fail.
pub release_lock_ends :
    (nw : Network) (l : Lock) → IsTracked l → Keeps (ReleaseEnds l) (release_lock nw l)
unfolding release_lock
release_lock_ends nw l t = release_by-Keeps nw l l.is_lock_acquired t refl
