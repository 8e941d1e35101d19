-- ===== src/Lock/Busy.antt =====
-- `AcquireLock` while another process holds the lock, on a network that serves each call.
use pg_migrate.Prelude.{
  ℕ, ◌+◌, ◌/◌, ◌≤◌, ◌<◌, ◌≡◌, refl, Bool, true, false, Option, none, some, List, [], ◌==◌, arith,
  ◌∙◌, ap, sym,
}
use mathlib.Core.Path.{subst}
use pg_migrate.Result.{Result, ok, err}
use pg_migrate.Error.{Error, driver_error, sentinel, lock_timeout}
use pg_migrate.Database.{served}
use pg_migrate.Text.Space.{has_byte}
use pg_migrate.Lock.{Pool, Network, Lock}
use pg_migrate.Lock.Calls.{
  granted_after, count_call, endless, aborted_after, wait_for, kept_for, get_conn, item_at,
  take_conn, begin_call, set_limit_call, advisory_lock_call, lock_wait, wait_done, Wait, add_wait,
}
use pg_migrate.Lock.Waiting.{release_all_and_close-waited}
use pg_migrate.Lock.Postgres.{
  acquire_lock, lock_on_conn, take_lock, explain, lock_error, is_lock_timeout, milliseconds,
  locked_on, lock_with,
}

-- Each call from that number on is served.
abbrev pub IsServing : Network → Type 0
IsServing nw = (n : ℕ) → nw.reply n ≡ served

-- the number of the call of `pg_advisory_lock`: a connection, `BeginTx` and `set_config` come before
abbrev pub lock_call : Lock → ℕ
lock_call l = l.pool.calls + 1 + 1 + 1

-- An error, and what has been waited for the lock so far.
abbrev pub Refused : Error → Option ℕ → Result Error (Unit {0}) × Lock → Type 0
Refused e t (r, l) = (r ≡ err e) × (l.pool.waited ≡ t)

-- A connection is handed out in one call; nothing has been waited for.
abbrev IsHandedOut : Lock → Result Error ℕ × Pool → Type 0
IsHandedOut l (ok s, w) =
    (w.calls ≡ l.pool.calls + 1) × (w.grants ≡ l.pool.grants) × (w.waited ≡ l.pool.waited)
IsHandedOut l (err e, w) = ⊥

abbrev is_failed : Wait → Bool
is_failed (granted_after t) = false
is_failed (aborted_after t) = true
is_failed endless = true

abbrev spent : Option ℕ → Wait → Option ℕ
spent o (granted_after t) = add_wait o t
spent o (aborted_after t) = add_wait o t
spent o endless = none

-- the error of a call for the lock that is refused
abbrev pub refusal : Network → ℕ → ℕ → Error
refusal nw timeout n = lock_error nw timeout n (driver_error n)

wait_done-failed :
    (s : ℕ) (t : Wait) (n : ℕ) (w : Pool)
    → is_failed t ≡ true
    → wait_done s t n w ≡ (err (driver_error n), record w { waited = spent w.waited t })
wait_done-failed s (granted_after t) n w h = cc
wait_done-failed s (aborted_after t) n w h = refl
wait_done-failed s endless n w h = refl

-- Another process keeps the lock for `limit` milliseconds at least.
abbrev pub KeptPast : ℕ → Option ℕ → Type 0
KeptPast limit none = Unit {0}
KeptPast limit (some t) = limit ≤ t

wait_for-KeptPast :
    (limit : ℕ) (o : Option ℕ)
    → 0 < limit
    → KeptPast limit o
    → wait_for limit o ≡ aborted_after limit
wait_for-KeptPast limit none h k = ground arith
wait_for-KeptPast limit (some t) h k = ground arith

endless_at : (limit : ℕ) → limit ≡ 0 → wait_for limit none ≡ endless
endless_at limit e = rw e

refusal-lock_timeout :
    (nw : Network) (timeout n : ℕ)
    → is_lock_timeout (nw.error_text n) ≡ true
    → refusal nw timeout n ≡ sentinel lock_timeout []
unfolding lock_error
refusal-lock_timeout nw timeout n h = rw h

-- the pool when `pg_advisory_lock` is called: `BeginTx` and `set_config` were served
abbrev at_lock_call : Network → ℕ → Pool → Pool
at_lock_call nw timeout w =
    record (count_call (record (count_call w) { limit = nw.session_limit })) {
      limit = milliseconds timeout;
    }

module _ (nw : Network) (serving : IsServing nw) where
  begin_call-served :
      (w : Pool) → begin_call nw w ≡ (ok tt, record (count_call w) { limit = nw.session_limit })
  unfolding begin_call
  begin_call-served w = rw (serving w.calls)

  set_limit_call-served :
      (m : ℕ) (w : Pool) → set_limit_call nw m w ≡ (ok tt, record (count_call w) { limit = m })
  unfolding set_limit_call
  set_limit_call-served m w = rw (serving w.calls)

  lock_on_conn-served :
      (timeout s : ℕ) (w : Pool) (e : Error)
      → (w' : Pool) → take_lock nw timeout s (at_lock_call nw timeout w) ≡ (err e, w')
      → lock_on_conn nw timeout s w ≡ (err e, w')
  unfolding lock_on_conn
  lock_on_conn-served timeout s w e w' h =
      simp (begin_call-served, set_limit_call-served) (rw h refl)

  advisory_lock_call-served :
      (s : ℕ) (w : Pool)
      → advisory_lock_call nw s w ≡ wait_done s (lock_wait nw s w) w.calls (count_call w)
  unfolding advisory_lock_call
  advisory_lock_call-served s w = rw (serving w.calls)

  -- The outcome of `pg_advisory_lock` when the wait for it ends so, on a session of which nothing is
  -- held: `done` is what `wait_done` makes of it.
  take_lock-served :
      (timeout s : ℕ) (w : Pool) (t : Wait)
      → w.grants ≡ []
      → wait_for w.limit (nw.frees_after w.calls) ≡ t
      → take_lock nw timeout s w ≡ explain nw timeout w.calls (wait_done s t w.calls (count_call w))
  unfolding take_lock has_byte
  take_lock-served timeout s w t e h = ap (explain nw timeout w.calls) (
      advisory_lock_call-served s w
      ∙ ap (λ t'. wait_done s t' w.calls (count_call w)) (waits w.grants e))
    where
      waits :
          (grants : List ℕ)
          → grants ≡ []
          → wait_for w.limit (kept_for s grants (nw.frees_after w.calls)) ≡ t
      waits grants e' = rw e' h

  locked_on-failed :
      (l : Lock) (s : ℕ) (w : Pool) (e : Error) (r : Result Error (Unit {0}) × Pool)
      → r ≡ (err e, w)
      → ((locked_on nw l s r).0 ≡ err e) × ((locked_on nw l s r).1.pool.waited ≡ w.waited)
  locked_on-failed l s w e r h = rw h (refl, release_all_and_close-waited nw s w)

  -- The lock is not granted on a connection that is handed out.
  lock_on_conn-failed :
      (timeout s : ℕ) (w : Pool) (t : Wait)
      → is_failed t ≡ true
      → w.grants ≡ []
      → wait_for (milliseconds timeout) (nw.frees_after (w.calls + 1 + 1)) ≡ t
      → (w' : Pool) × (lock_on_conn nw timeout s w
          ≡ (err (refusal nw timeout (w.calls + 1 + 1)), w'))
        × (w'.waited ≡ spent w.waited t)
  lock_on_conn-failed timeout s w t failed none_held waits =
      let w2 = at_lock_call nw timeout w in
      let w3 : Pool = record (count_call w2) { waited = spent w.waited t } in
      (
        w3,
        lock_on_conn-served timeout s w (refusal nw timeout w2.calls) w3 (
            take_lock-served timeout s w2 t none_held waits
            ∙ ap (explain nw timeout w2.calls)
                (wait_done-failed s t w2.calls (count_call w2) failed)),
        refl,
      )

  lock_with-Refused :
      (l : Lock) (t : Wait) (r : Result Error ℕ × Pool)
      → is_failed t ≡ true
      → l.pool.grants ≡ []
      → wait_for (milliseconds l.lock_timeout) (nw.frees_after (lock_call l)) ≡ t
      → IsHandedOut l r
      → Refused (refusal nw l.lock_timeout (lock_call l)) (spent l.pool.waited t) (lock_with nw l r)
  lock_with-Refused l t (err e, w) failed none_held waits h = absurd h
  lock_with-Refused l t (ok s, w) failed none_held waits (calls, grants, waited) =
      let at_call =
        λ (c : ℕ). wait_for (milliseconds l.lock_timeout) (nw.frees_after (c + 1 + 1)) ≡ t in
      let (w', e, spent') =
        lock_on_conn-failed l.lock_timeout s w t failed (grants ∙ none_held)
          (subst at_call (sym calls) waits) in
      let (result, waited') = locked_on-failed l s w' _ _ e in
      (
        result ∙ ap (λ c. err (refusal nw l.lock_timeout (c + 1 + 1))) calls,
        waited' ∙ spent' ∙ ap (λ o. spent o t) waited,
      )

  taken-IsHandedOut : (l : Lock) (o : Option ℕ) → IsHandedOut l (take_conn o (count_call l.pool))
  taken-IsHandedOut l none = (refl, refl, refl)
  taken-IsHandedOut l (some s) = (refl, refl, refl)

  get_conn-IsHandedOut : (l : Lock) → IsHandedOut l (get_conn nw l.pool)
  unfolding get_conn
  get_conn-IsHandedOut l =
      rw (serving l.pool.calls) (taken-IsHandedOut l (item_at l.pool.idle (nw.picks l.pool.calls)))

module _ (nw : Network) (serving : IsServing nw) (l : Lock)
    (open_to_it : l.is_lock_acquired ≡ false) (room : (l.pool.max_open == 1) ≡ false)
    (none_held : l.pool.grants ≡ []) where
  acquire_lock-Refused :
      (t : Wait)
      → is_failed t ≡ true
      → wait_for (milliseconds l.lock_timeout) (nw.frees_after (lock_call l)) ≡ t
      → Refused
          (refusal nw l.lock_timeout (lock_call l))
          (spent l.pool.waited t)
          (acquire_lock nw l)
  unfolding acquire_lock
  acquire_lock-Refused t failed waits =
      simp (open_to_it, room)
        (lock_with-Refused nw serving l t (get_conn nw l.pool) failed none_held waits
          (get_conn-IsHandedOut nw serving l))

  -- The lock is free, the pool has room, and the network serves each call. If another process keeps the
  -- lock for the whole timeout, of a millisecond or more, and the server's error says 55P03, then
  -- `AcquireLock` returns ErrLockTimeout, after waiting as long as the timeout.
  pub acquire_lock_times_out :
      (waited : ℕ)
      → l.pool.waited ≡ some waited
      → 1000000 ≤ l.lock_timeout
      → KeptPast (milliseconds l.lock_timeout) (nw.frees_after (lock_call l))
      → is_lock_timeout (nw.error_text (lock_call l)) ≡ true
      → Refused
          (sentinel lock_timeout [])
          (some (waited + l.lock_timeout / 1000000))
          (acquire_lock nw l)
  acquire_lock_times_out waited w long kept text =
      let (result, waited') =
        acquire_lock-Refused (aborted_after (milliseconds l.lock_timeout)) refl
          (wait_for-KeptPast (milliseconds l.lock_timeout) _ (omega arith) kept) in
      (
        result ∙ ap err (refusal-lock_timeout nw l.lock_timeout (lock_call l) text),
        waited' ∙ ap (λ o. add_wait o (milliseconds l.lock_timeout)) w,
      )

  -- The lock is free, the pool has room, and the network serves each call. With a timeout under a
  -- millisecond, zero or not, if another process never lets go of the lock, then `AcquireLock` waits
  -- with no end of its own: only the caller's context ends the wait, with an error.
  pub acquire_lock_endless :
      l.lock_timeout < 1000000
      → nw.frees_after (lock_call l) ≡ none
      → Refused (refusal nw l.lock_timeout (lock_call l)) none (acquire_lock nw l)
  acquire_lock_endless short never = acquire_lock-Refused endless refl (
      ap (wait_for (milliseconds l.lock_timeout)) never
      ∙ endless_at (milliseconds l.lock_timeout) (omega arith))
