-- ===== src/Lock/Waiting.antt =====
-- How long `AcquireLock` waits.
use pg_migrate.Prelude.{
  ℕ, ◌+◌, ◌≡◌, refl, ◌/◌, ◌≤◌, ◌<◌, Bool, true, false, Option, none, some, [], if◌then◌else◌, ◌==◌,
  arith, sym,
}
use mathlib.Core.Path.{subst}
use pg_migrate.Result.{Result, ok, err}
use pg_migrate.Error.{
  Error, Context, begin_lock, set_lock_timeout, commit_lock, sentinel, lock_already_acquired,
  pool_too_small,
}
use pg_migrate.Database.{Reply, served, refused, lost}
use pg_migrate.Lock.{Pool, Network, Lock}
use pg_migrate.Lock.Calls.{
  count_call, wrapping, Wait, granted_after, aborted_after, endless, wait_for, kept_for, wait_done,
  put_limit, begin_call, set_limit_call, lock_wait, add_wait, get_conn, hand_out, take_conn,
  item_at, plain_call, close_conn, unlock_all_call, advisory_lock_call, destroy, put_back, drop_all,
  nothing,
}
use pg_migrate.Lock.Postgres.{
  acquire_lock, lock_on_conn, take_lock, explain, milliseconds, release_all_and_close,
  close_or_destroy, locked_on, lock_with,
}
use pg_migrate.Lock.Tracked.{Ends, bind-Ends, wrapping-Ends, call-Ends, begin_call-Ends}

-- The waits had an end, and took this long at most.
abbrev pub Within : ℕ → Option ℕ → Type 0
Within b none = ⊥
Within b (some n) = n ≤ b

Within-mono : (a b : ℕ) (o : Option ℕ) → a ≤ b → Within a o → Within b o
Within-mono a b none h k = k
Within-mono a b (some n) h k = omega arith

Within-add : (b c t : ℕ) (o : Option ℕ) → t ≤ c → Within b o → Within (b + c) (add_wait o t)
Within-add b c t none h k = k
Within-add b c t (some n) h k = omega arith

abbrev PoolWithin : ℕ → Pool → Type 0
PoolWithin b w = Within b w.waited

abbrev EndsWithin : {A : Type 0} → ℕ → Result Error A × Pool → Type 0
EndsWithin b = Ends (λ _. PoolWithin b) (PoolWithin b)

-- A wait that ends within `limit`.
abbrev Limited : ℕ → Wait → Type 0
Limited limit (granted_after t) = t ≤ limit
Limited limit (aborted_after t) = t ≤ limit
Limited limit endless = ⊥

wait_for-Limited : (limit : ℕ) (o : Option ℕ) → 0 < limit → Limited limit (wait_for limit o)
wait_for-Limited limit none h = ground arith
wait_for-Limited limit (some t) h = ground arith

wait_done-Within :
    (b limit s n : ℕ) (t : Wait) (w : Pool)
    → Limited limit t
    → PoolWithin b w
    → EndsWithin (b + limit) (wait_done s t n w)
wait_done-Within b limit s n (granted_after t) w h k = Within-add b limit t w.waited h k
wait_done-Within b limit s n (aborted_after t) w h k = Within-add b limit t w.waited h k
wait_done-Within b limit s n endless w h k = absurd h

module _ (nw : Network) where
  plain_call-Within : (b : ℕ) (w : Pool) → PoolWithin b w → EndsWithin b (plain_call nw w)
  unfolding plain_call
  plain_call-Within b w h =
      call-Ends (λ _. PoolWithin b) (PoolWithin b) nw nothing w h h (λ a w' k. k)

  wrapped-Within :
      (c : Context) (b : ℕ) (w : Pool)
      → PoolWithin b w
      → EndsWithin b (wrapping c (plain_call nw) w)
  wrapped-Within c b w h =
      wrapping-Ends (λ _. PoolWithin b) (PoolWithin b) c (plain_call nw w) (plain_call-Within b w h)

  advisory_lock_call-Within :
      (b s : ℕ) (w : Pool)
      → 0 < w.limit
      → PoolWithin b w
      → EndsWithin (b + w.limit) (advisory_lock_call nw s w)
  unfolding advisory_lock_call
  advisory_lock_call-Within b s w h k =
      call-Ends (λ _. PoolWithin (b + w.limit)) (PoolWithin (b + w.limit)) nw
        (wait_done s (lock_wait nw s w) w.calls) w
        (Within-mono b (b + w.limit) w.waited (omega arith) k)
        (wait_done-Within b w.limit s w.calls (lock_wait nw s w) (count_call w)
          (wait_for-Limited w.limit (kept_for s w.grants (nw.frees_after w.calls)) h) k)
        (λ a w' k'. k')

  -- `set_config` puts the limit in force.
  set_limit_call-Within :
      (b m : ℕ) (w : Pool)
      → PoolWithin b w
      → Ends (λ _ w'. PoolWithin b w' × (w'.limit ≡ m)) (PoolWithin b) (set_limit_call nw m w)
  unfolding set_limit_call
  set_limit_call-Within b m w h =
      call-Ends (λ _ w'. PoolWithin b w' × (w'.limit ≡ m)) (PoolWithin b) nw (put_limit m) w h
        (h, refl) (λ a w' k. k.0)

  explain-Within :
      (b timeout n : ℕ) (r : Result Error (Unit {0}) × Pool)
      → EndsWithin b r
      → EndsWithin b (explain nw timeout n r)
  explain-Within b timeout n (ok a, w) h = h
  explain-Within b timeout n (err e, w) h = h

  lock_on_conn-Within :
      (b timeout s : ℕ) (w : Pool)
      → 0 < milliseconds timeout
      → PoolWithin b w
      → EndsWithin (b + milliseconds timeout) (lock_on_conn nw timeout s w)
  unfolding lock_on_conn take_lock
  lock_on_conn-Within b timeout s w h k =
      bind-Ends (λ _. PoolWithin b) (λ _. PoolWithin c) (PoolWithin c)
        (wrapping begin_lock (begin_call nw) w) _
        (weaken (λ w'. PoolWithin b w') (wrapping begin_lock (begin_call nw) w)
          (wrapping-Ends (λ _. PoolWithin b) (PoolWithin b) begin_lock (begin_call nw w)
            (begin_call-Ends nw (PoolWithin b) w k k)))
        λ _ w1 k1.
          bind-Ends (λ _ w'. InForce w') (λ _. PoolWithin c) (PoolWithin c)
            (wrapping set_lock_timeout (set_limit_call nw m) w1) _
            (weaken InForce (wrapping set_lock_timeout (set_limit_call nw m) w1) (
              wrapping-Ends (λ _ w'. InForce w') (PoolWithin b) set_lock_timeout
                (set_limit_call nw m w1) (set_limit_call-Within b m w1 k1)))
            λ _ w2 k2.
              bind-Ends (λ _. PoolWithin c) (λ _. PoolWithin c) (PoolWithin c)
                (take_lock nw timeout s w2) _
                (explain-Within c timeout w2.calls (advisory_lock_call nw s w2) (locked w2 k2))
                λ _ w3 k3. wrapped-Within commit_lock c w3 k3
    where
      m : ℕ
      m = milliseconds timeout

      c : ℕ
      c = b + m

      InForce : Pool → Type 0
      InForce w' = PoolWithin b w' × (w'.limit ≡ m)

      locked : (w' : Pool) → InForce w' → EndsWithin c (advisory_lock_call nw s w')
      locked w' (k', e) =
          subst (λ n. EndsWithin (b + n) (advisory_lock_call nw s w')) e
            (advisory_lock_call-Within b s w' (subst (λ n. 0 < n) (sym e) h) k')

      weaken :
          (P : Pool → Type 0) (r : Result Error (Unit {0}) × Pool)
          → Ends (λ _. P) (PoolWithin b) r
          → Ends (λ _. P) (PoolWithin c) r
      weaken P (ok a, w') h' = h'
      weaken P (err e, w') h' = Within-mono b c w'.waited (omega arith) h'

  hand_out-Within :
      (r : Reply) (n b : ℕ) (w : Pool) → PoolWithin b w → EndsWithin b (hand_out r nw n w)
  hand_out-Within served n b w h = taken (item_at w.idle (nw.picks n))
    where
      taken : (o : Option ℕ) → EndsWithin b (take_conn o w)
      taken none = h
      taken (some s) = h
  hand_out-Within refused n b w h = h
  hand_out-Within lost n b w h = h

  close_or_destroy-waited :
      (t : Option ℕ) (s : ℕ) (r : Result Error (Unit {0}) × Pool)
      → Ends (λ _ w. w.waited ≡ t) (λ w. w.waited ≡ t) r
      → (close_or_destroy nw s r).waited ≡ t
  unfolding close_conn destroy
  close_or_destroy-waited t s (ok a, w) h =
      ended (close_conn nw s w) (
        call-Ends (λ _ w'. w'.waited ≡ t) (λ w'. w'.waited ≡ t) nw (put_back s) w h h (λ a w' k. k))
    where
      ended :
          (r : Result Error (Unit {0}) × Pool)
          → Ends (λ _ w'. w'.waited ≡ t) (λ w'. w'.waited ≡ t) r
          → r.1.waited ≡ t
      ended (ok a, w') k = k
      ended (err e, w') k = k
  close_or_destroy-waited t s (err e, w) h = h

  -- The cleanup of a connection waits for no lock.
  pub release_all_and_close-waited :
      (s : ℕ) (w : Pool) → (release_all_and_close nw s w).waited ≡ w.waited
  unfolding release_all_and_close unlock_all_call
  release_all_and_close-waited s w = close_or_destroy-waited w.waited s (unlock_all_call nw s w) (
      call-Ends (λ _ w'. w'.waited ≡ w.waited) (λ w'. w'.waited ≡ w.waited) nw (drop_all s) w refl
        refl (λ a w' k. k))

  locked_on-Within :
      (b : ℕ) (l : Lock) (s : ℕ) (r : Result Error (Unit {0}) × Pool)
      → EndsWithin b r
      → PoolWithin b (locked_on nw l s r).1.pool
  locked_on-Within b l s (ok a, w) h = h
  locked_on-Within b l s (err e, w) h = rw (release_all_and_close-waited s w) h

  lock_with-Within :
      (b : ℕ) (l : Lock) (r : Result Error ℕ × Pool)
      → 0 < milliseconds l.lock_timeout
      → EndsWithin b r
      → PoolWithin (b + milliseconds l.lock_timeout) (lock_with nw l r).1.pool
  lock_with-Within b l (ok s, w) h k =
      locked_on-Within (b + milliseconds l.lock_timeout) l s (lock_on_conn nw l.lock_timeout s w)
        (lock_on_conn-Within b l.lock_timeout s w h k)
  lock_with-Within b l (err e, w) h k = Within-mono b _ w.waited (omega arith) k

-- With a timeout of a millisecond or more, `AcquireLock` waits for the lock no longer than the
-- timeout, whatever the network and the other holders of the lock do, and whatever `lock_timeout` the
-- sessions have of their own.
pub acquire_lock_bounds :
    (nw : Network) (l : Lock) (b : ℕ)
    → 1000000 ≤ l.lock_timeout
    → Within b l.pool.waited
    → Within (b + l.lock_timeout / 1000000) (acquire_lock nw l).1.pool.waited
unfolding acquire_lock get_conn
acquire_lock_bounds nw l b h k = checks l.is_lock_acquired (l.pool.max_open == 1)
  where
    checks :
        (acquired small : Bool)
        → Within
            (b + l.lock_timeout / 1000000)
            (if acquired
              then (err (sentinel lock_already_acquired []), l)
              else if small
              then (err (sentinel pool_too_small []), l)
              else lock_with nw l (get_conn nw l.pool)).1.pool.waited
    checks true small = Within-mono b _ l.pool.waited (omega arith) k
    checks false true = Within-mono b _ l.pool.waited (omega arith) k
    checks false false =
        lock_with-Within nw b l (get_conn nw l.pool) (omega arith)
          (hand_out-Within nw (nw.reply l.pool.calls) l.pool.calls b (count_call l.pool) k)
