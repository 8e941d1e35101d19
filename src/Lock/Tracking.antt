-- ===== src/Lock/Tracking.antt =====
-- What `AcquireLock` and `ReleaseLock` of internal/db/postgres.go leave behind in pool and server.
use pg_migrate.Prelude.{
  ℕ, ◌≡◌, refl, ◌⊎◌, inl, inr, Bool, true, false, Option, none, some, [], ◌∷◌, sym, ◌∙◌,
}
use mathlib.Core.Path.{subst}
use pg_migrate.Result.{Result, ok, err}
use pg_migrate.Error.{Error, Context, wrap, get_lock_conn, begin_lock, set_lock_timeout}
use pg_migrate.Text.Space.{has_byte}
use pg_migrate.Lock.{Pool, Network, Lock}
use pg_migrate.Lock.Calls.{
  count_call, wrapping, begin_call, set_limit_call, plain_call, unlock_all_call, advisory_lock_call,
}
use pg_migrate.Lock.Postgres.{
  lock_on_conn, take_lock, explain, milliseconds, release_all_and_close, close_or_destroy,
  locked_on, lock_with,
}
use pg_migrate.Lock.Tracked.{
  Ends, bind-Ends, wrapping-Ends, IsFree, IsLentClean, IsLentHolding, IsLentUnsure, plain_call-Ends,
  begin_call-Ends, set_limit_call-Ends, advisory_lock_call-Ends, close_conn-Ends, destroy-IsFree,
  unlock_all_call-Ends,
}

abbrev pub is_some : Option ℕ → Bool
is_some none = false
is_some (some s) = true

abbrev pub Tracks : Option ℕ → Pool → Type 0
Tracks none = IsFree
Tracks (some s) = IsLentUnsure s

-- The flag says whether there is a lock connection. No other session of this pool holds the lock,
-- and it is not in the pool.
pub record IsTracked (l : Lock) : Type 0 where
  pub flag : l.is_lock_acquired ≡ is_some l.lock_conn
  pub conn : Tracks l.lock_conn l.pool

explain-Ends :
    (nw : Network) (timeout n s : ℕ) (r : Result Error (Unit {0}) × Pool)
    → Ends (λ _. IsLentHolding s) (IsLentUnsure s) r
    → Ends (λ _. IsLentHolding s) (IsLentUnsure s) (explain nw timeout n r)
explain-Ends nw timeout n s (ok a, w) h = h
explain-Ends nw timeout n s (err e, w) h = h

take_lock-Ends :
    (nw : Network) (timeout s : ℕ) (w : Pool)
    → IsLentClean s w
    → Ends (λ _. IsLentHolding s) (IsLentUnsure s) (take_lock nw timeout s w)
unfolding take_lock
take_lock-Ends nw timeout s w h =
    explain-Ends nw timeout w.calls s (advisory_lock_call nw s w) (advisory_lock_call-Ends nw s w h)

weaken :
    (s : ℕ) (r : Result Error (Unit {0}) × Pool)
    → Ends (λ _. IsLentClean s) (IsLentClean s) r
    → Ends (λ _. IsLentClean s) (IsLentUnsure s) r
weaken s (ok a, w) h = h
weaken s (err e, w) (h, g) = (h, inl g)

weaken_holding :
    (s : ℕ) (r : Result Error (Unit {0}) × Pool)
    → Ends (λ _. IsLentHolding s) (IsLentHolding s) r
    → Ends (λ _. IsLentHolding s) (IsLentUnsure s) r
weaken_holding s (ok a, w) h = h
weaken_holding s (err e, w) (h, g) = (h, inr g)

wrapped_call-Ends :
    (nw : Network) (c : Context) (P : Pool → Type 0) (w : Pool)
    → P (count_call w)
    → Ends (λ _. P) P (wrapping c (plain_call nw) w)
wrapped_call-Ends nw c P w h =
    wrapping-Ends (λ _. P) P c (plain_call nw w) (plain_call-Ends nw P w h)

lock_on_conn-Ends :
    (nw : Network) (timeout s : ℕ) (w : Pool)
    → IsLentClean s w
    → Ends (λ _. IsLentHolding s) (IsLentUnsure s) (lock_on_conn nw timeout s w)
unfolding lock_on_conn
lock_on_conn-Ends nw timeout s w h =
    bind-Ends (λ _. IsLentClean s) (λ _. IsLentHolding s) (IsLentUnsure s)
      (wrapping begin_lock (begin_call nw) w) _
      (weaken s (wrapping begin_lock (begin_call nw) w) (
        wrapping-Ends (λ _. IsLentClean s) (IsLentClean s) begin_lock (begin_call nw w)
          (begin_call-Ends nw (IsLentClean s) w h h)))
      λ _ w1 h1.
        bind-Ends (λ _. IsLentClean s) (λ _. IsLentHolding s) (IsLentUnsure s)
          (wrapping set_lock_timeout (set_limit_call nw (milliseconds timeout)) w1) _
          (weaken s (wrapping set_lock_timeout (set_limit_call nw (milliseconds timeout)) w1) (
            wrapping-Ends (λ _. IsLentClean s) (IsLentClean s) set_lock_timeout
              (set_limit_call nw (milliseconds timeout) w1)
              (set_limit_call-Ends nw (milliseconds timeout) (IsLentClean s) w1 h1 h1)))
          λ _ w2 h2.
            bind-Ends (λ _. IsLentHolding s) (λ _. IsLentHolding s) (IsLentUnsure s)
              (take_lock nw timeout s w2) _ (take_lock-Ends nw timeout s w2 h2)
              λ _ w3 h3. weaken_holding s _ (wrapped_call-Ends nw _ (IsLentHolding s) w3 h3)

pub closed-IsFree : (r : Result Error (Unit {0}) × Pool) → Ends (λ _. IsFree) IsFree r → IsFree r.1
closed-IsFree (ok a, w) h = h
closed-IsFree (err e, w) h = h

close_or_destroy-IsFree :
    (nw : Network) (s : ℕ) (r : Result Error (Unit {0}) × Pool)
    → Ends (λ _. IsLentClean s) (IsLentUnsure s) r
    → IsFree (close_or_destroy nw s r)
close_or_destroy-IsFree nw s (ok a, w) h = closed-IsFree _ (close_conn-Ends nw s w h)
close_or_destroy-IsFree nw s (err e, w) h = destroy-IsFree s w h

release_all_and_close-IsFree :
    (nw : Network) (s : ℕ) (w : Pool) → IsLentUnsure s w → IsFree (release_all_and_close nw s w)
unfolding release_all_and_close
release_all_and_close-IsFree nw s w h =
    close_or_destroy-IsFree nw s (unlock_all_call nw s w) (unlock_all_call-Ends nw s w h)

-- The lock is held, by the lock connection, and this connection is not in the pool.
abbrev pub IsHeld : Lock → Type 0
IsHeld l =
    (s : ℕ) × (l.lock_conn ≡ some s)
    × (l.is_lock_acquired ≡ true)
    × (l.pool.grants ≡ s ∷ [])
    × (has_byte l.pool.idle s ≡ false)

-- The lock is not held, and no connection is out of the pool for it.
abbrev pub IsReleased : Lock → Type 0
IsReleased l = (l.lock_conn ≡ none) × (l.is_lock_acquired ≡ false) × (l.pool.grants ≡ [])

abbrev pub AcquireEnds : Lock → Result Error (Unit {0}) × Lock → Type 0
AcquireEnds l (ok _, l') = IsReleased l × IsHeld l'
AcquireEnds l (err e, l') =
    (l.is_lock_acquired ≡ true × l' ≡ l) ⊎ (l.is_lock_acquired ≡ false × IsReleased l')

-- What a call leaves: the state is tracked again, and `P` of it and of the result.
abbrev pub Keeps :
    (Result Error (Unit {0}) × Lock → Type 0) → Result Error (Unit {0}) × Lock → Type 0
Keeps P r = IsTracked r.1 × P r

module _ (l : Lock) (conn : l.lock_conn ≡ none) (flag : l.is_lock_acquired ≡ false) where
  pub released :
      (w : Pool) (e : Error)
      → IsFree w
      → l.pool.grants ≡ []
      → Keeps (AcquireEnds l) (err e, record l { pool = w })
  released w e h g =
      (record { flag = rw (conn, flag) refl; conn = rw conn h }, inr (flag, (conn, flag, h.0)))

  locked_on-Keeps :
      (nw : Network) (s : ℕ) (r : Result Error (Unit {0}) × Pool)
      → l.pool.grants ≡ []
      → Ends (λ _. IsLentHolding s) (IsLentUnsure s) r
      → Keeps (AcquireEnds l) (locked_on nw l s r)
  locked_on-Keeps nw s (ok _, w) g h = (
    record { flag = refl; conn = (h.0, inr h.1) },
    ((conn, flag, g), (s, refl, refl, h.1, h.0.1)),
  )
  locked_on-Keeps nw s (err e, w) g h =
      released (release_all_and_close nw s w) e (release_all_and_close-IsFree nw s w h) g

  pub lock_with-Keeps :
      (nw : Network) (r : Result Error ℕ × Pool)
      → l.pool.grants ≡ []
      → Ends IsLentClean IsFree r
      → Keeps (AcquireEnds l) (lock_with nw l r)
  lock_with-Keeps nw (ok s, w) g h =
      locked_on-Keeps nw s (lock_on_conn nw l.lock_timeout s w) g
        (lock_on_conn-Ends nw l.lock_timeout s w h)
  lock_with-Keeps nw (err e, w) g h = released w (wrap get_lock_conn e) h g

no_conn : (o : Option ℕ) → false ≡ is_some o → o ≡ none
no_conn none h = refl
no_conn (some s) h = cc

-- What the invariant says while the lock is not acquired.
pub unacquired :
    (l : Lock) → IsTracked l → l.is_lock_acquired ≡ false → (l.lock_conn ≡ none) × IsFree l.pool
unacquired l t h =
    let e = no_conn l.lock_conn (sym h ∙ t.flag) in (e, subst (λ o. Tracks o l.pool) e t.conn)
