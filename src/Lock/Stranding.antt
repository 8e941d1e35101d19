-- ===== src/Lock/Stranding.antt =====
-- Which sessions hold the advisory lock of internal/db/postgres.go, over every run.
use pg_migrate.Prelude.{
  ℕ, ◌+◌, ◌<◌, ◌≡◌, refl, ◌⊎◌, inl, inr, Bool, false, Option, none, some, List, [], ◌∷◌, ◌==◌, All,
  All-filter, arith, Bool-cases,
}
use mathlib.Core.Path.{subst}
use pg_migrate.Text.Space.{has_byte}
use pg_migrate.Lock.{Pool, Network, Lock, LockConfig, new_postgres_from_db, others}
use pg_migrate.Lock.Ending.{acquire_lock_ends, release_lock_ends}
use pg_migrate.Lock.Postgres.{acquire_lock, release_lock}
use pg_migrate.Lock.Tracked.{IsFree, IsLentUnsure, All-suc, has_byte-cons}
use pg_migrate.Lock.Tracking.{IsTracked, Tracks, is_some}

abbrev is_conn : Option ℕ → ℕ → Bool
is_conn none s = false
is_conn (some r) s = r == s

abbrev with_pool : Lock → Pool → Lock
with_pool l w = record l { pool = w }

-- The calls of `Postgres`, whatever the network does during each, and what else happens to the pool:
-- a query opens, borrows or returns a connection, or the server ends a session.
pub data Step : Lock → Lock → Type 0 where
  acquires : (nw : Network) {l : Lock} → Step l (acquire_lock nw l).1
  releases : (nw : Network) {l : Lock} → Step l (release_lock nw l).1
  opens :
      {l : Lock}
      → Step l
          (with_pool l (record l.pool { idle = l.pool.next ∷ l.pool.idle; next = l.pool.next + 1 }))
  borrows :
      (s : ℕ) {l : Lock} → Step l (with_pool l (record l.pool { idle = others s l.pool.idle }))
  returns :
      (s : ℕ) {l : Lock}
      → s < l.pool.next
      → is_conn l.lock_conn s ≡ false
      → Step l (with_pool l (record l.pool { idle = s ∷ l.pool.idle }))
  ends :
      (s : ℕ) {l : Lock}
      → Step l (
          with_pool l
            (record l.pool { idle = others s l.pool.idle; grants = others s l.pool.grants }))

pub data Reach (l : Lock) : Lock → Type 0 where
  here : Reach l l
  next : {m n : Lock} → Reach l m → Step m n → Reach l n

IsTracked-with :
    (l : Lock) (w : Pool) → IsTracked l → Tracks l.lock_conn w → IsTracked (with_pool l w)
IsTracked-with l w t h = record { flag = t.flag; conn = h }

-- A change of the pool keeps the invariant if it does so for each lock connection there may be.
Tracks-of :
    (w w' : Pool) (o : Option ℕ)
    → (o ≡ none → IsFree w → IsFree w')
    → ((s : ℕ) → o ≡ some s → IsLentUnsure s w → IsLentUnsure s w')
    → Tracks o w
    → Tracks o w'
Tracks-of w w' none f g h = f refl h
Tracks-of w w' (some s) f g h = g s refl h

has_byte-others_le :
    (r s : ℕ) (xs : List ℕ) → has_byte xs s ≡ false → has_byte (others r xs) s ≡ false
unfolding has_byte
has_byte-others_le r s [] h = refl
has_byte-others_le r s (x ∷ xs) h = ground (arith, has_byte-others_le r s xs)

others-Unsure :
    (r s : ℕ) (grants : List ℕ)
    → (grants ≡ []) ⊎ (grants ≡ s ∷ [])
    → (others r grants ≡ []) ⊎ (others r grants ≡ s ∷ [])
others-Unsure r s grants (inl e) = inl (rw e)
others-Unsure r s grants (inr e) = elim (Bool-cases (s == r)) [
  | inl same ↦ inl (rw (e, same))
  | inr apart ↦ inr (rw (e, apart))
]

swap_test : (r s : ℕ) → (r == s) ≡ false → (s == r) ≡ false
swap_test r s h = ground arith

Step-IsTracked : {l m : Lock} → Step l m → IsTracked l → IsTracked m
Step-IsTracked (acquires nw {l}) t = (acquire_lock_ends nw l t).0
Step-IsTracked (releases nw {l}) t = (release_lock_ends nw l t).0
Step-IsTracked (opens {l}) t = IsTracked-with l _ t (
    Tracks-of l.pool _ l.lock_conn (λ _ h. (h.0, (omega arith, All-suc _ _ h.1)))
      (λ s _ h. (((omega arith, All-suc _ _ h.0.0), opened s h, omega (arith, h.0.2)), h.1)) t.conn)
  where
    opened : (s : ℕ) → IsLentUnsure s l.pool → has_byte (l.pool.next ∷ l.pool.idle) s ≡ false
    opened s h = has_byte-cons _ _ _ (ground (arith, h.0.2)) h.0.1
Step-IsTracked (borrows s {l}) t = IsTracked-with l _ t (
    Tracks-of l.pool _ l.lock_conn (λ _ h. (h.0, All-filter _ _ l.pool.idle h.1))
      (λ r _ h. ((All-filter _ _ l.pool.idle h.0.0, has_byte-others_le s r _ h.0.1, h.0.2), h.1))
      t.conn)
Step-IsTracked (returns s {l} old apart) t = IsTracked-with l _ t (
    Tracks-of l.pool _ l.lock_conn (λ _ h. (h.0, (old, h.1)))
      (λ r e h. (((old, h.0.0), has_byte-cons s r _ (other_conn r e) h.0.1, h.0.2), h.1)) t.conn)
  where
    other_conn : (r : ℕ) → l.lock_conn ≡ some r → (s == r) ≡ false
    other_conn r e = swap_test r s (subst (λ o. is_conn o s ≡ false) e apart)
Step-IsTracked (ends s {l}) t = IsTracked-with l _ t (
    Tracks-of l.pool _ l.lock_conn (λ _ h. (rw h.0, All-filter _ _ l.pool.idle h.1))
      (λ r _ h. (
        (All-filter _ _ l.pool.idle h.0.0, has_byte-others_le s r _ h.0.1, h.0.2),
        others-Unsure s r _ h.1,
      ))
      t.conn)

pub Reach-IsTracked : {l m : Lock} → IsTracked l → Reach l m → IsTracked m
Reach-IsTracked t here = t
Reach-IsTracked t (next r st) = Step-IsTracked st (Reach-IsTracked t r)

-- Each session that holds the lock is the lock connection, and is not in the pool. The flag says
-- whether there is one.
abbrev pub NoneStranded : Lock → Type 0
NoneStranded l =
    All (λ s. (l.lock_conn ≡ some s) × (has_byte l.pool.idle s ≡ false)) l.pool.grants
    × (l.is_lock_acquired ≡ is_some l.lock_conn)

IsTracked-NoneStranded : (l : Lock) → IsTracked l → NoneStranded l
IsTracked-NoneStranded l t = (grants_of l.pool l.lock_conn t.conn, t.flag)
  where
    grants_of :
        (w : Pool) (o : Option ℕ)
        → Tracks o w
        → All (λ s. (o ≡ some s) × (has_byte w.idle s ≡ false)) w.grants
    grants_of w none h = rw h.0 tt
    grants_of w (some s) (h, inl e) = rw e tt
    grants_of w (some s) (h, inr e) = rw e ((refl, h.1), tt)

-- From a new `Postgres` on, through any calls of `AcquireLock` and `ReleaseLock`, whatever the network
-- does during each, with other queries at work on the pool and sessions ended by the server: each
-- session of the program that holds the lock is the lock connection, which is not in the pool, and
-- the flag says whether there is a lock connection.
pub Reach-NoneStranded :
    (cfg : LockConfig) (pool : Pool) {l : Lock}
    → IsFree pool
    → Reach (new_postgres_from_db pool cfg) l
    → NoneStranded l
unfolding new_postgres_from_db
Reach-NoneStranded cfg pool {l} free r =
    IsTracked-NoneStranded l (Reach-IsTracked (record { flag = refl; conn = free }) r)
