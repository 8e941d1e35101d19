-- ===== src/Lock/Refinement.antt =====
-- The lock of internal/db/postgres.go as a client sees it: a machine with the states free and held.
use pg_migrate.Prelude.{Bool, true, false, List, [], ◌∷◌, inl, inr}
use pg_migrate.Result.{Result, ok, err}
use pg_migrate.Error.{Error}
use pg_migrate.Lock.{Network, Lock}
use pg_migrate.Lock.Postgres.{acquire_lock, release_lock}
use pg_migrate.Lock.Tracking.{IsTracked, IsHeld, IsReleased, AcquireEnds}
use pg_migrate.Lock.Ending.{acquire_lock_ends, release_lock_ends, ReleaseEnds}

pub data LockCall : Type 0 where
  acquiring releasing : LockCall

-- A call, and whether it returns an error. To acquire a free lock may fail; a lock that is held is not
-- given again; to release a held lock always frees it, even with an error.
pub data Move : Bool → LockCall → Bool → Bool → Type 0 where
  taken : Move false acquiring true true
  not_taken : Move false acquiring false false
  still_held : Move true acquiring false true
  freed : (succeeded : Bool) → Move true releasing succeeded false
  not_held : Move false releasing false false

-- Moves in a row: calls, each with whether it succeeds.
pub data Moves : Bool → List (LockCall × Bool) → Bool → Type 0 where
  done : {b : Bool} → Moves b [] b
  move :
      {b c d : Bool} {call : LockCall} {succeeded : Bool} {calls : List (LockCall × Bool)}
      → Move b call succeeded c
      → Moves c calls d
      → Moves b ((call, succeeded) ∷ calls) d

abbrev pub succeeded : Result Error (Unit {0}) → Bool
succeeded (ok _) = true
succeeded (err e) = false

-- One call, with the network as it is during the call.
unfoldable pub run_call : Network × LockCall → Lock → Result Error (Unit {0}) × Lock
run_call (nw, acquiring) l = acquire_lock nw l
run_call (nw, releasing) l = release_lock nw l

-- Calls in a row: each with whether it succeeded, and the lock after the last.
unfoldable pub run_calls : List (Network × LockCall) → Lock → List (LockCall × Bool) × Lock
unfolding run_call
run_calls [] l = ([], l)
run_calls (c ∷ calls) l =
    let (r, l') = run_call c l in
    let (results, l'') = run_calls calls l' in ((c.1, succeeded r) ∷ results, l'')

-- What the two states of the machine stand for.
abbrev pub Represents : Bool → Lock → Type 0
Represents false l = IsTracked l × IsReleased l
Represents true l = IsTracked l × IsHeld l

abbrev Simulates : Bool → LockCall → Result Error (Unit {0}) × Lock → Type 0
Simulates b call (r, l) = (c : Bool) × Move b call (succeeded r) c × Represents c l

acquired-Simulates :
    (b : Bool) (l : Lock) (r : Result Error (Unit {0}) × Lock)
    → Represents b l
    → IsTracked r.1
    → AcquireEnds l r
    → Simulates b acquiring r
acquired-Simulates false l (ok _, l') h t (before, held) = (true, taken, (t, held))
acquired-Simulates false l (err e, l') h t (inl (flag, same)) = cc (h.1.1)
acquired-Simulates false l (err e, l') h t (inr (flag, free)) = (false, not_taken, (t, free))
acquired-Simulates true l (ok _, l') h t (before, held) = cc (h.1.2, before.1)
acquired-Simulates true l (err e, l') h t (inl (flag, same)) = (true, still_held, rw same h)
acquired-Simulates true l (err e, l') h t (inr (flag, free)) = cc (h.1.2)

released-Simulates :
    (b : Bool) (l : Lock) (r : Result Error (Unit {0}) × Lock)
    → Represents b l
    → IsTracked r.1
    → ReleaseEnds l r
    → Simulates b releasing r
released-Simulates false l (r, l') h t (inl (flag, refused, same)) =
    rw (refused, same) (false, not_held, h)
released-Simulates false l (r, l') h t (inr (flag, free)) = cc (h.1.1)
released-Simulates true l (r, l') h t (inl (flag, refused, same)) = cc (h.1.2)
released-Simulates true l (r, l') h t (inr (flag, free)) = (false, freed (succeeded r), (t, free))

Represents-IsTracked : (b : Bool) (l : Lock) → Represents b l → IsTracked l
Represents-IsTracked false l h = h.0
Represents-IsTracked true l h = h.0

run_call-Simulates :
    (b : Bool) (c : Network × LockCall) (l : Lock) → Represents b l → Simulates b c.1 (run_call c l)
unfolding run_call
run_call-Simulates b (nw, acquiring) l h =
    let (t, ends) = acquire_lock_ends nw l (Represents-IsTracked b l h) in
    acquired-Simulates b l (acquire_lock nw l) h t ends
run_call-Simulates b (nw, releasing) l h =
    let (t, ends) = release_lock_ends nw l (Represents-IsTracked b l h) in
    released-Simulates b l (release_lock nw l) h t ends

-- Whatever the network does during each call, a row of calls of `AcquireLock` and `ReleaseLock` does and
-- returns what the machine of a lock, free or held, may do; the lock is then as the machine's state
-- says.
pub run_calls-Moves :
    (calls : List (Network × LockCall)) (b : Bool) (l : Lock)
    → Represents b l
    → (c : Bool) × Moves b (run_calls calls l).0 c × Represents c (run_calls calls l).1
unfolding run_calls
run_calls-Moves [] b l h = (b, done, h)
run_calls-Moves (call ∷ calls) b l h =
    let (c, first, h') = run_call-Simulates b call l h in
    let (d, rest, h'') = run_calls-Moves calls c (run_call call l).1 h' in (d, move first rest, h'')
