-- ===== src/Lock/Calls.antt =====
-- The calls of the driver and the pool that the lock's code makes, on the pool and the server.
use pg_migrate.Prelude.{
  ℕ, zero, suc, ◌+◌, Bool, ◌||◌, Option, none, some, List, [], ◌∷◌, if◌then◌else◌, ◌==◌, ltb,
  is_nil,
}
use pg_migrate.Result.{Result, ok, err}
use pg_migrate.Error.{Error, Context, driver_error, wrap}
use pg_migrate.Database.{Reply, served, refused, lost}
use pg_migrate.Text.Space.{has_byte}
use pg_migrate.Lock.{Pool, Network, others}

abbrev pub M : Type 0 → Type 0
M A = Pool → Result Error A × Pool

module _ {A B : Type 0} where
  abbrev pub continue : Result Error A × Pool → (A → M B) → Result Error B × Pool
  continue (ok a, w) f = f a w
  continue (err e, w) f = (err e, w)

  infixl 5 ◌>>=◌
  abbrev pub ◌>>=◌ : M A → (A → M B) → M B
  ◌>>=◌ m f w = continue (m w) f

abbrev pub wrap_error : {A : Type 0} → Context → Result Error A × Pool → Result Error A × Pool
wrap_error c (ok a, w) = (ok a, w)
wrap_error c (err e, w) = (err (wrap c e), w)

abbrev pub wrapping : {A : Type 0} → Context → M A → M A
wrapping c m w = wrap_error c (m w)

abbrev pub count_call : Pool → Pool
count_call w = record w { calls = w.calls + 1 }

abbrev pub respond : {A : Type 0} → Reply → ℕ → Result Error A × Pool → Pool → Result Error A × Pool
respond served n done w = done
respond refused n done w = (err (driver_error n), w)
respond lost n done w = (err (driver_error n), done.1)

-- a call that is served, or has no effect, or has its effect while its answer is lost
abbrev pub call : {A : Type 0} → Network → M A → M A
call nw op w = respond (nw.reply w.calls) w.calls (op (count_call w)) (count_call w)

-- the item at this place
abbrev pub item_at : List ℕ → ℕ → Option ℕ
item_at [] i = none
item_at (x ∷ xs) zero = some x
item_at (x ∷ xs) (suc i) = item_at xs i

abbrev pub take_conn : Option ℕ → Pool → Result Error ℕ × Pool
take_conn none w = (ok w.next, record w { next = w.next + 1 })
take_conn (some s) w = (ok s, record w { idle = others s w.idle })

abbrev pub hand_out : Reply → Network → ℕ → Pool → Result Error ℕ × Pool
hand_out served nw n w = take_conn (item_at w.idle (nw.picks n)) w
hand_out _ nw n w = (err (driver_error n), w)

-- `db.Conn`: a connection of the pool, or a new one
unfoldable pub get_conn : Network → M ℕ
get_conn nw w = hand_out (nw.reply w.calls) nw w.calls (count_call w)

-- What the server or the pool does, if a call reaches it.
abbrev pub nothing : M (Unit {0})
nothing w = (ok tt, w)

abbrev pub put_back : ℕ → M (Unit {0})
put_back s w = (ok tt, record w { idle = s ∷ w.idle })

abbrev pub drop_all : ℕ → M (Unit {0})
drop_all s w = (ok tt, record w { grants = others s w.grants })

abbrev pub put_limit : ℕ → M (Unit {0})
put_limit m w = (ok tt, record w { limit = m })

-- `BeginTx`: the transaction starts with the session's `lock_timeout`
unfoldable pub begin_call : Network → M (Unit {0})
begin_call nw = call nw (put_limit nw.session_limit)

-- `SELECT set_config('lock_timeout', m, true)`
unfoldable pub set_limit_call : Network → ℕ → M (Unit {0})
set_limit_call nw m = call nw (put_limit m)

-- `Commit`: it leaves the lock of the session alone, and no call for the lock follows in the transaction
unfoldable pub plain_call : Network → M (Unit {0})
plain_call nw = call nw nothing

-- `conn.Close`: the connection goes back to the pool
unfoldable pub close_conn : Network → ℕ → M (Unit {0})
close_conn nw s = call nw (put_back s)

-- `sqlconn.Destroy`: the session ends, and with it its grants
unfoldable pub destroy : ℕ → Pool → Pool
destroy s w = record w { grants = others s w.grants }

-- one grant less
unfoldable pub remove_grant : ℕ → List ℕ → List ℕ
remove_grant s [] = []
remove_grant s (r ∷ grants) =
    let rest = remove_grant s grants in if r == s then grants else r ∷ rest

abbrev pub drop_one : ℕ → M Bool
drop_one s w = (ok (has_byte w.grants s), record w { grants = remove_grant s w.grants })

-- `SELECT pg_advisory_unlock`: whether the session held the lock
unfoldable pub advisory_unlock_call : Network → ℕ → M Bool
unfolding remove_grant has_byte
advisory_unlock_call nw s = call nw (drop_one s)

-- `SELECT pg_advisory_unlock_all()`
unfoldable pub unlock_all_call : Network → ℕ → M (Unit {0})
unlock_all_call nw s = call nw (drop_all s)

pub data Wait : Type 0 where
  granted_after : ℕ → Wait
  aborted_after : ℕ → Wait
  endless : Wait

-- `lock_timeout` of the server: a limit in milliseconds, where 0 is no limit
abbrev pub wait_for : ℕ → Option ℕ → Wait
wait_for limit none = if limit == 0 then endless else aborted_after limit
wait_for limit (some t) = if limit == 0 || ltb t limit then granted_after t else aborted_after limit

-- For how long other sessions keep the lock from session `s`. One session may take it twice.
abbrev pub kept_for : ℕ → List ℕ → Option ℕ → Option ℕ
kept_for s grants foreign =
    if has_byte grants s then some 0 else if is_nil grants then foreign else none

abbrev pub add_wait : Option ℕ → ℕ → Option ℕ
add_wait none t = none
add_wait (some n) t = some (n + t)

-- A wait with no end returns with the caller's context, and with an error.
abbrev pub wait_done : ℕ → Wait → ℕ → Pool → Result Error (Unit {0}) × Pool
wait_done s (granted_after t) n w =
    (ok tt, record w { grants = s ∷ w.grants; waited = add_wait w.waited t })
wait_done s (aborted_after t) n w =
    (err (driver_error n), record w { waited = add_wait w.waited t })
wait_done s endless n w = (err (driver_error n), record w { waited = none })

-- how long a call for the lock waits, under the limit in force
abbrev pub lock_wait : Network → ℕ → Pool → Wait
lock_wait nw s w = wait_for w.limit (kept_for s w.grants (nw.frees_after w.calls))

-- `SELECT pg_advisory_lock`
unfoldable pub advisory_lock_call : Network → ℕ → M (Unit {0})
unfolding has_byte
advisory_lock_call nw s w = call nw (wait_done s (lock_wait nw s w) w.calls) w
