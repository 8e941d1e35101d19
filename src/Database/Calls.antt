-- ===== src/Database/Calls.antt =====
-- Methods that call the driver and may fail: a result beside the database as it is then.
use pg_migrate.Prelude.{ℕ, ◌+◌, Option, none, some}
use pg_migrate.Result.{Result, ok, err}
use pg_migrate.Error.{Error, Context, driver_error, wrap, begin_tx, commit_tx}
use pg_migrate.Database.{Db, Server, Reply, served, refused, lost}

abbrev pub M : Type 0 → Type 0 → Type 0
M S A = Db S → Result Error A × Db S

abbrev wrap_result : {A : Type 0} → Context → Result Error A → Result Error A
wrap_result c (ok a) = ok a
wrap_result c (err e) = err (wrap c e)

abbrev pub count_call : {S : Type 0} → Db S → Db S
count_call db = record db { calls = db.calls + 1 }

-- What a rollback of the transaction that began at `before` leaves. The sequence and the count of
-- calls do not go back.
abbrev pub roll_back : {S : Type 0} → Db S → Db S → Db S
roll_back before db = record db { schema = before.schema; ledger = before.ledger }

module _ {S A : Type 0} where
  unfoldable pub pure : A → M S A
  pure a db = (ok a, db)

  unfoldable pub raise : Error → M S A
  raise e db = (err e, db)

  unfoldable pub lift : Result Error A → M S A
  lift r db = (r, db)

  -- `fmt.Errorf("...: %w", err)` on the way out
  unfoldable pub wrapping : Context → M S A → M S A
  wrapping c m db = let (r, db') = m db in (wrap_result c r, db')

  -- the error of a call as a value, for code that goes on after it
  unfoldable pub attempt : M S A → M S (Result Error A)
  attempt m db = let (r, db') = m db in (ok r, db')

module _ {S A B : Type 0} where
  abbrev pub continue : Result Error A → (A → M S B) → M S B
  continue (ok a) f db = f a db
  continue (err e) f db = (err e, db)

  infixl 5 ◌>>=◌
  -- opening this opens the five actions above too
  unfoldable pub ◌>>=◌ : M S A → (A → M S B) → M S B
  unfolding pure raise lift wrapping attempt
  ◌>>=◌ m f db = let (r, db') = m db in continue r f db'

module _ {S A : Type 0} where
  abbrev pub respond : Reply → ℕ → Result Error A × Db S → Db S → Result Error A × Db S
  respond served n done db = done
  respond refused n done db = (err (driver_error n), db)
  respond lost n done db = (err (driver_error n), done.1)

  -- one call of the driver; `op` is what the server does if the call reaches it
  unfoldable pub call : Server S → M S A → M S A
  call sv op db = respond (sv.reply db.calls) db.calls (op (count_call db)) (count_call db)

  -- An error of the server, which is the driver's error too.
  abbrev pub sql_error : M S A
  sql_error db = (err (driver_error db.calls), db)

  abbrev pub commit : Reply → A → Db S → Db S → Result Error A × Db S
  commit served a before db = (ok a, count_call db)
  commit refused a before db =
      (err (wrap commit_tx (driver_error db.calls)), roll_back before (count_call db))
  commit lost a before db = (err (wrap commit_tx (driver_error db.calls)), count_call db)

  abbrev pub settle : Server S → Db S → Result Error A × Db S → Result Error A × Db S
  settle sv before (ok a, db) = commit (sv.reply db.calls) a before db
  settle sv before (err e, db) = (err e, roll_back before db)

-- `BeginTx`, the body, `Commit`; the deferred `Rollback` undoes a body that failed. The rollback's
-- own call is not counted.
unfoldable pub in_transaction : {S A : Type 0} → Server S → M S A → M S A
in_transaction sv body = do
  _ ← wrapping begin_tx (call sv (pure tt))
  (λ db. settle sv db (body db))

-- A function that returns a value and an error together.
abbrev pub Run : Type 0 → Type 0 → Type 0
Run S R = Db S → (R × Option Error) × Db S

abbrev pub done_with : {S R : Type 0} → R → Run S R
done_with r db = ((r, none), db)

abbrev run_continue : {S A R : Type 0} → R → Result Error A → (A → Run S R) → Run S R
run_continue r (ok a) f db = f a db
run_continue r (err e) f db = ((r, some e), db)

-- `if err := m; err != nil { return r, err }`, and what follows
abbrev pub run_after : {S A R : Type 0} → R → M S A → (A → Run S R) → Run S R
run_after r m f db = let (a, db') = m db in run_continue r a f db'
