-- ===== src/Service/Runs.antt =====
-- How an outcome of an operation is established: through its first steps, and through the lock.
use pg_migrate.Prelude.{Option, some, List, ◌≡◌, refl}
use pg_migrate.Result.{Result, ok, err}
use pg_migrate.Error.{Error, wrap, acquire_lock}
use pg_migrate.Database.{Db, Row}
use pg_migrate.Database.Calls.{M, Run, run_after}
use pg_migrate.Database.Triples.{Pred, Post, Triple}
use pg_migrate.Service.Operations.{Locker, with_lock}

-- A statement about what a run reports and the schema and ledger that it leaves.
abbrev pub Goal : Type 0 → Type 0 → Type 1
Goal S R = R × Option Error → Pred S

abbrev pub Ends : {S R : Type 0} → Goal S R → (R × Option Error) × Db S → Type 0
Ends G x = G x.0 x.1.schema x.1.ledger

module _ {S A R : Type 0} {P : Pred S} {Q : A → Pred S} {E : Error → Pred S} (G : Goal S R) where
  pub run_after-Ends :
      (r : R) (m : M S A) (f : A → Run S R)
      → Triple P m Q E
      → ((a : A) (d : Db S) → Q a d.schema d.ledger → Ends G (f a d))
      → ((e : Error) (s : S) (l : Option (List Row)) → E e s l → G (r, some e) s l)
      → (db : Db S) → P db.schema db.ledger
      → Ends G (run_after r m f db)
  run_after-Ends r m f t then_ends else_ends db p = let (a, d) = m db in go a d (t.at db p)
    where
      go :
          (a : Result Error A) (d : Db S)
          → Post Q E a d.schema d.ledger
          → Ends G (run_after r (λ _. (a, d)) f db)
      go (ok a) d h = then_ends a d h
      go (err e) d h = else_ends e d.schema d.ledger h

  -- The same, where the error of the first steps is theirs.
  pub run_after-Ends_because :
      (r : R) (m : M S A) (f : A → Run S R) (db : Db S)
      → Triple P m Q E
      → P db.schema db.ledger
      → ((a : A) (d : Db S) → Q a d.schema d.ledger → Ends G (f a d))
      → ((e : Error) (d : Db S)
          → (m db).0 ≡ err e
          → E e d.schema d.ledger
          → Ends G ((r, some e), d))
      → Ends G (run_after r m f db)
  run_after-Ends_because r m f db t p then_ends else_ends =
      let (a, d) = m db in go a d refl (t.at db p)
    where
      go :
          (a : Result Error A) (d : Db S)
          → (m db).0 ≡ a
          → Post Q E a d.schema d.ledger
          → Ends G (run_after r (λ _. (a, d)) f db)
      go (ok a) d same h = then_ends a d h
      go (err e) d same h = else_ends e d same h

module _ {S L R : Type 0} (G : Goal S R) where
  pub with_lock-Ends :
      (lk : Locker L) (r : R) (body : Run S R) (l : L) (db : Db S)
      → Ends G (body db)
      → ((e : Error) → G (r, some (wrap acquire_lock e)) db.schema db.ledger)
      → Ends G ((with_lock lk r body l db).0, (with_lock lk r body l db).2)
  unfolding with_lock
  with_lock-Ends lk r body l db runs fails = let (got, held) = lk.acquire_lock l in go got held
    where
      go :
          (got : Result Error (Unit {0})) (held : L)
          → Ends G (
            (with_lock
                (record { acquire_lock = λ _. (got, held); release_lock = lk.release_lock })
                r
                body
                l
                db).0,
            (with_lock
                (record { acquire_lock = λ _. (got, held); release_lock = lk.release_lock })
                r
                body
                l
                db).2,
          )
      go (ok a) held = runs
      go (err e) held = fails e
