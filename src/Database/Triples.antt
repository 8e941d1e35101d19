-- ===== src/Database/Triples.antt =====
-- What an action establishes of schema and ledger: a triple of what holds before, after a result
-- and after an error. One rule for each way to build an action.
use pg_migrate.Prelude.{◌≡◌, refl, Bool, true, false, if◌then◌else◌, Option, List, ℕ}
use pg_migrate.Result.{Result, ok, err}
use pg_migrate.Error.{Error, Context, wrap, driver_error, begin_tx, commit_tx}
use pg_migrate.Database.{Db, Row, Server, Reply, served, refused, lost}
use pg_migrate.Database.Calls.{
  M, pure, raise, lift, wrapping, attempt, ◌>>=◌, call, respond, count_call, in_transaction, settle,
  commit, continue,
}

-- A statement about the schema and the ledger. The count of calls and the sequence are left out.
abbrev pub Pred : Type 0 → Type 1
Pred S = S → Option (List Row) → Type 0

abbrev pub Post : {S A : Type 0} → (A → Pred S) → (Error → Pred S) → Result Error A → Pred S
Post Q E (ok a) = Q a
Post Q E (err e) = E e

-- A driver error, after which `P` holds.
abbrev pub DriverError : {S : Type 0} → Pred S → Error → Pred S
DriverError P e s l = (n : ℕ) × (e ≡ driver_error n) × P s l

pub record Triple {S A : Type 0} (P : Pred S) (m : M S A) (Q : A → Pred S) (E : Error → Pred S)
    : Type 0 where
  pub at : (db : Db S) → P db.schema db.ledger → Post Q E (m db).0 (m db).1.schema (m db).1.ledger

module _ {S A : Type 0} {P : Pred S} {Q : A → Pred S} {E : Error → Pred S} where
  pub Triple-pure :
      (a : A) → ((s : S) (l : Option (List Row)) → P s l → Q a s l) → Triple P (pure a) Q E
  unfolding pure
  Triple-pure a f = record { at = λ db h. f db.schema db.ledger h }

  pub Triple-raise :
      (e : Error) → ((s : S) (l : Option (List Row)) → P s l → E e s l) → Triple P (raise e) Q E
  unfolding raise
  Triple-raise e f = record { at = λ db h. f db.schema db.ledger h }

  pub Triple-lift :
      (r : Result Error A)
      → ((s : S) (l : Option (List Row)) → P s l → Post Q E r s l)
      → Triple P (lift r) Q E
  unfolding lift
  Triple-lift r f = record { at = λ db h. f db.schema db.ledger h }

  pub Triple-wrapping :
      (c : Context) (m : M S A) → Triple P m Q (λ e. E (wrap c e)) → Triple P (wrapping c m) Q E
  unfolding wrapping
  Triple-wrapping c m t = record { at = λ db h. let (r, d) = m db in go r d (t.at db h) }
    where
      go :
          (r : Result Error A) (d : Db S)
          → Post Q (λ e. E (wrap c e)) r d.schema d.ledger
          → Post Q E (wrapping c (λ _. (r, d)) d).0 d.schema d.ledger
      go (ok a) d h = h
      go (err e) d h = h

  pub Triple-if :
      (b : Bool) (m n : M S A)
      → (b ≡ true → Triple P m Q E)
      → (b ≡ false → Triple P n Q E)
      → Triple P (if b then m else n) Q E
  Triple-if true m n tm tn = tm refl
  Triple-if false m n tm tn = tn refl

  -- A call of the driver, whose operation leaves things as they are if it fails. `E` holds where
  -- nothing changed, and where the effect is there and its answer is lost.
  pub Triple-call :
      (sv : Server S) (op : M S A)
      → Triple P op Q (DriverError P)
      → ((n : ℕ) (s : S) (l : Option (List Row)) → P s l → E (driver_error n) s l)
      → ((n : ℕ) (a : A) (s : S) (l : Option (List Row)) → Q a s l → E (driver_error n) s l)
      → Triple P (call sv op) Q E
  unfolding call
  Triple-call sv op t fails loses = record { at = λ db h. go (sv.reply db.calls) db h }
    where
      answer :
          (r : Result Error A) (d : Db S)
          → Post Q (DriverError P) r d.schema d.ledger
          → Post Q E r d.schema d.ledger
      answer (ok a) d h = h
      answer (err e) d h = rw h.1 (fails h.0 d.schema d.ledger h.2)

      no_answer :
          (n : ℕ) (r : Result Error A) (d : Db S)
          → Post Q (DriverError P) r d.schema d.ledger
          → E (driver_error n) d.schema d.ledger
      no_answer n (ok a) d h = loses n a d.schema d.ledger h
      no_answer n (err e) d h = fails n d.schema d.ledger h.2

      go :
          (rep : Reply) (db : Db S)
          → P db.schema db.ledger
          → Post Q E
              (respond rep db.calls (op (count_call db)) (count_call db)).0
              (respond rep db.calls (op (count_call db)) (count_call db)).1.schema
              (respond rep db.calls (op (count_call db)) (count_call db)).1.ledger
      go served db h = let (r, d) = op (count_call db) in answer r d (t.at (count_call db) h)
      go refused db h = fails db.calls db.schema db.ledger h
      go lost db h =
          let (r, d) = op (count_call db) in no_answer db.calls r d (t.at (count_call db) h)

module _ {S A : Type 0} {P : Pred S} {Q : A → Pred S} {E : Error → Pred S} where
  -- After `attempt` the error is a value.
  pub Triple-attempt :
      {E' : Error → Pred S} (m : M S A) → Triple P m Q E → Triple P (attempt m) (Post Q E) E'
  unfolding attempt
  Triple-attempt m t = record { at = t.at }

module _ {S A K : Type 0} {P : Pred S} {Q : A → Pred S} {E : Error → Pred S} where
  -- What the state before says of other things may be assumed.
  pub Triple-assume : (m : M S A) → (K → Triple P m Q E) → Triple (λ s l. P s l × K) m Q E
  Triple-assume m t = record { at = λ db h. (t h.1).at db h.0 }

module _ {S A : Type 0} {P : Pred S} {Q R : A → Pred S} {E F : Error → Pred S} where
  pub Triple-mono :
      (m : M S A)
      → Triple P m Q E
      → ((a : A) (s : S) (l : Option (List Row)) → Q a s l → R a s l)
      → ((e : Error) (s : S) (l : Option (List Row)) → E e s l → F e s l)
      → Triple P m R F
  Triple-mono m t q e = record { at = λ db h. let (r, d) = m db in go r d (t.at db h) }
    where
      go :
          (r : Result Error A) (d : Db S)
          → Post Q E r d.schema d.ledger
          → Post R F r d.schema d.ledger
      go (ok a) d h = q a d.schema d.ledger h
      go (err x) d h = e x d.schema d.ledger h

module _ {S A B : Type 0} {P : Pred S} {Q : A → Pred S} {R : B → Pred S} {E : Error → Pred S} where
  pub Triple-bind :
      (m : M S A) (f : A → M S B)
      → Triple P m Q E
      → ((a : A) → Triple (Q a) (f a) R E)
      → Triple P (m >>= f) R E
  unfolding ◌>>=◌
  Triple-bind m f t k = record { at = λ db h. let (r, d) = m db in go r d (t.at db h) }
    where
      go :
          (r : Result Error A) (d : Db S)
          → Post Q E r d.schema d.ledger
          → Post R E (continue r f d).0 (continue r f d).1.schema (continue r f d).1.ledger
      go (ok a) d h = (k a).at d h
      go (err e) d h = h

module _ {S A : Type 0} {P : Pred S} {Q : A → Pred S} {E E' : Error → Pred S} where
  -- A transaction: what held at its begin holds again if it fails, unless the answer of the commit
  -- is lost.
  pub Triple-in_transaction :
      (sv : Server S) (body : M S A)
      → Triple P body Q E'
      → ((e : Error) (s : S) (l : Option (List Row)) → P s l → E e s l)
      → ((n : ℕ) (a : A) (s : S) (l : Option (List Row))
          → sv.reply n ≡ lost
          → Q a s l
          → E (wrap commit_tx (driver_error n)) s l)
      → Triple P (in_transaction sv body) Q E
  unfolding in_transaction
  Triple-in_transaction sv body t fails loses =
      Triple-bind (wrapping begin_tx (call sv (pure tt))) _
        (Triple-wrapping begin_tx _ (
          Triple-call {Q = λ _. P} sv (pure tt) (Triple-pure tt (λ s l h. h))
            (λ n. fails (wrap begin_tx (driver_error n))) (λ n a. fails _)))
        (λ _. record { at = λ db h. let (r, d) = body db in finish r db d h (t.at db h) })
    where
      committed :
          (rep : Reply) (a : A) (before d : Db S)
          → sv.reply d.calls ≡ rep
          → P before.schema before.ledger
          → Q a d.schema d.ledger
          → Post Q E
              (commit rep a before d).0
              (commit rep a before d).1.schema
              (commit rep a before d).1.ledger
      committed served a before d w p h = h
      committed refused a before d w p h = fails _ before.schema before.ledger p
      committed lost a before d w p h = loses d.calls a d.schema d.ledger w h

      finish :
          (r : Result Error A) (before d : Db S)
          → P before.schema before.ledger
          → Post Q E' r d.schema d.ledger
          → Post Q E
              (settle sv before (r, d)).0
              (settle sv before (r, d)).1.schema
              (settle sv before (r, d)).1.ledger
      finish (ok a) before d p h = committed (sv.reply d.calls) a before d refl p h
      finish (err e) before d p h = fails e before.schema before.ledger p
