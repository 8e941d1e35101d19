-- ===== src/Executor/Ids.antt =====
-- Which IDs are recorded, before and after an operation on one migration.
use pg_migrate.Prelude.{
  ◌≡◌, refl, ap, ◌⊎◌, inl, inr, Bool, false, not, ◌&&◌, ◌||◌, Option, none, some, List, [], ◌∷◌,
  arith, Bool-cases,
}
use mathlib.Core.List.{map-append}
use pg_migrate.Result.{ok, err}
use pg_migrate.Error.{Error}
use pg_migrate.Text.{Bytes, equal, contains, contains-append, equal_iff}
use pg_migrate.Text.Unicode.{Unicode}
use pg_migrate.Migration.{Migration}
use pg_migrate.Database.{Db, Row, Server, row_ids, without, mark}
use pg_migrate.Executor.Apply.{apply_migration}
use pg_migrate.Executor.Rollback.{rollback_migration}
use pg_migrate.Executor.Atomicity.{
  IsRecorded, AfterError, untouched, answer_lost, failure_recorded, drifted, apply_migration_ends,
}
use pg_migrate.Executor.Removal.{IsRemoved, IsMarked, AfterRollbackError, rollback_migration_ends}
use pg_migrate.Executor.Removal

-- whether an ID is recorded in the ledger
abbrev pub is_recorded : Option (List Row) → Bytes → Bool
is_recorded none k = false
is_recorded (some rows) k = contains (row_ids rows) k

pub contains-without :
    (id k : Bytes) (rows : List Row)
    → contains (row_ids (without id rows)) k ≡ (contains (row_ids rows) k && not (equal id k))
unfolding contains without
contains-without id k [] = refl
contains-without id k (r ∷ rows) = elim (Bool-cases (equal r.id id)) [
  | inl e ↦ rw e (
      ground
        (arith, contains-without id k rows, equal_iff r.id id, equal_iff id k, equal_iff r.id k))
  | inr e ↦ rw e (
      ground
        (arith, contains-without id k rows, equal_iff r.id id, equal_iff id k, equal_iff r.id k))
]

is_recorded-IsRemoved :
    {l₀ l : Option (List Row)} (id k : Bytes)
    → IsRemoved l₀ id l
    → is_recorded l k ≡ (is_recorded l₀ k && not (equal id k))
is_recorded-IsRemoved id k h = rw (h.before, h.after) (contains-without id k h.rows)

is_recorded-IsRecorded :
    {l₀ l : Option (List Row)} {error : Option Error} (m : Migration) (k : Bytes)
    → IsRecorded l₀ m error l
    → is_recorded l k ≡ (is_recorded l₀ k || equal m.id k)
unfolding contains
is_recorded-IsRecorded m k h =
    rw (h.before, h.after) (rw (map-append, contains-append) (ground arith))

row_ids-mark : (id : Bytes) (e : Error) (rows : List Row) → row_ids (mark id e rows) ≡ row_ids rows
unfolding mark
row_ids-mark id e [] = refl
row_ids-mark id e (r ∷ rows) = elim (Bool-cases (equal r.id id)) [
  | inl same ↦ rw same (ap (◌∷◌ r.id) (row_ids-mark id e rows))
  | inr other ↦ rw other (ap (◌∷◌ r.id) (row_ids-mark id e rows))
]

is_recorded-IsMarked :
    {l₀ l : Option (List Row)} {cause : Error} (id k : Bytes)
    → IsMarked l₀ id cause l
    → is_recorded l k ≡ is_recorded l₀ k
is_recorded-IsMarked {cause} id k h =
    rw (h.before, h.after) (ap (λ ids. contains ids k) (row_ids-mark id cause h.rows))

-- Nothing but `id` has become recorded.
abbrev pub Adds : Bytes → Option (List Row) → Option (List Row) → Bytes → Type 0
Adds id l₀ l k =
    (is_recorded l k ≡ is_recorded l₀ k) ⊎ (is_recorded l k ≡ (is_recorded l₀ k || equal id k))

-- Nothing but `id` has become unrecorded.
abbrev pub Removes : Bytes → Option (List Row) → Option (List Row) → Bytes → Type 0
Removes id l₀ l k =
    (is_recorded l k ≡ is_recorded l₀ k)
    ⊎ (is_recorded l k ≡ (is_recorded l₀ k && not (equal id k)))

module _ {S : Type 0} (sv : Server S) (u : Unicode) where
  pub is_recorded-apply_migration :
      (m : Migration) (db : Db S) {d : Db S}
      → apply_migration sv u m db ≡ (ok tt, d)
      → (k : Bytes) → is_recorded d.ledger k ≡ (is_recorded db.ledger k || equal m.id k)
  is_recorded-apply_migration m db {d} e k =
      is_recorded-IsRecorded m k (rw e at (apply_migration_ends sv u m db)).1

  pub is_recorded-rollback_migration :
      (id : Bytes) (db : Db S) {d : Db S}
      → rollback_migration sv u id db ≡ (ok tt, d)
      → (k : Bytes) → is_recorded d.ledger k ≡ (is_recorded db.ledger k && not (equal id k))
  is_recorded-rollback_migration id db {d} e k =
      is_recorded-IsRemoved id k (rw e at (rollback_migration_ends sv u id db)).removed

  AfterError-Adds :
      {s₀ s : S} {l₀ l : Option (List Row)} (m : Migration) (e : Error) (k : Bytes)
      → AfterError sv u s₀ l₀ m e s l
      → Adds m.id l₀ l k
  AfterError-Adds m e k (untouched hs hl) = inl (ap (λ x. is_recorded x k) hl)
  AfterError-Adds m e k (answer_lost n at_commit unanswered h) =
      inr (is_recorded-IsRecorded m k h.1)
  AfterError-Adds m e k (failure_recorded h) = inr (is_recorded-IsRecorded m k h)
  AfterError-Adds m e k (drifted b (inl hl)) = inl (ap (λ x. is_recorded x k) hl)
  AfterError-Adds m e k (drifted b (inr (x, h))) = inr (is_recorded-IsRecorded m k h)

  AfterRollbackError-Removes :
      {s₀ s : S} {l₀ l : Option (List Row)} (id : Bytes) (e : Error) (k : Bytes)
      → AfterRollbackError sv u s₀ l₀ id e s l
      → Removes id l₀ l k
  AfterRollbackError-Removes id e k (Removal.untouched hs hl) = inl (ap (λ x. is_recorded x k) hl)
  AfterRollbackError-Removes id e k (Removal.answer_lost n at_commit unanswered h) =
      inr (is_recorded-IsRemoved id k h.removed)
  AfterRollbackError-Removes id e k (Removal.failure_recorded cause same h) =
      inl (is_recorded-IsMarked id k h)
  AfterRollbackError-Removes id e k (Removal.drifted b (inl hl)) =
      inl (ap (λ x. is_recorded x k) hl)
  AfterRollbackError-Removes id e k (Removal.drifted b (inr (inl h))) =
      inr (is_recorded-IsRemoved id k h)
  AfterRollbackError-Removes id e k (Removal.drifted b (inr (inr (cause, h)))) =
      inl (is_recorded-IsMarked id k h)

  -- An `ApplyMigration` that fails can have added its own ID.
  pub Adds-apply_migration :
      (m : Migration) (db : Db S) {e : Error} {d : Db S}
      → apply_migration sv u m db ≡ (err e, d)
      → (k : Bytes) → Adds m.id db.ledger d.ledger k
  Adds-apply_migration m db {e} {d} failed k =
      AfterError-Adds m e k (rw failed at (apply_migration_ends sv u m db))

  -- A `RollbackMigration` that fails can have removed its own ID.
  pub Removes-rollback_migration :
      (id : Bytes) (db : Db S) {e : Error} {d : Db S}
      → rollback_migration sv u id db ≡ (err e, d)
      → (k : Bytes) → Removes id db.ledger d.ledger k
  Removes-rollback_migration id db {e} {d} failed k =
      AfterRollbackError-Removes id e k (rw failed at (rollback_migration_ends sv u id db))
