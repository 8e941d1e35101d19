-- ===== src/Executor/Refusal.antt =====
-- `ExecutePlan` asks `EnsureReversible` before it changes anything.
use pg_migrate.Prelude.{
  ◌≡◌, refl, sym, ◌∙◌, inl, inr, Bool, true, false, ◌&&◌, Option, none, some, List, [], ◌∷◌, arith,
  is_nil, if◌then◌else◌, Bool-cases,
}
use mathlib.Core.Bool.{false≢true}
use pg_migrate.Result.{Result, ok, err}
use pg_migrate.Error.{Error}
use pg_migrate.Text.{Bytes, contains, equal, equal_iff}
use pg_migrate.Text.Unicode.{Unicode}
use pg_migrate.Migration.{Migration, migration_ids}
use pg_migrate.Planner.{MigrationPlan}
use pg_migrate.Database.{Db, Row, Server}
use pg_migrate.Database.Calls.{run_after, done_with}
use pg_migrate.Database.Triples.{Post}
use pg_migrate.Executor.Rollback.{ensure_reversible}
use pg_migrate.Executor.Plan.{nothing_done, run_plan, execute_plan}
use pg_migrate.Executor.Reversible.{AllReversible, reversible_in, ensure_reversible_ends}

abbrev pub is_error : Option Error → Bool
is_error none = false
is_error (some e) = true

-- A run that reports nothing done and an error, and leaves schema and ledger as they were.
pub record Refused {S R : Type 0} (nothing : R) (db : Db S) (x : (R × Option Error) × Db S)
    : Type 0 where
  pub result : x.0.0 ≡ nothing
  pub error : is_error x.0.1 ≡ true
  pub schema : x.1.schema ≡ db.schema
  pub ledger : x.1.ledger ≡ db.ledger

is_reversible_of-AllReversible :
    (l : Option (List Row)) (ids : List Bytes) (id : Bytes)
    → contains ids id ≡ true
    → AllReversible l ids
    → reversible_in l id ≡ true
unfolding contains
is_reversible_of-AllReversible l [] id h all = cc
is_reversible_of-AllReversible l (k ∷ ids) id h all = elim (Bool-cases (equal k id)) [
  | inl e ↦ rw ((equal_iff k id).0 e) at all.0
  | inr e ↦ is_reversible_of-AllReversible l ids id (ground arith) all.1
]

module _ {S : Type 0} (sv : Server S) (u : Unicode) where
  -- If the plan rolls back an ID whose recorded down script is marked irreversible or does not
  -- parse, then `ExecutePlan` reports an error and nothing done, and changes nothing.
  pub execute_plan_refuses :
      (plan : MigrationPlan) (all : List Migration) (db : Db S) (id : Bytes)
      → contains (migration_ids plan.to_rollback) id ≡ true
      → reversible_in db.ledger id ≡ false
      → Refused nothing_done db (execute_plan sv u plan all db)
  unfolding execute_plan contains
  execute_plan_refuses plan all db id there bad = start plan.to_rollback refl
    where
      checked :
          (ids : List Bytes)
          → contains ids id ≡ true
          → (r : Result Error (Unit {0})) (d : Db S)
          → Post
              (λ _ s l. (s ≡ db.schema) × (l ≡ db.ledger) × AllReversible db.ledger ids)
              (λ _ s l. (s ≡ db.schema) × (l ≡ db.ledger))
              r
              d.schema
              d.ledger
          → Refused nothing_done db
              (run_after nothing_done (λ _. (r, d)) (λ _. run_plan sv u plan all) db)
      checked ids has (ok a) d h =
          absurd (false≢true (sym bad ∙ is_reversible_of-AllReversible db.ledger ids id has h.2))
      checked ids has (err e) d h = record {
        result = refl;
        error = refl;
        schema = h.0;
        ledger = h.1;
      }

      start :
          (ms : List Migration)
          → plan.to_rollback ≡ ms
          → Refused nothing_done db (
              (if is_nil ms && is_nil plan.to_apply
                  then done_with nothing_done
                  else run_after nothing_done
                      (ensure_reversible sv (migration_ids ms))
                      (λ _. run_plan sv u plan all))
                db)
      start [] e = absurd (false≢true (rw e at there))
      start (m ∷ ms) e =
          let (r, d) = ensure_reversible sv (migration_ids (m ∷ ms)) db in
          checked (migration_ids (m ∷ ms)) (rw e at there) r d
            (ensure_reversible_ends sv (migration_ids (m ∷ ms)) db)
