-- ===== src/Executor/Progress.antt =====
-- How far `ExecutePlan` gets, and what it reports of that.
use pg_migrate.Prelude.{
  ◌≡◌, refl, ap, sym, ◌∙◌, inl, inr, Bool, true, false, not, ◌&&◌, ◌||◌, Option, none, some, List,
  [], ◌∷◌, ◌++◌, arith,
}
use pg_migrate.Result.{Result, ok, err}
use pg_migrate.Error.{Error}
use pg_migrate.Text.{Bytes, equal, contains, equal_iff}
use pg_migrate.Text.Unicode.{Unicode}
use pg_migrate.Migration.{Migration, migration_ids}
use pg_migrate.Database.{Db, Row, Server}
use pg_migrate.Executor.Apply.{apply_migration}
use pg_migrate.Executor.Rollback.{rollback_migration}
use pg_migrate.Executor.Plan.{
  rollback_loop, rolled_back_first, apply_loop, apply_found, applied_first, find_migration,
}
use pg_migrate.Executor.Ids.{
  is_recorded, Adds, Removes, is_recorded-apply_migration, is_recorded-rollback_migration,
  Adds-apply_migration, Removes-rollback_migration,
}

-- A loop over `ms` that has done `done` and stopped with `error`: what is done is a prefix, and all
-- of it if there is no error.
pub record Progress (ms : List Bytes) (done : List Bytes) (error : Option Error) : Type 0 where
  pub rest : List Bytes
  pub splits : ms ≡ done ++ rest
  pub complete : error ≡ none → rest ≡ []

Progress-stop : (ms : List Bytes) (e : Error) → Progress ms [] (some e)
Progress-stop ms e = record { rest = ms; splits = refl; complete = λ h. cc }

Progress-cons :
    {ms done : List Bytes} {error : Option Error} (m n : Bytes)
    → n ≡ m
    → Progress ms done error
    → Progress (m ∷ ms) (n ∷ done) error
Progress-cons {ms} {done} m n same p = record {
  rest = p.rest;
  splits = ap (◌∷◌ m) p.splits ∙ ap (λ id. id ∷ done ++ p.rest) (sym same);
  complete = p.complete;
}

find_migration-id :
    (id : Bytes) (ms : List Migration) {m : Migration} → find_migration id ms ≡ some m → m.id ≡ id
unfolding find_migration
find_migration-id id [] e = cc
find_migration-id id (x ∷ ms) {m} e =
    look (λ h. find_migration-id id ms {m = m} h) (find_migration id ms) refl
  where
    look :
        ((h : find_migration id ms ≡ some m) → m.id ≡ id)
        → (o : Option Migration) → find_migration id ms ≡ o
        → m.id ≡ id
    look ih none absent = ground (arith, equal_iff x.id id, absent)
    look ih (some y) found = ih (ground (arith, found))

-- whether a list begins with this ID
abbrev pub heads : List Bytes → Bytes → Bool
heads [] k = false
heads (x ∷ xs) k = equal x k

-- A loop of rollbacks from the ledger `l₀` to `l`.
pub record RolledBack (ms : List Migration) (l₀ : Option (List Row))
    (r : List Migration × Option Error) (l : Option (List Row)) : Type 0 where
  pub progress : Progress (migration_ids ms) (migration_ids r.0) r.1
  pub ids :
      r.1 ≡ none
      → (k : Bytes) → is_recorded l k ≡ (is_recorded l₀ k && not (contains (migration_ids ms) k))
  pub others :
      (k : Bytes)
      → heads progress.rest k ≡ false
      → is_recorded l k ≡ (is_recorded l₀ k && not (contains (migration_ids r.0) k))
  pub kept :
      (k : Bytes) → contains (migration_ids ms) k ≡ false → is_recorded l k ≡ is_recorded l₀ k

-- A loop of applies from the ledger `l₀` to `l`.
pub record AllApplied (ms : List Migration) (l₀ : Option (List Row))
    (r : List Migration × Option Error) (l : Option (List Row)) : Type 0 where
  pub progress : Progress (migration_ids ms) (migration_ids r.0) r.1
  pub ids :
      r.1 ≡ none
      → (k : Bytes) → is_recorded l k ≡ (is_recorded l₀ k || contains (migration_ids ms) k)
  pub others :
      (k : Bytes)
      → heads progress.rest k ≡ false
      → is_recorded l k ≡ (is_recorded l₀ k || contains (migration_ids r.0) k)
  pub kept : (k : Bytes) → is_recorded l₀ k ≡ true → is_recorded l k ≡ true

module _ {S : Type 0} (sv : Server S) (u : Unicode) where
  pub rollback_loop_lem :
      (ms : List Migration) (db : Db S)
      → RolledBack ms db.ledger (rollback_loop sv u ms db).0 (rollback_loop sv u ms db).1.ledger
  unfolding rollback_loop contains Progress-cons
  rollback_loop_lem [] db = record {
    progress = record { rest = []; splits = refl; complete = λ h. refl };
    ids = λ h k. ground arith;
    others = λ k h. ground arith;
    kept = λ k h. refl;
  }
  rollback_loop_lem (m ∷ ms) db =
      let (r, d) = rollback_migration sv u m.id db in go (λ d. rollback_loop_lem ms d) r d refl
    where
      go :
          ((d : Db S)
            → RolledBack ms d.ledger (rollback_loop sv u ms d).0 (rollback_loop sv u ms d).1.ledger)
          → (r : Result Error (Unit {0})) (d : Db S) → rollback_migration sv u m.id db ≡ (r, d)
          → RolledBack
              (m ∷ ms)
              db.ledger
              (rolled_back_first sv u m (λ d. rollback_loop sv u ms d) r d).0
              (rolled_back_first sv u m (λ d. rollback_loop sv u ms d) r d).1.ledger
      go ih (ok a) d e = record {
        progress = Progress-cons m.id m.id refl (ih d).progress;
        ids =
            λ h k. ground (arith, (ih d).ids h k, is_recorded-rollback_migration sv u m.id db e k);
        others = λ k h.
            ground (arith, (ih d).others k h, is_recorded-rollback_migration sv u m.id db e k);
        kept = λ k h.
            ground (
              arith,
              (ih d).kept k (ground arith),
              is_recorded-rollback_migration sv u m.id db e k,
            );
      }
      go ih (err x) d e = record {
        progress = Progress-stop _ _;
        ids = λ h. cc;
        others = λ k h. same_unless k (ground arith) (Removes-rollback_migration sv u m.id db e k);
        kept = λ k h. unremoved k (ground arith) (Removes-rollback_migration sv u m.id db e k);
      }
        where
          unremoved :
              (k : Bytes)
              → equal m.id k ≡ false
              → Removes m.id db.ledger d.ledger k
              → is_recorded d.ledger k ≡ is_recorded db.ledger k
          unremoved k other (inl same) = same
          unremoved k other (inr gone) = ground (arith, gone)

          same_unless :
              (k : Bytes)
              → equal m.id k ≡ false
              → Removes m.id db.ledger d.ledger k
              → is_recorded d.ledger k ≡ (is_recorded db.ledger k && not false)
          same_unless k other h = ground (arith, unremoved k other h)

  pub apply_loop_lem :
      (all ms : List Migration) (db : Db S)
      → AllApplied ms db.ledger (apply_loop sv u all ms db).0 (apply_loop sv u all ms db).1.ledger
  unfolding apply_loop contains Progress-cons Progress-stop
  apply_loop_lem all [] db = record {
    progress = record { rest = []; splits = refl; complete = λ h. refl };
    ids = λ h k. ground arith;
    others = λ k h. ground arith;
    kept = λ k h. h;
  }
  apply_loop_lem all (m ∷ ms) db =
      look (λ d. apply_loop_lem all ms d) (find_migration m.id all) refl
    where
      go :
          ((d : Db S)
            → AllApplied ms d.ledger
                (apply_loop sv u all ms d).0
                (apply_loop sv u all ms d).1.ledger)
          → (full : Migration) → full.id ≡ m.id
          → (r : Result Error (Unit {0})) (d : Db S) → apply_migration sv u full db ≡ (r, d)
          → AllApplied
              (m ∷ ms)
              db.ledger
              (applied_first sv u full (λ d. apply_loop sv u all ms d) r d).0
              (applied_first sv u full (λ d. apply_loop sv u all ms d) r d).1.ledger
      go ih full same (ok a) d e = record {
        progress = Progress-cons m.id full.id same (ih d).progress;
        ids = λ h k. ground (arith, (ih d).ids h k, is_recorded-apply_migration sv u full db e k);
        others =
            λ k h. ground (arith, (ih d).others k h, is_recorded-apply_migration sv u full db e k);
        kept = λ k h. (ih d).kept k (ground (arith, is_recorded-apply_migration sv u full db e k));
      }
      go ih full same (err x) d e = record {
        progress = Progress-stop _ _;
        ids = λ h. cc;
        others =
            λ k h. alone k (ap (λ id. equal id k) same ∙ h) (Adds-apply_migration sv u full db e k);
        kept = λ k h. still k h (Adds-apply_migration sv u full db e k);
      }
        where
          alone :
              (k : Bytes)
              → equal full.id k ≡ false
              → Adds full.id db.ledger d.ledger k
              → is_recorded d.ledger k ≡ (is_recorded db.ledger k || false)
          alone k other (inl as_was) = ground (arith, as_was)
          alone k other (inr added) = ground (arith, added)

          still :
              (k : Bytes)
              → is_recorded db.ledger k ≡ true
              → Adds full.id db.ledger d.ledger k
              → is_recorded d.ledger k ≡ true
          still k there (inl as_was) = as_was ∙ there
          still k there (inr added) = ground (arith, added)

      look :
          ((d : Db S)
            → AllApplied ms d.ledger
                (apply_loop sv u all ms d).0
                (apply_loop sv u all ms d).1.ledger)
          → (o : Option Migration) → find_migration m.id all ≡ o
          → AllApplied
              (m ∷ ms)
              db.ledger
              (apply_found sv u m.id (λ d. apply_loop sv u all ms d) o db).0
              (apply_found sv u m.id (λ d. apply_loop sv u all ms d) o db).1.ledger
      look ih none e = record {
        progress = Progress-stop _ _;
        ids = λ h. cc;
        others = λ k h. ground arith;
        kept = λ k h. h;
      }
      look ih (some full) e =
          let (r, d) = apply_migration sv u full db in
          go ih full (find_migration-id m.id all e) r d refl
