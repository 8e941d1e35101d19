-- ===== src/Executor/Outcome.antt =====
-- What `ExecutePlan` reports, and what the ledger then holds.
use pg_migrate.Prelude.{
  ◌≡◌, refl, sym, ◌∙◌, ◌⊎◌, inl, inr, Bool, true, false, not, ◌&&◌, ◌||◌, Option, none, some, List,
  [], ◌∷◌, ◌++◌, ap, arith, is_nil, if◌then◌else◌, append-nil,
}
use pg_migrate.Result.{Result, ok, err}
use pg_migrate.Error.{Error}
use pg_migrate.Text.{Bytes, contains}
use pg_migrate.Text.Unicode.{Unicode}
use pg_migrate.Migration.{Migration, migration_ids}
use pg_migrate.Planner.{MigrationPlan}
use pg_migrate.Database.{Db, Row, Server}
use pg_migrate.Database.Calls.{run_after, done_with}
use pg_migrate.Database.Triples.{Post}
use pg_migrate.Executor.Rollback.{ensure_reversible}
use pg_migrate.Executor.Plan.{
  ExecutionResult, nothing_done, rollback_loop, apply_loop, apply_after, run_plan, execute_plan,
}
use pg_migrate.Executor.Ids.{is_recorded}
use pg_migrate.Executor.Progress.{
  Progress, heads, RolledBack, AllApplied, rollback_loop_lem, apply_loop_lem,
}
use pg_migrate.Executor.Reversible.{AllReversible, ensure_reversible_ends}

-- What `ExecutePlan` did, which reported `r` and took the ledger from `l₀` to `l`: what it rolled
-- back and what it applied begin the plan's lists, it applies only once all is rolled back, and
-- without an error both lists are done and the recorded IDs have changed by them.
pub record Executed (plan : MigrationPlan) (l₀ : Option (List Row))
    (r : ExecutionResult × Option Error) (l : Option (List Row)) : Type 0 where
  pub back : Progress (migration_ids plan.to_rollback) (migration_ids r.0.rolled_back) r.1
  pub forward : Progress (migration_ids plan.to_apply) (migration_ids r.0.applied) r.1
  pub in_order :
      (r.0.applied ≡ []) ⊎ (migration_ids r.0.rolled_back ≡ migration_ids plan.to_rollback)
  pub ids :
      r.1 ≡ none
      → (k : Bytes)
      → is_recorded l k ≡ (
          is_recorded l₀ k && not (contains (migration_ids plan.to_rollback) k)
          || contains (migration_ids plan.to_apply) k)
  pub others :
      (k : Bytes)
      → heads (back.rest ++ forward.rest) k ≡ false
      → is_recorded l k ≡ (
          is_recorded l₀ k && not (contains (migration_ids r.0.rolled_back) k)
          || contains (migration_ids r.0.applied) k)
  pub kept :
      (k : Bytes)
      → contains (migration_ids plan.to_rollback) k ≡ false
      → is_recorded l₀ k ≡ true
      → is_recorded l k ≡ true

or_false : (b : Bool) → (b || false) ≡ b
or_false true = refl
or_false false = refl

not_first :
    (rest more : List Bytes) (k : Bytes) → heads (rest ++ more) k ≡ false → heads rest k ≡ false
not_first [] more k h = refl
not_first (x ∷ rest) more k h = h

none_first : (rest : List Bytes) (k : Bytes) → rest ≡ [] → heads rest k ≡ false
none_first [] k h = refl
none_first (x ∷ rest) k h = cc

past :
    (rest more : List Bytes) (k : Bytes)
    → rest ≡ []
    → heads (rest ++ more) k ≡ false
    → heads more k ≡ false
past [] more k e h = h
past (x ∷ rest) more k e h = cc

pub Progress-all :
    {ms done : List Bytes} (error : Option Error) → Progress ms done none → Progress ms done error
Progress-all error p = record { rest = p.rest; splits = p.splits; complete = λ h. p.complete refl }

Progress-done : {ms done : List Bytes} → Progress ms done none → done ≡ ms
Progress-done {ms} {done} p = sym (p.splits ∙ rw (p.complete refl) (append-nil done))

pub Progress-none : (ms : List Bytes) (e : Error) → Progress ms [] (some e)
Progress-none ms e = record { rest = ms; splits = refl; complete = λ h. cc }

module _ {S : Type 0} (sv : Server S) (u : Unicode) where
  run_plan_lem :
      (plan : MigrationPlan) (all : List Migration) (db : Db S)
      → Executed plan db.ledger (run_plan sv u plan all db).0 (run_plan sv u plan all db).1.ledger
  unfolding Progress-all contains
  run_plan_lem plan all db =
      let (r, d) = rollback_loop sv u plan.to_rollback db in
      after (r.0) (r.1) d (rollback_loop_lem sv u plan.to_rollback db)
    where
      after :
          (done : List Migration) (e : Option Error) (d : Db S)
          → RolledBack plan.to_rollback db.ledger (done, e) d.ledger
          → Executed plan db.ledger
              (apply_after sv u all plan.to_apply (done, e) d).0
              (apply_after sv u all plan.to_apply (done, e) d).1.ledger
      after done (some e) d h = record {
        back = h.progress;
        forward = Progress-none _ e;
        in_order = inl refl;
        ids = λ n. cc;
        others = λ k other. h.others k (not_first h.progress.rest _ k other) ∙ sym (or_false _);
        kept = λ k other there. h.kept k other ∙ there;
      }
      after done none d h =
          let next : AllApplied plan.to_apply d.ledger (apply_loop sv u all plan.to_apply d).0
              (apply_loop sv u all plan.to_apply d).1.ledger =
            apply_loop_lem sv u all plan.to_apply d in
          record {
            back = Progress-all _ h.progress;
            forward = next.progress;
            in_order = inr (Progress-done h.progress);
            ids = λ n k. next.ids n k ∙ ground (arith, h.ids refl k);
            others = λ k other.
                next.others k (past h.progress.rest _ k (h.progress.complete refl) other)
                ∙ ap
                    (λ b. b || contains (migration_ids (apply_loop sv u all plan.to_apply d).0.0) k)
                    (h.others k (none_first h.progress.rest k (h.progress.complete refl)));
            kept = λ k other there. next.kept k (h.kept k other ∙ there);
          }

  -- `ExecutePlan` rolls back a beginning of the plan's first list and applies a beginning of the
  -- second, and it applies nothing before all of the first is rolled back. Without an error it has done
  -- both lists, and an ID is recorded exactly if it was and is not to roll back, or is to apply. With or
  -- without one, every ID but the one at which it stopped is recorded exactly if it was and is not
  -- reported as rolled back, or is reported as applied; and no ID outside the first list is lost.
  pub execute_plan_progress :
      (plan : MigrationPlan) (all : List Migration) (db : Db S)
      → Executed plan db.ledger
          (execute_plan sv u plan all db).0
          (execute_plan sv u plan all db).1.ledger
  unfolding execute_plan
  execute_plan_progress plan all db = choose (is_nil plan.to_rollback && is_nil plan.to_apply) refl
    where
      checked :
          (r : Result Error (Unit {0})) (d : Db S)
          → Post (λ _ s l. l ≡ db.ledger) (λ _ s l. l ≡ db.ledger) r d.schema d.ledger
          → Executed plan db.ledger
              (run_after nothing_done (λ _. (r, d)) (λ _. run_plan sv u plan all) db).0
              (run_after nothing_done (λ _. (r, d)) (λ _. run_plan sv u plan all) db).1.ledger
      checked (ok a) d h = rw (sym h) (run_plan_lem plan all d)
      checked (err e) d h = record {
        back = Progress-none _ e;
        forward = Progress-none _ e;
        in_order = inl refl;
        ids = λ n. cc;
        others = λ k other. rw (sym h) (unfold contains in ground arith);
        kept = λ k other there. rw (sym h) at there;
      }

      none_left : (ms : List Migration) → is_nil ms ≡ true → ms ≡ []
      none_left [] h = refl
      none_left (m ∷ ms) h = cc

      idle : (ms : List Migration) → is_nil ms ≡ true → Progress (migration_ids ms) [] none
      idle ms h = rw (none_left ms h) (record { rest = []; splits = refl; complete = λ k. refl })

      ledger_same :
          (r : Result Error (Unit {0})) (d : Db S)
          → Post
              (λ _ s l.
                (s ≡ db.schema)
                × (l ≡ db.ledger)
                × AllReversible db.ledger (migration_ids plan.to_rollback))
              (λ _ s l. (s ≡ db.schema) × (l ≡ db.ledger))
              r
              d.schema
              d.ledger
          → Post (λ _ s l. l ≡ db.ledger) (λ _ s l. l ≡ db.ledger) r d.schema d.ledger
      ledger_same (ok a) d h = h.1
      ledger_same (err e) d h = h.1

      choose :
          (b : Bool)
          → (is_nil plan.to_rollback && is_nil plan.to_apply) ≡ b
          → Executed plan db.ledger
              ((if b
                  then done_with nothing_done
                  else run_after nothing_done
                      (ensure_reversible sv (migration_ids plan.to_rollback))
                      (λ _. run_plan sv u plan all))
                db).0
              ((if b
                  then done_with nothing_done
                  else run_after nothing_done
                      (ensure_reversible sv (migration_ids plan.to_rollback))
                      (λ _. run_plan sv u plan all))
                db).1.ledger
      choose true h = record {
        back = idle plan.to_rollback (ground arith);
        forward = idle plan.to_apply (ground arith);
        in_order = inl refl;
        ids = λ n k.
            rw (none_left plan.to_rollback (ground arith), none_left plan.to_apply (ground arith))
              (unfold contains in ground arith);
        others = λ k other. unfold contains in ground arith;
        kept = λ k other there. there;
      }
      choose false h =
          let (r, d) = ensure_reversible sv (migration_ids plan.to_rollback) db in
          checked r d
            (ledger_same r d (ensure_reversible_ends sv (migration_ids plan.to_rollback) db))
