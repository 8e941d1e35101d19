-- ===== src/Executor/Removal.antt =====
-- Every way in which `RollbackMigration` can end, and what each leaves in schema and ledger.
use pg_migrate.Prelude.{
  ℕ, ◌≡◌, refl, sym, ◌∙◌, ◌⊎◌, inl, inr, Bool, true, false, Option, none, some, List, arith,
  if◌then◌else◌,
}
use pg_migrate.Result.{Result, ok, err}
use pg_migrate.Error.{
  Error, errors_is, wrap, driver_error, commit_tx, execute_down, no_pinned_conn, unrecorded,
  split_down, parse_down,
}
use pg_migrate.Text.{Bytes, contains}
use pg_migrate.Text.Unicode.{Unicode}
use pg_migrate.Directives.{parse_directive_header, notransaction}
use pg_migrate.Script.{split_sql_statements}
use pg_migrate.Database.{Db, Row, Server, without, mark, find_row, lost}
use pg_migrate.Database.Calls.{lift, wrapping, attempt}
use pg_migrate.Database.Table.{exec_script, delete_row, update_error, select_down_script}
use pg_migrate.Database.Triples.{
  Pred, Post, Triple, Triple-pure, Triple-raise, Triple-lift, Triple-wrapping, Triple-attempt,
  Triple-bind, Triple-if, Triple-mono, Triple-assume, Triple-in_transaction,
}
use pg_migrate.Database.Statements.{
  Triple-exec_script, Triple-delete_row, Triple-update_error, Triple-select_down_script,
}
use pg_migrate.Executor.Statements.{
  of_script, run_statements, on_pinned_conn, was_not_run, error_of,
}
use pg_migrate.Executor.Ran.{Ran, texts, RanOf, HasRun}
use pg_migrate.Executor.Pinned.{Same, on_pinned_conn-Triple, unrun, of_script-Post}
use pg_migrate.Executor.Rollback.{
  rollback_in_transaction, mark_failed, after_down, marked, or_unrecorded,
  rollback_without_transaction, roll_back_row, rollback_migration,
}

-- The ledger is what it was without the row of `id`.
pub record IsRemoved (l₀ : Option (List Row)) (id : Bytes) (l : Option (List Row)) : Type 0 where
  pub rows : List Row
  pub before : l₀ ≡ some rows
  pub after : l ≡ some (without id rows)

-- The row of `id` is stamped with an error, and all else in the ledger is what it was.
pub record IsMarked (l₀ : Option (List Row)) (id : Bytes) (e : Error) (l : Option (List Row))
    : Type 0 where
  pub rows : List Row
  pub before : l₀ ≡ some rows
  pub after : l ≡ some (mark id e rows)

-- The ledger is what it was, or an unanswered statement has removed or stamped the row.
abbrev pub IsUncertain : Option (List Row) → Bytes → Option (List Row) → Type 0
IsUncertain l₀ id l = (l ≡ l₀) ⊎ (IsRemoved l₀ id l ⊎ ((cause : Error) × IsMarked l₀ id cause l))

-- What a look for the row of `id` finds.
abbrev pub Stored : Option (List Row) → Bytes → Option Row → Type 0
Stored l₀ id found = (rows : List Row) × (l₀ ≡ some rows) × (find_row id rows ≡ found)

module _ {S : Type 0} (sv : Server S) (u : Unicode) (s₀ : S) (l₀ : Option (List Row)) where
  -- The down script of the row has run, and the row is gone.
  pub record RolledBackTo (id : Bytes) (s : S) (l : Option (List Row)) : Type 0 where
    pub row : Row
    pub removed : IsRemoved l₀ id l
    pub stored : Stored l₀ id (some row)
    pub ran : HasRun sv u row.down_script s₀ s

  -- What a `RollbackMigration` that returned `e` can leave: nothing; the effect of a success, if the
  -- error is that of a commit whose answer is lost; the row, stamped; or an ErrUnrecorded, and then
  -- the row is there, stamped or not, or its removal was not answered.
  pub data AfterRollbackError (id : Bytes) (e : Error) (s : S) (l : Option (List Row))
      : Type 0 where
    untouched : s ≡ s₀ → l ≡ l₀ → AfterRollbackError id e s l
    answer_lost :
        (n : ℕ)
        → e ≡ wrap commit_tx (driver_error n)
        → sv.reply n ≡ lost
        → RolledBackTo id s l
        → AfterRollbackError id e s l
    failure_recorded :
        (cause : Error)
        → e ≡ wrap execute_down cause
        → IsMarked l₀ id cause l
        → AfterRollbackError id e s l
    drifted : errors_is e unrecorded ≡ true → IsUncertain l₀ id l → AfterRollbackError id e s l

  abbrev Executed : Bytes → Bytes → Pred S
  Executed id sql s l = (sv.exec sql s₀ ≡ some s) × IsRemoved l₀ id l

  rollback_in_transaction-Triple :
      (id sql : Bytes)
      → Triple
          (Same s₀ l₀)
          (rollback_in_transaction sv id sql)
          (λ _. Executed id sql)
          (λ e s l.
            Same s₀ l₀ s l
            ⊎ ((n : ℕ) × (e ≡ wrap commit_tx (driver_error n))
                × (sv.reply n ≡ lost)
                × Executed id sql s l))
  unfolding rollback_in_transaction
  rollback_in_transaction-Triple id sql =
      Triple-in_transaction {E' = λ _ s l. Unit} sv _
        (Triple-bind (wrapping _ (exec_script sv sql)) _
          (Triple-wrapping _ _ (
            Triple-exec_script sv (λ s l. (sv.exec sql s₀ ≡ some s) × (l ≡ l₀)) sql
              (λ s t l runs h. (rw h.0 at runs, h.1)) (λ n s l h. tt) (λ n s l h. tt)))
          (λ _.
            Triple-bind {Q = λ _. Executed id sql} (wrapping _ (delete_row sv id)) _
              (Triple-wrapping _ _ (
                Triple-delete_row sv (λ _. Executed id sql) id
                  (λ rows s h. (h.0, record { rows = rows; before = sym h.1; after = refl }))
                  (λ n s l h. tt) (λ n b s l h. tt)))
              (λ _. Triple-pure tt (λ s l h. h))))
        (λ e s l h. inl h) (λ n a s l unanswered h. inr (n, refl, unanswered, h))

  mark_failed-Triple :
      (id : Bytes) (cause : Error)
      → Triple
          (λ s l. l ≡ l₀)
          (mark_failed sv id cause)
          (λ _ s l. IsMarked l₀ id cause l)
          (λ e s l. (errors_is e unrecorded ≡ true) × IsUncertain l₀ id l)
  unfolding mark_failed
  mark_failed-Triple id cause =
      Triple-bind (attempt (update_error sv id cause)) _
        (Triple-attempt (update_error sv id cause) (
          Triple-update_error sv {E = λ _ s l. IsUncertain l₀ id l} (λ s l. IsMarked l₀ id cause l)
            id cause (λ rows s h. record { rows = rows; before = sym h; after = refl })
            (λ n s l h. inl h) (λ n s l h. inr (inr (cause, h)))))
        answered
    where
      answered :
          (r : Result Error (Unit {0}))
          → Triple
              (Post (λ _ s l. IsMarked l₀ id cause l) (λ _ s l. IsUncertain l₀ id l) r)
              (or_unrecorded sv id r)
              (λ _ s l. IsMarked l₀ id cause l)
              (λ e s l. (errors_is e unrecorded ≡ true) × IsUncertain l₀ id l)
      answered (ok a) = Triple-pure tt (λ s l h. h)
      answered (err e) = Triple-raise _ (λ s l h. (unfold errors_is in refl, h))

  after_down-error :
      (id : Bytes) (cause : Error)
      → Triple
          (λ s l. l ≡ l₀)
          (after_down sv id (some cause))
          (λ _ s l. ⊥)
          (λ e s l. AfterRollbackError id e s l)
  after_down-error id cause =
      Triple-bind (attempt (mark_failed sv id cause)) _
        (Triple-attempt (mark_failed sv id cause) (mark_failed-Triple id cause)) answered
    where
      answered :
          (r : Result Error (Unit {0}))
          → Triple
              (Post
                (λ _ s l. IsMarked l₀ id cause l)
                (λ e s l. (errors_is e unrecorded ≡ true) × IsUncertain l₀ id l)
                r)
              (marked sv cause r)
              (λ _ s l. ⊥)
              (λ e s l. AfterRollbackError id e s l)
      answered (ok a) = Triple-raise _ (λ s l h. failure_recorded cause refl h)
      answered (err e) =
          Triple-raise _ (λ s l h. drifted (unfold errors_is in ground (arith, h.0)) h.1)

  after_down-success :
      (R : S → Type 0) (id : Bytes)
      → Triple
          (λ s l. R s × (l ≡ l₀))
          (after_down sv id none)
          (λ _ s l. R s × IsRemoved l₀ id l)
          (λ e s l. AfterRollbackError id e s l)
  after_down-success R id =
      Triple-bind (attempt (delete_row sv id)) _
        (Triple-attempt (delete_row sv id) (
          Triple-delete_row sv {E = λ _ s l. IsUncertain l₀ id l} (λ _ s l. R s × IsRemoved l₀ id l)
            id (λ rows s h. (h.0, record { rows = rows; before = sym h.1; after = refl }))
            (λ n s l h. inl h.1) (λ n b s l h. inr (inl h.1))))
        answered
    where
      answered :
          (r : Result Error Bool)
          → Triple
              (Post (λ _ s l. R s × IsRemoved l₀ id l) (λ _ s l. IsUncertain l₀ id l) r)
              (or_unrecorded sv id r)
              (λ _ s l. R s × IsRemoved l₀ id l)
              (λ e s l. AfterRollbackError id e s l)
      answered (ok a) = Triple-pure tt (λ s l h. h)
      answered (err e) = Triple-raise _ (λ s l h. drifted (unfold errors_is in refl) h)

  rollback_without_transaction-Triple :
      (id sql : Bytes)
      → Triple
          (Same s₀ l₀)
          (rollback_without_transaction sv u id sql)
          (λ _ s l. RanOf sv u sql s₀ s × IsRemoved l₀ id l)
          (λ e s l. AfterRollbackError id e s l)
  unfolding rollback_without_transaction
  rollback_without_transaction-Triple id sql =
      Triple-bind {Q = λ stmts s l. Same s₀ l₀ s l × (split_sql_statements u sql ≡ ok stmts)}
        (wrapping _ (lift (of_script (split_sql_statements u sql)))) _
        (Triple-wrapping _ _ (
          Triple-lift _ (λ s l h.
            of_script-Post (λ e s l. AfterRollbackError id (wrap (split_down id) e) s l)
              (split_sql_statements u sql) s l (λ e. untouched h.0 h.1) h)))
        (λ stmts. Triple-assume _ λ splits.
          Triple-bind (attempt (on_pinned_conn sv (run_statements sv 0 stmts))) _
            (Triple-attempt _ (on_pinned_conn-Triple sv l₀ s₀ stmts))
            (λ outcome. settled stmts splits outcome))
    where
      settled :
          (stmts : List Bytes)
          → split_sql_statements u sql ≡ ok stmts
          → (r : Result Error (Unit {0}))
          → Triple
              (Post
                (λ _ s l. Ran sv (texts stmts) s₀ s × (l ≡ l₀))
                (λ e s l. (l ≡ l₀) × ((errors_is e no_pinned_conn ≡ false) ⊎ (s ≡ s₀)))
                r)
              (if was_not_run r then lift r else after_down sv id (error_of r))
              (λ _ s l. RanOf sv u sql s₀ s × IsRemoved l₀ id l)
              (λ e s l. AfterRollbackError id e s l)
      settled stmts splits (ok a) =
          Triple-mono (after_down sv id none)
            (after_down-success (λ s. Ran sv (texts stmts) s₀ s) id)
            (λ a s l h. ((stmts, splits, h.0), h.1)) (λ e s l h. h)
      settled stmts splits (err e) =
          Triple-if (errors_is e no_pinned_conn) _ _
            (λ not_run.
              Triple-lift (err e) (λ s l h. untouched (unrun sv l₀ e s s₀ not_run h.1) h.0))
            (λ run. record {
              at = λ db h.
                  (Triple-mono (after_down sv id (some e)) (after_down-error id e)
                      (λ a s l k. absurd k) (λ x s l k. k)).at
                    db h.0;
            })

  of_row :
      (id : Bytes) (row : Row)
      → Stored l₀ id (some row)
      → Triple
          (Same s₀ l₀)
          (roll_back_row sv u id (some row))
          (λ _ s l. RolledBackTo id s l)
          (λ e s l. AfterRollbackError id e s l)
  of_row id row stored =
      Triple-bind
        {Q = λ both s l. Same s₀ l₀ s l × (parse_directive_header row.down_script ≡ ok both)}
        (wrapping _ (lift (of_script (parse_directive_header row.down_script)))) _
        (Triple-wrapping _ _ (
          Triple-lift _ (λ s l h.
            of_script-Post (λ e s l. AfterRollbackError id (wrap (parse_down id) e) s l)
              (parse_directive_header row.down_script) s l (λ e. untouched h.0 h.1) h)))
        (λ both. Triple-assume _ λ parses.
          Triple-if (contains both.0 notransaction) _ _
            (λ no_tx.
              Triple-mono _ (rollback_without_transaction-Triple id both.1)
                (λ a s l h. gone both.0 both.1 parses (inr (no_tx, h.0)) h.1) (λ e s l h. h))
            (λ tx.
              Triple-mono (rollback_in_transaction sv id both.1)
                (rollback_in_transaction-Triple id both.1)
                (λ a s l h. gone both.0 both.1 parses (inl (tx, h.0)) h.1)
                (λ e s l h. ended both.0 both.1 parses tx e h)))
    where
      gone :
          (directives : List Bytes) (sql : Bytes) {s : S} {l : Option (List Row)}
          → parse_directive_header row.down_script ≡ ok (directives, sql)
          → ((contains directives notransaction ≡ false) × (sv.exec sql s₀ ≡ some s))
            ⊎ ((contains directives notransaction ≡ true) × RanOf sv u sql s₀ s)
          → IsRemoved l₀ id l
          → RolledBackTo id s l
      gone directives sql parses runs removed = record {
        row = row;
        removed = removed;
        stored = stored;
        ran = record { directives = directives; sql = sql; parses = parses; runs = runs };
      }

      ended :
          (directives : List Bytes) (sql : Bytes)
          → parse_directive_header row.down_script ≡ ok (directives, sql)
          → contains directives notransaction ≡ false
          → (e : Error) {s : S} {l : Option (List Row)}
          → Same s₀ l₀ s l
            ⊎ ((n : ℕ) × (e ≡ wrap commit_tx (driver_error n))
                × (sv.reply n ≡ lost)
                × Executed id sql s l)
          → AfterRollbackError id e s l
      ended directives sql parses tx e (inl h) = untouched h.0 h.1
      ended directives sql parses tx e (inr (n, at_commit, unanswered, h)) =
          answer_lost n at_commit unanswered (gone directives sql parses (inl (tx, h.0)) h.1)

  pub rollback_migration-Triple :
      (id : Bytes)
      → Triple
          (Same s₀ l₀)
          (rollback_migration sv u id)
          (λ _ s l. RolledBackTo id s l)
          (λ e s l. AfterRollbackError id e s l)
  unfolding rollback_migration
  rollback_migration-Triple id =
      Triple-bind {Q = λ o s l. Same s₀ l₀ s l × Stored l₀ id o}
        (wrapping _ (select_down_script sv id)) _
        (Triple-wrapping _ _ (
          Triple-mono (select_down_script sv id)
            (Triple-select_down_script sv {E = λ _. Same s₀ l₀} id (λ n s l h. h))
            (λ o s l h. (h.0, (h.1.0, sym h.0.1 ∙ h.1.1, h.1.2))) (λ e s l h. untouched h.0 h.1)))
        (λ o. Triple-assume _ (found o))
    where
      found :
          (o : Option Row)
          → Stored l₀ id o
          → Triple
              (Same s₀ l₀)
              (roll_back_row sv u id o)
              (λ _ s l. RolledBackTo id s l)
              (λ e s l. AfterRollbackError id e s l)
      found none h = Triple-raise _ (λ s l h. untouched h.0 h.1)
      found (some r) h = of_row id r h

pub rollback_migration_ends :
    {S : Type 0} (sv : Server S) (u : Unicode) (id : Bytes) (db : Db S)
    → Post
        (λ _ s l. RolledBackTo sv u db.schema db.ledger id s l)
        (λ e s l. AfterRollbackError sv u db.schema db.ledger id e s l)
        (rollback_migration sv u id db).0
        (rollback_migration sv u id db).1.schema
        (rollback_migration sv u id db).1.ledger
rollback_migration_ends sv u id db =
    (rollback_migration-Triple sv u db.schema db.ledger id).at db (refl, refl)
