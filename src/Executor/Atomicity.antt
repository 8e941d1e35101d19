-- ===== src/Executor/Atomicity.antt =====
-- Every way in which `ApplyMigration` can end, and what each leaves in schema and ledger.
use pg_migrate.Prelude.{
  ℕ, ◌≡◌, refl, ◌⊎◌, inl, inr, true, false, Option, none, some, List, [], ◌∷◌, ◌++◌, arith, sym,
  if◌then◌else◌,
}
use pg_migrate.Result.{Result, ok, err}
use pg_migrate.Error.{
  Error, errors_is, wrap, driver_error, commit_tx, no_pinned_conn, unrecorded, split_up, parse_up,
}
use pg_migrate.Text.{Bytes, contains}
use pg_migrate.Text.Unicode.{Unicode}
use pg_migrate.Migration.{Migration}
use pg_migrate.Directives.{parse_directive_header, notransaction}
use pg_migrate.Script.{split_sql_statements}
use pg_migrate.Database.{Db, Row, Server, new_row, can_insert, lost}
use pg_migrate.Database.Calls.{lift, wrapping, attempt}
use pg_migrate.Database.Table.{exec_script, insert_row}
use pg_migrate.Database.Triples.{
  Pred, Post, Triple, Triple-pure, Triple-raise, Triple-lift, Triple-wrapping, Triple-attempt,
  Triple-bind, Triple-if, Triple-mono, Triple-assume, Triple-in_transaction,
}
use pg_migrate.Database.Statements.{Triple-exec_script, Triple-insert_row}
use pg_migrate.Executor.Statements.{
  of_script, run_statements, on_pinned_conn, was_not_run, error_of,
}
use pg_migrate.Executor.Ran.{Ran, texts, RanOf, HasRun}
use pg_migrate.Executor.Pinned.{Same, on_pinned_conn-Triple, unrun, of_script-Post}
use pg_migrate.Executor.Apply.{
  apply_in_transaction, record_outcome, unrecorded_as, apply_without_transaction, apply_migration,
}

-- The ledger is what it was and a new last row for `m`, with this error column.
pub record IsRecorded (l₀ : Option (List Row)) (m : Migration) (error : Option Error)
    (l : Option (List Row)) : Type 0 where
  pub rows : List Row
  pub number : ℕ
  pub time : ℕ
  pub before : l₀ ≡ some rows
  pub was_new : can_insert rows m.id ≡ true
  pub after : l ≡ some (rows ++ new_row number time m error ∷ [])

module _ {S : Type 0} (sv : Server S) (u : Unicode) (s₀ : S) (l₀ : Option (List Row)) where
  -- The up script has run, and its row is there.
  abbrev pub Applied : Migration → Pred S
  Applied m s l = HasRun sv u m.up_script s₀ s × IsRecorded l₀ m none l

  -- What an `ApplyMigration` that returned `e` can leave: nothing; the effect of a success, if the
  -- error is that of a commit whose answer is lost; a row with the error; or an ErrUnrecorded, and then
  -- there is no row, or one whose insert was not answered.
  pub data AfterError (m : Migration) (e : Error) (s : S) (l : Option (List Row)) : Type 0 where
    untouched : s ≡ s₀ → l ≡ l₀ → AfterError m e s l
    answer_lost :
        (n : ℕ)
        → e ≡ wrap commit_tx (driver_error n)
        → sv.reply n ≡ lost
        → Applied m s l
        → AfterError m e s l
    failure_recorded : IsRecorded l₀ m (some e) l → AfterError m e s l
    drifted :
        errors_is e unrecorded ≡ true
        → (l ≡ l₀) ⊎ ((error : Option Error) × IsRecorded l₀ m error l)
        → AfterError m e s l

  -- What is left by the body in a transaction, whose script is `sql`.
  abbrev Executed : Migration → Bytes → Pred S
  Executed m sql s l = (sv.exec sql s₀ ≡ some s) × IsRecorded l₀ m none l

  apply_in_transaction-Triple :
      (m : Migration) (sql : Bytes)
      → Triple
          (Same s₀ l₀)
          (apply_in_transaction sv m sql)
          (λ _. Executed m sql)
          (λ e s l.
            Same s₀ l₀ s l
            ⊎ ((n : ℕ) × (e ≡ wrap commit_tx (driver_error n))
                × (sv.reply n ≡ lost)
                × Executed m sql s l))
  unfolding apply_in_transaction
  apply_in_transaction-Triple m sql =
      Triple-in_transaction {E' = λ _ s l. Unit} sv _
        (Triple-bind (wrapping _ (exec_script sv sql)) _
          (Triple-wrapping _ _ (
            Triple-exec_script sv (λ s l. (sv.exec sql s₀ ≡ some s) × (l ≡ l₀)) sql
              (λ s t l runs h. (rw h.0 at runs, h.1)) (λ n s l h. tt) (λ n s l h. tt)))
          (λ _. Triple-wrapping _ _ (
            Triple-insert_row sv (Executed m sql) m none
              (λ number time rows s new h. (
                h.0,
                record {
                  rows = rows;
                  number = number;
                  time = time;
                  before = sym h.1;
                  was_new = new;
                  after = refl;
                },
              ))
              (λ n s l h. tt) (λ n s l h. tt))))
        (λ e s l h. inl h) (λ n a s l unanswered h. inr (n, refl, unanswered, h))

  abbrev Inserted : Migration → Option Error → Pred S
  Inserted m error s l = IsRecorded l₀ m error l

  record_outcome-Triple :
      (R : S → Type 0) (m : Migration) (error : Option Error)
      → Triple
          (λ s l. R s × (l ≡ l₀))
          (record_outcome sv m error)
          (λ _ s l. (error ≡ none) × R s × IsRecorded l₀ m none l)
          (λ e s l. AfterError m e s l)
  unfolding record_outcome
  record_outcome-Triple R m error =
      Triple-bind (attempt (insert_row sv m error)) _
        (Triple-attempt (insert_row sv m error) (
          Triple-insert_row sv {E = λ _. Unanswered error} (λ s l. R s × IsRecorded l₀ m error l) m
            error
            (λ number time rows s new h. (
              h.0,
              record {
                rows = rows;
                number = number;
                time = time;
                before = sym h.1;
                was_new = new;
                after = refl;
              },
            ))
            (λ n s l h. inl h.1) (λ n s l h. inr (error, h.1))))
        (λ inserted. answered error inserted)
    where
      Unanswered : Option Error → Pred S
      Unanswered error s l = (l ≡ l₀) ⊎ ((x : Option Error) × IsRecorded l₀ m x l)

      answered :
          (error : Option Error) (r : Result Error (Unit {0}))
          → Triple
              (Post (λ _ s l. R s × IsRecorded l₀ m error l) (λ _. Unanswered error) r)
              (unrecorded_as sv m.id error r)
              (λ _ s l. (error ≡ none) × R s × IsRecorded l₀ m none l)
              (λ e s l. AfterError m e s l)
      answered none (ok a) = Triple-pure tt (λ s l h. (refl, h.0, h.1))
      answered (some e) (ok a) = Triple-raise e (λ s l h. failure_recorded h.1)
      answered none (err e) = Triple-raise _ (λ s l h. drifted (unfold errors_is in refl) h)
      answered (some x) (err e) =
          Triple-raise _ (λ s l h. drifted (unfold errors_is in ground arith) h)

  apply_without_transaction-Triple :
      (m : Migration) (sql : Bytes)
      → Triple
          (Same s₀ l₀)
          (apply_without_transaction sv u m sql)
          (λ _ s l. RanOf sv u sql s₀ s × IsRecorded l₀ m none l)
          (λ e s l. AfterError m e s l)
  unfolding apply_without_transaction
  apply_without_transaction-Triple m sql =
      Triple-bind {Q = λ stmts s l. Same s₀ l₀ s l × (split_sql_statements u sql ≡ ok stmts)}
        (wrapping _ (lift (of_script (split_sql_statements u sql)))) _
        (Triple-wrapping _ _ (
          Triple-lift _ (λ s l h.
            of_script-Post (λ e s l. AfterError m (wrap (split_up m.id) e) s l)
              (split_sql_statements u sql) s l (λ e. untouched h.0 h.1) h)))
        (λ stmts. Triple-assume _ λ splits.
          Triple-bind (attempt (on_pinned_conn sv (run_statements sv 0 stmts))) _
            (Triple-attempt _ (on_pinned_conn-Triple sv l₀ s₀ stmts))
            (λ outcome. settled stmts splits outcome))
    where
      settled :
          (stmts : List Bytes)
          → split_sql_statements u sql ≡ ok stmts
          → (r : Result Error (Unit {0}))
          → Triple
              (Post
                (λ _ s l. Ran sv (texts stmts) s₀ s × (l ≡ l₀))
                (λ e s l. (l ≡ l₀) × ((errors_is e no_pinned_conn ≡ false) ⊎ (s ≡ s₀)))
                r)
              (if was_not_run r then lift r else record_outcome sv m (error_of r))
              (λ _ s l. RanOf sv u sql s₀ s × IsRecorded l₀ m none l)
              (λ e s l. AfterError m e s l)
      settled stmts splits (ok a) =
          Triple-mono (record_outcome sv m none)
            (record_outcome-Triple (λ s. Ran sv (texts stmts) s₀ s) m none)
            (λ a s l h. ((stmts, splits, h.1), h.2)) (λ e s l h. h)
      settled stmts splits (err e) =
          Triple-if (errors_is e no_pinned_conn) _ _
            (λ not_run.
              Triple-lift (err e) (λ s l h. untouched (unrun sv l₀ e s s₀ not_run h.1) h.0))
            (λ run. record {
              at = λ db h.
                  (Triple-mono (record_outcome sv m (some e))
                      (record_outcome-Triple (λ s. Unit {0}) m (some e)) (λ a s l k. never k.0)
                      (λ x s l k. k)).at
                    db (tt, h.0);
            })
        where
          never : {A : Type 0} {e : Error} → ◌≡◌ {A = Option Error} (some e) none → A
          never h = cc

  pub apply_migration-Triple :
      (m : Migration)
      → Triple (Same s₀ l₀) (apply_migration sv u m) (λ _. Applied m) (λ e s l. AfterError m e s l)
  unfolding apply_migration
  apply_migration-Triple m =
      Triple-bind {Q = λ both s l. Same s₀ l₀ s l × (parse_directive_header m.up_script ≡ ok both)}
        (wrapping _ (lift (of_script (parse_directive_header m.up_script)))) _
        (Triple-wrapping _ _ (
          Triple-lift _ (λ s l h.
            of_script-Post (λ e s l. AfterError m (wrap (parse_up m.id) e) s l)
              (parse_directive_header m.up_script) s l (λ e. untouched h.0 h.1) h)))
        (λ both. Triple-assume _ λ parses.
          Triple-if (contains both.0 notransaction) _ _
            (λ no_tx.
              Triple-mono _ (apply_without_transaction-Triple m both.1)
                (λ a s l h. (has_run both.0 both.1 parses (inr (no_tx, h.0)), h.1)) (λ e s l h. h))
            (λ tx.
              Triple-mono (apply_in_transaction sv m both.1) (apply_in_transaction-Triple m both.1)
                (λ a s l h. (has_run both.0 both.1 parses (inl (tx, h.0)), h.1))
                (λ e s l h. ended both.0 both.1 parses tx e h)))
    where
      has_run :
          (directives : List Bytes) (sql : Bytes) {s : S}
          → parse_directive_header m.up_script ≡ ok (directives, sql)
          → ((contains directives notransaction ≡ false) × (sv.exec sql s₀ ≡ some s))
            ⊎ ((contains directives notransaction ≡ true) × RanOf sv u sql s₀ s)
          → HasRun sv u m.up_script s₀ s
      has_run directives sql parses runs = record {
        directives = directives;
        sql = sql;
        parses = parses;
        runs = runs;
      }

      ended :
          (directives : List Bytes) (sql : Bytes)
          → parse_directive_header m.up_script ≡ ok (directives, sql)
          → contains directives notransaction ≡ false
          → (e : Error) {s : S} {l : Option (List Row)}
          → Same s₀ l₀ s l
            ⊎ ((n : ℕ) × (e ≡ wrap commit_tx (driver_error n))
                × (sv.reply n ≡ lost)
                × Executed m sql s l)
          → AfterError m e s l
      ended directives sql parses tx e (inl h) = untouched h.0 h.1
      ended directives sql parses tx e (inr (n, at_commit, unanswered, h)) =
          answer_lost n at_commit unanswered (has_run directives sql parses (inl (tx, h.0)), h.1)

pub apply_migration_ends :
    {S : Type 0} (sv : Server S) (u : Unicode) (m : Migration) (db : Db S)
    → Post
        (λ _ s l. Applied sv u db.schema db.ledger m s l)
        (λ e s l. AfterError sv u db.schema db.ledger m e s l)
        (apply_migration sv u m db).0
        (apply_migration sv u m db).1.schema
        (apply_migration sv u m db).1.ledger
apply_migration_ends sv u m db =
    (apply_migration-Triple sv u db.schema db.ledger m).at db (refl, refl)
