-- ===== src/Service/Baselining.antt =====
-- What `Baseline` does to the bookkeeping table, and that it leaves the schema alone.
use pg_migrate.Prelude.{
  ◌≡◌, refl, sym, ◌∙◌, ap, inl, inr, ◌⊎◌, Option, none, some, List, [], ◌∷◌, map,
}
use pg_migrate.Result.{Result, ok, err}
use pg_migrate.Error.{Error, get_files, record_baseline}
use pg_migrate.Text.{Bytes}
use pg_migrate.Migration.{Migration}
use pg_migrate.Database.{Db, Row, Server}
use pg_migrate.Database.Calls.{wrapping, lift, pure, ◌>>=◌}
use pg_migrate.Database.Triples.{
  Pred, Triple, Triple-pure, Triple-raise, Triple-wrapping, Triple-bind, Triple-mono,
}
use pg_migrate.Executor.Rows.{
  AppliedMigration, scan_row, get_applied_migrations, ensure_migrations_table,
}
use pg_migrate.Executor.Apply.{record_applied}
use pg_migrate.Service.Guards.{Source}
use pg_migrate.Service.Operations.{
  RunResult, no_result, Locker, migrations_through, refuse_recorded, baseline_rows, baseline_locked,
  baseline,
}
use pg_migrate.Service.Runs.{run_after-Ends, with_lock-Ends}
use pg_migrate.Service.Recording.{entries, entries_of, Holds, HoldsOn, record_applied-Triple}
use pg_migrate.Service.Loading.{rows_of, Ready, ensure-Triple, get_applied-Triple}

-- The table had no row, and it now has one for each of `recorded`, which are the files through
-- `through_id`.
pub record IsBaselined (source : Source) (through_id : Bytes) (l₀ : Option (List Row))
    (recorded : List Migration) (l : Option (List Row)) : Type 0 where
  pub was_empty : rows_of l₀ ≡ []
  pub from_files : List Migration
  pub read : source ≡ ok from_files
  pub chosen : migrations_through from_files through_id ≡ ok recorded
  pub rows : List Row
  pub after : l ≡ some rows
  pub holds : entries rows ≡ entries_of recorded

-- What `Baseline` leaves that reported `r`.
pub record BaselineEnds {S : Type 0} (source : Source) (through_id : Bytes) (s₀ : S)
    (l₀ : Option (List Row)) (r : RunResult × Option Error) (s : S) (l : Option (List Row))
    : Type 0 where
  pub schema : s ≡ s₀
  pub all_or_nothing :
      (l ≡ l₀ ⊎ l ≡ some (rows_of l₀))
      ⊎ ((recorded : List Migration) × IsBaselined source through_id l₀ recorded l)
  pub recorded : r.1 ≡ none → IsBaselined source through_id l₀ r.0.applied l

module _ {S : Type 0} (sv : Server S) (s₀ : S) (l₀ : Option (List Row)) (source : Source)
    (through_id : Bytes) where
  abbrev NotBaselined : Pred S
  NotBaselined s l =
      (s ≡ s₀)
      × ((l ≡ l₀ ⊎ l ≡ some (rows_of l₀))
          ⊎ ((recorded : List Migration) × IsBaselined source through_id l₀ recorded l))

  not_baselined : {s : S} {l : Option (List Row)} → Ready s₀ l₀ s l → NotBaselined s l
  not_baselined h = (h.0, inl (inr h.1))

  abbrev Empty : Pred S
  Empty s l = Ready s₀ l₀ s l × (rows_of l₀ ≡ [])

  refuse_recorded-Triple :
      (applied : List AppliedMigration)
      → Triple
          (λ s l. Ready s₀ l₀ s l × (applied ≡ map scan_row (rows_of l₀)))
          (refuse_recorded applied)
          (λ _. Empty)
          (λ _. NotBaselined)
  refuse_recorded-Triple [] = Triple-pure tt (λ s l h. (h.0, no_rows (rows_of l₀) h.1))
    where
      no_rows : (rows : List Row) → [] ≡ map scan_row rows → rows ≡ []
      no_rows [] h = refl
      no_rows (r ∷ rows) h = cc
  refuse_recorded-Triple (a ∷ applied) = Triple-raise _ (λ s l h. not_baselined h.0)

  insert_chosen-Triple :
      (files ms : List Migration)
      → source ≡ ok files
      → migrations_through files through_id ≡ ok ms
      → Triple Empty
          (do _ ← wrapping record_baseline (record_applied sv ms); pure ms)
          (λ recorded s l. (s ≡ s₀) × IsBaselined source through_id l₀ recorded l)
          (λ _. NotBaselined)
  insert_chosen-Triple files ms read chosen =
      Triple-bind {Q = λ _ s l. (s ≡ s₀) × IsBaselined source through_id l₀ ms l}
        (wrapping record_baseline (record_applied sv ms)) _
        (Triple-wrapping _ _ (record {
          at = λ db h.
              (Triple-mono (record_applied sv ms) (record_applied-Triple sv s₀ ms)
                  (λ a s l k. (k.0, all l h.1 k.1)) (λ e s l k. either s l h.1 k)).at
                db (h.0.0, h.0.1 ∙ ap some h.1);
        }))
        (λ _. Triple-pure ms (λ s l h. h))
    where
      all :
          (l : Option (List Row))
          → rows_of l₀ ≡ []
          → Holds sv s₀ (entries_of ms) l
          → IsBaselined source through_id l₀ ms l
      all l empty h = record {
        was_empty = empty;
        from_files = files;
        read = read;
        chosen = chosen;
        rows = h.0;
        after = h.1;
        holds = h.2;
      }

      either :
          (s : S) (l : Option (List Row))
          → rows_of l₀ ≡ []
          → (((s ≡ s₀) × (l ≡ some [])) ⊎ HoldsOn sv s₀ (entries_of ms) s l)
          → NotBaselined s l
      either s l empty (inl k) = (k.0, inl (inr (k.1 ∙ ap some (sym empty))))
      either s l empty (inr k) = (k.0, inr (ms, all l empty k.1))

  baseline_rows-Triple :
      Triple
        (λ s l. (s ≡ s₀) × (l ≡ l₀))
        (baseline_rows sv source through_id)
        (λ recorded s l. (s ≡ s₀) × IsBaselined source through_id l₀ recorded l)
        (λ _. NotBaselined)
  unfolding ◌>>=◌
  baseline_rows-Triple =
      Triple-bind {Q = λ _. Ready s₀ l₀} (wrapping _ (ensure_migrations_table sv)) _
        (Triple-wrapping _ _ (
          Triple-mono (ensure_migrations_table sv) (ensure-Triple s₀ l₀ sv) (λ a s l h. h)
            (λ e s l h. (h.0, inl h.1))))
        (λ _.
          Triple-bind {Q = λ applied s l. Ready s₀ l₀ s l × (applied ≡ map scan_row (rows_of l₀))}
            (wrapping _ (get_applied_migrations sv)) _
            (Triple-wrapping _ _ (
              Triple-mono (get_applied_migrations sv) (get_applied-Triple s₀ l₀ sv) (λ a s l h. h)
                (λ e s l h. not_baselined h)))
            (λ applied.
              Triple-bind (refuse_recorded applied) _ (refuse_recorded-Triple applied)
                (λ _. from_source source refl)))
    where
      from_chosen :
          (files : List Migration)
          → source ≡ ok files
          → (r : Result Error (List Migration)) → migrations_through files through_id ≡ r
          → Triple Empty
              (do
                to_record ← lift r
                _ ← wrapping record_baseline (record_applied sv to_record)
                pure to_record)
              (λ recorded s l. (s ≡ s₀) × IsBaselined source through_id l₀ recorded l)
              (λ _. NotBaselined)
      from_chosen files read (ok ms) chosen = record {
        at = λ db h. (insert_chosen-Triple files ms read chosen).at db h;
      }
      from_chosen files read (err e) chosen = record { at = λ db h. not_baselined h.0 }

      from_source :
          (r : Source)
          → source ≡ r
          → Triple Empty
              (do
                from_files ← wrapping get_files (lift r)
                to_record ← lift (migrations_through from_files through_id)
                _ ← wrapping record_baseline (record_applied sv to_record)
                pure to_record)
              (λ recorded s l. (s ≡ s₀) × IsBaselined source through_id l₀ recorded l)
              (λ _. NotBaselined)
      from_source (ok files) read = record {
        at = λ db h. (from_chosen files read (migrations_through files through_id) refl).at db h;
      }
      from_source (err e) read = record { at = λ db h. not_baselined h.0 }

-- `Baseline` never touches the schema. The table is as it was, or it exists now and has the same rows,
-- or it had no rows and holds one row for each file through `through_id`. The last holds whenever
-- `Baseline` returns without an error, for the migrations that it reports.
pub baseline_ends :
    {S L : Type 0} (sv : Server S) (lk : Locker L) (source : Source) (through_id : Bytes) (l : L)
    (db : Db S)
    → BaselineEnds source through_id db.schema db.ledger
        (baseline sv lk source through_id l db).0
        (baseline sv lk source through_id l db).2.schema
        (baseline sv lk source through_id l db).2.ledger
unfolding baseline baseline_locked
baseline_ends {S} sv lk source through_id l db =
    with_lock-Ends (BaselineEnds source through_id db.schema db.ledger) lk no_result
      (baseline_locked sv source through_id) l db
      (run_after-Ends (BaselineEnds source through_id db.schema db.ledger) no_result
        (baseline_rows sv source through_id) _
        (baseline_rows-Triple sv db.schema db.ledger source through_id)
        (λ recorded d h. record {
          schema = h.0;
          all_or_nothing = inr (recorded, h.1);
          recorded = λ e. h.1;
        })
        (λ e s k h. record { schema = h.0; all_or_nothing = h.1; recorded = λ x. cc }) db
        (refl, refl))
      (λ e. record { schema = refl; all_or_nothing = inl (inl refl); recorded = λ x. cc })
