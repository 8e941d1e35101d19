-- ===== src/Service/Loading.antt =====
-- What holds once an operation has made sure of the table, looked for failed rows and read files and
-- records.
use pg_migrate.Prelude.{
  ◌≡◌, refl, sym, ◌∙◌, ap, ◌⊎◌, inl, inr, Bool, true, false, not, Option, none, some, List, [], ◌∷◌,
  map, filter, any, arith, Bool-cases,
}
use mathlib.Core.Bool.{false≢true}
use pg_migrate.Result.{ok, err}
use pg_migrate.Error.{get_applied}
use pg_migrate.Migration.{Migration, migration_ids}
use pg_migrate.Database.{Row, Server, row_ids}
use pg_migrate.Database.Calls.{M, lift, wrapping, ◌>>=◌}
use pg_migrate.Database.Table.{create_table, select_rows, table_exists_query, ensured}
use pg_migrate.Database.Triples.{
  Pred, Post, Triple, Triple-pure, Triple-raise, Triple-lift, Triple-wrapping, Triple-bind,
  Triple-if, Triple-mono,
}
use pg_migrate.Database.Statements.{
  Triple-create_table, Triple-select_rows, Triple-table_exists_query,
}
use pg_migrate.Executor.Rows.{
  AppliedMigration, scan_row, ensure_migrations_table, table_exists, get_applied_migrations,
}
use pg_migrate.Service.Guards.{
  Source, is_failed, refuse_failed, of_record, refuse_if_failed, applied_migrations, get_migrations,
}
use pg_migrate.Service.Operations.{ready, loaded}

-- The rows, where the table exists.
abbrev pub rows_of : Option (List Row) → List Row
rows_of none = []
rows_of (some rows) = rows

-- The records of a ledger as the planner reads them.
abbrev pub records : List Row → List Migration
records rows = map of_record (map scan_row rows)

pub migration_ids-records : (rows : List Row) → migration_ids (records rows) ≡ row_ids rows
migration_ids-records [] = refl
migration_ids-records (r ∷ rows) = ap (◌∷◌ r.id) (migration_ids-records rows)

-- Whether a row holds the error of a failed run.
abbrev pub has_failed_row : List Row → Bool
has_failed_row rows = any (λ r. is_failed (scan_row r)) rows

cons≢nil : {A B : Type 0} {a : A} {rest : List A} → a ∷ rest ≡ [] → B
cons≢nil h = cc

filter-scan_row :
    (rows : List Row) → filter is_failed (map scan_row rows) ≡ [] → has_failed_row rows ≡ false
filter-scan_row [] h = refl
filter-scan_row (r ∷ rows) h = elim (Bool-cases (is_failed (scan_row r))) [
  | inl e ↦ cons≢nil (rw e at h)
  | inr e ↦ rw e (filter-scan_row rows (rw e at h))
]

module _ {S : Type 0} (s₀ : S) (l₀ : Option (List Row)) where
  -- The table exists, and all else is what it was.
  abbrev pub Ready : Pred S
  Ready s l = (s ≡ s₀) × (l ≡ some (rows_of l₀))

  -- At most the table is new.
  abbrev pub AtMostReady : Pred S
  AtMostReady s l = (s ≡ s₀) × (l ≡ l₀ ⊎ l ≡ some (rows_of l₀))

  pub record IsLoaded (source : Source) (both : List Migration × List Migration) (s : S)
      (l : Option (List Row)) : Type 0 where
    pub is_ready : Ready s l
    pub none_failed : has_failed_row (rows_of l₀) ≡ false
    pub files : source ≡ ok both.0
    pub from_db : both.1 ≡ records (rows_of l₀)

  module _ (sv : Server S) where
    pub ensure-Triple :
        Triple
          (λ s l. (s ≡ s₀) × (l ≡ l₀))
          (ensure_migrations_table sv)
          (λ _. Ready)
          (λ _. AtMostReady)
    unfolding ensure_migrations_table
    ensure-Triple = Triple-wrapping _ (create_table sv) (
        Triple-create_table sv Ready (λ s l h. (h.0, there l₀ l h.1)) (λ n s l h. (h.0, inl h.1))
          (λ n s l h. (h.0, inr h.1)))
      where
        there : (l₀ l : Option (List Row)) → l ≡ l₀ → ensured l ≡ some (rows_of l₀)
        there none l h = rw h
        there (some rows) l h = rw h

    pub get_applied-Triple :
        Triple Ready
          (get_applied_migrations sv)
          (λ applied s l. Ready s l × (applied ≡ map scan_row (rows_of l₀)))
          (λ _. Ready)
    unfolding get_applied_migrations
    get_applied-Triple =
        Triple-bind {Q = λ rows s l. Ready s l × (rows ≡ rows_of l₀)} (wrapping _ (select_rows sv))
          _
          (Triple-wrapping _ _ (
            Triple-mono (select_rows sv) (Triple-select_rows sv {E = λ _. Ready} (λ n s l h. h))
              (λ rows s l h. (h.0, same rows l h.0.1 h.1)) (λ e s l h. h)))
          (λ rows. Triple-pure _ (λ s l h. (h.0, ap (map scan_row) h.1)))
      where
        rows_same : {a b : List Row} → some a ≡ some b → a ≡ b
        rows_same h = ap rows_of h

        same :
            (rows : List Row) (l : Option (List Row))
            → l ≡ some (rows_of l₀)
            → l ≡ some rows
            → rows ≡ rows_of l₀
        same rows l a b = rows_same (sym b ∙ a)

    refuse_if_failed-Triple :
        Triple Ready
          (refuse_if_failed sv)
          (λ _ s l. Ready s l × (has_failed_row (rows_of l₀) ≡ false))
          (λ _. Ready)
    unfolding refuse_if_failed
    refuse_if_failed-Triple =
        Triple-bind {Q = λ applied s l. Ready s l × (applied ≡ map scan_row (rows_of l₀))}
          (wrapping _ (get_applied_migrations sv)) _ (Triple-wrapping _ _ get_applied-Triple)
          (λ applied. refused (filter is_failed applied) applied refl)
      where
        refused :
            (failed applied : List AppliedMigration)
            → filter is_failed applied ≡ failed
            → Triple
                (λ s l. Ready s l × (applied ≡ map scan_row (rows_of l₀)))
                (refuse_failed failed)
                (λ _ s l. Ready s l × (has_failed_row (rows_of l₀) ≡ false))
                (λ _. Ready)
        refused [] applied e =
            Triple-pure tt
              (λ s l h. (h.0, filter-scan_row (rows_of l₀) (ap (filter is_failed) (sym h.1) ∙ e)))
        refused (f ∷ failed) applied e = Triple-raise _ (λ s l h. h.0)

    pub ready-Triple :
        Triple
          (λ s l. (s ≡ s₀) × (l ≡ l₀))
          (ready sv)
          (λ _ s l. Ready s l × (has_failed_row (rows_of l₀) ≡ false))
          (λ _. AtMostReady)
    ready-Triple =
        Triple-bind {Q = λ _. Ready} (wrapping _ (ensure_migrations_table sv)) _
          (Triple-wrapping _ _ ensure-Triple)
          (λ _.
            Triple-mono (refuse_if_failed sv) refuse_if_failed-Triple (λ a s l h. h)
              (λ e s l h. (h.0, inr h.1)))

    pub ready_rows-Triple :
        Triple
          (λ s l. (s ≡ s₀) × (l ≡ l₀))
          (do _ ← ready sv; wrapping get_applied (get_applied_migrations sv))
          (λ applied s l.
            Ready s l
            × (applied ≡ map scan_row (rows_of l₀))
            × (has_failed_row (rows_of l₀) ≡ false))
          (λ _. AtMostReady)
    ready_rows-Triple = Triple-bind (ready sv) _ ready-Triple (λ _. Triple-wrapping _ _ (record {
      at = λ db h.
          (Triple-mono {E = λ _. Ready} (get_applied_migrations sv) get_applied-Triple
              (λ applied s l k. (k.0, k.1, h.1)) (λ e s l k. (k.0, inr k.1))).at
            db h.0;
    }))

    pub applied-Triple :
        Triple Ready
          (applied_migrations sv)
          (λ applied s l. Ready s l × (applied ≡ map scan_row (rows_of l₀)))
          (λ _. Ready)
    unfolding applied_migrations table_exists
    applied-Triple =
        Triple-bind {Q = λ there s l. Ready s l × (there ≡ true)}
          (wrapping _ (wrapping _ (table_exists_query sv))) _
          (Triple-wrapping _ _ (
            Triple-wrapping _ _ (
              Triple-mono (table_exists_query sv)
                (Triple-table_exists_query sv {E = λ _. Ready} (λ n s l h. h))
                (λ there s l h. (h.0, ground (arith, h.1, h.0.1))) (λ e s l h. h))))
          (λ there.
            Triple-if (not there) _ _
              (λ absent.
                Triple-pure [] (λ s l h. absurd (false≢true (ground (arith, absent, h.1)))))
              (λ present. record {
                at = λ db h.
                    (Triple-wrapping _ (get_applied_migrations sv) get_applied-Triple).at db h.0;
              }))

    -- what a read that changes nothing leaves true
    with_fact :
        {A : Type 0} {m : M S A} {Q : A → Type 0} (F : Type 0)
        → Triple Ready m (λ a s l. Ready s l × Q a) (λ _. Ready)
        → Triple (λ s l. Ready s l × F) m (λ a s l. Ready s l × F × Q a) (λ _. AtMostReady)
    with_fact {A} {m} {Q} F t = record {
      at = λ db h.
          (Triple-mono {E = λ _. Ready} m t (λ a s l k. (k.0, h.1, k.1))
              (λ e s l k. (k.0, inr k.1))).at
            db h.0;
    }

    abbrev NoneFailed : Type 0
    NoneFailed = has_failed_row (rows_of l₀) ≡ false

    pub loaded-Triple :
        (source : Source)
        → Triple
            (λ s l. (s ≡ s₀) × (l ≡ l₀))
            (loaded sv source)
            (λ both. IsLoaded source both)
            (λ _. AtMostReady)
    unfolding get_migrations
    loaded-Triple source = Triple-bind (ready sv) _ ready-Triple (λ _. Triple-wrapping _ _ (
        Triple-bind {Q = λ files s l. Ready s l × (NoneFailed × (source ≡ ok files))}
          (wrapping _ (lift source)) _ (Triple-wrapping _ _ (Triple-lift source (read source)))
          (λ files.
            Triple-bind (applied_migrations sv) _
              (with_fact (NoneFailed × (source ≡ ok files)) applied-Triple)
              (λ applied. Triple-pure _ (λ s l h. record {
                is_ready = h.0;
                none_failed = h.1.0;
                files = h.1.1;
                from_db = ap (map of_record) h.2;
              })))))
      where
        read :
            (r : Source) (s : S) (l : Option (List Row))
            → Ready s l × NoneFailed
            → Post (λ files s l. Ready s l × (NoneFailed × (r ≡ ok files))) (λ _. AtMostReady) r s l
        read (ok files) s l h = (h.0, (h.1, refl))
        read (err e) s l h = (h.0.0, inr h.0.1)
