-- ===== src/Planner/Convergence.antt =====
-- What the recorded set is once a plan has run, and that a second plan has nothing to do.
use pg_migrate.Prelude.{
  ◌≡◌, refl, ◌∙◌, sym, ap, Bool, true, not, ◌&&◌, List, [], ◌∷◌, ◌++◌, reverse, filter, arith,
  Bool-cases, inl, inr,
}
use mathlib.Core.List.{reverse-cons, map-append}
use pg_migrate.Text.{Bytes, contains, contains-append, contains_self, equal_iff}
use pg_migrate.Migration.{Migration, migration_ids}
use pg_migrate.Planner.{MigrationPlan, build_plan}
use pg_migrate.Planner.Sets.{is_not_in, build_plan-filter}
use pg_migrate.Planner.Interleaving.{build_plan-interleaved}

-- The records after the plan: without those rolled back, and with those applied behind them.
abbrev pub after : MigrationPlan → List Migration → List Migration
after plan from_db = filter (is_not_in plan.to_rollback) from_db ++ plan.to_apply

-- A filter that looks at IDs only.
pub contains-filter :
    (q : Bytes → Bool) (ms : List Migration) (k : Bytes)
    → contains (migration_ids (filter (λ m. q m.id) ms)) k ≡ (contains (migration_ids ms) k && q k)
unfolding contains
contains-filter q [] k = refl
contains-filter q (m ∷ ms) k = elim (Bool-cases (q m.id)) [
  | inl e ↦ rw e (ground (arith, contains-filter q ms k, equal_iff m.id k))
  | inr e ↦ rw e (ground (arith, contains-filter q ms k, equal_iff m.id k))
]

contains-reverse :
    (ms : List Migration) (k : Bytes)
    → contains (migration_ids (reverse ms)) k ≡ contains (migration_ids ms) k
unfolding contains
contains-reverse [] k = refl
contains-reverse (m ∷ ms) k =
    rw (reverse-cons, map-append, contains-append) (ground (arith, contains-reverse ms k))

filter-eq-nil_of_subset :
    (ks : List Bytes) (ms : List Migration)
    → ((k : Bytes) → contains (migration_ids ms) k ≡ true → contains ks k ≡ true)
    → filter (λ m. not (contains ks m.id)) ms ≡ []
filter-eq-nil_of_subset ks [] h = refl
filter-eq-nil_of_subset ks (m ∷ ms) h =
    rw (h m.id (contains_self m.id (migration_ids ms)))
      (filter-eq-nil_of_subset ks ms (λ k e. h k (unfold contains in ground arith)))

module _ (from_files from_db : List Migration) where
  abbrev reconcile_plan : MigrationPlan
  reconcile_plan = build_plan from_files from_db true

  pub contains-to_rollback :
      (k : Bytes)
      → contains (migration_ids reconcile_plan.to_rollback) k
        ≡ (contains (migration_ids from_db) k && not (contains (migration_ids from_files) k))
  contains-to_rollback k = rw ((build_plan-filter from_files from_db true).0) (
      contains-reverse _ k
      ∙ contains-filter (λ j. not (contains (migration_ids from_files) j)) from_db k)

  pub contains-to_apply :
      (k : Bytes)
      → contains (migration_ids reconcile_plan.to_apply) k
        ≡ (contains (migration_ids from_files) k && not (contains (migration_ids from_db) k))
  contains-to_apply k =
      rw ((build_plan-filter from_files from_db true).1)
        (contains-filter (λ j. not (contains (migration_ids from_db) j)) from_files k)

  -- After the plan of a reconcile has run, an ID is recorded exactly when it has a file.
  pub build_plan_converges :
      (k : Bytes)
      → contains (migration_ids (after reconcile_plan from_db)) k
        ≡ contains (migration_ids from_files) k
  build_plan_converges k =
      rw (map-append, contains-append)
        (ground (
          arith,
          contains-to_apply k,
          contains-to_rollback k,
          contains-filter (λ j. not (contains (migration_ids reconcile_plan.to_rollback) j)) from_db
              k,
        ))

  -- Planning again once the plan of a reconcile has run finds nothing to do.
  pub build_plan_idempotent :
      ((build_plan from_files (after reconcile_plan from_db) true).to_rollback ≡ [])
      × ((build_plan from_files (after reconcile_plan from_db) true).to_apply ≡ [])
      × ((build_plan from_files (after reconcile_plan from_db) true).interleaved ≡ [])
  build_plan_idempotent =
      let now = after reconcile_plan from_db in
      let again = build_plan-filter from_files now true in
      let no_extras : filter (is_not_in from_files) now ≡ [] =
        filter-eq-nil_of_subset (migration_ids from_files) now
          (λ k e. sym (build_plan_converges k) ∙ e) in
      let no_pending : filter (is_not_in now) from_files ≡ [] =
        filter-eq-nil_of_subset (migration_ids now) from_files
          (λ k e. build_plan_converges k ∙ e) in
      (
        again.0 ∙ ap reverse no_extras,
        again.1 ∙ no_pending,
        build_plan-interleaved from_files now true ∙ rw (again.1 ∙ no_pending),
      )
