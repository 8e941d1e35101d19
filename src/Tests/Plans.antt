-- ===== src/Tests/Plans.antt =====
-- Instances of the theorems on the planner.
use pg_migrate.Prelude.{◌≡◌, refl, true, false, [], ◌∷◌, ◌++◌, reverse, filter}
use pg_migrate.Text.{codes, contains, lt}
use pg_migrate.Migration.{migration_ids}
use pg_migrate.Planner.{build_plan}
use pg_migrate.Planner.Sets.{is_not_in, build_plan-filter}
use pg_migrate.Planner.Interleaving.{
  kept, sorts_before_one_of, IsSorted, build_plan-interleaved, build_plan-IsSorted,
}
use pg_migrate.Planner.Convergence.{after, build_plan_converges, build_plan_idempotent}
use pg_migrate.Tests.Fixtures.{first, second, third}

build_plan-filter_example :
    ((build_plan (first ∷ []) (second ∷ []) true).to_rollback
      ≡ reverse (filter (is_not_in (first ∷ [])) (second ∷ [])))
    × ((build_plan (first ∷ []) (second ∷ []) true).to_apply
        ≡ filter (is_not_in (second ∷ [])) (first ∷ []))
build_plan-filter_example = build_plan-filter (first ∷ []) (second ∷ []) true

build_plan-interleaved_example :
    (build_plan (first ∷ second ∷ []) (second ∷ []) false).interleaved
    ≡ filter
        (sorts_before_one_of (kept (first ∷ second ∷ []) (second ∷ []) false))
        (build_plan (first ∷ second ∷ []) (second ∷ []) false).to_apply
build_plan-interleaved_example = build_plan-interleaved (first ∷ second ∷ []) (second ∷ []) false

files_IsSorted : IsSorted (first ∷ second ∷ third ∷ [])
unfolding lt
files_IsSorted = ((refl, (refl, tt)), ((refl, tt), (tt, tt)))

records_IsSorted : IsSorted (first ∷ [])
records_IsSorted = (tt, tt)

none_interleaved : (build_plan (first ∷ second ∷ third ∷ []) (first ∷ []) false).interleaved ≡ []
unfolding build_plan contains lt
none_interleaved = refl

build_plan-IsSorted_example : IsSorted (
    kept (first ∷ second ∷ third ∷ []) (first ∷ []) false
    ++ (build_plan (first ∷ second ∷ third ∷ []) (first ∷ []) false).to_apply)
build_plan-IsSorted_example =
    build_plan-IsSorted (first ∷ second ∷ third ∷ []) (first ∷ []) false files_IsSorted
      records_IsSorted none_interleaved

build_plan_converges_example :
    contains
      (migration_ids (after (build_plan (first ∷ []) (second ∷ []) true) (second ∷ [])))
      (codes "1")
    ≡ contains (migration_ids (first ∷ [])) (codes "1")
build_plan_converges_example = build_plan_converges (first ∷ []) (second ∷ []) (codes "1")

build_plan_idempotent_example :
    ((build_plan
        (first ∷ [])
        (after (build_plan (first ∷ []) (second ∷ []) true) (second ∷ []))
        true).to_rollback
      ≡ [])
    × ((build_plan
          (first ∷ [])
          (after (build_plan (first ∷ []) (second ∷ []) true) (second ∷ []))
          true).to_apply
        ≡ [])
    × ((build_plan
          (first ∷ [])
          (after (build_plan (first ∷ []) (second ∷ []) true) (second ∷ []))
          true).interleaved
        ≡ [])
build_plan_idempotent_example = build_plan_idempotent (first ∷ []) (second ∷ [])
