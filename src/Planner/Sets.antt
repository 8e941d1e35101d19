-- ===== src/Planner/Sets.antt =====
-- The plan as set differences: what each of its lists holds, and in which order.
use pg_migrate.Prelude.{
  ◌≡◌, refl, ◌∙◌, Bool, not, List, [], ◌∷◌, reverse, filter, arith, filter-reverse,
}
use pg_migrate.Text.{Bytes, contains}
use pg_migrate.Migration.{Migration, migration_ids}
use pg_migrate.Planner.{extras, pending, is_interleaved, build_plan}

abbrev pub is_in : List Migration → Migration → Bool
is_in ms m = contains (migration_ids ms) m.id

abbrev pub is_not_in : List Migration → Migration → Bool
is_not_in ms m = not (is_in ms m)

extras-filter :
    (files : List Bytes) (ms : List Migration)
    → extras files ms ≡ filter (λ m. not (contains files m.id)) ms
unfolding extras
extras-filter files [] = refl
extras-filter files (m ∷ ms) = ground (arith, extras-filter files ms)

pending-filter :
    (db : List Bytes) (top : Bytes) (ms : List Migration)
    → (pending db top ms).0 ≡ filter (λ m. not (contains db m.id)) ms
unfolding pending
pending-filter db top [] = refl
pending-filter db top (m ∷ ms) = ground (arith, pending-filter db top ms)

pub pending-interleaved :
    (db : List Bytes) (top : Bytes) (ms : List Migration)
    → (pending db top ms).1 ≡ filter (is_interleaved top) (pending db top ms).0
unfolding pending
pending-interleaved db top [] = refl
pending-interleaved db top (m ∷ ms) = ground (arith, pending-interleaved db top ms)

-- The migrations to roll back are the recorded ones that no file has, last applied first; those
-- to apply are the files that are not recorded, in the order of the files.
pub build_plan-filter :
    (from_files from_db : List Migration) (rollback_extras : Bool)
    → ((build_plan from_files from_db rollback_extras).to_rollback
        ≡ reverse (filter (is_not_in from_files) from_db))
      × ((build_plan from_files from_db rollback_extras).to_apply
          ≡ filter (is_not_in from_db) from_files)
unfolding build_plan
build_plan-filter from_files from_db rollback_extras = (
  extras-filter (migration_ids from_files) (reverse from_db)
      ∙ filter-reverse (is_not_in from_files) from_db,
  pending-filter (migration_ids from_db) _ from_files,
)
