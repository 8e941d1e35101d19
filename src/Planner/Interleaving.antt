-- ===== src/Planner/Interleaving.antt =====
-- Which migrations a plan reports as interleaved, and what it means that there are none.
use pg_migrate.Prelude.{
  ◌≡◌, refl, ◌∙◌, sym, ap, Bool, true, false, ◌||◌, List, [], ◌∷◌, ◌++◌, filter, any, All, arith,
  if◌then◌else◌, All-filter, All-filter_self, All-and, All-mono, All-append, Bool-cases, inl, inr,
}
use mathlib.Core.Path.{fun_ext}
use pg_migrate.Text.{Bytes, contains, equal_iff, lt}
use pg_migrate.Text.Order.{lt_trans, lt_of_not-lt, lt-nil, lt_antisymm}
use pg_migrate.Migration.{Migration, migration_ids}
use pg_migrate.Planner.{pending, is_interleaved, max_applied_id, build_plan}
use pg_migrate.Planner.Sets.{is_in, is_not_in, pending-interleaved, build_plan-filter}

-- The records that stay applied when the plan has run.
abbrev pub kept : List Migration → List Migration → Bool → List Migration
kept from_files from_db true = filter (is_in from_files) from_db
kept from_files from_db false = from_db

abbrev pub sorts_before_one_of : List Migration → Migration → Bool
sorts_before_one_of ds m = any (λ d. lt m.id d.id) ds

lt-max : (x a d : Bytes) → lt x (if lt a d then d else a) ≡ (lt x a || lt x d)
lt-max x a d = elim (Bool-cases (lt a d)) [
  | inl up ↦ rw up (ground (arith, lt_trans x a d))
  | inr same ↦ rw same (ground (arith, lt_of_not-lt x d a, lt_trans x d a, lt_antisymm a d))
]

lt-max_applied_id_all :
    (files : List Bytes) (x acc : Bytes) (ds : List Migration)
    → lt x (max_applied_id files false acc ds) ≡ (lt x acc || any (λ d. lt x d.id) ds)
unfolding max_applied_id
lt-max_applied_id_all files x acc [] = ground arith
lt-max_applied_id_all files x acc (d ∷ ds) =
    ground (
      arith,
      lt-max x acc d.id,
      lt-max_applied_id_all files x (if lt acc d.id then d.id else acc) ds,
    )

lt-max_applied_id_kept :
    (files : List Bytes) (x acc : Bytes) (ds : List Migration)
    → lt x (max_applied_id files true acc ds)
      ≡ (lt x acc || any (λ d. lt x d.id) (filter (λ d. contains files d.id) ds))
unfolding max_applied_id
lt-max_applied_id_kept files x acc [] = ground arith
lt-max_applied_id_kept files x acc (d ∷ ds) = elim (Bool-cases (contains files d.id)) [
  | inl h ↦ rw h (
      ground (
        arith,
        lt-max x acc d.id,
        lt-max_applied_id_kept files x (if lt acc d.id then d.id else acc) ds,
      ))
  | inr h ↦ rw h (lt-max_applied_id_kept files x acc ds)
]

is_interleaved-lt : (top : Bytes) (m : Migration) → is_interleaved top m ≡ lt m.id top
unfolding is_interleaved
is_interleaved-lt [] m = rw lt-nil
is_interleaved-lt (x ∷ xs) m = refl

is_interleaved-max_applied_id :
    (from_files from_db : List Migration) (rollback_extras : Bool) (m : Migration)
    → is_interleaved (max_applied_id (migration_ids from_files) rollback_extras [] from_db) m
      ≡ sorts_before_one_of (kept from_files from_db rollback_extras) m
is_interleaved-max_applied_id from_files from_db true m =
    is_interleaved-lt _ m
    ∙ lt-max_applied_id_kept (migration_ids from_files) m.id [] from_db
    ∙ rw lt-nil
is_interleaved-max_applied_id from_files from_db false m =
    is_interleaved-lt _ m
    ∙ lt-max_applied_id_all (migration_ids from_files) m.id [] from_db
    ∙ rw lt-nil

-- A plan reports as interleaved exactly the migrations to apply, in their order, that sort before
-- some record that stays applied: all records where extras stay, those with a file otherwise.
pub build_plan-interleaved :
    (from_files from_db : List Migration) (rollback_extras : Bool)
    → (build_plan from_files from_db rollback_extras).interleaved
      ≡ filter
          (sorts_before_one_of (kept from_files from_db rollback_extras))
          (build_plan from_files from_db rollback_extras).to_apply
unfolding build_plan
build_plan-interleaved from_files from_db rollback_extras =
    pending-interleaved (migration_ids from_db) _ from_files
    ∙ ap
        (λ p.
          filter p
            (pending (migration_ids from_db)
              (max_applied_id (migration_ids from_files) rollback_extras [] from_db) from_files).0)
        (fun_ext (is_interleaved-max_applied_id from_files from_db rollback_extras))

-- In strictly ascending order of IDs.
abbrev pub IsSorted : List Migration → Type 0
IsSorted [] = Unit
IsSorted (m ∷ ms) = All (λ n. lt m.id n.id ≡ true) ms × IsSorted ms

pub IsSorted-filter :
    (p : Migration → Bool) (ms : List Migration) → IsSorted ms → IsSorted (filter p ms)
IsSorted-filter p [] s = tt
IsSorted-filter p (m ∷ ms) s = elim (Bool-cases (p m)) [
  | inl e ↦ rw e (All-filter _ p ms s.0, IsSorted-filter p ms s.1)
  | inr e ↦ rw e (IsSorted-filter p ms s.1)
]

IsSorted-append :
    (xs ys : List Migration)
    → IsSorted xs
    → IsSorted ys
    → All (λ x. All (λ y. lt x.id y.id ≡ true) ys) xs
    → IsSorted (xs ++ ys)
IsSorted-append [] ys sx sy h = sy
IsSorted-append (x ∷ xs) ys sx sy h =
    (All-append _ xs ys sx.0 h.0, IsSorted-append xs ys sx.1 sy h.1)

-- Not recorded, and before no kept record: then after every kept record.
lt_of_kept :
    (ds : List Migration) (y : Migration)
    → contains (migration_ids ds) y.id ≡ false
    → sorts_before_one_of ds y ≡ false
    → All (λ d. lt d.id y.id ≡ true) ds
unfolding contains
lt_of_kept [] y n h = tt
lt_of_kept (d ∷ ds) y n h = (
  ground (arith, lt_antisymm d.id y.id, equal_iff d.id y.id),
  lt_of_kept ds y (ground arith) (ground arith),
)

filter-eq-nil :
    (p : Migration → Bool) (ms : List Migration) → filter p ms ≡ [] → All (λ m. p m ≡ false) ms
filter-eq-nil p [] h = tt
filter-eq-nil p (m ∷ ms) h = (ground arith, filter-eq-nil p ms (ground arith))

All-swap :
    (R : Migration → Migration → Type 0) (xs ys : List Migration)
    → All (λ y. All (λ x. R x y) xs) ys
    → All (λ x. All (λ y. R x y) ys) xs
All-swap R [] ys h = tt
All-swap R (x ∷ xs) ys h =
    (All-mono _ _ (λ y k. k.0) ys h, All-swap R xs ys (All-mono _ _ (λ y k. k.1) ys h))

contains-filter-false :
    (p : Migration → Bool) (ds : List Migration) (k : Bytes)
    → contains (migration_ids ds) k ≡ false
    → contains (migration_ids (filter p ds)) k ≡ false
unfolding contains
contains-filter-false p [] k h = refl
contains-filter-false p (d ∷ ds) k h = ground (arith, contains-filter-false p ds k)

contains-kept :
    (from_files from_db : List Migration) (rollback_extras : Bool) (k : Bytes)
    → contains (migration_ids from_db) k ≡ false
    → contains (migration_ids (kept from_files from_db rollback_extras)) k ≡ false
contains-kept from_files from_db true k h = contains-filter-false _ from_db k h
contains-kept from_files from_db false k h = h

IsSorted-kept :
    (from_files from_db : List Migration) (rollback_extras : Bool)
    → IsSorted from_db
    → IsSorted (kept from_files from_db rollback_extras)
IsSorted-kept from_files from_db true s = IsSorted-filter _ from_db s
IsSorted-kept from_files from_db false s = s

-- If files and records are in ascending order of IDs and the plan reports nothing interleaved,
-- then the records that stay, followed by the migrations to apply, are in ascending order too.
pub build_plan-IsSorted :
    (from_files from_db : List Migration) (rollback_extras : Bool)
    → IsSorted from_files
    → IsSorted from_db
    → (build_plan from_files from_db rollback_extras).interleaved ≡ []
    → IsSorted (
        kept from_files from_db rollback_extras
        ++ (build_plan from_files from_db rollback_extras).to_apply)
build_plan-IsSorted from_files from_db rollback_extras sf sd none_reported =
    let stay = kept from_files from_db rollback_extras in
    let new = filter (is_not_in from_db) from_files in
    let calm : All (λ m. sorts_before_one_of stay m ≡ false) new = filter-eq-nil _ new (
      rw ((build_plan-filter from_files from_db rollback_extras).1) at
        (sym (build_plan-interleaved from_files from_db rollback_extras) ∙ none_reported)) in
    let fresh : All (λ m. is_not_in from_db m ≡ true) new = All-filter_self _ from_files in
    rw ((build_plan-filter from_files from_db rollback_extras).1) (
      IsSorted-append stay new (IsSorted-kept from_files from_db rollback_extras sd)
        (IsSorted-filter _ from_files sf)
        (All-swap (λ x y. lt x.id y.id ≡ true) stay new
          (All-mono (λ m. (sorts_before_one_of stay m ≡ false) × (is_not_in from_db m ≡ true)) _
            (λ y h.
              lt_of_kept stay y
                (contains-kept from_files from_db rollback_extras y.id (ground arith)) h.0)
            new (All-and _ _ new calm fresh))))
