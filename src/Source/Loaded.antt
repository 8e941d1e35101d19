-- ===== src/Source/Loaded.antt =====
-- What `GetMigrations` of the file source returns.
use pg_migrate.Prelude.{
  ◌≡◌, refl, sym, ap, inl, inr, true, false, not, ◌&&◌, Option, none, some, List, [], ◌∷◌, ◌++◌,
  if◌then◌else◌, is_nil, filter, All, All-mono, Bool-cases, arith,
}
use pg_migrate.Result.{Result, ok, err, bind-eq-ok, err≢ok}
use pg_migrate.Text.{Bytes, codes, contains, lt}
use pg_migrate.Text.Order.{lt_of_not-lt, lt_antisymm, lt_irrefl, lt_trans}
use pg_migrate.Text.Unicode.{Unicode}
use pg_migrate.Migration.{Migration, migration_ids}
use pg_migrate.Directives.{ScriptError, up_file_suffix, down_file_suffix}
use pg_migrate.Source.{SourceError, of_file, parse_script, parse_migration_pair}
use pg_migrate.Source.Accepted.{IsAccepted, parse_script-IsAccepted}
use pg_migrate.Source.Files.{
  Entry, FileSystem, Names, ids_of, Pairs, no_pairs, lookup, collect_pairs, insert_id, sort_ids,
  sorted_ids, explain_empty_root, content_of, load_files, load_migrations, from_entries,
  get_file_migrations,
}

-- In ascending order: no ID is less than one before it.
abbrev pub IsAscending : List Bytes → Type 0
IsAscending [] = Unit
IsAscending (id ∷ ids) = All (λ j. lt j id ≡ false) ids × IsAscending ids

insert_id-All :
    (P : Bytes → Type 0) (id : Bytes) (ids : List Bytes)
    → P id
    → All P ids
    → All P (insert_id id ids)
unfolding insert_id
insert_id-All P id [] h k = (h, tt)
insert_id-All P id (x ∷ ids) h k = elim (Bool-cases (lt x id)) [
  | inl e ↦ rw e (k.0, insert_id-All P id ids h k.1)
  | inr e ↦ rw e (h, k)
]

insert_id-IsAscending :
    (id : Bytes) (ids : List Bytes) → IsAscending ids → IsAscending (insert_id id ids)
unfolding insert_id
insert_id-IsAscending id [] h = (tt, tt)
insert_id-IsAscending id (x ∷ ids) h = elim (Bool-cases (lt x id)) [
  | inl e ↦ rw e (
    insert_id-All _ id ids (ground (arith, lt_antisymm x id, lt_trans x id x, lt_irrefl x)) h.0,
    insert_id-IsAscending id ids h.1,
  )
  | inr e ↦ rw e (
    (e, All-mono _ (λ j. lt j id ≡ false) (λ y k. ground (arith, lt_of_not-lt x y id)) ids h.0),
    h,
  )
]

sort_ids-IsAscending : (ids : List Bytes) → IsAscending (sort_ids ids)
unfolding sort_ids
sort_ids-IsAscending [] = tt
sort_ids-IsAscending (id ∷ ids) = insert_id-IsAscending id (sort_ids ids) (sort_ids-IsAscending ids)

sorted_ids-IsAscending : (ups downs : Names) → IsAscending (sorted_ids ups downs)
unfolding sorted_ids
sorted_ids-IsAscending ups downs =
    sort_ids-IsAscending
      (ids_of ups ++ filter (λ id. not (contains (ids_of ups) id)) (ids_of downs))

-- A migration of the source: both scripts are such as `parseScript` accepts.
pub record IsValid (u : Unicode) (m : Migration) : Type 0 where
  pub up_accepted : IsAccepted u false m.up_script
  pub down_accepted : IsAccepted u true m.down_script

of_file-ok :
    {A : Type 0} (name : Bytes) (r : Result ScriptError A) {a : A}
    → of_file name r ≡ ok a
    → r ≡ ok a
of_file-ok name (ok x) h = cc
of_file-ok name (err e) h = cc

module _ (fs : FileSystem) (u : Unicode) where
  parse_migration_pair-ok :
      (id up down : Bytes) {m : Migration}
      → parse_migration_pair u id up down ≡ ok m
      → (m.id ≡ id) × IsValid u m
  unfolding parse_migration_pair
  parse_migration_pair-ok id up down h =
      let (up_script, parsed_up, more) =
        bind-eq-ok (of_file (id ++ up_file_suffix) (parse_script u up false)) _ h in
      let (down_script, parsed_down, same) =
        bind-eq-ok (of_file (id ++ down_file_suffix) (parse_script u down true)) _ more in
      let up_good = (parse_script-IsAccepted u up false (of_file-ok _ _ parsed_up)).1 in
      let down_good = (parse_script-IsAccepted u down true (of_file-ok _ _ parsed_down)).1 in
      built up_script down_script up_good down_good same
    where
      value : Result SourceError Migration → Migration
      value (ok m) = m
      value (err e) = record { applied_at = 0; id = []; up_script = []; down_script = [] }

      built :
          {m : Migration} (a b : Bytes)
          → IsAccepted u false a
          → IsAccepted u true b
          → ◌≡◌ {A = Result SourceError Migration}
              (ok (record { applied_at = 0; id = id; up_script = a; down_script = b }))
              (ok m)
          → (m.id ≡ id) × IsValid u m
      built a b ha hb same =
          rw (sym (ap value same)) (refl, record { up_accepted = ha; down_accepted = hb })

  load_files-ok :
      (id : Bytes) (up down : Option Bytes) {m : Migration}
      → load_files fs u id up down ≡ ok m
      → (m.id ≡ id) × IsValid u m
  load_files-ok id none down h = err≢ok h
  load_files-ok id (some up) none h = err≢ok h
  load_files-ok id (some up) (some down) h =
      let (a, read_up, more) = bind-eq-ok (content_of fs up) _ h in
      let (b, read_down, last) = bind-eq-ok (content_of fs down) _ more in
      parse_migration_pair-ok id a b last

  load_migrations-ok :
      (p : Pairs) (ids : List Bytes) {ms : List Migration}
      → load_migrations fs u p ids ≡ ok ms
      → (migration_ids ms ≡ ids) × All (IsValid u) ms
  unfolding load_migrations
  load_migrations-ok p [] h = rw (sym (values h)) (refl, tt)
    where
      value : Result SourceError (List Migration) → List Migration
      value (ok ms) = ms
      value (err e) = []

      values :
          {ms : List Migration}
          → ◌≡◌ {A = Result SourceError (List Migration)} (ok []) (ok ms)
          → [] ≡ ms
      values h = ap value h
  load_migrations-ok p (id ∷ ids) {ms} h =
      let (m, loaded, more) =
        bind-eq-ok (load_files fs u id (lookup id p.ups) (lookup id p.downs)) _ h in
      let (rest, others, same) = bind-eq-ok (load_migrations fs u p ids) _ more in
      let first = load_files-ok id (lookup id p.ups) (lookup id p.downs) loaded in
      let further = load_migrations-ok p ids others in joined m rest same first further
    where
      value : Result SourceError (List Migration) → List Migration
      value (ok ms) = ms
      value (err e) = []

      joined :
          (m : Migration) (rest : List Migration)
          → ◌≡◌ {A = Result SourceError (List Migration)} (ok (m ∷ rest)) (ok ms)
          → ((m.id ≡ id) × IsValid u m)
          → ((migration_ids rest ≡ ids) × All (IsValid u) rest)
          → (migration_ids ms ≡ id ∷ ids) × All (IsValid u) ms
      joined m rest same first further =
          rw (sym (ap value same)) (rw (first.0, further.0) refl, (first.1, further.1))

  -- The migrations that the source returns are in ascending order of IDs, and each has an up and a down
  -- script that `parseScript` accepts.
  pub get_file_migrations-IsValid :
      {ms : List Migration}
      → get_file_migrations fs u ≡ ok ms
      → IsAscending (migration_ids ms) × All (IsValid u) ms
  unfolding get_file_migrations
  get_file_migrations-IsValid {ms} h = read (fs.read_dir (codes ".")) h
    where
      read :
          (o : Option (List Entry))
          → from_entries fs u o ≡ ok ms
          → IsAscending (migration_ids ms) × All (IsValid u) ms
      read none h = err≢ok h
      read (some entries) h =
          let (p, collected, more) = bind-eq-ok (collect_pairs u entries no_pairs) _ h in
          let (checked, rooted, last) =
            bind-eq-ok
              (if is_nil p.ups && is_nil p.downs then explain_empty_root fs entries else ok tt) _
              more in
          let done = load_migrations-ok p (sorted_ids p.ups p.downs) last in
          (rw (done.0) (sorted_ids-IsAscending p.ups p.downs), done.1)
