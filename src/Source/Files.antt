-- ===== src/Source/Files.antt =====
-- `GetMigrations` of internal/source/fs.go. The file system is a parameter.
use pg_migrate.Prelude.{
  Bool, true, false, not, ◌&&◌, ◌||◌, Option, none, some, List, [], ◌∷◌, ◌++◌, if◌then◌else◌,
  is_nil, map, filter,
}
use pg_migrate.Result.{Result, ok, err, ◌>>=◌}
use pg_migrate.Text.{Bytes, codes, equal, contains, lt}
use pg_migrate.Text.Lines.{has_suffix, trim_suffix}
use pg_migrate.Text.Unicode.{Unicode}
use pg_migrate.Migration.{Migration}
use pg_migrate.Directives.{up_file_suffix, down_file_suffix}
use pg_migrate.Source.{
  SourceError, no_read_dir, no_read_file, bad_suffix, empty_id, duplicate_files, letter_case,
  no_up_file, no_down_file, rooted_too_high, parse_migration_pair,
}

pub record Entry : Type 0 where
  pub name : Bytes
  pub is_dir : Bool

-- `fs.ReadDir` and `fs.ReadFile`; `none` is an error
pub record FileSystem : Type 0 where
  pub read_dir : Bytes → Option (List Entry)
  pub read_file : Bytes → Option Bytes

-- a map from strings to strings; the newest entry of a key stands first
abbrev pub Names : Type 0
Names = List (Bytes × Bytes)

unfoldable pub lookup : Bytes → Names → Option Bytes
lookup k [] = none
lookup k ((j, v) ∷ names) = let rest = lookup k names in if equal j k then some v else rest

abbrev pub ids_of : Names → List Bytes
ids_of = map (λ n. n.0)

-- the maps of `collectPairs`
pub record Pairs : Type 0 where
  pub ups : Names
  pub downs : Names
  pub seen_folded : Names

abbrev pub no_pairs : Pairs
no_pairs = record { ups = []; downs = []; seen_folded = [] }

abbrev clashes : Bytes → Option Bytes → Option Bytes
clashes id none = none
clashes id (some previous) = if equal previous id then none else some previous

abbrev fold_case : Unicode → Bytes → Pairs → Option Bytes → Result SourceError Pairs
fold_case u id p none = ok (record p { seen_folded = (u.to_lower id, id) ∷ p.seen_folded })
fold_case u id p (some previous) = err (letter_case previous id)

-- the end of the loop, from the test of `id == ""` on
abbrev pub add_half : Unicode → Bool → Bytes → Bytes → Pairs → Result SourceError Pairs
add_half u is_up id name p =
    if is_nil id
    then err (empty_id name)
    else if contains (ids_of (if is_up then p.ups else p.downs)) id
    then err (duplicate_files id)
    else fold_case u id
        (if is_up
          then record p { ups = (id, name) ∷ p.ups }
          else record p { downs = (id, name) ∷ p.downs })
        (clashes id (lookup (u.to_lower id) p.seen_folded))

-- the body of the loop of `collectPairs`
unfoldable pub collect_entry : Unicode → Entry → Pairs → Result SourceError Pairs
unfolding lookup contains
collect_entry u e p =
    if e.is_dir || not (has_suffix (u.to_lower e.name) (codes ".sql"))
    then ok p
    else if has_suffix e.name up_file_suffix
    then add_half u true (trim_suffix e.name up_file_suffix) e.name p
    else if has_suffix e.name down_file_suffix
    then add_half u false (trim_suffix e.name down_file_suffix) e.name p
    else err (bad_suffix e.name)

-- `collectPairs`
unfoldable pub collect_pairs : Unicode → List Entry → Pairs → Result SourceError Pairs
collect_pairs u [] p = ok p
collect_pairs u (e ∷ entries) p = do next ← collect_entry u e p; collect_pairs u entries next

unfoldable pub insert_id : Bytes → List Bytes → List Bytes
insert_id id [] = id ∷ []
insert_id id (x ∷ xs) = let rest = insert_id id xs in if lt x id then x ∷ rest else id ∷ x ∷ xs

-- `slices.Sort`
unfoldable pub sort_ids : List Bytes → List Bytes
unfolding insert_id
sort_ids [] = []
sort_ids (id ∷ ids) = insert_id id (sort_ids ids)

-- `sortedIDs`
unfoldable pub sorted_ids : Names → Names → List Bytes
unfolding sort_ids
sorted_ids ups downs =
    sort_ids (ids_of ups ++ filter (λ id. not (contains (ids_of ups) id)) (ids_of downs))

abbrev is_up_file : Entry → Bool
is_up_file e = not e.is_dir && has_suffix e.name up_file_suffix

abbrev nested_ups : Option (List Entry) → List Entry
nested_ups none = []
nested_ups (some nested) = filter is_up_file nested

-- `explainEmptyRoot`
unfoldable pub explain_empty_root : FileSystem → List Entry → Result SourceError (Unit {0})
explain_empty_root fs [] = ok tt
explain_empty_root fs (e ∷ entries) =
    let rest = explain_empty_root fs entries in
    if not e.is_dir
    then rest
    else if is_nil (nested_ups (fs.read_dir e.name))
    then rest
    else err (rooted_too_high e.name)

abbrev pub content_of : FileSystem → Bytes → Result SourceError Bytes
content_of fs name = elim (fs.read_file name) [ none ↦ err (no_read_file name) | some s ↦ ok s ]

abbrev pub load_files :
    FileSystem → Unicode → Bytes → Option Bytes → Option Bytes → Result SourceError Migration
load_files fs u id none down = err (no_up_file id)
load_files fs u id (some up) none = err (no_down_file id)
load_files fs u id (some up) (some down) = do
  up_content ← content_of fs up
  down_content ← content_of fs down
  parse_migration_pair u id up_content down_content

-- the loop of `GetMigrations`
unfoldable pub load_migrations :
    FileSystem → Unicode → Pairs → List Bytes → Result SourceError (List Migration)
load_migrations fs u p [] = ok []
load_migrations fs u p (id ∷ ids) = do
  m ← load_files fs u id (lookup id p.ups) (lookup id p.downs)
  ms ← load_migrations fs u p ids
  ok (m ∷ ms)

abbrev pub from_entries :
    FileSystem → Unicode → Option (List Entry) → Result SourceError (List Migration)
from_entries fs u none = err no_read_dir
from_entries fs u (some entries) = do
  p ← collect_pairs u entries no_pairs
  _ ← (if is_nil p.ups && is_nil p.downs then explain_empty_root fs entries else ok tt)
  load_migrations fs u p (sorted_ids p.ups p.downs)

-- `GetMigrations`
unfoldable pub get_file_migrations : FileSystem → Unicode → Result SourceError (List Migration)
get_file_migrations fs u = from_entries fs u (fs.read_dir (codes "."))
