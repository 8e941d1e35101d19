-- ===== src/New.antt =====
-- cmd/pg-migrate/new.go: the files of a new migration.
--
-- The clock is a parameter: `stamp k` is the time k seconds from now, formatted as 14 digits. So is the
-- disk, with the calls of it that fail.
pub mod Templates
pub mod Stamps
pub mod Pair
pub mod Slug
use pg_migrate.Prelude.{
  ℕ, zero, suc, ◌+◌, Bool, true, false, not, ◌&&◌, ◌||◌, Option, none, some, List, [], ◌∷◌, ◌++◌,
  if◌then◌else◌, is_nil, leb, ltb, ◌==◌, length, take, filter,
}
use pg_migrate.Result.{Result, ok, err, ◌>>=◌}
use pg_migrate.Text.{Bytes, codes, equal, contains}
use pg_migrate.Text.Space.{trim_space, trim}
use pg_migrate.Text.Unicode.{Unicode}
use pg_migrate.Source.Files.{Entry, Names, lookup}
use Templates.{TemplateOptions, up_content, down_content}

pub data NewError : Type 0 where
  no_letters : Bytes → NewError
  no_directory no_make_directory : NewError
  no_migration_path : NewError
  already_exists no_create no_write : Bytes → NewError

-- `maxSlugLength`
abbrev pub max_slug_length : ℕ
max_slug_length = 100

-- `unicode.MaxASCII`
abbrev pub max_ascii : ℕ
max_ascii = 0x7f

-- the first case of the switch in `slugify`
abbrev pub is_slug_letter : Unicode → ℕ → Bool
is_slug_letter u r = ltb r max_ascii && (u.is_letter r || u.is_digit r)

-- The loop of `slugify`. It goes through bytes where the source goes through characters: a character
-- beyond ASCII has bytes beyond ASCII only, and they fold to the same one underscore.
unfoldable pub slug_from : Unicode → Bool → Bytes → Bytes
slug_from u last_underscore [] = []
slug_from u last_underscore (r ∷ s) =
    let letter = slug_from u false s in
    let rest = slug_from u true s in
    if is_slug_letter u r then r ∷ letter else if not last_underscore then b'_' ∷ rest else rest

abbrev pub underscore : Bytes
underscore = b'_' ∷ []

abbrev pub cut_slug : Bytes → Bytes
cut_slug slug =
    if ltb max_slug_length (length slug) then trim underscore (take max_slug_length slug) else slug

-- `slugify`
unfoldable pub slugify : Unicode → Bytes → Result NewError Bytes
unfolding slug_from
slugify u name =
    let slug = trim underscore (slug_from u true (u.to_lower (trim_space name))) in
    if is_nil slug then err (no_letters name) else ok (cut_slug slug)

-- the length of `timestampLayout`
abbrev pub layout_length : ℕ
layout_length = 14

-- the set `taken` of `availableTimestamp`
unfoldable pub taken_stamps : List Entry → List Bytes
taken_stamps [] = []
taken_stamps (e ∷ entries) =
    let rest = taken_stamps entries in
    if e.is_dir
    then rest
    else if leb layout_length (length e.name)
    then take layout_length e.name ∷ rest
    else rest

-- The loop of `availableTimestamp`, which has no bound in the source; `none` if the fuel runs out.
unfoldable pub next_stamp : (ℕ → Bytes) → List Bytes → ℕ → ℕ → Option Bytes
unfolding contains
next_stamp stamp taken zero k = none
next_stamp stamp taken (suc fuel) k =
    let later = next_stamp stamp taken fuel (k + 1) in
    if contains taken (stamp k) then later else some (stamp k)

-- what `os.ReadDir` returns
pub data Listing : Type 0 where
  missing unreadable : Listing
  entries : List Entry → Listing

abbrev pub stamped : Option Bytes → Option (Result NewError Bytes)
stamped none = none
stamped (some s) = some (ok s)

-- `availableTimestamp`, with one round of fuel for each entry and one more
unfoldable pub available_timestamp : (ℕ → Bytes) → Listing → Option (Result NewError Bytes)
unfolding next_stamp taken_stamps
available_timestamp stamp missing = some (ok (stamp 0))
available_timestamp stamp unreadable = some (err no_directory)
available_timestamp stamp (entries es) =
    stamped (next_stamp stamp (taken_stamps es) (length es + 1) 0)

-- The files by their paths, and which calls on a path fail. A write that fails has written `partly`.
pub record Faults : Type 0 where
  pub make_directory : Bool
  pub opening : Bytes → Bool
  pub writing : Bytes → Bool
  pub removing : Bytes → Bool
  pub partly : Bytes → Bytes

abbrev pub OnDisk : Type 0 → Type 0
OnDisk A = Result NewError A × Names

abbrev pub create : Faults → Bytes → Bytes → Option Bytes → Names → OnDisk (Unit {0})
create f path content (some _) disk = (err (already_exists path), disk)
create f path content none disk =
    if f.opening path
    then (err (no_create path), disk)
    else if f.writing path
    then (err (no_write path), (path, f.partly path) ∷ disk)
    else (ok tt, (path, content) ∷ disk)

-- `writeNewFile`: O_EXCL refuses a file that is there
unfoldable pub write_new_file : Faults → Bytes → Bytes → Names → OnDisk (Unit {0})
unfolding lookup
write_new_file f path content disk = create f path content (lookup path disk) disk

-- `os.Remove`
unfoldable pub remove_file : Faults → Bytes → Names → Names
remove_file f path disk = if f.removing path then disk else filter (λ n. not (equal n.0 path)) disk

abbrev pub both_written : Faults → Bytes → Bytes → OnDisk (Unit {0}) → OnDisk (List Bytes)
both_written f up_path down_path (ok _, disk) = (ok (up_path ∷ down_path ∷ []), disk)
both_written f up_path down_path (err e, disk) = (err e, remove_file f up_path disk)

abbrev pub up_written : Faults → Bytes → Bytes → Bytes → OnDisk (Unit {0}) → OnDisk (List Bytes)
up_written f up_path down_path content (err e, disk) = (err e, disk)
up_written f up_path down_path content (ok _, disk) =
    both_written f up_path down_path (write_new_file f down_path content disk)

-- `writeMigrationPair`; `join` is `filepath.Join` of the folder and a name
unfoldable pub write_migration_pair :
    Faults → (Bytes → Bytes) → Bytes → Bytes → TemplateOptions → Names → OnDisk (List Bytes)
unfolding write_new_file remove_file up_content down_content
write_migration_pair f join id slug opts disk =
    let up_path = join (id ++ codes ".up.sql") in
    let down_path = join (id ++ codes ".down.sql") in
    if f.make_directory
    then (err no_make_directory, disk)
    else up_written f up_path down_path (down_content opts slug)
        (write_new_file f up_path (up_content opts slug) disk)

abbrev pub stamp_then :
    Option (Result NewError Bytes)
    → Names
    → (Bytes → OnDisk (List Bytes))
    → Option (OnDisk (List Bytes))
stamp_then none disk f = none
stamp_then (some (err e)) disk f = some (err e, disk)
stamp_then (some (ok stamp)) disk f = some (f stamp)

abbrev pub name_then :
    {A : Type 0}
    → Result NewError A
    → Names
    → (A → Option (OnDisk (List Bytes)))
    → Option (OnDisk (List Bytes))
name_then (err e) disk f = some (err e, disk)
name_then (ok a) disk f = f a

-- `new`: what `newCommand` runs, with what `resolvePath` gives; `list_dir` is `os.ReadDir` and `join` is
-- `filepath.Join`. `none` would be a search for a stamp that does not end.
unfoldable pub new_command :
    Unicode
    → (ℕ → Bytes)
    → (Bytes → Listing)
    → (Bytes → Bytes → Bytes)
    → Faults
    → TemplateOptions
    → Result NewError Bytes
    → Bytes
    → Names
    → Option (OnDisk (List Bytes))
unfolding slugify available_timestamp write_migration_pair
new_command u stamp list_dir join f opts path name disk = name_then path disk λ dir.
    name_then (slugify u name) disk λ slug.
      stamp_then (available_timestamp stamp (list_dir dir)) disk
        λ s. write_migration_pair f (join dir) (s ++ b'_' ∷ slug) slug opts disk
