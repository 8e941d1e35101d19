-- ===== src/New/Pair.antt =====
-- `writeMigrationPair` of cmd/pg-migrate/new.go: the two files of a new migration.
use pg_migrate.Prelude.{
  ◌≡◌, refl, sym, ap, ◌∙◌, inl, inr, Bool, true, false, not, Option, none, some, List, [], ◌∷◌,
  ◌++◌, if◌then◌else◌, filter, arith, Bool-cases,
}
use pg_migrate.Result.{ok, err}
use pg_migrate.Text.{Bytes, codes, equal, equal_iff}
use pg_migrate.Source.Files.{Names, lookup}
use pg_migrate.New.{
  Faults, OnDisk, create, write_new_file, remove_file, both_written, up_written,
  write_migration_pair,
}
use pg_migrate.New.Templates.{TemplateOptions, up_content, down_content}

-- The same files with the same contents.
abbrev pub SameFiles : Names → Names → Type 0
SameFiles before after = (p : Bytes) → lookup p after ≡ lookup p before

lookup-remove :
    (path p : Bytes) (disk : Names)
    → lookup p (filter (λ n. not (equal n.0 path)) disk)
      ≡ (if equal path p then none else lookup p disk)
unfolding lookup
lookup-remove path p [] = ground arith
lookup-remove path p ((j, v) ∷ disk) =
    ground (arith, equal_iff j path, equal_iff path p, equal_iff j p, lookup-remove path p disk)

-- A file that was created and is removed again leaves no trace.
lookup-undo :
    (path p c : Bytes) (disk : Names)
    → lookup path disk ≡ none
    → lookup p (filter (λ n. not (equal n.0 path)) ((path, c) ∷ disk)) ≡ lookup p disk
lookup-undo path p c disk absent =
    lookup-remove path p ((path, c) ∷ disk) ∙ at_path (equal path p) refl
  where
    at_path :
        (b : Bool)
        → equal path p ≡ b
        → (if b then none else lookup p ((path, c) ∷ disk)) ≡ lookup p disk
    at_path true e = sym absent ∙ ap (λ q. lookup q disk) ((equal_iff path p).0 e)
    at_path false e = unfold lookup in rw e refl

-- What `writeNewFile` comes to where writing itself does not fail.
abbrev Created : Bytes → Bytes → Names → OnDisk (Unit {0}) → Type 0
Created path content before (ok _, after) =
    (lookup path before ≡ none) × (after ≡ (path, content) ∷ before)
Created path content before (err e, after) = after ≡ before

create-Created :
    (f : Faults) (path content : Bytes) (o : Option Bytes) (disk : Names)
    → f.writing path ≡ false
    → lookup path disk ≡ o
    → Created path content disk (create f path content o disk)
create-Created f path content (some c) disk writes e = refl
create-Created f path content none disk writes e = elim (Bool-cases (f.opening path)) [
  | inl fails ↦ rw fails refl
  | inr opens ↦ rw (opens, writes) (e, refl)
]

write_new_file-Created :
    (f : Faults) (path content : Bytes) (disk : Names)
    → f.writing path ≡ false
    → Created path content disk (write_new_file f path content disk)
unfolding write_new_file
write_new_file-Created f path content disk writes =
    create-Created f path content (lookup path disk) disk writes refl

-- Both files are there, and were not before; or the files are what they were.
abbrev pub PairEnds : (up down up_text down_text : Bytes) → Names → OnDisk (List Bytes) → Type 0
PairEnds up down up_text down_text before (ok paths, after) =
    (paths ≡ up ∷ down ∷ [])
    × (lookup up before ≡ none)
    × (lookup down before ≡ none)
    × ((p : Bytes)
        → lookup p after ≡ (
            if equal down p
            then some down_text
            else if equal up p
            then some up_text
            else lookup p before))
PairEnds up down up_text down_text before (err e, after) = SameFiles before after

module _ (f : Faults) (up down up_text down_text : Bytes) (disk : Names)
    (apart : equal up down ≡ false) (writes : (p : Bytes) → f.writing p ≡ false)
    (removes : f.removing up ≡ false) where
  both_written-PairEnds :
      (r : OnDisk (Unit {0}))
      → lookup up disk ≡ none
      → Created down down_text ((up, up_text) ∷ disk) r
      → PairEnds up down up_text down_text disk (both_written f up down r)
  unfolding remove_file lookup
  both_written-PairEnds (ok _, after) absent (free, e) =
      (refl, absent, rw apart at free, λ p. ap (lookup p) e)
  both_written-PairEnds (err _, after) absent e = λ p. rw removes (
      ap (λ d. lookup p (filter (λ n. not (equal n.0 up)) d)) e
      ∙ lookup-undo up p up_text disk absent)

  up_written-PairEnds :
      (r : OnDisk (Unit {0}))
      → Created up up_text disk r
      → PairEnds up down up_text down_text disk (up_written f up down down_text r)
  up_written-PairEnds (err e, after) same = λ p. ap (lookup p) same
  up_written-PairEnds (ok _, after) (absent, e) = rw e (
      both_written-PairEnds (write_new_file f down down_text ((up, up_text) ∷ disk)) absent
        (write_new_file-Created f down down_text ((up, up_text) ∷ disk) (writes down)))

-- Where the two paths differ, and no write is cut short and the removal works, `writeMigrationPair` either
-- creates both files, neither of which was there, with their contents, and leaves all others alone;
-- or it returns an error, and the files are what they were.
pub write_migration_pair_ends :
    (f : Faults) (join : Bytes → Bytes) (id slug : Bytes) (opts : TemplateOptions) (disk : Names)
    → equal (join (id ++ codes ".up.sql")) (join (id ++ codes ".down.sql")) ≡ false
    → ((p : Bytes) → f.writing p ≡ false)
    → f.removing (join (id ++ codes ".up.sql")) ≡ false
    → PairEnds
        (join (id ++ codes ".up.sql"))
        (join (id ++ codes ".down.sql"))
        (up_content opts slug)
        (down_content opts slug)
        disk
        (write_migration_pair f join id slug opts disk)
unfolding write_migration_pair
write_migration_pair_ends f join id slug opts disk apart writes removes =
    elim (Bool-cases f.make_directory) [
      | inl fails ↦ rw fails (λ p. refl)
      | inr made ↦ rw made (
          let up = join (id ++ codes ".up.sql") in
          let down = join (id ++ codes ".down.sql") in
          up_written-PairEnds f up down (up_content opts slug) (down_content opts slug) disk apart
            writes removes (write_new_file f up (up_content opts slug) disk)
            (write_new_file-Created f up (up_content opts slug) disk (writes up)))
    ]
