-- ===== src/Tests/NewFiles.antt =====
-- Instances of the theorems on the files of a new migration.
use pg_migrate.Prelude.{
  ℕ, ◌≤◌, ◌≡◌, refl, ◌⊎◌, true, false, some, List, [], ◌∷◌, ◌++◌, map, arith, All,
}
use pg_migrate.Result.{ok, err}
use pg_migrate.Text.{Bytes, codes, equal, contains}
use pg_migrate.Text.Space.{trim, trim_left, trim_space, has_byte}
use pg_migrate.Text.Unicode.{ascii, ascii_lower}
use pg_migrate.Source.Files.{Entry}
use pg_migrate.New.{
  Faults, entries, taken_stamps, available_timestamp, write_migration_pair, slugify, no_letters,
}
use pg_migrate.New.Templates.{TemplateOptions, up_content, down_content}
use pg_migrate.New.Stamps.{AllBegin, begins_any, available_timestamp-IsFirstFree}
use pg_migrate.New.Pair.{PairEnds, write_migration_pair_ends}
use pg_migrate.New.Slug.{IsSlug, is_word_byte, is_upper, KnowsAscii, slugify_ends}

-- A clock whose stamps tell the seconds in one byte.
abbrev ticks : ℕ → Bytes
ticks k = k ∷ codes "0000000000000"

ticks_distinct : (j k : ℕ) → ticks j ≡ ticks k → j ≡ k
ticks_distinct j k h = cc

abbrev folder : List Entry
folder =
    record { name = ticks 0 ++ codes "_a.up.sql"; is_dir = false }
    ∷ record { name = ticks 0 ++ codes "_a.down.sql"; is_dir = false }
    ∷ record { name = ticks 1; is_dir = true }
    ∷ []

waits_a_second : available_timestamp ticks (entries folder) ≡ some (ok (ticks 1))
unfolding available_timestamp taken_stamps contains equal
waits_a_second = refl

available_timestamp-IsFirstFree_example :
    (count : ℕ) × (available_timestamp ticks (entries folder) ≡ some (ok (ticks count)))
    × (count ≤ 3)
    × AllBegin ticks folder 0 count
    × (begins_any folder (ticks count) ≡ false)
available_timestamp-IsFirstFree_example =
    available_timestamp-IsFirstFree ticks folder ticks_distinct (λ n. refl)

abbrev no_faults : Faults
no_faults = record {
  make_directory = false;
  opening = λ p. false;
  writing = λ p. false;
  removing = λ p. false;
  partly = λ p. [];
}

abbrev in_folder : Bytes → Bytes
in_folder name = codes "m/" ++ name

abbrev plain : TemplateOptions
plain = record { no_transaction = false; irreversible = true }

apart :
    equal
      (in_folder (codes "1_a" ++ codes ".up.sql"))
      (in_folder (codes "1_a" ++ codes ".down.sql"))
    ≡ false
unfolding equal
apart = refl

write_migration_pair_ends_example :
    PairEnds
      (in_folder (codes "1_a" ++ codes ".up.sql"))
      (in_folder (codes "1_a" ++ codes ".down.sql"))
      (up_content plain (codes "a"))
      (down_content plain (codes "a"))
      []
      (write_migration_pair no_faults in_folder (codes "1_a") (codes "a") plain [])
write_migration_pair_ends_example =
    write_migration_pair_ends no_faults in_folder (codes "1_a") (codes "a") plain [] apart
      (λ p. refl) refl

lower-ascii : (s : Bytes) → All (λ c. is_upper c ≡ false) (map ascii_lower s)
lower-ascii [] = tt
lower-ascii (c ∷ s) = (ground arith, lower-ascii s)

ascii-KnowsAscii : KnowsAscii ascii
ascii-KnowsAscii = record { letters = λ c h. refl; digits = λ c h. refl; lower = lower-ascii }

makes_slug : slugify ascii (codes " Add Users, now! ") ≡ ok (codes "add_users_now")
unfolding slugify trim trim_left trim_space has_byte
makes_slug = refl

slugify_ends_example :
    ((slug : Bytes) × (slugify ascii (codes "Add Users") ≡ ok slug) × IsSlug slug)
    ⊎ ((slugify ascii (codes "Add Users") ≡ err (no_letters (codes "Add Users")))
        × All (λ c. is_word_byte c ≡ false) (ascii.to_lower (trim_space (codes "Add Users"))))
slugify_ends_example = slugify_ends ascii (codes "Add Users") ascii-KnowsAscii
