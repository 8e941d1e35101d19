-- ===== src/Cli/Validate.antt =====
-- cmd/pg-migrate/validate.go: what `validate` reports of the migration files.
use pg_migrate.Prelude.{ℕ, Bool, ◌&&◌, List, [], ◌∷◌, ◌++◌, map, length, if◌then◌else◌, ◌==◌}
use pg_migrate.Result.{Result, ok, err, ◌>>=◌}
use pg_migrate.Text.{Bytes, codes, contains}
use pg_migrate.Text.Unicode.{Unicode}
use pg_migrate.Migration.{Migration}
use pg_migrate.Directives
use pg_migrate.Directives.{ScriptError, notransaction, parse_directive_header}
use pg_migrate.Source.{SourceError}
use pg_migrate.Source.Files.{FileSystem, get_file_migrations}

-- `validatedMigration`
pub record ValidatedMigration : Type 0 where
  pub id : Bytes
  pub no_transaction : Bool
  pub irreversible : Bool

-- `validationReport`
pub record ValidationReport : Type 0 where
  pub path : Bytes
  pub migrations : List ValidatedMigration
  pub count : ℕ

-- the directives of a script; an error is ignored, and leaves none
abbrev pub directives_of : Result ScriptError (List Bytes × Bytes) → List Bytes
directives_of (ok (names, body)) = names
directives_of (err e) = []

-- the loop's body in `validateMigrations`
unfoldable pub validated : Migration → ValidatedMigration
unfolding parse_directive_header contains
validated m = record {
  id = m.id;
  no_transaction = contains (directives_of (parse_directive_header m.up_script)) notransaction;
  irreversible =
      contains (directives_of (parse_directive_header m.down_script)) Directives.irreversible;
}

-- `validateMigrations`; `dir_fs` is `os.DirFS`
unfoldable pub validate_migrations :
    Unicode → (Bytes → FileSystem) → Bytes → Result SourceError ValidationReport
unfolding validated
validate_migrations u dir_fs path = do
  migrations ← get_file_migrations (dir_fs path) u
  ok (record { path = path; migrations = map validated migrations; count = length migrations })

-- `annotate`
unfoldable pub annotate : ValidatedMigration → Bytes
annotate m =
    if m.no_transaction && m.irreversible
    then codes "  [notransaction, irreversible]"
    else if m.no_transaction
    then codes "  [notransaction]"
    else if m.irreversible
    then codes "  [irreversible]"
    else []

-- the line of a migration in `writeValidationReport`
abbrev pub report_line : ValidatedMigration → Bytes
report_line m = codes "  " ++ (m.id ++ (annotate m ++ 0x0a ∷ []))

abbrev pub report_lines : List ValidatedMigration → Bytes
report_lines [] = []
report_lines (m ∷ ms) = report_line m ++ report_lines ms

-- `writeValidationReport` as text; `decimal` writes a number
unfoldable pub write_validation_report : (ℕ → Bytes) → ValidationReport → Bytes
unfolding annotate
write_validation_report decimal r =
    if r.count == 0
    then codes "no migrations found in " ++ (r.path ++ 0x0a ∷ [])
    else report_lines r.migrations
      ++ (0x0a ∷ decimal r.count
          ++ (codes " migration(s) in " ++ (r.path ++ (codes ": OK" ++ 0x0a ∷ []))))
