-- ===== src/Source.antt =====
-- internal/source: the migration files of a directory as migrations.
pub mod Files
pub mod Accepted
pub mod Loaded
use pg_migrate.Prelude.{Bool, true, false, not, ◌&&◌, List, [], ◌∷◌, ◌++◌, if◌then◌else◌, is_nil}
use pg_migrate.Result.{Result, ok, err, ◌>>=◌}
use pg_migrate.Text.{Bytes, contains}
use pg_migrate.Text.Space.{trim_space}
use pg_migrate.Text.Unicode.{Unicode}
use pg_migrate.Migration.{Migration}
use pg_migrate.Directives
use pg_migrate.Directives.{
  ScriptError, irreversible_up, irreversible_with_sql, empty_down, empty_up, parse_directive_header,
  up_file_suffix, down_file_suffix,
}
use pg_migrate.Script.{split_sql_statements}

-- What is wrong with the source. Texts of messages are not modelled, the names in them are.
pub data SourceError : Type 0 where
  in_file : Bytes → ScriptError → SourceError
  no_read_dir : SourceError
  no_read_file : Bytes → SourceError
  bad_suffix empty_id : Bytes → SourceError
  duplicate_files : Bytes → SourceError
  letter_case : Bytes → Bytes → SourceError
  no_up_file no_down_file : Bytes → SourceError
  rooted_too_high : Bytes → SourceError

-- `ValidateStatementBlocks`
abbrev pub validate_statement_blocks : Unicode → Bytes → Result ScriptError (Unit {0})
validate_statement_blocks u script = do _ ← split_sql_statements u script; ok tt

-- The switch of `parseScript`.
abbrev pub accept_script :
    Bytes → (is_irreversible has_sql allow_irreversible : Bool) → Result ScriptError Bytes
accept_script script is_irreversible has_sql allow_irreversible =
    if is_irreversible && not allow_irreversible
    then err irreversible_up
    else if is_irreversible && has_sql
    then err irreversible_with_sql
    else if is_irreversible
    then ok script
    else if not has_sql && allow_irreversible
    then err empty_down
    else if not has_sql
    then err empty_up
    else ok script

-- `parseScript`; the file name is put before the error by the caller here
unfoldable pub parse_script : Unicode → Bytes → Bool → Result ScriptError Bytes
parse_script u content allow_irreversible = do
  parsed ← parse_directive_header (trim_space content)
  _ ← validate_statement_blocks u parsed.1
  accept_script (trim_space content) (contains parsed.0 Directives.irreversible)
      (not (is_nil (trim_space parsed.1))) allow_irreversible

abbrev pub of_file : {A : Type 0} → Bytes → Result ScriptError A → Result SourceError A
of_file name (ok a) = ok a
of_file name (err e) = err (in_file name e)

-- `ParseMigrationPair`
unfoldable pub parse_migration_pair : Unicode → Bytes → Bytes → Bytes → Result SourceError Migration
parse_migration_pair u id up_content down_content = do
  up ← of_file (id ++ up_file_suffix) (parse_script u up_content false)
  down ← of_file (id ++ down_file_suffix) (parse_script u down_content true)
  ok (record { applied_at = 0; id = id; up_script = up; down_script = down })
