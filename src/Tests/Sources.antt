-- ===== src/Tests/Sources.antt =====
-- Instances of the theorems on table names and on the file source.
use pg_migrate.Prelude.{◌≡◌, refl, false, some, [], ◌∷◌, ◌++◌, if◌then◌else◌}
use pg_migrate.Result.{ok}
use pg_migrate.Text.{Bytes, codes, contains, equal, lt}
use pg_migrate.Text.Space.{trim_space, fields, trim, has_byte}
use pg_migrate.Text.Lines.{lines, cut_head, cut_rest, has_prefix, has_suffix, trim_suffix}
use pg_migrate.Text.Unicode.{ascii, decode_rune}
use pg_migrate.Migration.{migration_ids}
use pg_migrate.Prelude.{All}
use pg_migrate.Directives.{
  parse_directive_header, directive_names, accept_names, check_no_late_directives,
  looks_like_directive, is_statement_marker_line,
}
use pg_migrate.Script.{
  split_sql_statements, process_line, scan_line, step_in, append_statement, is_empty_statement,
  is_only_comments,
}
use pg_migrate.Table.{quote_identifier, double_quotes}
use pg_migrate.Table.Quoting.{read_identifier, quote_identifier_reads}
use pg_migrate.Source.{parse_script, parse_migration_pair}
use pg_migrate.Source.Files.{
  Entry, FileSystem, lookup, collect_entry, collect_pairs, insert_id, sort_ids, sorted_ids,
  load_migrations, get_file_migrations,
}
use pg_migrate.Source.Loaded.{IsAscending, IsValid, get_file_migrations-IsValid}
use pg_migrate.Tests.Fixtures.{first}

quotes : quote_identifier (codes "a\"b") ≡ ok (codes "\"a\"\"b\"")
unfolding quote_identifier double_quotes has_byte
quotes = refl

quote_identifier_reads_example :
    read_identifier (codes "\"a\"\"b\"" ++ codes ".c") ≡ some (codes "a\"b", codes ".c")
quote_identifier_reads_example = quote_identifier_reads (codes "a\"b") (codes ".c") quotes refl

abbrev entry : Bytes → Entry
entry name = record { name = name; is_dir = false }

-- the two files of `first`, the down script before the up script
abbrev files : FileSystem
files = record {
  read_dir = λ d. some (entry (codes "1.down.sql") ∷ entry (codes "1.up.sql") ∷ []);
  read_file = λ f. if equal f (codes "1.up.sql") then some (codes "A\n") else some (codes "B\n");
}

loads : get_file_migrations files ascii ≡ ok (first ∷ [])
unfolding get_file_migrations collect_pairs collect_entry lookup load_migrations insert_id sort_ids
    sorted_ids parse_migration_pair has_suffix trim_suffix equal lt parse_script
    parse_directive_header directive_names fields trim_space lines cut_head cut_rest accept_names
    check_no_late_directives contains split_sql_statements process_line scan_line step_in
    append_statement is_empty_statement is_only_comments trim decode_rune has_prefix
    looks_like_directive is_statement_marker_line
loads = refl

get_file_migrations-IsValid_example :
    IsAscending (migration_ids (first ∷ [])) × All (IsValid ascii) (first ∷ [])
get_file_migrations-IsValid_example = get_file_migrations-IsValid files ascii loads
