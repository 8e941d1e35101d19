-- ===== src/Tests/Scripts.antt =====
-- Directive headers and statement splitting on small scripts.
use pg_migrate.Prelude.{◌≡◌, refl, [], ◌∷◌}
use pg_migrate.Result.{ok, err}
use pg_migrate.Text.{codes}
use pg_migrate.Text.Space.{trim_space, fields, trim}
use pg_migrate.Text.Lines.{lines, cut_head, cut_rest, has_prefix}
use pg_migrate.Text.Unicode.{ascii, decode_rune}
use pg_migrate.Directives.{
  parse_directive_header, directive_names, looks_like_directive, is_statement_marker_line,
  accept_names, notransaction, unknown_directive, check_no_late_directives,
}
use pg_migrate.Script.{
  split_sql_statements, process_line, scan_line, step_in, append_statement, is_empty_statement,
  match_dollar_tag, is_only_comments,
}

header :
    parse_directive_header (codes "-- +migrate notransaction\nSELECT 1;\n")
    ≡ ok (notransaction ∷ [], codes "SELECT 1;\n")
unfolding parse_directive_header directive_names fields trim_space lines cut_head cut_rest
    accept_names check_no_late_directives
header = refl

no_header : parse_directive_header (codes "SELECT 1;") ≡ ok ([], codes "SELECT 1;")
unfolding parse_directive_header directive_names fields trim_space lines cut_head cut_rest
    accept_names check_no_late_directives looks_like_directive has_prefix is_statement_marker_line
no_header = refl

unknown :
    parse_directive_header (codes "-- +migrate NoTransaction")
    ≡ err (unknown_directive (codes "NoTransaction"))
unfolding parse_directive_header directive_names fields trim_space lines cut_head cut_rest
    accept_names
unknown = refl

split :
    split_sql_statements ascii
      (codes "a 'x;''y' \"q;\"; -- c;\nb $t$ ; $t$;;\n/* ; /* */ */ E'\\';' c")
    ≡ ok (
        codes "a 'x;''y' \"q;\";"
        ∷ codes "-- c;\nb $t$ ; $t$;"
        ∷ codes "/* ; /* */ */ E'\\';' c"
        ∷ [])
unfolding split_sql_statements process_line scan_line step_in append_statement is_empty_statement
    match_dollar_tag is_only_comments trim_space trim lines decode_rune has_prefix
split = refl

block :
    split_sql_statements ascii
      (codes "x\n-- +migrate StatementBegin\na; b;\n-- +migrate StatementEnd\nc")
    ≡ ok (codes "x" ∷ codes "a; b;" ∷ codes "c" ∷ [])
unfolding split_sql_statements process_line scan_line step_in append_statement is_empty_statement
    match_dollar_tag is_only_comments trim_space trim lines decode_rune has_prefix
block = refl
