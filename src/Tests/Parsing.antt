-- ===== src/Tests/Parsing.antt =====
-- Instances of the theorems on headers and on statement splitting.
use pg_migrate.Prelude.{◌≡◌, refl, true, false, List, [], ◌∷◌, ◌++◌, All}
use pg_migrate.Result.{ok}
use pg_migrate.Text.{Bytes, codes, contains, equal}
use pg_migrate.Text.Space.{trim_space, fields, trim}
use pg_migrate.Text.Lines.{newline, lines, cut_head, cut_rest, has_prefix}
use pg_migrate.Text.Unicode.{ascii, decode_rune}
use pg_migrate.Directives.{
  parse_directive_header, directive_header_for, directive_names, accept_names,
  check_no_late_directives, notransaction, irreversible, known_directives,
}
use pg_migrate.Directives.Parsed.{
  IsParsed, IsCalm, parse_directive_header_ends, parse_directive_header-directive_header_for,
}
use pg_migrate.Script.{
  start, split_sql_statements, process_lines, process_line, scan_line, step_in, append_statement,
  is_empty_statement, is_only_comments,
}
use pg_migrate.Script.Pieces.{split_sql_statements-pieces}
use pg_migrate.Script.Silent.{Added, Chosen}
use pg_migrate.Script.Cut.{joined}
use pg_migrate.Script.Blocks.{block_text, is_begin, is_end, process_lines-block}

parses :
    parse_directive_header (codes "-- +migrate notransaction\nSELECT 1;\n")
    ≡ ok (notransaction ∷ [], codes "SELECT 1;\n")
unfolding parse_directive_header directive_names fields trim_space lines cut_head cut_rest
    accept_names check_no_late_directives
parses = refl

parse_directive_header_ends_example :
    IsParsed
      (codes "-- +migrate notransaction\nSELECT 1;\n")
      (notransaction ∷ [])
      (codes "SELECT 1;\n")
parse_directive_header_ends_example =
    parse_directive_header_ends (codes "-- +migrate notransaction\nSELECT 1;\n") parses

body-IsCalm : IsCalm (codes "A;\nB")
unfolding lines directive_names fields trim_space
body-IsCalm = (refl, (refl, tt))

name_known : contains known_directives irreversible ≡ true
unfolding contains
name_known = refl

parse_directive_header-directive_header_for_example :
    parse_directive_header (directive_header_for irreversible ++ newline ∷ codes "A;\nB")
    ≡ ok (irreversible ∷ [], codes "A;\nB")
parse_directive_header-directive_header_for_example =
    parse_directive_header-directive_header_for irreversible (codes "A;\nB") name_known body-IsCalm

splits : split_sql_statements ascii (codes "a;;b") ≡ ok (codes "a;" ∷ codes "b" ∷ [])
unfolding split_sql_statements process_line scan_line step_in append_statement is_empty_statement
    is_only_comments trim_space trim lines decode_rune has_prefix
splits = refl

two_lines : All (λ l. is_begin l ≡ false) (lines (codes "a; -- c;\nb"))
unfolding lines trim_space equal
two_lines = (refl, (refl, tt))

split_sql_statements-pieces_example :
    (pieces : List Bytes) × (joined pieces ≡ codes "a; -- c;\nb")
    × (stmts : List Bytes) × (split_sql_statements ascii (codes "a; -- c;\nb") ≡ ok stmts)
    × Chosen pieces stmts
split_sql_statements-pieces_example =
    split_sql_statements-pieces ascii (codes "a; -- c;\nb") two_lines

begins : is_begin (codes "-- +migrate StatementBegin") ≡ true
unfolding trim_space equal
begins = refl

ends : is_end (codes "-- +migrate StatementEnd") ≡ true
unfolding trim_space equal
ends = refl

goes_on : is_end (codes "x;") ≡ false
unfolding trim_space equal
goes_on = refl

process_lines-block_example :
    (before after : List Bytes) × Added start.statements (trim_space start.buf) before
    × Added before (trim_space (block_text (codes "x;" ∷ []))) after
    × (process_lines ascii
          (codes "-- +migrate StatementBegin" ∷ codes "x;" ∷ codes "-- +migrate StatementEnd" ∷ [])
          start
        ≡ process_lines ascii [] (record start { statements = after; buf = []; in_block = false }))
process_lines-block_example =
    process_lines-block ascii (codes "-- +migrate StatementEnd") []
      (codes "-- +migrate StatementBegin") (codes "x;" ∷ []) start refl refl begins ends
      (goes_on, tt)
