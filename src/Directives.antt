-- ===== src/Directives.antt =====
-- internal/migrator/directives.go: the directive header of a migration script.
pub mod Parsed
use pg_migrate.Prelude.{
  ℕ, ◌+◌, Bool, true, false, not, ◌&&◌, ◌||◌, Option, none, some, List, [], ◌∷◌, ◌++◌,
  if◌then◌else◌,
}
use pg_migrate.Result.{Result, ok, err, ◌>>=◌}
use pg_migrate.Text.{Bytes, codes, equal, contains}
use pg_migrate.Text.Space.{trim_space, fields}
use pg_migrate.Text.Lines.{lines, cut_head, cut_rest, has_prefix}

abbrev pub up_file_suffix : Bytes
up_file_suffix = codes ".up.sql"

abbrev pub down_file_suffix : Bytes
down_file_suffix = codes ".down.sql"

abbrev comment_token : Bytes
comment_token = codes "--"

abbrev migrate_token : Bytes
migrate_token = codes "+migrate"

abbrev directive_start : Bytes
directive_start = codes "-- +migrate"

abbrev migrate_token_prefix : Bytes
migrate_token_prefix = codes "+migrat"

abbrev statement_begin_marker : Bytes
statement_begin_marker = codes "StatementBegin"

abbrev statement_end_marker : Bytes
statement_end_marker = codes "StatementEnd"

abbrev pub statement_begin_line : Bytes
statement_begin_line = codes "-- +migrate StatementBegin"

abbrev pub statement_end_line : Bytes
statement_end_line = codes "-- +migrate StatementEnd"

-- `DirectiveNoTransaction`
abbrev pub notransaction : Bytes
notransaction = codes "notransaction"

-- `DirectiveIrreversible`
abbrev pub irreversible : Bytes
irreversible = codes "irreversible"

abbrev legacy_markers : List Bytes
legacy_markers = codes "Up" ∷ codes "Down" ∷ []

abbrev pub known_directives : List Bytes
known_directives = notransaction ∷ irreversible ∷ []

-- What is wrong with a script or with a migration file. The texts of the messages are not modelled.
pub data ScriptError : Type 0 where
  no_directive malformed_directive : Bytes → ScriptError
  legacy_marker unknown_directive : Bytes → ScriptError
  late_directive : Bytes → ℕ → ScriptError
  unclosed_block : ScriptError
  irreversible_up irreversible_with_sql empty_down empty_up : ScriptError

-- `DirectiveHeaderFor`
unfoldable pub directive_header_for : Bytes → Bytes
directive_header_for name = directive_start ++ codes " " ++ name

-- the second test of `directiveNames`, on `fields[2:]`
abbrev names_unless_marker : List Bytes → Option (List Bytes)
names_unless_marker [] = some []
names_unless_marker (name ∷ names) =
    if equal name statement_begin_marker || equal name statement_end_marker
    then none
    else some (name ∷ names)

abbrev names_of_fields : List Bytes → Option (List Bytes)
names_of_fields (first ∷ second ∷ names) =
    if not (equal first comment_token) || not (equal second migrate_token)
    then none
    else names_unless_marker names
names_of_fields _ = none

-- `directiveNames`; `none` where the source returns `false`
unfoldable pub directive_names : Bytes → Option (List Bytes)
unfolding equal
directive_names line = names_of_fields (fields (trim_space line))

abbrev looks_like_fields : List Bytes → Bool
looks_like_fields [] = false
looks_like_fields (first ∷ []) = has_prefix first (comment_token ++ migrate_token_prefix)
looks_like_fields (first ∷ second ∷ others) =
    if has_prefix first (comment_token ++ migrate_token_prefix)
    then true
    else if equal first comment_token
    then has_prefix second migrate_token_prefix
    else false

-- `looksLikeDirective`
unfoldable pub looks_like_directive : Bytes → Bool
looks_like_directive line = looks_like_fields (fields (trim_space line))

-- `isStatementMarkerLine`
unfoldable pub is_statement_marker_line : Bytes → Bool
is_statement_marker_line line =
    let trimmed = trim_space line in
    has_prefix trimmed statement_begin_line || has_prefix trimmed statement_end_line

-- the loop over `names`; the set of directives as the list of its keys
unfoldable pub accept_names : List Bytes → Result ScriptError (List Bytes)
unfolding contains
accept_names [] = ok []
accept_names (name ∷ names) =
    if contains known_directives name
    then (do directives ← accept_names names; ok (name ∷ directives))
    else if contains legacy_markers name
    then err (legacy_marker name)
    else err (unknown_directive name)

abbrev is_directive_line : Bytes → Bool
is_directive_line line = elim (directive_names line) [ none ↦ false | some _ ↦ true ]

-- `checkNoLateDirectives`, on the lines of the body
unfoldable pub check_no_late_directives : ℕ → List Bytes → Result ScriptError (Unit {0})
check_no_late_directives number [] = ok tt
check_no_late_directives number (line ∷ rest) =
    if is_directive_line line
    then err (late_directive (trim_space line) number)
    else check_no_late_directives (number + 1) rest

abbrev with_body : ℕ → List Bytes → Bytes → Result ScriptError (List Bytes × Bytes)
with_body number directives body = do
  _ ← check_no_late_directives number (lines body)
  ok (directives, body)

-- the switch of `ParseDirectiveHeader`, on the names of the first line
abbrev header_switch : Bytes → Option (List Bytes) → Result ScriptError (List Bytes × Bytes)
header_switch script (some []) = err (no_directive (trim_space (cut_head script)))
header_switch script (some (name ∷ names)) = do
  directives ← accept_names (name ∷ names)
  with_body 2 directives (cut_rest script)
header_switch script none =
    if looks_like_directive (cut_head script) && not (is_statement_marker_line (cut_head script))
    then err (malformed_directive (trim_space (cut_head script)))
    else with_body 1 [] script

-- `ParseDirectiveHeader`
unfoldable pub parse_directive_header : Bytes → Result ScriptError (List Bytes × Bytes)
parse_directive_header script = header_switch script (directive_names (cut_head script))
