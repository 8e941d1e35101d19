-- ===== src/Source/Accepted.antt =====
-- What holds of a script that the source accepts.
use pg_migrate.Prelude.{◌≡◌, refl, ◌∙◌, ap, Bool, true, false, not, ◌&&◌, List, is_nil}
use pg_migrate.Result.{ok, bind-eq-ok, err≢ok}
use pg_migrate.Text.{Bytes, contains}
use pg_migrate.Text.Space.{trim_space}
use pg_migrate.Text.Unicode.{Unicode}
use pg_migrate.Directives
use pg_migrate.Directives.{
  ScriptError, irreversible_up, irreversible_with_sql, empty_down, empty_up, parse_directive_header,
}
use pg_migrate.Script.{split_sql_statements}
use pg_migrate.Source.{accept_script, validate_statement_blocks, parse_script}

-- A stored script: its header parses, its body splits, and it carries the marker of an irreversible
-- migration exactly if it has no SQL, which only a down script may.
pub record IsAccepted (u : Unicode) (allow_irreversible : Bool) (script : Bytes) : Type 0 where
  pub directives : List Bytes
  pub body : Bytes
  pub parses : parse_directive_header script ≡ ok (directives, body)
  pub statements : List Bytes
  pub splits : split_sql_statements u body ≡ ok statements
  pub marked : contains directives Directives.irreversible ≡ is_nil (trim_space body)
  pub allowed : (is_nil (trim_space body) && not allow_irreversible) ≡ false

accept_script-ok :
    (script : Bytes) (is_irreversible empty allow : Bool) {stored : Bytes}
    → accept_script script is_irreversible (not empty) allow ≡ ok stored
    → (stored ≡ script) × (is_irreversible ≡ empty) × ((empty && not allow) ≡ false)
accept_script-ok script true true true h = (cc, refl, refl)
accept_script-ok script true true false h = err≢ok h
accept_script-ok script true false true h = err≢ok h
accept_script-ok script true false false h = err≢ok h
accept_script-ok script false true true h = err≢ok h
accept_script-ok script false true false h = err≢ok h
accept_script-ok script false false true h = (cc, refl, refl)
accept_script-ok script false false false h = (cc, refl, refl)

-- A script that `parseScript` accepts is stored as it is but for the white space around it, and the
-- executor will read it: its header parses, its body splits into statements, and it is marked
-- irreversible exactly if it has no SQL, which a script that may not be irreversible always has.
pub parse_script-IsAccepted :
    (u : Unicode) (content : Bytes) (allow_irreversible : Bool) {stored : Bytes}
    → parse_script u content allow_irreversible ≡ ok stored
    → (stored ≡ trim_space content) × IsAccepted u allow_irreversible stored
unfolding parse_script
parse_script-IsAccepted u content allow_irreversible {stored} h =
    let (parsed, parses, more) = bind-eq-ok (parse_directive_header (trim_space content)) _ h in
    let (valid, blocks, last) = bind-eq-ok (validate_statement_blocks u parsed.1) _ more in
    let (statements, splits, rest) = bind-eq-ok (split_sql_statements u parsed.1) _ blocks in
    let (same, marked, allowed) =
      accept_script-ok (trim_space content) (contains parsed.0 Directives.irreversible)
        (is_nil (trim_space parsed.1)) allow_irreversible last in
    (
      same,
      record {
        directives = parsed.0;
        body = parsed.1;
        parses = ap parse_directive_header same ∙ parses;
        statements = statements;
        splits = splits;
        marked = marked;
        allowed = allowed;
      },
    )
