-- ===== src/Executor/Ran.antt =====
-- What it means that a script has run: its SQL as a whole, or its statements one after the other.
use pg_migrate.Prelude.{◌≡◌, ◌⊎◌, true, false, List, [], ◌∷◌, if◌then◌else◌, is_nil, some}
use pg_migrate.Result.{ok}
use pg_migrate.Text.{Bytes, contains}
use pg_migrate.Text.Space.{trim_space}
use pg_migrate.Text.Unicode.{Unicode}
use pg_migrate.Directives.{parse_directive_header, notransaction}
use pg_migrate.Script.{split_sql_statements}
use pg_migrate.Database.{Server}

-- The statements without the white space around them, less the blank ones.
abbrev pub texts : List Bytes → List Bytes
texts [] = []
texts (stmt ∷ rest) = if is_nil (trim_space stmt) then texts rest else trim_space stmt ∷ texts rest

-- Each of the statements succeeds, one after the other, and they take the schema from `s` to `t`.
abbrev pub Ran : {S : Type 0} → Server S → List Bytes → S → S → Type 0
Ran sv [] s t = t ≡ s
Ran {S} sv (stmt ∷ rest) s t = (mid : S) × (sv.exec stmt s ≡ some mid) × Ran sv rest mid t

-- The statements of a text take the schema from `s` to `t`.
abbrev pub RanOf : {S : Type 0} → Server S → Unicode → Bytes → S → S → Type 0
RanOf sv u sql s t =
    (stmts : List Bytes) × (split_sql_statements u sql ≡ ok stmts) × Ran sv (texts stmts) s t

-- The script takes the schema from `s` to `t`: below its header, at once, or statement by statement if
-- the header says so.
pub record HasRun {S : Type 0} (sv : Server S) (u : Unicode) (script : Bytes) (s t : S)
    : Type 0 where
  pub directives : List Bytes
  pub sql : Bytes
  pub parses : parse_directive_header script ≡ ok (directives, sql)
  pub runs :
      ((contains directives notransaction ≡ false) × (sv.exec sql s ≡ some t))
      ⊎ ((contains directives notransaction ≡ true) × RanOf sv u sql s t)
