-- ===== src/Table.antt =====
-- internal/migrator/table.go: the quoted name of the bookkeeping table.
pub mod Quoting
use pg_migrate.Prelude.{
  ℕ, ◌+◌, Bool, true, false, ◌||◌, List, [], ◌∷◌, ◌++◌, if◌then◌else◌, is_nil, length, ltb, ◌==◌,
}
use pg_migrate.Result.{Result, ok, err, ◌>>=◌}
use pg_migrate.Text.{Bytes, codes}
use pg_migrate.Text.Space.{has_byte}

-- `TableConfig`
pub record TableConfig : Type 0 where
  pub schema : Bytes
  pub name : Bytes

pub data NameError : Type 0 where
  empty_name too_long has_nul : NameError
  of_name of_schema : NameError → NameError

-- `DefaultTableName`
abbrev pub default_table_name : Bytes
default_table_name = codes "migrations"

-- `maxIdentifierBytes`
abbrev pub max_identifier_bytes : ℕ
max_identifier_bytes = 63

abbrev pub quote : ℕ
quote = b'"'

-- `strings.ReplaceAll` of a quote by two
unfoldable pub double_quotes : Bytes → Bytes
double_quotes [] = []
double_quotes (c ∷ s) =
    let rest = double_quotes s in if c == quote then quote ∷ quote ∷ rest else c ∷ rest

-- `quoteIdentifier`
unfoldable pub quote_identifier : Bytes → Result NameError Bytes
quote_identifier s =
    if is_nil s
    then err empty_name
    else if ltb max_identifier_bytes (length s)
    then err too_long
    else if has_byte s 0
    then err has_nul
    else ok (quote ∷ double_quotes s ++ quote ∷ [])

abbrev pub wrap_name : (NameError → NameError) → Result NameError Bytes → Result NameError Bytes
wrap_name f (ok q) = ok q
wrap_name f (err e) = err (f e)

abbrev pub table_name : TableConfig → Bytes
table_name c = if is_nil c.name then default_table_name else c.name

-- `resolve`
unfoldable pub resolve : TableConfig → Result NameError Bytes
resolve c = do
  quoted_name ← wrap_name of_name (quote_identifier (table_name c))
  (if is_nil c.schema then ok quoted_name else (do
    quoted_schema ← wrap_name of_schema (quote_identifier c.schema)
    ok (quoted_schema ++ b'.' ∷ quoted_name)))
