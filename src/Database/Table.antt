-- ===== src/Database/Table.antt =====
-- The SQL statements that read and write the bookkeeping table.
use pg_migrate.Prelude.{
  ℕ, ◌+◌, Bool, true, false, Option, none, some, List, [], ◌∷◌, ◌++◌, if◌then◌else◌,
}
use pg_migrate.Result.{ok}
use pg_migrate.Error.{Error}
use pg_migrate.Text.{Bytes, contains}
use pg_migrate.Migration.{Migration}
use pg_migrate.Database.{Row, Server, new_row, can_insert, row_ids, without, mark, find_row}
use pg_migrate.Database.Calls.{M, call, sql_error}

abbrev pub ensured : Option (List Row) → Option (List Row)
ensured none = some []
ensured (some rows) = some rows

abbrev pub table_is_there : Option (List Row) → Bool
table_is_there none = false
table_is_there (some _) = true

module _ {S : Type 0} where
  -- CREATE TABLE IF NOT EXISTS
  abbrev pub create : M S (Unit {0})
  create db = (ok tt, record db { ledger = ensured db.ledger })

  -- An insert that is refused has taken a number of the sequence too.
  abbrev pub insert_into : ℕ → Migration → Option Error → List Row → M S (Unit {0})
  insert_into now m error rows db =
      if can_insert rows m.id
      then (
        ok tt,
        record db {
          ledger = some (rows ++ new_row db.next_seq now m error ∷ []);
          next_seq = db.next_seq + 1;
        },
      )
      else sql_error (record db { next_seq = db.next_seq + 1 })

  -- Each statement fails where the table does not exist.
  abbrev pub on_rows : {A : Type 0} → (List Row → M S A) → Option (List Row) → M S A
  on_rows op none = sql_error
  on_rows op (some rows) = op rows

  -- INSERT INTO t (id, up_script, down_script, error) VALUES ($1, $2, $3, $4)
  abbrev pub insert : ℕ → Migration → Option Error → M S (Unit {0})
  insert now m error db = on_rows (insert_into now m error) db.ledger db

  -- DELETE FROM t WHERE id = $1, and whether there was a row
  abbrev pub delete : Bytes → M S Bool
  delete id db =
      on_rows
        (λ rows d. (ok (contains (row_ids rows) id), record d { ledger = some (without id rows) }))
        db.ledger db

  -- UPDATE t SET error = $1 WHERE id = $2
  abbrev pub set_error : Bytes → Error → M S (Unit {0})
  set_error id e db =
      on_rows (λ rows d. (ok tt, record d { ledger = some (mark id e rows) })) db.ledger db

  -- SELECT down_script FROM t WHERE id = $1; `none` for sql.ErrNoRows
  abbrev pub select_down : Bytes → M S (Option Row)
  select_down id db = on_rows (λ rows d. (ok (find_row id rows), d)) db.ledger db

  -- SELECT id, applied_at, error, down_script FROM t ORDER BY seq
  abbrev pub select_all : M S (List Row)
  select_all db = on_rows (λ rows d. (ok rows, d)) db.ledger db

  -- SELECT to_regclass($1) IS NOT NULL
  abbrev pub exists : M S Bool
  exists db = (ok (table_is_there db.ledger), db)

  abbrev pub run_sql : Option S → M S (Unit {0})
  run_sql none db = sql_error db
  run_sql (some s) db = (ok tt, record db { schema = s })

  module _ (sv : Server S) where
    abbrev pub create_table : M S (Unit {0})
    create_table = call sv create

    -- `NOW()` is the clock at this call
    abbrev pub insert_row : Migration → Option Error → M S (Unit {0})
    insert_row m error db = call sv (insert (sv.now db.calls) m error) db

    abbrev pub delete_row : Bytes → M S Bool
    delete_row id = call sv (delete id)

    abbrev pub update_error : Bytes → Error → M S (Unit {0})
    update_error id e = call sv (set_error id e)

    abbrev pub select_down_script : Bytes → M S (Option Row)
    select_down_script id = call sv (select_down id)

    abbrev pub select_rows : M S (List Row)
    select_rows = call sv select_all

    abbrev pub table_exists_query : M S Bool
    table_exists_query = call sv exists

    -- a script, or one statement of it
    abbrev pub exec_script : Bytes → M S (Unit {0})
    exec_script sql = call sv (λ db. run_sql (sv.exec sql db.schema) db)
