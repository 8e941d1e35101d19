-- ===== src/Database/Statements.antt =====
-- Triples of the SQL statements. After an error what held before holds still, whatever the error;
-- where an answer is lost the effect is there.
use pg_migrate.Prelude.{ℕ, ◌≡◌, refl, Bool, true, false, Option, none, some, List, [], ◌∷◌, ◌++◌}
use pg_migrate.Error.{Error, driver_error}
use mathlib.Core.Path.{subst}
use pg_migrate.Text.{Bytes, contains}
use pg_migrate.Migration.{Migration}
use pg_migrate.Database.{Db, Row, Server, new_row, can_insert, without, mark, find_row, row_ids}
use pg_migrate.Database.Calls.{M, call}
use pg_migrate.Database.Table.{
  exec_script, run_sql, insert_row, insert_into, delete_row, update_error, select_down_script,
  select_rows, create_table, ensured, on_rows, table_exists_query, table_is_there,
}
use pg_migrate.Database.Triples.{Pred, Post, Triple, DriverError, Triple-call}

module _ {S : Type 0} (sv : Server S) {P : Pred S} {E : Error → Pred S} where
  pub Triple-exec_script :
      (Q : Pred S) (sql : Bytes)
      → ((s t : S) (l : Option (List Row)) → sv.exec sql s ≡ some t → P s l → Q t l)
      → ((n : ℕ) (s : S) (l : Option (List Row)) → P s l → E (driver_error n) s l)
      → ((n : ℕ) (s : S) (l : Option (List Row)) → Q s l → E (driver_error n) s l)
      → Triple P (exec_script sv sql) (λ _. Q) E
  Triple-exec_script Q sql runs fails loses =
      Triple-call sv _ (record { at = λ db h. go (sv.exec sql db.schema) db refl h }) fails
        (λ n a. loses n)
    where
      go :
          (o : Option S) (db : Db S)
          → sv.exec sql db.schema ≡ o
          → P db.schema db.ledger
          → Post
              (λ (_ : Unit {0}). Q)
              (DriverError P)
              (run_sql o db).0
              (run_sql o db).1.schema
              (run_sql o db).1.ledger
      go none db e h = (db.calls, refl, h)
      go (some t) db e h = runs db.schema t db.ledger e h

  -- A statement on the rows, which fails where there is no table.
  Triple-on_rows :
      {A : Type 0} {Q : A → Pred S} (op : List Row → M S A)
      → ((rows : List Row) → Triple (λ s l. (l ≡ some rows) × P s l) (op rows) Q (DriverError P))
      → ((n : ℕ) (a : A) (s : S) (l : Option (List Row)) → Q a s l → E (driver_error n) s l)
      → ((n : ℕ) (s : S) (l : Option (List Row)) → P s l → E (driver_error n) s l)
      → Triple P (call sv (λ db. on_rows op db.ledger db)) Q E
  Triple-on_rows {A} {Q} op t loses fails =
      Triple-call sv _ (record { at = λ db h. go db.ledger db refl h }) fails loses
    where
      go :
          (l : Option (List Row)) (db : Db S)
          → db.ledger ≡ l
          → P db.schema db.ledger
          → Post Q
              (DriverError P)
              (on_rows op l db).0
              (on_rows op l db).1.schema
              (on_rows op l db).1.ledger
      go none db e h = (db.calls, refl, h)
      go (some rows) db e h = (t rows).at db (e, h)

  pub Triple-insert_row :
      (Q : Pred S) (m : Migration) (error : Option Error)
      → ((number time : ℕ) (rows : List Row) (s : S)
          → can_insert rows m.id ≡ true
          → P s (some rows)
          → Q s (some (rows ++ new_row number time m error ∷ [])))
      → ((n : ℕ) (s : S) (l : Option (List Row)) → P s l → E (driver_error n) s l)
      → ((n : ℕ) (s : S) (l : Option (List Row)) → Q s l → E (driver_error n) s l)
      → Triple P (insert_row sv m error) (λ _. Q) E
  Triple-insert_row Q m error writes fails loses = record {
    at = λ db h.
        (Triple-on_rows (insert_into (sv.now db.calls) m error)
            (λ rows. record {
              at = λ d k.
                  go (sv.now db.calls) (can_insert rows m.id) rows d refl k.0
                    (subst (λ l. P d.schema l) k.0 k.1);
            })
            (λ n a. loses n) fails).at
          db h;
  }
    where
      go :
          (time : ℕ) (b : Bool) (rows : List Row) (d : Db S)
          → can_insert rows m.id ≡ b
          → d.ledger ≡ some rows
          → P d.schema (some rows)
          → Post
              (λ (_ : Unit {0}). Q)
              (DriverError P)
              (insert_into time m error rows d).0
              (insert_into time m error rows d).1.schema
              (insert_into time m error rows d).1.ledger
      go time true rows d e l h = rw e (writes d.next_seq time rows d.schema e h)
      go time false rows d e l h = rw (e, l) (d.calls, refl, h)

  pub Triple-delete_row :
      (Q : Bool → Pred S) (id : Bytes)
      → ((rows : List Row) (s : S)
          → P s (some rows)
          → Q (contains (row_ids rows) id) s (some (without id rows)))
      → ((n : ℕ) (s : S) (l : Option (List Row)) → P s l → E (driver_error n) s l)
      → ((n : ℕ) (b : Bool) (s : S) (l : Option (List Row)) → Q b s l → E (driver_error n) s l)
      → Triple P (delete_row sv id) Q E
  Triple-delete_row Q id removes fails loses =
      Triple-on_rows {Q = Q} _
        (λ rows. record { at = λ d k. removes rows d.schema (subst (λ l. P d.schema l) k.0 k.1) })
        loses fails

  pub Triple-update_error :
      (Q : Pred S) (id : Bytes) (error : Error)
      → ((rows : List Row) (s : S) → P s (some rows) → Q s (some (mark id error rows)))
      → ((n : ℕ) (s : S) (l : Option (List Row)) → P s l → E (driver_error n) s l)
      → ((n : ℕ) (s : S) (l : Option (List Row)) → Q s l → E (driver_error n) s l)
      → Triple P (update_error sv id error) (λ _. Q) E
  Triple-update_error Q id error stamps fails loses =
      Triple-on_rows {Q = λ _. Q} _
        (λ rows. record { at = λ d k. stamps rows d.schema (subst (λ l. P d.schema l) k.0 k.1) })
        (λ n a. loses n) fails

  pub Triple-select_down_script :
      (id : Bytes)
      → ((n : ℕ) (s : S) (l : Option (List Row)) → P s l → E (driver_error n) s l)
      → Triple P
          (select_down_script sv id)
          (λ o s l. P s l × ((rows : List Row) × (l ≡ some rows) × (find_row id rows ≡ o)))
          E
  Triple-select_down_script id fails =
      Triple-on_rows
        {Q = λ o s l. P s l × ((rows : List Row) × (l ≡ some rows) × (find_row id rows ≡ o))} _
        (λ rows. record { at = λ d k. (k.1, (rows, k.0, refl)) }) (λ n o s l h. fails n s l h.0)
        fails

  pub Triple-select_rows :
      ((n : ℕ) (s : S) (l : Option (List Row)) → P s l → E (driver_error n) s l)
      → Triple P (select_rows sv) (λ rows s l. P s l × (l ≡ some rows)) E
  Triple-select_rows fails =
      Triple-on_rows {Q = λ rows s l. P s l × (l ≡ some rows)} _
        (λ rows. record { at = λ d k. (k.1, k.0) }) (λ n rows s l h. fails n s l h.0) fails

  pub Triple-create_table :
      (Q : Pred S)
      → ((s : S) (l : Option (List Row)) → P s l → Q s (ensured l))
      → ((n : ℕ) (s : S) (l : Option (List Row)) → P s l → E (driver_error n) s l)
      → ((n : ℕ) (s : S) (l : Option (List Row)) → Q s l → E (driver_error n) s l)
      → Triple P (create_table sv) (λ _. Q) E
  Triple-create_table Q makes fails loses =
      Triple-call {Q = λ _. Q} sv _ (record { at = λ d h. makes d.schema d.ledger h }) fails
        (λ n a. loses n)

  pub Triple-table_exists_query :
      ((n : ℕ) (s : S) (l : Option (List Row)) → P s l → E (driver_error n) s l)
      → Triple P (table_exists_query sv) (λ there s l. P s l × (table_is_there l ≡ there)) E
  Triple-table_exists_query fails =
      Triple-call {Q = λ there s l. P s l × (table_is_there l ≡ there)} sv _
        (record { at = λ d h. (h, refl) }) fails (λ n there s l h. fails n s l h.0)
