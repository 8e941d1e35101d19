-- ===== src/Database.antt =====
-- The database: the schema that the scripts work on and the bookkeeping table, with the SQL
-- statements of internal/migrator/custom_executor.go that read and write that table.
--
-- What a script does to the schema is the server's business, a parameter. A script is taken to
-- leave the bookkeeping table alone.
pub mod Calls
pub mod Table
pub mod Triples
pub mod Statements
use pg_migrate.Prelude.{
  ℕ, ◌+◌, ◌<◌, Bool, true, false, not, ◌&&◌, ◌||◌, Option, none, some, List, [], ◌∷◌, ◌++◌, map,
  filter, leb, if◌then◌else◌, length, All,
}
use pg_migrate.Text.{Bytes, equal, contains}
use pg_migrate.Migration.{Migration}
use pg_migrate.Error.{Error}

-- A row of the bookkeeping table. `error` is NULL or the recorded error.
pub record Row : Type 0 where
  pub seq : ℕ
  pub id : Bytes
  pub up_script : Bytes
  pub down_script : Bytes
  pub applied_at : ℕ
  pub error : Option Error

-- `calls` counts the calls of the driver. `ledger` is `none` while the table does not exist; its
-- rows stand in the order of their insertion. `next_seq` is the identity sequence.
pub record Db (S : Type 0) : Type 0 where
  pub calls : ℕ
  pub schema : S
  pub ledger : Option (List Row)
  pub next_seq : ℕ

pub data Reply : Type 0 where
  served refused lost : Reply

-- The server and the connection to it. The call with number n is served; or fails and has no
-- effect; or has its effect, and its answer is lost. `now n` is the server's clock at that call.
-- `exec` runs a script on the schema; `none` is an SQL error, which leaves the schema as it was.
pub record Server (S : Type 0) : Type 0 where
  pub reply : ℕ → Reply
  pub now : ℕ → ℕ
  pub exec : Bytes → S → Option S

abbrev pub row_ids : List Row → List Bytes
row_ids = map (λ r. r.id)

-- The number of characters in a UTF-8 text: bytes that continue a character do not count.
unfoldable pub char_count : Bytes → ℕ
char_count [] = 0
char_count (c ∷ s) = if leb 0x80 c && not (leb 0xc0 c) then char_count s else 1 + char_count s

-- the limit of the column `id VARCHAR(255)`
abbrev pub max_id_chars : ℕ
max_id_chars = 255

-- The row that an INSERT writes.
abbrev pub new_row : ℕ → ℕ → Migration → Option Error → Row
new_row seq now m error = record {
  seq = seq;
  id = m.id;
  up_script = m.up_script;
  down_script = m.down_script;
  applied_at = now;
  error = error;
}

-- the primary key and the width of `id`
unfoldable pub can_insert : List Row → Bytes → Bool
unfolding char_count contains
can_insert rows id = not (contains (row_ids rows) id) && leb (char_count id) max_id_chars

unfoldable pub without : Bytes → List Row → List Row
without id rows = filter (λ r. not (equal r.id id)) rows

unfoldable pub mark : Bytes → Error → List Row → List Row
mark id e [] = []
mark id e (r ∷ rows) = (if equal r.id id then record r { error = some e } else r) ∷ mark id e rows

unfoldable pub find_row : Bytes → List Row → Option Row
find_row id [] = none
find_row id (r ∷ rows) = if equal r.id id then some r else find_row id rows
