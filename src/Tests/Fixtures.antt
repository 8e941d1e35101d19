-- ===== src/Tests/Fixtures.antt =====
-- A server that keeps the scripts it ran, and a small ledger.
use pg_migrate.Prelude.{ℕ, Bool, true, false, none, some, List, [], ◌∷◌, ◌++◌}
use pg_migrate.Result.{ok}
use pg_migrate.Error.{driver_error}
use pg_migrate.Text.{Bytes, codes}
use pg_migrate.Migration.{Migration}
use pg_migrate.Planner.{MigrationPlan}
use pg_migrate.Database.{Db, Row, Server, served}
use pg_migrate.Service.Guards.{RunOptions}
use pg_migrate.Service.Operations.{Locker}
use pg_migrate.Lock.{Network, Pool}

abbrev pub Schema : Type 0
Schema = List Bytes

-- Each call is served, and each script runs.
abbrev pub server : Server Schema
server = record { reply = λ n. served; now = λ n. n; exec = λ sql s. some (s ++ sql ∷ []) }

abbrev pub lock : Locker Bool
lock = record { acquire_lock = λ l. (ok tt, true); release_lock = λ l. false }

abbrev pub migration : Bytes → Bytes → Bytes → Migration
migration id up down = record { applied_at = 0; id = id; up_script = up; down_script = down }

abbrev pub first : Migration
first = migration (codes "1") (codes "A") (codes "B")

abbrev pub second : Migration
second = migration (codes "2") (codes "C") (codes "D")

abbrev pub third : Migration
third = migration (codes "3") (codes "E") (codes "-- +migrate irreversible")

abbrev pub row : ℕ → Migration → Row
row n m = record {
  seq = n;
  id = m.id;
  up_script = m.up_script;
  down_script = m.down_script;
  applied_at = 0;
  error = none;
}

abbrev pub failed_row : Row
failed_row = record (row 1 first) { error = some (driver_error 3) }

abbrev pub db_of : List Row → Db Schema
db_of rows = record { calls = 0; schema = []; ledger = some rows; next_seq = 9 }

abbrev pub strict : RunOptions
strict = record { allow_rollback = false; allow_interleaved = false; allow_empty_source = false }

abbrev pub lenient : RunOptions
lenient = record { allow_rollback = true; allow_interleaved = true; allow_empty_source = true }

-- from the second migration to the first
abbrev pub switch : MigrationPlan
switch = record { to_rollback = second ∷ []; to_apply = first ∷ []; interleaved = [] }

-- Each call is served, and the lock is free.
abbrev pub quiet : Network
quiet = record {
  reply = λ n. served;
  error_text = λ n. [];
  picks = λ n. 0;
  frees_after = λ n. some 0;
  context_ended = λ n. false;
  session_limit = 0;
}

abbrev pub pool : Pool
pool = record {
  calls = 0;
  max_open = 0;
  idle = 3 ∷ [];
  next = 5;
  grants = [];
  waited = some 0;
  limit = 0;
}
