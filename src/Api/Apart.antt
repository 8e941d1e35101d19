-- ===== src/Api/Apart.antt =====
-- The calls of migrate.go that change something, and the bookkeeping tables that their options do not name.
use pg_migrate.Prelude.{◌≡◌, none, some}
use pg_migrate.Error.{Error}
use pg_migrate.Text.{Bytes}
use pg_migrate.Text.Unicode.{Unicode}
use pg_migrate.Lock.{Lock}
use pg_migrate.Api.{SqlDb, open_table}
use pg_migrate.Api.Calls.{Outcome}

-- The table of this name has the same rows as in `handle`, or exists no more than there.
abbrev pub KeepsTable : {S R : Type 0} → SqlDb S → Bytes → Outcome S R → Type 0
KeepsTable handle name (answer, none) = ⊥
KeepsTable handle name (answer, some handle') =
    (open_table handle' name).ledger ≡ (open_table handle name).ledger
