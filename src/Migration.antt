-- ===== src/Migration.antt =====
-- internal/migrator/types.go
use pg_migrate.Prelude.{ℕ, List, map}
use pg_migrate.Text.{Bytes}

-- `AppliedAt` is a time stamp: a number, zero where the source leaves the zero time.
pub record Migration : Type 0 where
  pub applied_at : ℕ
  pub id : Bytes
  pub up_script : Bytes
  pub down_script : Bytes

-- `migrationIDs`
abbrev pub migration_ids : List Migration → List Bytes
migration_ids = map (λ m. m.id)
