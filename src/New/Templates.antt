-- ===== src/New/Templates.antt =====
-- The templates of cmd/pg-migrate/new.go.
use pg_migrate.Prelude.{Bool, List, [], ◌∷◌, ◌++◌, if◌then◌else◌}
use pg_migrate.Text.{Bytes, codes}

-- lines, each with its line feed
unfoldable pub unlines : List Bytes → Bytes
unlines [] = []
unlines (l ∷ ls) = l ++ 0x0a ∷ unlines ls

-- U+2014, in UTF-8
abbrev em_dash : Bytes
em_dash = 0xe2 ∷ 0x80 ∷ 0x94 ∷ []

-- `upTemplate`
unfoldable pub up_template : Bytes → Bytes
unfolding unlines
up_template slug = unlines (
    (codes "-- " ++ slug)
    ∷ codes "--"
    ∷ codes "-- Forward migration. Runs inside a transaction unless the first line of this"
    ∷ codes "-- file is:"
    ∷ codes "--"
    ∷ codes "--   -- +migrate notransaction"
    ∷ codes "--"
    ∷ codes "-- which is required for statements PostgreSQL refuses inside one, such as"
    ∷ codes "-- CREATE INDEX CONCURRENTLY."
    ∷ []
    ∷ [])

-- `downTemplate`
unfoldable pub down_template : Bytes → Bytes
unfolding unlines
down_template slug = unlines (
    (codes "-- Undo: " ++ slug)
    ∷ codes "--"
    ∷ codes "-- Rollback for the migration above. This script is stored in the database when"
    ∷ (codes "-- the migration is applied, and it is that stored copy which runs on rollback "
        ++ em_dash)
    ∷ codes "-- so it must undo the forward migration on its own."
    ∷ codes "--"
    ∷ codes "-- If the change genuinely cannot be undone, replace everything in this file"
    ∷ codes "-- with exactly:"
    ∷ codes "--"
    ∷ codes "--   -- +migrate irreversible"
    ∷ []
    ∷ [])

-- `notransactionTemplate`
unfoldable pub notransaction_template : Bytes → Bytes
unfolding unlines
notransaction_template slug = unlines (
    codes "-- +migrate notransaction"
    ∷ (codes "-- " ++ slug)
    ∷ codes "--"
    ∷ codes "-- Runs statement by statement, outside a transaction. A failure partway leaves"
    ∷ codes "-- the earlier statements committed and records the migration as failed, which"
    ∷ codes "-- blocks every later operation until a human resolves it."
    ∷ codes "--"
    ∷ codes "-- All statements run on one dedicated connection, so session state carries"
    ∷ codes "-- across them:"
    ∷ codes "--"
    ∷ codes "--   SET statement_timeout = 0;"
    ∷ codes "--   CREATE INDEX CONCURRENTLY ..."
    ∷ []
    ∷ [])

-- `irreversibleTemplate`
unfoldable pub irreversible_template : Bytes
unfolding unlines
irreversible_template = unlines (codes "-- +migrate irreversible" ∷ [])

-- `migrationTemplateOptions`
pub record TemplateOptions : Type 0 where
  pub no_transaction : Bool
  pub irreversible : Bool

-- `upContent`
unfoldable pub up_content : TemplateOptions → Bytes → Bytes
unfolding up_template notransaction_template
up_content o slug = if o.no_transaction then notransaction_template slug else up_template slug

-- `downContent`
unfoldable pub down_content : TemplateOptions → Bytes → Bytes
unfolding down_template notransaction_template irreversible_template
down_content o slug =
    if o.irreversible
    then irreversible_template
    else if o.no_transaction
    then notransaction_template (codes "Undo: " ++ slug)
    else down_template slug
