-- ===== src/Api/Refusal.antt =====
-- Calls of the package that report an error and change nothing.
use pg_migrate.Prelude.{◌≡◌, refl, ap, Bool, true, false, Option, none, some}
use pg_migrate.Error.{Error}
use pg_migrate.Database.{Db}
use pg_migrate.Lock.{Lock}
use pg_migrate.Service.Operations.{RunResult, no_result}
use pg_migrate.Service.Refusals.{IsRefused}
use pg_migrate.Api.{ApiError, ApiResult, MigrateService, to_result}
use pg_migrate.Api.Calls.{Outcome, ended}

abbrev pub has_error : Option ApiError → Bool
has_error none = false
has_error (some e) = true

-- No result, or one that reports nothing done.
abbrev pub NothingDone : Option ApiResult → Type 0
NothingDone none = Unit {0}
NothingDone (some r) = r ≡ to_result no_result

-- The call reports an error and nothing done, and leaves schema and table of `db` as they are.
abbrev pub IsRefusedCall : {S : Type 0} → Db S → Outcome S ApiResult → Type 0
IsRefusedCall db (answer, none) = ⊥
IsRefusedCall db ((r, e), some handle) =
    NothingDone r
    × (has_error e ≡ true)
    × (handle.db.schema ≡ db.schema)
    × (handle.db.ledger ≡ db.ledger)

pub ended-IsRefusedCall :
    {S : Type 0} (svc : MigrateService S) (db : Db S) (x : (RunResult × Option Error) × Lock × Db S)
    → IsRefused db x
    → IsRefusedCall db (ended svc to_result x)
ended-IsRefusedCall svc db ((r, none), l, db') h = cc (h.error)
ended-IsRefusedCall svc db ((r, some e), l, db') h =
    (ap to_result h.result, refl, h.schema, h.ledger)
