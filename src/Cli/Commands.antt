-- ===== src/Cli/Commands.antt =====
-- The commands of cmd/pg-migrate/main.go that work on the database.
use pg_migrate.Prelude.{not, Option, none, some, List, if◌then◌else◌, ℤ, is_positive}
use pg_migrate.Result.{Result, ok, err}
use pg_migrate.Text.{Bytes, codes, equal}
use pg_migrate.Text.Unicode.{Unicode}
use pg_migrate.Database.{Server}
use pg_migrate.Source.Files.{FileSystem}
use pg_migrate.Lock.{Network}
use pg_migrate.Api.{Configure, ApiError, Analysis, ApiResult, StatusRow, SqlDb}
use pg_migrate.Api.Calls.{
  Outcome, migrate_reconcile, migrate_up, migrate_down, migrate_down_all, migrate_plan,
  migrate_forget, migrate_baseline, migrate_status,
}
use pg_migrate.Cli.{
  Runtime, CliConfig, CliError, bad_count, of_api, Flags, Overrides, no_overrides, build_options,
  resolve_path, connect_db, add_cli_hint,
}

-- What a command comes to: an error, or what it reports; and the handle, if it was opened.
abbrev pub Ran : Type 0 → Type 0 → Type 0
Ran S R = Result CliError R × Option (SqlDb S)

-- `none` for the result of a call without an error does not happen, and is no report.
abbrev pub reported :
    {S R : Type 0}
    → (ApiError → CliError)
    → Outcome S R
    → Result CliError (Option R) × Option (SqlDb S)
reported show ((r, none), handle) = (ok r, handle)
reported show ((r, some e), handle) = (err (show e), handle)

-- `if err != nil { return err }` before the database is opened
abbrev pub first : {S A R : Type 0} → Result CliError A → (A → Ran S R) → Ran S R
first (ok a) f = f a
first (err e) f = (err e, none)

-- what `down` is asked for
pub data DownTo : Type 0 where
  all : DownTo
  last : ℤ → DownTo

abbrev pub positive_count : Bytes → Option ℤ → Result CliError DownTo
positive_count arg none = err (bad_count arg)
positive_count arg (some n) = if not (is_positive n) then err (bad_count arg) else ok (last n)

module _ {S : Type 0} (rt : Runtime S) (before after : Network) (sv : Server S) (u : Unicode)
    (dir_fs : Bytes → FileSystem) (cfg : CliConfig) (flags : Flags) where
  -- the steps before a call that reads migration files; `dir_fs` is `os.DirFS`
  abbrev pub with_files :
      {R : Type 0} → Overrides → (List Configure → Bytes → SqlDb S → Ran S R) → Ran S R
  with_files overrides f = first (build_options rt cfg flags overrides) λ opts.
      first (resolve_path rt cfg flags)
        λ path. first (connect_db rt cfg flags) λ handle. f opts path handle

  abbrev pub without_files : {R : Type 0} → (List Configure → SqlDb S → Ran S R) → Ran S R
  without_files f =
      first (build_options rt cfg flags no_overrides)
        λ opts. first (connect_db rt cfg flags) λ handle. f opts handle

  -- `reconcile`
  unfoldable pub reconcile_command : Overrides → Ran S (Option ApiResult)
  unfolding build_options resolve_path connect_db migrate_reconcile add_cli_hint
  reconcile_command overrides = with_files overrides λ opts path handle.
      reported add_cli_hint
        (migrate_reconcile before after sv u (some handle) (some (dir_fs path)) opts)

  -- `up`
  unfoldable pub up_command : Ran S (Option ApiResult)
  unfolding build_options resolve_path connect_db migrate_up add_cli_hint
  up_command = with_files no_overrides λ opts path handle.
      reported add_cli_hint (migrate_up before after sv u (some handle) (some (dir_fs path)) opts)

  -- the argument of `down`
  unfoldable pub down_argument : Bytes → Result CliError DownTo
  unfolding equal
  down_argument arg =
      if equal arg (codes "all") then ok all else positive_count arg (rt.parse_int arg)

  abbrev pub down_by : List Configure → SqlDb S → DownTo → Outcome S ApiResult
  down_by opts handle all = migrate_down_all before after sv u (some handle) opts
  down_by opts handle (last n) = migrate_down before after sv u (some handle) n opts

  -- `down`
  unfoldable pub down_command : Bytes → Ran S (Option ApiResult)
  unfolding build_options down_argument connect_db migrate_down migrate_down_all add_cli_hint
  down_command arg = first (build_options rt cfg flags no_overrides) λ opts.
      first (down_argument arg) λ target.
        first (connect_db rt cfg flags) λ handle. reported add_cli_hint (down_by opts handle target)

  -- `plan`
  unfoldable pub plan_command : Ran S (Option Analysis)
  unfolding build_options resolve_path connect_db migrate_plan
  plan_command = with_files no_overrides λ opts path handle.
      reported of_api (migrate_plan before after sv u (some handle) (some (dir_fs path)) opts)

  -- `status`
  unfoldable pub status_command : Ran S (Option (List StatusRow))
  unfolding build_options connect_db migrate_status
  status_command =
      without_files
        λ opts handle. reported of_api (migrate_status before after sv u (some handle) opts)

  -- `forget`
  unfoldable pub forget_command : Bytes → Ran S (Option (Unit {0}))
  unfolding build_options connect_db migrate_forget
  forget_command id =
      without_files
        λ opts handle. reported of_api (migrate_forget before after sv u (some handle) id opts)

  -- `baseline`
  unfoldable pub baseline_command : Bytes → Ran S (Option ApiResult)
  unfolding build_options resolve_path connect_db migrate_baseline
  baseline_command through_id = with_files no_overrides λ opts path handle.
      reported of_api
        (migrate_baseline before after sv u (some handle) (some (dir_fs path)) through_id opts)
