-- ===== src/Cli.antt =====
-- cmd/pg-migrate/config.go and main.go: what the command makes of its environment, flags and arguments.
--
-- Go's parsers of durations and numbers are parameters, as is the connection: `connect` is
-- `sql.Open` and the ping, on a connection string.
pub mod Commands
pub mod Settings
pub mod Printed
pub mod Logging
pub mod Validate
pub mod Version
use pg_migrate.Prelude.{
  ℕ, ◌*◌, ◌||◌, Bool, true, false, not, Option, none, some, List, [], ◌∷◌, ◌++◌, if◌then◌else◌,
  is_nil, ◌==◌, ℤ, pos, negsuc, is_positive,
}
use pg_migrate.Result.{Result, ok, err, ◌>>=◌}
use pg_migrate.Error.{Sentinel, divergence, interleaved, failed_migrations, errors_is}
use pg_migrate.Text.{Bytes, codes, equal}
use pg_migrate.Dsn.{ConnConfig, get_data_source}
use pg_migrate.Api.{
  Configure, ApiError, of_service, SqlDb, with_lock_timeout, with_lock_id, with_table_name,
  with_schema, with_rollback, with_interleaved,
}

-- `parse_duration` is `time.ParseDuration`, in nanoseconds, and `parse_int` is `strconv.Atoi`.
pub record Runtime (S : Type 0) : Type 0 where
  pub getenv : Bytes → Bytes
  pub parse_duration : Bytes → Option ℤ
  pub parse_int : Bytes → Option ℤ
  pub connect : Bytes → Option (SqlDb S)

-- The hints of `addCLIHint`.
pub data Hint : Type 0 where
  allow_rollback allow_interleaved see_status : Hint

pub data CliError : Type 0 where
  bad_lock_timeout : Bytes → CliError
  lock_timeout_not_positive : Bytes → CliError
  no_migration_path : CliError
  no_connection : CliError
  bad_count : Bytes → CliError
  of_api : ApiError → CliError
  hinted : Hint → ApiError → CliError

-- `Config` of the command
pub record CliConfig : Type 0 where
  pub migration_path : Bytes
  pub postgres : ConnConfig
  pub lock_timeout : ℤ

-- `defaultLockTimeout` of the command
abbrev pub default_cli_timeout : ℤ
default_cli_timeout = pos (5 * 60 * 1000000000)

-- `firstNonEmpty`
unfoldable pub first_non_empty : List Bytes → Bytes
first_non_empty [] = []
first_non_empty (v ∷ values) =
    let rest = first_non_empty values in if not (is_nil v) then v else rest

abbrev pub positive_timeout : Bytes → Option ℤ → Result CliError ℤ
positive_timeout raw none = err (bad_lock_timeout raw)
positive_timeout raw (some d) =
    if not (is_positive d) then err (lock_timeout_not_positive raw) else ok d

module _ {S : Type 0} (rt : Runtime S) where
  -- `NewConfig`
  unfoldable pub new_config : Result CliError CliConfig
  unfolding first_non_empty
  new_config = do
    let raw = rt.getenv (codes "MIGRATION_LOCK_TIMEOUT")
    lock_timeout ←
        (if is_nil raw
          then ok default_cli_timeout
          else positive_timeout raw (rt.parse_duration raw))
    ok (record {
      migration_path = rt.getenv (codes "MIGRATION_PATH");
      lock_timeout = lock_timeout;
      postgres = record {
        dsn =
            first_non_empty
              (rt.getenv (codes "DATABASE_URL") ∷ rt.getenv (codes "POSTGRES_DSN") ∷ []);
        host = rt.getenv (codes "POSTGRES_HOST");
        port = rt.getenv (codes "POSTGRES_PORT");
        user = rt.getenv (codes "POSTGRES_USER");
        password = rt.getenv (codes "POSTGRES_PASSWORD");
        db_name = rt.getenv (codes "POSTGRES_DB");
        ssl_mode = rt.getenv (codes "POSTGRES_SSLMODE");
      };
    })

-- the flags that the commands share
pub record Flags : Type 0 where
  pub lock_timeout : Bytes
  pub lock_id : ℤ
  pub migration_path : Bytes
  pub table_name : Bytes
  pub table_schema : Bytes
  pub dsn : Bytes
  pub ssl_mode : Bytes

-- `optsOverrides`
pub record Overrides : Type 0 where
  pub allow_rollback : Bool
  pub allow_interleaved : Bool

abbrev pub no_overrides : Overrides
no_overrides = record { allow_rollback = false; allow_interleaved = false }

abbrev pub is_zero : ℤ → Bool
is_zero (pos n) = n == 0
is_zero (negsuc n) = false

abbrev pub option_if : Bool → Configure → List Configure
option_if true opt = opt ∷ []
option_if false opt = []

abbrev pub flag_timeout : Bytes → Option ℤ → Result CliError ℤ
flag_timeout raw none = err (bad_lock_timeout raw)
flag_timeout raw (some d) = ok d

module _ {S : Type 0} (rt : Runtime S) (cfg : CliConfig) (flags : Flags) where
  -- `buildOptions`
  unfoldable pub build_options : Overrides → Result CliError (List Configure)
  build_options overrides = do
    timeout ←
        (if is_nil flags.lock_timeout
          then ok cfg.lock_timeout
          else flag_timeout flags.lock_timeout (rt.parse_duration flags.lock_timeout))
    ok (
        with_lock_timeout timeout
        ∷ (option_if (not (is_zero flags.lock_id)) (with_lock_id flags.lock_id)
            ++ (option_if (not (is_nil flags.table_name)) (with_table_name flags.table_name)
                ++ (option_if (not (is_nil flags.table_schema)) (with_schema flags.table_schema)
                    ++ (option_if overrides.allow_rollback with_rollback
                        ++ option_if overrides.allow_interleaved with_interleaved)))))

  abbrev pub chosen_path : Bytes
  chosen_path =
      if not (is_nil flags.migration_path) then flags.migration_path else cfg.migration_path

  -- `resolvePath`
  unfoldable pub resolve_path : Result CliError Bytes
  resolve_path = if is_nil chosen_path then err no_migration_path else ok chosen_path

  -- the configuration that `connectDB` opens
  abbrev pub conn_config : ConnConfig
  conn_config = record cfg.postgres {
    dsn = if not (is_nil flags.dsn) then flags.dsn else cfg.postgres.dsn;
    ssl_mode = if not (is_nil flags.ssl_mode) then flags.ssl_mode else cfg.postgres.ssl_mode;
  }

  -- `connectDB`, with `OpenSQLDB`
  unfoldable pub connect_db : Result CliError (SqlDb S)
  unfolding get_data_source
  connect_db = elim (rt.connect (get_data_source conn_config)) [
    | none ↦ err no_connection
    | some h ↦ ok h
  ]

-- `errors.Is` on an error of the package
abbrev pub api_error_is : ApiError → Sentinel → Bool
api_error_is (of_service e) s = errors_is e s
api_error_is _ s = false

-- `addCLIHint`
unfoldable pub add_cli_hint : ApiError → CliError
unfolding errors_is
add_cli_hint e =
    if api_error_is e divergence
    then hinted allow_rollback e
    else if api_error_is e interleaved
    then hinted allow_interleaved e
    else if api_error_is e failed_migrations
    then hinted see_status e
    else of_api e
