-- ===== src/Tests/Commands.antt =====
-- Instances of the theorem on the settings of the command, and runs of its parts.
use pg_migrate.Prelude.{◌≡◌, refl, true, false, none, some, [], ◌∷◌, ℤ, pos, if◌then◌else◌}
use pg_migrate.Result.{ok, err}
use pg_migrate.Text.{Bytes, codes, equal}
use pg_migrate.Api.{
  apply_options, zero_config, with_lock_timeout, with_lock_id, with_schema, with_rollback,
}
use pg_migrate.Cli.{
  Runtime, CliConfig, Flags, Overrides, build_options, new_config, first_non_empty,
  lock_timeout_not_positive,
}
use pg_migrate.Cli.Printed.{plan_text, status_text}
use pg_migrate.Cli.Settings.{settings, IsChosen, build_options_settle}
use pg_migrate.Tests.Fixtures.{Schema}

-- An environment with a lock timeout; durations are read as 30 seconds, and a hyphen as nothing.
abbrev runtime : Bytes → Runtime Schema
runtime timeout = record {
  getenv = λ name. if equal name (codes "MIGRATION_LOCK_TIMEOUT") then timeout else [];
  parse_duration = λ raw. some (if equal raw (codes "-") then pos 0 else pos 30000000000);
  parse_int = λ raw. none;
  connect = λ dsn. none;
}

abbrev config : CliConfig
config = record {
  migration_path = [];
  postgres = record {
    dsn = [];
    host = [];
    port = [];
    user = [];
    password = [];
    db_name = [];
    ssl_mode = [];
  };
  lock_timeout = pos 300000000000;
}

abbrev flags : Flags
flags = record {
  lock_timeout = codes "30s";
  lock_id = pos 7;
  migration_path = [];
  table_name = [];
  table_schema = codes "app";
  dsn = [];
  ssl_mode = [];
}

abbrev overrides : Overrides
overrides = record { allow_rollback = true; allow_interleaved = false }

default_timeout : new_config (runtime []) ≡ ok config
unfolding new_config first_non_empty equal
default_timeout = refl

no_timeout : new_config (runtime (codes "-")) ≡ err (lock_timeout_not_positive (codes "-"))
unfolding new_config equal
no_timeout = refl

built :
    build_options (runtime []) config flags overrides
    ≡ ok (
        with_lock_timeout (pos 30000000000)
        ∷ with_lock_id (pos 7)
        ∷ with_schema (codes "app")
        ∷ with_rollback
        ∷ [])
unfolding build_options equal
built = refl

build_options_settle_example :
    (timeout : ℤ) × IsChosen (runtime []) config flags timeout
    × (apply_options
          (with_lock_timeout (pos 30000000000)
            ∷ with_lock_id (pos 7)
            ∷ with_schema (codes "app")
            ∷ with_rollback
            ∷ [])
          zero_config
        ≡ settings timeout (pos 7) [] (codes "app") true false)
build_options_settle_example = build_options_settle (runtime []) config flags overrides built

plan_printed :
    plan_text (record {
      blocked_reason = none;
      to_apply = codes "2_b" ∷ [];
      to_rollback = [];
      interleaved = [];
      blocked = false;
    })
    ≡ codes "Migration execution plan:\nTo Rollback: None\nTo Apply:\n  - 2_b (UP)\n"
unfolding plan_text
plan_printed = refl

nothing_applied : status_text (λ n. []) (λ n. []) (λ e. []) [] ≡ codes "No migrations applied.\n"
unfolding status_text
nothing_applied = refl
