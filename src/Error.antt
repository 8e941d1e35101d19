-- ===== src/Error.antt =====
-- Errors as values: the sentinel errors of internal/migrator/errors.go and internal/db/errors.go,
-- the places where the code wraps an error, and `errors.Is`. Texts of messages are not modelled;
-- an error keeps the values that its message prints.
use pg_migrate.Prelude.{ℕ, Bool, false, ◌||◌, Option, none, some, List, ◌==◌}
use pg_migrate.Text.{Bytes}
use pg_migrate.Directives.{ScriptError}
use pg_migrate.Source.{SourceError}

pub data Sentinel : Type 0 where
  divergence interleaved failed_migrations empty_source unrecorded irreversible : Sentinel
  already_recorded baseline_not_found no_pinned_conn : Sentinel
  pool_too_small lock_already_acquired lock_not_acquired lock_timeout lock_not_held : Sentinel

-- The calls of `fmt.Errorf` that put words in front of an error.
pub data Context : Type 0 where
  create_table check_table begin_tx commit_tx execute_up execute_down insert_record : Context
  delete_record query_migrations get_down_script count_rows dedicated_conn : Context
  ensure_table get_migrations get_applied get_files ensure_reversible execute_plan : Context
  record_baseline acquire_lock : Context
  get_lock_conn begin_lock set_lock_timeout advisory_lock advisory_lock_forever : Context
  commit_lock advisory_unlock return_lock_conn : Context
  parse_up parse_down split_up split_down record_as_applied rollback_of apply_of forget_of :
      Bytes → Context
  statement : ℕ → Context

pub data Error : Type 0 where
  -- an error of the driver, at a call with this number
  driver_error : ℕ → Error
  script_error : ScriptError → Error
  -- an error of the file source
  source_error : SourceError → Error
  -- a sentinel with the IDs that the message names
  sentinel : Sentinel → List Bytes → Error
  -- a sentinel wrapped beside another error
  sentinel_with : Sentinel → List Bytes → Error → Error
  wrap : Context → Error → Error
  join : Error → Error → Error
  -- errors with a text alone
  not_in_database not_in_files no_bookkeeping_table not_recorded : Bytes → Error

-- the number of a sentinel, to compare two
abbrev sentinel_number : Sentinel → ℕ
sentinel_number divergence = 0
sentinel_number interleaved = 1
sentinel_number failed_migrations = 2
sentinel_number empty_source = 3
sentinel_number unrecorded = 4
sentinel_number irreversible = 5
sentinel_number already_recorded = 6
sentinel_number baseline_not_found = 7
sentinel_number no_pinned_conn = 8
sentinel_number pool_too_small = 9
sentinel_number lock_already_acquired = 10
sentinel_number lock_not_acquired = 11
sentinel_number lock_timeout = 12
sentinel_number lock_not_held = 13

abbrev pub same_sentinel : Sentinel → Sentinel → Bool
same_sentinel s t = sentinel_number s == sentinel_number t

-- `errors.Is`
unfoldable pub errors_is : Error → Sentinel → Bool
errors_is (sentinel s ids) t = same_sentinel s t
errors_is (sentinel_with s ids e) t = same_sentinel s t || errors_is e t
errors_is (wrap c e) t = errors_is e t
errors_is (join a b) t = errors_is a t || errors_is b t
errors_is _ t = false

-- `errors.Join(a, b)`, where `a` may be nil
abbrev pub join_option : Option Error → Error → Error
join_option none b = b
join_option (some a) b = join a b
