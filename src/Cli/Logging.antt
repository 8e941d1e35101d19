-- ===== src/Cli/Logging.antt =====
-- The flags --log-level and --log-format of cmd/pg-migrate/main.go.
use pg_migrate.Prelude.{◌||◌, Option, none, some, if◌then◌else◌}
use pg_migrate.Text.{Bytes, codes, equal}

-- The levels and formats of `setupLogging`.
pub data LogLevel : Type 0 where
  debug info warn error : LogLevel

pub data LogFormat : Type 0 where
  text json : LogFormat

-- the first switch of `setupLogging`; `to_lower` is `strings.ToLower`
unfoldable pub log_level : (Bytes → Bytes) → Bytes → Option LogLevel
unfolding equal
log_level to_lower level =
    let l = to_lower level in
    if equal l (codes "debug")
    then some debug
    else if equal l (codes "info")
    then some info
    else if equal l (codes "warn") || equal l (codes "warning")
    then some warn
    else if equal l (codes "error")
    then some error
    else none

-- the second switch
unfoldable pub log_format : (Bytes → Bytes) → Bytes → Option LogFormat
unfolding equal
log_format to_lower format =
    let f = to_lower format in
    if equal f (codes "text") then some text else if equal f (codes "json") then some json else none

abbrev handler : Option LogLevel → Option LogFormat → Option (LogLevel × LogFormat)
handler none format = none
handler (some l) none = none
handler (some l) (some f) = some (l, f)

-- `setupLogging`: what the handler is set to, or `none` for an error
unfoldable pub setup_logging : (Bytes → Bytes) → Bytes → Bytes → Option (LogLevel × LogFormat)
unfolding log_level log_format
setup_logging to_lower level format =
    handler (log_level to_lower level) (log_format to_lower format)
