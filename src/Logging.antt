-- ===== src/Logging.antt =====
-- pkg/slog/logger.go: the level of the logger.
pub mod Named
use solana_exporter.Base.{Text, codes, text_eqb, to_lower, Option, none, some, if◌then◌else◌}

pub data Level : Type 0 where
  debug info warn error panic fatal : Level

-- The `switch` on the name in lower case.
unfoldable pub level_of : Text → Level
level_of name =
    if text_eqb name (codes "debug")
    then debug
    else if text_eqb name (codes "info")
    then info
    else if text_eqb name (codes "warn")
    then warn
    else if text_eqb name (codes "error")
    then error
    else if text_eqb name (codes "panic")
    then panic
    else if text_eqb name (codes "fatal")
    then fatal
    else info

-- The argument is the variable `LOG_LEVEL` of the environment.
unfoldable pub get_env_log_level : Option Text → Level
unfolding level_of
get_env_log_level none = info
get_env_log_level (some level) = level_of (to_lower level)
