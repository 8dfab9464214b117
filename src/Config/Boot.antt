-- ===== src/Config/Boot.antt =====
-- The configuration from the environment, internal/config/config.go, and the log level of
-- internal/logging/logging.go. The parsing of the variables is the env library's.
use cardingest.Base.{◌||◌, Outcome, ok, err, ◌==◌, list_eq, nat_eq, if◌then◌else◌, ◌>>=◌, wrap}
use cardingest.Base.Int.{ℤ}
use cardingest.Base.Strings.{Text, codes, to_lower}

-- The fields of `Config` that the modelled code reads.
pub record BootConfig : Type 0 where
  pub reader_mode : Text
  pub mock_fixture_dir : Text
  pub config_path : Text
  pub state_path : Text
  pub mount_root : Text
  pub poll_interval : ℤ

pub data BootError : Type 0 where
  unparsed invalid_reader_mode : Text → BootError

unfoldable pub checked_mode : BootConfig → Outcome BootError BootConfig
unfolding list_eq
checked_mode cfg =
    if cfg.reader_mode == codes "real" || cfg.reader_mode == codes "mock"
    then ok cfg
    else err (invalid_reader_mode cfg.reader_mode)

-- NewConfig, of what the env library has parsed.
unfoldable pub new_config : Outcome Text BootConfig → Outcome BootError BootConfig
unfolding checked_mode
new_config parsed = wrap unparsed parsed >>= checked_mode

pub data Level : Type 0 where
  debug info warn error : Level

-- LogLevelToSlogLevel: the level, and the text of an unknown one.
unfoldable pub log_level : Text → Outcome Text Level
unfolding to_lower list_eq
log_level text =
    let l = to_lower text in
    if l == codes "debug"
    then ok debug
    else if l == codes "info"
    then ok info
    else if l == codes "warn"
    then ok warn
    else if l == codes "error"
    then ok error
    else err text
