-- ===== src/Logger.antt =====
-- src/core/logger.cpp with include/hpblr/logger.hpp: the diagnostics of the programs. The lock makes
-- each method one step. The time of a line and whether a file can be opened are arguments.
pub mod Lines
mod Examples
use cpp_high_performance_bin.Base.{
  ℕ, Bool, true, false, not, ◌&&◌, ltb, if◌then◌else◌, List, [], ◌∷◌, ◌++◌, Text, codes,
}
use cpp_high_performance_bin.Errors.{Result, ok, err, Io, runtime_error, failed_log_file}
use cpp_high_performance_bin.Time.{format_unix_ns_utc}

pub data LogLevel : Type 0 where
  debug info warning error : LogLevel

-- The value of the enumerator.
abbrev pub level_value : LogLevel → ℕ
level_value LogLevel.debug = 0
level_value LogLevel.info = 1
level_value LogLevel.warning = 2
level_value LogLevel.error = 3

-- The switch covers every enumerator, so "UNKNOWN" is never reached.
unfoldable pub to_string : LogLevel → Text
to_string LogLevel.debug = codes "DEBUG"
to_string LogLevel.info = codes "INFO"
to_string LogLevel.warning = codes "WARN"
to_string LogLevel.error = codes "ERROR"

-- The level, the stream `file_` (whether a file is open, its state, what was appended), and what
-- went to the standard error output. A new stream is good although no file is open.
pub record Logger : Type 0 where
  pub min_level : LogLevel
  pub is_open : Bool
  pub good : Bool
  pub file : Text
  pub standard_error : Text

abbrev pub instance_ : Logger
instance_ = record {
  min_level = LogLevel.info;
  is_open = false;
  good = true;
  file = [];
  standard_error = [];
}

unfoldable pub set_level : LogLevel → Logger → Logger
set_level level l = record l { min_level = level }

-- `file_.open` fails when a file is open already; when it succeeds it clears the state.
unfoldable pub set_file : Bool → Text → Io Logger (Unit {0})
set_file can_open path l =
    if can_open && not l.is_open
    then (ok tt, record l { is_open = true; good = true })
    else (err (runtime_error (failed_log_file path)), record l { good = false })

unfoldable pub log_line : ℕ → LogLevel → Text → Text → Text
log_line now level component message =
    format_unix_ns_utc now
    ++ (codes " [" ++ (to_string level ++ (codes "] [" ++ (component ++ (codes "] " ++ message)))))

-- `file_ << line << '\n'; file_.flush();` under `if (file_)`. Output without a file fails.
unfoldable pub write_file : Text → Logger → Logger
write_file line l =
    if not l.good
    then l
    else if l.is_open
    then record l { file = l.file ++ (line ++ codes "\n") }
    else record l { good = false }

unfoldable pub log : ℕ → LogLevel → Text → Text → Logger → Logger
log now level component message l =
    let line = log_line now level component message in
    if ltb (level_value level) (level_value l.min_level)
    then l
    else write_file line (record l { standard_error = l.standard_error ++ (line ++ codes "\n") })
