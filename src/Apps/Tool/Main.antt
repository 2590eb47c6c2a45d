-- ===== src/Apps/Tool/Main.antt =====
-- `export_events` and `main` of apps/hpblr_tool.cpp. The file system is a parameter: what opening an
-- input file gives, and whether an output file can be opened. The lines of `usage` are left out.
use cpp_high_performance_bin.Base.{
  ℕ, Bool, not, ◌||◌, is_empty, if◌then◌else◌, List, [], ◌∷◌, Option, none, some, Text, codes,
}
use cpp_high_performance_bin.Errors.{Error, ok, err, runtime_error, unknown_command, failed_output}
use cpp_high_performance_bin.Event.Text.{equals}
use cpp_high_performance_bin.BinaryLog.Stream.{Ifstream, open_input}
use cpp_high_performance_bin.BinaryLog.Reader.Replay.{Ending, thrown}
use cpp_high_performance_bin.Apps.Tool.{CommonOptions, ExportOptions, parse_common, parse_export}
use cpp_high_performance_bin.Apps.Tool.Print.{Printed, dump, write_csv, write_json}
use cpp_high_performance_bin.Apps.Tool.Inspect.{inspect}

-- Where a command prints: to the standard output, or to a file that it has opened.
pub data Target : Type 0 where
  standard : Target
  file : Text → Target

-- What a command has done when it ends.
pub record Execution : Type 0 where
  pub target : Target
  pub text : Text
  pub ending : Ending

abbrev pub prints : Target → Printed → Execution
prints target (text, ending) = record { target = target; text = text; ending = ending }

abbrev pub throws : Error → Execution
throws e = prints standard ([], thrown e)

-- `write_csv` or `write_json`, as the format says.
unfoldable pub write_format : (Text → Ifstream) → ExportOptions → Printed
write_format files opts =
    if equals opts.format (codes "csv")
    then write_csv opts.common (files opts.common.input)
    else write_json opts.common (files opts.common.input)

-- `std::ofstream out(output)` makes the file empty before anything is read.
unfoldable pub truncated : Text → (Text → Ifstream) → Text → Ifstream
truncated output files path = if equals path output then open_input [] else files path

module _ (files : Text → Ifstream) (writable : Text → Bool) where
  -- `export_events` behind the tests of its options.
  unfoldable pub export_to : ExportOptions → Execution
  export_to opts =
      if is_empty opts.output
      then prints standard (write_format files opts)
      else if not (writable opts.output)
      then throws (runtime_error (failed_output opts.output))
      else prints (file opts.output) (write_format (truncated opts.output files) opts)

  unfoldable pub export_events : List Text → Execution
  export_events arguments = elim (parse_export arguments) [
    | err e ↦ throws e
    | ok opts ↦ export_to opts
  ]

  -- A command that takes the common options.
  unfoldable pub with_common : (CommonOptions → Ifstream → Printed) → List Text → Execution
  with_common command arguments = elim (parse_common arguments) [
    | err e ↦ throws e
    | ok opts ↦ prints standard (command opts (files opts.input))
  ]

  -- The `try` block of `main`, for `argv` from its second entry. `none` is the help text.
  unfoldable pub command : List Text → Option Execution
  command [] = none
  command (name ∷ arguments) =
      if equals name (codes "--help") || equals name (codes "-h")
      then none
      else if equals name (codes "inspect")
      then some (with_common inspect arguments)
      else if equals name (codes "dump")
      then some (with_common dump arguments)
      else if equals name (codes "export")
      then some (export_events arguments)
      else some (throws (runtime_error (unknown_command name)))

  -- The value that `main` returns.
  unfoldable pub exit_code : List Text → ℕ
  exit_code [] = 1
  exit_code (name ∷ arguments) = elim (command (name ∷ arguments)) [
    | none ↦ 0
    | some execution ↦ elim execution.ending [ thrown e ↦ 1 | _ ↦ 0 ]
  ]
