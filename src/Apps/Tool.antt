-- ===== src/Apps/Tool.antt =====
-- apps/hpblr_tool.cpp: the options of the commands. An argument list is what follows `argv[start]`.
mod Examples
pub mod Accepted
pub mod Ends
pub mod Inspect
pub mod Summaries
pub mod Inspected
pub mod Summed
pub mod Main
pub mod Outcomes
pub mod Answers
pub mod Exports
pub mod Options
pub mod Print
pub mod Recorded
pub mod Layouts
pub mod Csv
pub mod Rows
pub mod Imported
pub mod Steps
pub mod Selected
use cpp_high_performance_bin.Base.{
  ℕ, Bool, true, false, not, ◌&&◌, ◌||◌, if◌then◌else◌, List, [], ◌∷◌, is_empty, Option, none, some,
  Text, codes,
}
use cpp_high_performance_bin.Errors.{
  Result, ok, err, runtime_error, unknown_option, input_required, format_required, ensure,
}
use cpp_high_performance_bin.Event.{Severity}
use cpp_high_performance_bin.Event.Text.{equals, severity_from_string}
use cpp_high_performance_bin.Filter.{EventFilter}
use cpp_high_performance_bin.Apps.Arguments.{
  parse_u64, parse_u32, parse_u16, require_value, checked, ◌>>=◌,
}

pub record CommonOptions : Type 0 where
  pub input : Text
  pub filter : EventFilter
  pub limit : ℕ

abbrev pub defaults : CommonOptions
defaults = record {
  input = [];
  filter = record {
    producer_id = none;
    type = none;
    severity = none;
    from_timestamp_ns = none;
    to_timestamp_ns = none;
  };
  limit = 0;
}

-- `next` is the argument behind `arg`. Each option takes it or throws.
unfoldable pub parse_common_option : CommonOptions → Text → Option Text → Result CommonOptions
parse_common_option opts arg next =
    if equals arg (codes "--input")
    then (do text ← require_value next (codes "--input"); ok (record opts { input = text }))
    else if equals arg (codes "--producer")
    then (do
      text ← require_value next (codes "--producer")
      value ← checked (parse_u32 text) (codes "--producer")
      ok (record opts { filter = record (opts.filter) { producer_id = some value } }))
    else if equals arg (codes "--type")
    then (do
      text ← require_value next (codes "--type")
      value ← checked (parse_u16 text) (codes "--type")
      ok (record opts { filter = record (opts.filter) { type = some value } }))
    else if equals arg (codes "--severity")
    then (do
      text ← require_value next (codes "--severity")
      severity ← checked (severity_from_string text) (codes "--severity")
      ok (record opts { filter = record (opts.filter) { severity = some severity } }))
    else if equals arg (codes "--from-ns")
    then (do
      text ← require_value next (codes "--from-ns")
      value ← checked (parse_u64 text) (codes "--from-ns")
      ok (record opts { filter = record (opts.filter) { from_timestamp_ns = some value } }))
    else if equals arg (codes "--to-ns")
    then (do
      text ← require_value next (codes "--to-ns")
      value ← checked (parse_u64 text) (codes "--to-ns")
      ok (record opts { filter = record (opts.filter) { to_timestamp_ns = some value } }))
    else if equals arg (codes "--limit")
    then (do
      text ← require_value next (codes "--limit")
      value ← checked (parse_u64 text) (codes "--limit")
      ok (record opts { limit = value }))
    else err (runtime_error (unknown_option arg))

-- The loop of `parse_common`.
unfoldable pub parse_arguments : CommonOptions → List Text → Result CommonOptions
parse_arguments opts [] = ok opts
parse_arguments opts (arg ∷ []) = parse_common_option opts arg none
parse_arguments opts (arg ∷ next ∷ rest) = do
  opts' ← parse_common_option opts arg (some next)
  parse_arguments opts' rest

unfoldable pub parse_common : List Text → Result CommonOptions
parse_common arguments = do
  opts ← parse_arguments defaults arguments
  _ ← ensure (not (is_empty opts.input)) (runtime_error input_required)
  ok opts

-- The variables of `export_events`.
pub record ExportOptions : Type 0 where
  pub common : CommonOptions
  pub format : Text
  pub output : Text

unfoldable pub export_option : ExportOptions → Text → Option Text → Result ExportOptions
export_option opts arg next =
    if equals arg (codes "--format")
    then (do text ← require_value next (codes "--format"); ok (record opts { format = text }))
    else if equals arg (codes "--output")
    then (do text ← require_value next (codes "--output"); ok (record opts { output = text }))
    else do common ← parse_common_option opts.common arg next; ok (record opts { common = common })

-- The loop of `export_events`.
unfoldable pub export_arguments : ExportOptions → List Text → Result ExportOptions
export_arguments opts [] = ok opts
export_arguments opts (arg ∷ []) = export_option opts arg none
export_arguments opts (arg ∷ next ∷ rest) = do
  opts' ← export_option opts arg (some next)
  export_arguments opts' rest

-- `export_events` up to the tests of its options.
unfoldable pub parse_export : List Text → Result ExportOptions
parse_export arguments = do
  opts ← export_arguments (record { common = defaults; format = []; output = [] }) arguments
  _ ← ensure (not (is_empty opts.common.input)) (runtime_error input_required)
  _ ←
      ensure (equals opts.format (codes "csv") || equals opts.format (codes "json"))
        (runtime_error format_required)
  ok opts
