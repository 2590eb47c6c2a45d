-- ===== src/Apps/Bench.antt =====
-- apps/hpblr_bench.cpp: the options of the benchmark. An argument list is what follows `argv[0]`.
-- `parse_u64` and `parse_size` are spelled as in apps/hpblr_record.cpp, whose models serve here.
pub mod Accepted
pub mod Main
pub mod Complete
pub mod Shown
mod Examples
use cpp_high_performance_bin.Base.{
  ℕ, ◌*◌, ◌^◌, Bool, true, false, ◌||◌, ◌==◌, if◌then◌else◌, List, [], ◌∷◌, Option, none, some,
  Text, codes,
}
use cpp_high_performance_bin.Errors.{Result, ok, err, runtime_error, unknown_option}
use cpp_high_performance_bin.Event.Text.{equals}
use cpp_high_performance_bin.Apps.Arguments.{parse_u64, require_value, checked, ◌>>=◌}
use cpp_high_performance_bin.Apps.Record.{parse_size, positive}

pub record Options : Type 0 where
  pub output : Text
  pub report : Text
  pub producers : ℕ
  pub events : ℕ
  pub payload_size : ℕ
  pub queue_capacity : ℕ
  pub flush_bytes : ℕ
  pub json_stdout : Bool

abbrev pub defaults : Options
defaults = record {
  output = codes "benchmark.hpblr";
  report = [];
  producers = 4;
  events = 100000;
  payload_size = 64;
  queue_capacity = 32768;
  flush_bytes = 4 * 2 ^ 20;
  json_stdout = false;
}

-- `next` is the argument behind `arg`. Each option takes it or throws.
unfoldable pub parse_option : Options → Text → Option Text → Result Options
parse_option opts arg next =
    if equals arg (codes "--output")
    then (do text ← require_value next (codes "--output"); ok (record opts { output = text }))
    else if equals arg (codes "--report")
    then (do text ← require_value next (codes "--report"); ok (record opts { report = text }))
    else if equals arg (codes "--producers")
    then (do
      text ← require_value next (codes "--producers")
      value ← checked (positive (parse_size text)) (codes "--producers")
      ok (record opts { producers = value }))
    else if equals arg (codes "--events")
    then (do
      text ← require_value next (codes "--events")
      value ← checked (positive (parse_u64 text)) (codes "--events")
      ok (record opts { events = value }))
    else if equals arg (codes "--payload-size")
    then (do
      text ← require_value next (codes "--payload-size")
      value ← checked (parse_size text) (codes "--payload-size")
      ok (record opts { payload_size = value }))
    else if equals arg (codes "--queue-capacity")
    then (do
      text ← require_value next (codes "--queue-capacity")
      value ← checked (positive (parse_size text)) (codes "--queue-capacity")
      ok (record opts { queue_capacity = value }))
    else if equals arg (codes "--flush-bytes")
    then (do
      text ← require_value next (codes "--flush-bytes")
      value ← checked (positive (parse_size text)) (codes "--flush-bytes")
      ok (record opts { flush_bytes = value }))
    else err (runtime_error (unknown_option arg))

abbrev pub is_help : Text → Bool
is_help arg = equals arg (codes "--help") || equals arg (codes "-h")

abbrev pub is_json : Text → Bool
is_json arg = equals arg (codes "--json")

-- The loop of `parse_options`; `none` is the help text with `std::exit(0)`. `--json` takes no value.
unfoldable pub parse_arguments : Options → List Text → Result (Option Options)
parse_arguments opts [] = ok (some opts)
parse_arguments opts (arg ∷ []) =
    if is_help arg
    then ok none
    else if is_json arg
    then ok (some (record opts { json_stdout = true }))
    else do opts' ← parse_option opts arg none; ok (some opts')
parse_arguments opts (arg ∷ next ∷ rest) =
    let flagged = parse_arguments (record opts { json_stdout = true }) (next ∷ rest) in
    if is_help arg
    then ok none
    else if is_json arg
    then flagged
    else do opts' ← parse_option opts arg (some next); parse_arguments opts' rest

unfoldable pub parse_options : List Text → Result (Option Options)
parse_options arguments = parse_arguments defaults arguments
