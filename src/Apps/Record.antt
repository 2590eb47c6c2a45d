-- ===== src/Apps/Record.antt =====
-- apps/hpblr_record.cpp: the options of the recorder program. An argument list is what follows
-- `argv[0]`.
pub mod Accepted
pub mod Main
pub mod Complete
mod Examples
use cpp_high_performance_bin.Base.{
  ℕ, ◌%◌, ◌^◌, Bool, true, false, ◌||◌, ◌==◌, if◌then◌else◌, List, [], ◌∷◌, Option, none, some,
  Text, codes,
}
use cpp_high_performance_bin.Errors.{Result, ok, err, runtime_error, unknown_option}
use cpp_high_performance_bin.Event.Text.{equals}
use cpp_high_performance_bin.Apps.Arguments.{parse_u64, require_value, checked, ◌>>=◌}

pub record Options : Type 0 where
  pub output : Text
  pub producers : ℕ
  pub events : ℕ
  pub payload_size : ℕ
  pub queue_capacity : ℕ
  pub flush_bytes : ℕ
  pub sleep_us : ℕ
  pub log_file : Text

abbrev pub defaults : Options
defaults = record {
  output = codes "recording.hpblr";
  producers = 4;
  events = 10000;
  payload_size = 64;
  queue_capacity = 8192;
  flush_bytes = 2 ^ 20;
  sleep_us = 0;
  log_file = [];
}

-- `static_cast<std::uint64_t>(value) == tmp`, for a `std::size_t` of 64 bits.
unfoldable pub fitting : Option ℕ → Option ℕ
fitting none = none
fitting (some tmp) = if tmp % 2 ^ 64 == tmp then some (tmp % 2 ^ 64) else none

unfoldable pub parse_size : Text → Option ℕ
parse_size text = fitting (parse_u64 text)

-- `|| value == 0` in the test of a value.
unfoldable pub positive : Option ℕ → Option ℕ
positive none = none
positive (some value) = if value == 0 then none else some value

-- `next` is the argument behind `arg`. Each option takes it or throws.
unfoldable pub parse_option : Options → Text → Option Text → Result Options
parse_option opts arg next =
    if equals arg (codes "--output")
    then (do text ← require_value next (codes "--output"); ok (record opts { output = text }))
    else if equals arg (codes "--producers")
    then (do
      text ← require_value next (codes "--producers")
      value ← checked (positive (parse_size text)) (codes "--producers")
      ok (record opts { producers = value }))
    else if equals arg (codes "--events")
    then (do
      text ← require_value next (codes "--events")
      value ← checked (parse_u64 text) (codes "--events")
      ok (record opts { events = value }))
    else if equals arg (codes "--payload-size")
    then (do
      text ← require_value next (codes "--payload-size")
      value ← checked (parse_size text) (codes "--payload-size")
      ok (record opts { payload_size = value }))
    else if equals arg (codes "--queue-capacity")
    then (do
      text ← require_value next (codes "--queue-capacity")
      value ← checked (positive (parse_size text)) (codes "--queue-capacity")
      ok (record opts { queue_capacity = value }))
    else if equals arg (codes "--flush-bytes")
    then (do
      text ← require_value next (codes "--flush-bytes")
      value ← checked (positive (parse_size text)) (codes "--flush-bytes")
      ok (record opts { flush_bytes = value }))
    else if equals arg (codes "--sleep-us")
    then (do
      text ← require_value next (codes "--sleep-us")
      value ← checked (parse_u64 text) (codes "--sleep-us")
      ok (record opts { sleep_us = value }))
    else if equals arg (codes "--log-file")
    then (do text ← require_value next (codes "--log-file"); ok (record opts { log_file = text }))
    else err (runtime_error (unknown_option arg))

abbrev pub is_help : Text → Bool
is_help arg = equals arg (codes "--help") || equals arg (codes "-h")

-- The loop of `parse_options`; `none` is the help text with `std::exit(0)`.
unfoldable pub parse_arguments : Options → List Text → Result (Option Options)
parse_arguments opts [] = ok (some opts)
parse_arguments opts (arg ∷ []) =
    if is_help arg then ok none else do opts' ← parse_option opts arg none; ok (some opts')
parse_arguments opts (arg ∷ next ∷ rest) =
    if is_help arg
    then ok none
    else do opts' ← parse_option opts arg (some next); parse_arguments opts' rest

unfoldable pub parse_options : List Text → Result (Option Options)
parse_options arguments = parse_arguments defaults arguments
