-- ===== src/Apps/Tool/Outcomes.antt =====
-- How the commands of apps/hpblr_tool.cpp end.
use cpp_high_performance_bin.Base.{
  ◌^◌, ◌<◌, ◌≡◌, ◌≢◌, inl, inr, refl, ap, subst, Bool, ◌||◌, Bool-cases, is_empty, List, [], ◌∷◌,
  some, Text, codes,
}
use cpp_high_performance_bin.Crc32.{IsBytes}
use cpp_high_performance_bin.Errors.{runtime_error, unknown_command, Result, ok, err}
use cpp_high_performance_bin.Event.Text.{equals}
use cpp_high_performance_bin.BinaryLog.Stream.{Ifstream}
use cpp_high_performance_bin.BinaryLog.Reader.Replay.{unfinished}
use cpp_high_performance_bin.Apps.Tool.{CommonOptions, ExportOptions, parse_common, parse_export}
use cpp_high_performance_bin.Apps.Tool.Options.{
  IsTypedOptions, arguments_of, parse_common-arguments_of,
}
use cpp_high_performance_bin.Apps.Tool.Accepted.{parse_common-IsTypedOptions}
use cpp_high_performance_bin.Apps.Tool.Print.{Printed, dump}
use cpp_high_performance_bin.Apps.Tool.Inspect.{inspect}
use cpp_high_performance_bin.Apps.Tool.Exports.{parse_export-IsTypedOptions}
use cpp_high_performance_bin.Apps.Tool.Ends.{commands_end}
use cpp_high_performance_bin.Apps.Tool.Main.{
  standard, Execution, prints, throws, write_format, truncated, export_to, export_events,
  with_common, command,
}

module _ (files : Text → Ifstream) (writable : Text → Bool)
    (readable : (path : Text) → IsBytes ((files path).rest)) where
  truncated-IsBytes : (output path : Text) → IsBytes ((truncated output files path).rest)
  unfolding truncated
  truncated-IsBytes output path = elim (Bool-cases (equals path output)) [
    | inl same ↦ rw same tt
    | inr other ↦ rw other (readable path)
  ]

  write_format_ends :
      (opened : Text → Ifstream) (opts : ExportOptions)
      → ((path : Text) → IsBytes ((opened path).rest))
      → opts.common.limit < 2 ^ 64
      → (write_format opened opts).1 ≢ unfinished
  unfolding write_format
  write_format_ends opened opts bytes small =
      let (_, _, csv_ends, json_ends) =
        commands_end opts.common (opened opts.common.input) small (bytes opts.common.input) in
      elim (Bool-cases (equals opts.format (codes "csv"))) [
        | inl csv ↦ rw csv csv_ends
        | inr json ↦ rw json json_ends
      ]

  export_to_ends :
      (opts : ExportOptions)
      → opts.common.limit < 2 ^ 64
      → (export_to files writable opts).ending ≢ unfinished
  unfolding export_to
  export_to_ends opts small = elim (Bool-cases (is_empty opts.output)) [
    | inl none_ ↦ rw none_ (write_format_ends files opts readable small)
    | inr given_ ↦ elim (Bool-cases (writable opts.output)) [
      | inl open_ ↦
          rw (given_, open_)
            (write_format_ends (truncated opts.output files) opts (truncated-IsBytes opts.output)
              small)
      | inr closed ↦ rw (given_, closed) (λ e. cc e)
    ]
  ]

  export_events_ends :
      (arguments : List Text) → (export_events files writable arguments).ending ≢ unfinished
  unfolding export_events
  export_events_ends arguments =
      go (parse_export arguments)
        (λ opts h. (parse_export-IsTypedOptions arguments opts h).2.limit_u64)
    where
      go :
          (parsed : Result ExportOptions)
          → ((opts : ExportOptions) → parsed ≡ ok opts → opts.common.limit < 2 ^ 64)
          → (elim parsed as (λ _. Execution) [
            | err e ↦ throws e
            | ok opts ↦ export_to files writable opts
          ]).ending
            ≢ unfinished
      go (err x) small = λ e. cc e
      go (ok opts) small = export_to_ends opts (small opts refl)

  with_common_ends :
      (body : CommonOptions → Ifstream → Printed) (arguments : List Text)
      → ((opts : CommonOptions) (input : Ifstream)
          → opts.limit < 2 ^ 64
          → IsBytes input.rest
          → (body opts input).1 ≢ unfinished)
      → (with_common files writable body arguments).ending ≢ unfinished
  unfolding with_common
  with_common_ends body arguments ends_ =
      go (parse_common arguments)
        (λ opts h. (parse_common-IsTypedOptions arguments opts h).1.limit_u64)
    where
      go :
          (parsed : Result CommonOptions)
          → ((opts : CommonOptions) → parsed ≡ ok opts → opts.limit < 2 ^ 64)
          → (elim parsed as (λ _. Execution) [
            | err e ↦ throws e
            | ok opts ↦ prints standard (body opts (files opts.input))
          ]).ending
            ≢ unfinished
      go (err x) small = λ e. cc e
      go (ok opts) small = ends_ opts (files opts.input) (small opts refl) (readable opts.input)

  -- When every file holds bytes, each command that `main` executes ends, with success or with an
  -- exception.
  pub command_ends :
      (arguments : List Text) (done : Execution)
      → command files writable arguments ≡ some done
      → done.ending ≢ unfinished
  unfolding command
  command_ends [] done h = cc h
  command_ends (name ∷ arguments) done h =
      elim (Bool-cases (equals name (codes "--help") || equals name (codes "-h"))) [
        | inl help ↦ let h' = simp help at h in cc h'
        | inr other ↦ elim (Bool-cases (equals name (codes "inspect"))) [
          | inl is_inspect ↦
              ends_as (with_common files writable inspect arguments) (simp (other, is_inspect) at h)
                (with_common_ends inspect arguments
                  (λ o i small bytes. (commands_end o i small bytes).0))
          | inr no_inspect ↦ elim (Bool-cases (equals name (codes "dump"))) [
            | inl is_dump ↦
                ends_as (with_common files writable dump arguments)
                  (simp (other, no_inspect, is_dump) at h)
                  (with_common_ends dump arguments
                    (λ o i small bytes. (commands_end o i small bytes).1))
            | inr no_dump ↦ elim (Bool-cases (equals name (codes "export"))) [
              | inl is_export ↦
                  ends_as (export_events files writable arguments)
                    (simp (other, no_inspect, no_dump, is_export) at h)
                    (export_events_ends arguments)
              | inr unknown ↦
                  ends_as (throws (runtime_error (unknown_command name)))
                    (simp (other, no_inspect, no_dump, unknown) at h) (λ e. cc e)
            ]
          ]
        ]
      ]
    where
      ends_as :
          (x : Execution) → some x ≡ some done → x.ending ≢ unfinished → done.ending ≢ unfinished
      ends_as x same ends_ =
          let e : x ≡ done = cc same in subst (λ (y : Execution). y.ending ≢ unfinished) e ends_

-- For options with an input whose numbers are within their types, `main` with `inspect` or `dump`
-- and a command line that spells these options executes the command with them on the input file.
pub command-arguments_of :
    (files : Text → Ifstream) (writable : Text → Bool) (opts : CommonOptions)
    → opts.input ≢ []
    → IsTypedOptions opts
    → (command files writable (codes "inspect" ∷ arguments_of opts)
        ≡ some (prints standard (inspect opts (files opts.input))))
      × (command files writable (codes "dump" ∷ arguments_of opts)
          ≡ some (prints standard (dump opts (files opts.input))))
unfolding command equals with_common
command-arguments_of files writable opts some_ typed =
    (ap some (run_common inspect), ap some (run_common dump))
  where
    run_common :
        (body : CommonOptions → Ifstream → Printed)
        → with_common files writable body (arguments_of opts)
          ≡ prints standard (body opts (files opts.input))
    run_common body = rw (parse_common-arguments_of opts some_ typed, with_common) refl
