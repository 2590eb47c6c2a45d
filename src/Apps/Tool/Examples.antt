-- ===== src/Apps/Tool/Examples.antt =====
-- Command lines and files for apps/hpblr_tool.cpp.
use cpp_high_performance_bin.Base.{
  ◌^◌, ◌<◌, ◌≡◌, ◌≢◌, ◌↔◌, refl, Bool, true, arith, [], ◌∷◌, none, some, All, Text, codes,
}
use mathlib.Core.List.{cons-ne-nil}
use cpp_high_performance_bin.Errors.{ok, file_format_error, short_file_header}
use cpp_high_performance_bin.Event.{IsEvent, Severity}
use cpp_high_performance_bin.BinaryLog.Stream.{Ifstream, open_input}
use cpp_high_performance_bin.BinaryLog.Format.{records}
use cpp_high_performance_bin.BinaryLog.Reader.{Reader}
use cpp_high_performance_bin.BinaryLog.Reader.Open.{opened_at}
use cpp_high_performance_bin.BinaryLog.Reader.Replay.{finished, unfinished, thrown}
use cpp_high_performance_bin.BinaryLog.RoundTrip.{IsTyped}
use cpp_high_performance_bin.BinaryLog.Writer.Log.{accepted}
use cpp_high_performance_bin.BinaryLog.Writer.Examples.{
  opened, eager, ping, calls, start, start_made, ending, ending_made,
}
use cpp_high_performance_bin.Apps.Arguments.{parse_u64, parse_u64_lem, value_of}
use cpp_high_performance_bin.Decimal.{IsDigit, decimal, digits}
use cpp_high_performance_bin.Event.Text.{severity_to_string}
use cpp_high_performance_bin.Event.Text.Hex.{bytes_to_hex, hex_loop}
use cpp_high_performance_bin.Time.{format_unix_ns_utc, gmtime, find_year, find_month, padded}
use cpp_high_performance_bin.Apps.Tool.{CommonOptions, ExportOptions, parse_common}
use cpp_high_performance_bin.Apps.Tool.Options.{
  IsTypedOptions, arguments_of, parse_common-arguments_of,
}
use cpp_high_performance_bin.Apps.Tool.Accepted.{parse_common-IsTypedOptions}
use cpp_high_performance_bin.Apps.Tool.Print.{print, dump, csv_row, write_csv, write_json}
use cpp_high_performance_bin.Apps.Tool.Selected.{select, limited, lines, shown}
use cpp_high_performance_bin.Apps.Tool.Imported.{read_csv, read_csv-write_csv}
use cpp_high_performance_bin.Apps.Tool.Recorded.{print-close}
use cpp_high_performance_bin.Apps.Tool.Layouts.{dump_text, row_text, item_text, array_of}
use cpp_high_performance_bin.Apps.Tool.Inspect.{inspect}
use cpp_high_performance_bin.Apps.Tool.Inspected.{inspect-close}
use cpp_high_performance_bin.Apps.Tool.Summed.{summed_up}
use cpp_high_performance_bin.Apps.Tool.Answers.{exit_code-arguments_of}
use cpp_high_performance_bin.Apps.Tool.Ends.{commands_end}
use cpp_high_performance_bin.Apps.Tool.Exports.{export_to_itself}
use cpp_high_performance_bin.Apps.Tool.Main.{standard, prints, file, export_to, command, exit_code}

abbrev sample : CommonOptions
sample = record {
  input = codes "a.hpblr";
  filter = record {
    producer_id = some 2;
    type = none;
    severity = some Severity.info;
    from_timestamp_ns = none;
    to_timestamp_ns = some 5000;
  };
  limit = 1;
}

sample-IsTypedOptions : IsTypedOptions sample
sample-IsTypedOptions = record {
  producer_u32 = λ n e. let same : 2 ≡ n = cc e in omega (arith, same);
  type_u16 = λ n e. cc e;
  from_u64 = λ n e. cc e;
  to_u64 = λ n e. let same : 5000 ≡ n = cc e in omega (arith, same);
  limit_u64 = omega arith;
}

sample_given : sample.input ≢ []
sample_given = cons-ne-nil _ _

parse_u64_lem_example :
    parse_u64 (codes "042") ≡ some 42
    ↔ (codes "042" ≢ [])
      × All IsDigit (codes "042")
      × (42 ≡ value_of 0 (codes "042"))
      × (42 < 2 ^ 64)
parse_u64_lem_example = parse_u64_lem (codes "042") 42

parse_common-arguments_of_example : parse_common (arguments_of sample) ≡ ok sample
parse_common-arguments_of_example =
    parse_common-arguments_of sample sample_given sample-IsTypedOptions

parse_common-IsTypedOptions_example : (sample.input ≢ []) × IsTypedOptions sample
parse_common-IsTypedOptions_example =
    parse_common-IsTypedOptions (arguments_of sample) sample
      (parse_common-arguments_of sample sample_given sample-IsTypedOptions)

abbrev two_records : Reader
two_records = opened_at (open_input []) 5 (records (ping ∷ ping ∷ []))

ping-IsEvent : IsEvent ping
ping-IsEvent = record {
  timestamp_u64 = omega arith;
  sequence_u64 = omega arith;
  producer_u32 = omega arith;
  type_u16 = omega arith;
  payload_bytes = (omega arith, (omega arith, tt));
}

calls-IsTyped : All IsTyped calls
calls-IsTyped = (ping-IsEvent, (tt, (ping-IsEvent, tt)))

print-close_example :
    (dump sample (open_input ending.out.content)
      ≡ shown (λ first. dump_text) sample.filter 1 (accepted calls start, finished))
    × (write_csv sample (open_input ending.out.content)
        ≡ print
            (codes
              "sequence,timestamp_ns,timestamp_utc,producer_id,type,severity,payload_size,payload_hex\n")
            (shown (λ first. row_text) sample.filter 1 (accepted calls start, finished)))
    × (write_json sample (open_input ending.out.content)
        ≡ array_of (shown item_text sample.filter 1 (accepted calls start, finished)))
print-close_example =
    print-close sample (omega arith) opened eager 5 start refl start_made (omega arith) calls
      calls-IsTyped ending_made

read_csv-write_csv_example :
    read_csv ((write_csv sample (open_input ending.out.content)).0)
    ≡ some (limited 1 (select sample.filter (accepted calls start)))
read_csv-write_csv_example =
    read_csv-write_csv sample opened eager 5 start ending calls (omega arith) refl start_made
      (omega arith) calls-IsTyped ending_made

inspect-close_example :
    inspect sample (open_input ending.out.content)
    ≡ (summed_up sample.input 5 (accepted calls start), finished)
inspect-close_example =
    inspect-close sample opened eager 5 start ending calls refl start_made (omega arith)
      calls-IsTyped ending_made

commands_end_example :
    ((inspect sample (open_input (1 ∷ 2 ∷ []))).1 ≢ unfinished)
    × ((dump sample (open_input (1 ∷ 2 ∷ []))).1 ≢ unfinished)
    × ((write_csv sample (open_input (1 ∷ 2 ∷ []))).1 ≢ unfinished)
    × ((write_json sample (open_input (1 ∷ 2 ∷ []))).1 ≢ unfinished)
commands_end_example =
    commands_end sample (open_input (1 ∷ 2 ∷ [])) (omega arith) (omega arith, (omega arith, tt))

abbrev export_sample : ExportOptions
export_sample = record { common = sample; format = codes "csv"; output = codes "a.hpblr" }

-- Every file holds two bytes, and every file can be written.
abbrev two_bytes : Text → Ifstream
two_bytes path = open_input (1 ∷ 2 ∷ [])

abbrev all_writable : Text → Bool
all_writable path = true

export_to_itself_example :
    export_to two_bytes all_writable export_sample
    ≡ prints (file (codes "a.hpblr")) ([], thrown (file_format_error short_file_header))
export_to_itself_example =
    export_to_itself two_bytes all_writable export_sample (cons-ne-nil _ _) refl refl

abbrev recording : Text → Ifstream
recording path = open_input ending.out.content

exit_code-arguments_of_example :
    (command recording all_writable (codes "inspect" ∷ arguments_of sample)
      ≡ some (prints standard (summed_up sample.input 5 (accepted calls start), finished)))
    × (exit_code recording all_writable (codes "inspect" ∷ arguments_of sample) ≡ 0)
    × (command recording all_writable (codes "dump" ∷ arguments_of sample)
        ≡ some (
            prints standard (
              lines
                  (λ first. dump_text)
                  true
                  (limited 1 (select sample.filter (accepted calls start))),
              finished,
            )))
    × (exit_code recording all_writable (codes "dump" ∷ arguments_of sample) ≡ 0)
exit_code-arguments_of_example =
    exit_code-arguments_of recording all_writable sample opened eager 5 start ending calls
      sample_given sample-IsTypedOptions (omega arith) refl start_made (omega arith) calls-IsTyped
      ending_made refl

-- The texts that the models print.
spelled :
    arguments_of sample
    ≡ codes "--input"
      ∷ codes "a.hpblr"
      ∷ codes "--producer"
      ∷ codes "2"
      ∷ codes "--severity"
      ∷ codes "info"
      ∷ codes "--to-ns"
      ∷ codes "5000"
      ∷ codes "--limit"
      ∷ codes "1"
      ∷ []
unfolding arguments_of decimal digits severity_to_string
spelled = refl

row : csv_row ping ≡ codes "7,1000,1970-01-01T00:00:00.000001000Z,2,101,info,2,6162\n"
unfolding csv_row decimal digits severity_to_string format_unix_ns_utc gmtime find_year find_month
    padded bytes_to_hex hex_loop
row = refl
