-- ===== src/Apps/Tool/Inspect.antt =====
-- `inspect` of apps/hpblr_tool.cpp: the summary of a file.
use cpp_high_performance_bin.Base.{
  ℕ, zero, suc, ◌+◌, ◌^◌, ◌%◌, ltb, ◌==◌, ◌||◌, if◌then◌else◌, List, [], ◌∷◌, ◌++◌, length, get_or,
  set, replicate, none, some, Text, codes,
}
use cpp_high_performance_bin.Errors.{Result, ok, err, out_of_range, bad_optional_access}
use cpp_high_performance_bin.Event.{Event, severity_to_u16, severity_from_u16}
use cpp_high_performance_bin.Event.Text.{severity_to_string}
use cpp_high_performance_bin.Decimal.{decimal}
use cpp_high_performance_bin.Time.{format_unix_ns_utc}
use cpp_high_performance_bin.BinaryLog.Stream.{Ifstream}
use cpp_high_performance_bin.BinaryLog.Reader.{Reader, FileInfo, next}
use cpp_high_performance_bin.BinaryLog.Reader.Replay.{finished, unfinished, thrown}
use cpp_high_performance_bin.Apps.Tool.{CommonOptions}
use cpp_high_performance_bin.Apps.Tool.Print.{Printed, print, reading}

pub record Summary : Type 0 where
  pub count : ℕ
  pub payload_bytes : ℕ
  pub severities : List ℕ

abbrev pub no_events : Summary
no_events = record { count = 0; payload_bytes = 0; severities = replicate 6 0 }

-- The body of the loop; `at` tests its index.
unfoldable pub count_event : Event → Summary → Result Summary
count_event event s =
    let index = severity_to_u16 event.severity in
    if ltb index (length s.severities)
    then ok (record {
      count = (s.count + 1) % 2 ^ 64;
      payload_bytes = (s.payload_bytes + length event.payload) % 2 ^ 64;
      severities = set s.severities index ((get_or s.severities index 0 + 1) % 2 ^ 64);
    })
    else err out_of_range

-- `std::cout << path`: in quotation marks, with a backslash before a quotation mark or backslash.
unfoldable pub quote_rest : Text → Text
quote_rest [] = codes "\""
quote_rest (c ∷ cs) =
    let further = quote_rest cs in if c == 34 || c == 92 then 92 ∷ c ∷ further else c ∷ further

abbrev pub quoted : Text → Text
quoted text = codes "\"" ++ quote_rest text

-- The loop over the severities; `value` throws if there is none.
unfoldable pub severity_lines : ℕ → List ℕ → Printed
severity_lines i [] = ([], finished)
severity_lines i (n ∷ ns) = elim (severity_from_u16 i) [
  | none ↦ ([], thrown bad_optional_access)
  | some severity ↦
      print
        (codes "severity_"
          ++ (severity_to_string severity ++ (codes "=" ++ (decimal n ++ codes "\n"))))
        (severity_lines (suc i) ns)
]

unfoldable pub report : Text → FileInfo → Summary → Printed
report input info s = print (codes "file=" ++ (quoted input ++ codes "\n")) (
    print (codes "version=" ++ (decimal info.version ++ codes "\n")) (
      print (codes "created_unix_ns=" ++ (decimal info.created_unix_ns ++ codes "\n")) (
        print (codes "created_utc=" ++ (format_unix_ns_utc info.created_unix_ns ++ codes "\n")) (
          print (codes "events=" ++ (decimal s.count ++ codes "\n")) (
            print (codes "payload_bytes=" ++ (decimal s.payload_bytes ++ codes "\n")) (
              print (if ltb 0 s.count then timestamps else []) (severity_lines 0 s.severities)))))))
  where
    timestamps : Text
    timestamps =
        codes "first_timestamp_ns="
        ++ (decimal info.first_timestamp_ns ++ codes "\n")
        ++ (codes "last_timestamp_ns=" ++ (decimal info.last_timestamp_ns ++ codes "\n"))

-- The loop with what is printed behind it: an exception of the loop leaves nothing printed.
unfoldable pub inspect_loop : Text → ℕ → Summary → Reader → Printed
inspect_loop input zero s r = ([], unfinished)
inspect_loop input (suc fuel) s r = elim (next r).0 [
  | err e ↦ ([], thrown e)
  | ok none ↦ report input (next r).1.info s
  | ok (some event) ↦ elim (count_event event s) [
    | err e ↦ ([], thrown e)
    | ok s' ↦ inspect_loop input fuel s' (next r).1
  ]
]

unfoldable pub inspect : CommonOptions → Ifstream → Printed
inspect opts input =
    reading input (λ r. inspect_loop opts.input (suc (length r.input.rest)) no_events r)
