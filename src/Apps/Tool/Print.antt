-- ===== src/Apps/Tool/Print.antt =====
-- `dump`, `write_csv` and `write_json` of apps/hpblr_tool.cpp: the text that they print, and how
-- they end. An exception leaves what has been printed.
use cpp_high_performance_bin.Base.{
  ℕ, zero, suc, ◌+◌, ◌-◌, ◌^◌, ◌%◌, Bool, true, false, not, ◌&&◌, leb, ◌==◌, if◌then◌else◌, [],
  ◌++◌, length, none, some, Text, codes,
}
use cpp_high_performance_bin.Errors.{ok, err}
use cpp_high_performance_bin.Event.{Event}
use cpp_high_performance_bin.Event.Text.{severity_to_string}
use cpp_high_performance_bin.Event.Text.Hex.{bytes_to_hex}
use cpp_high_performance_bin.Filter.{EventFilter, matches}
use cpp_high_performance_bin.Decimal.{decimal}
use cpp_high_performance_bin.Time.{format_unix_ns_utc}
use cpp_high_performance_bin.BinaryLog.Stream.{Ifstream}
use cpp_high_performance_bin.BinaryLog.Reader
use cpp_high_performance_bin.BinaryLog.Reader.{Reader, next}
use cpp_high_performance_bin.BinaryLog.Reader.Replay.{Ending, finished, unfinished, thrown}
use cpp_high_performance_bin.Apps.Tool.{CommonOptions}

abbrev pub Printed : Type 0
Printed = Text × Ending

-- `out << text`, and what follows.
abbrev pub print : Text → Printed → Printed
print text (later, ending) = (text ++ later, ending)

-- `opts.limit != 0 && emitted >= opts.limit`
abbrev pub reached : ℕ → ℕ → Bool
reached limit emitted = not (limit == 0) && leb limit emitted

-- The loop `while (auto event = reader.next())` with the filter and the limit.
unfoldable pub print_loop :
    (Bool → Event → Text) → EventFilter → ℕ → ℕ → Bool → ℕ → Reader → Printed
print_loop line filter limit zero first emitted r = ([], unfinished)
print_loop line filter limit (suc fuel) first emitted r = elim (next r).0 [
  | err e ↦ ([], thrown e)
  | ok none ↦ ([], finished)
  | ok (some event) ↦ elim (matches filter event) [
    | false ↦ print_loop line filter limit fuel first emitted (next r).1
    | true ↦
        let count = (emitted + 1) % 2 ^ 64 in
        print (line first event) (elim (reached limit count) [
          | true ↦ ([], finished)
          | false ↦ print_loop line filter limit fuel false count (next r).1
        ])
  ]
]

-- `BinaryLogReader reader(opts.input)`
abbrev pub reading : Ifstream → (Reader → Printed) → Printed
reading input body = elim (Reader.construct input).0 [
  | err e ↦ ([], thrown e)
  | ok done ↦ body (Reader.construct input).1
]

-- The largest `std::size_t`, the default of `bytes_to_hex`.
abbrev pub all_bytes : ℕ
all_bytes = 2 ^ 64 - 1

unfoldable pub dump_line : Event → Text
dump_line event =
    codes "seq="
    ++ decimal event.sequence
    ++ (codes " ts_ns=" ++ decimal event.timestamp_ns)
    ++ (codes " utc=" ++ format_unix_ns_utc event.timestamp_ns)
    ++ (codes " producer=" ++ decimal event.producer_id)
    ++ (codes " type=" ++ decimal event.type)
    ++ (codes " severity=" ++ severity_to_string event.severity)
    ++ (codes " payload_size=" ++ decimal (length event.payload))
    ++ (codes " payload_hex=" ++ bytes_to_hex event.payload 32)
    ++ codes "\n"

abbrev pub csv_header : Text
csv_header =
    codes "sequence,timestamp_ns,timestamp_utc,producer_id,type,severity,payload_size,payload_hex\n"

-- The columns of a row behind its first.
unfoldable pub csv_row : Event → Text
csv_row event =
    decimal event.sequence
    ++ (codes ","
        ++ (decimal event.timestamp_ns
            ++ (codes ","
                ++ (format_unix_ns_utc event.timestamp_ns
                    ++ (codes ","
                        ++ (decimal event.producer_id
                            ++ (codes ","
                                ++ (decimal event.type
                                    ++ (codes ","
                                        ++ (severity_to_string event.severity
                                            ++ (codes ","
                                                ++ (decimal (length event.payload)
                                                    ++ (codes ","
                                                        ++ (bytes_to_hex event.payload all_bytes
                                                            ++ codes "\n"))))))))))))))

unfoldable pub json_object : Event → Text
json_object event =
    codes "  {\"sequence\":"
    ++ decimal event.sequence
    ++ (codes ",\"timestamp_ns\":" ++ decimal event.timestamp_ns)
    ++ (codes ",\"timestamp_utc\":\"" ++ format_unix_ns_utc event.timestamp_ns ++ codes "\"")
    ++ (codes ",\"producer_id\":" ++ decimal event.producer_id)
    ++ (codes ",\"type\":" ++ decimal event.type)
    ++ (codes ",\"severity\":\"" ++ severity_to_string event.severity ++ codes "\"")
    ++ (codes ",\"payload_size\":" ++ decimal (length event.payload))
    ++ (codes ",\"payload_hex\":\"" ++ bytes_to_hex event.payload all_bytes ++ codes "\"}")

-- What the loop of `write_json` prints for an event: a comma ends the object before it.
unfoldable pub json_item : Bool → Event → Text
json_item first event = (if first then [] else codes ",\n") ++ json_object event

-- The loop reads at most as many events as there are bytes.
abbrev pub print_events : (Bool → Event → Text) → CommonOptions → Reader → Printed
print_events line opts r =
    print_loop line opts.filter opts.limit (suc (length r.input.rest)) true 0 r

unfoldable pub dump : CommonOptions → Ifstream → Printed
dump opts input = reading input (print_events (λ first. dump_line) opts)

unfoldable pub write_csv : CommonOptions → Ifstream → Printed
write_csv opts input =
    reading input (λ r. print csv_header (print_events (λ first. csv_row) opts r))

-- The closing bracket is printed when no exception has ended the loop.
unfoldable pub close_array : Printed → Printed
close_array (text, finished) = (text ++ codes "\n]\n", finished)
close_array (text, unfinished) = (text, unfinished)
close_array (text, thrown e) = (text, thrown e)

unfoldable pub write_json : CommonOptions → Ifstream → Printed
write_json opts input =
    reading input (λ r. print (codes "[\n") (close_array (print_events json_item opts r)))
