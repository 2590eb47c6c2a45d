-- ===== src/BinaryLog/Examples.antt =====
-- Concrete files, runs and readers for src/core/binary_log.cpp.
use cpp_high_performance_bin.Base.{
  ℕ, ap, ◌<◌, leb, ◌||◌, if◌then◌else◌, ◌≢◌, ◌≡◌, refl, arith, List, [], ◌∷◌, ◌++◌, length, set,
  take, drop, get_or, All, All-append,
}
use cpp_high_performance_bin.Crc32.{IsByte, IsBytes, crc32}
use cpp_high_performance_bin.Errors.{
  Error, io_error, file_format_error, truncated_record_header, append_closed, payload_too_large, ok,
  err,
}
use cpp_high_performance_bin.Event.{IsEvent}
use cpp_high_performance_bin.BinaryLog.{k_max_payload_bytes}
use cpp_high_performance_bin.BinaryLog.Stream.{open_input}
use cpp_high_performance_bin.BinaryLog.Format.{
  record_header, record_header_with, record_bytes, records, file_header, IsStorable,
}
use cpp_high_performance_bin.BinaryLog.Writer
use cpp_high_performance_bin.BinaryLog.Writer.{Writer}
use cpp_high_performance_bin.BinaryLog.Writer.Branches.{with_record, written_out, append_lem}
use cpp_high_performance_bin.BinaryLog.Writer.Log.{run, accepted}
use cpp_high_performance_bin.BinaryLog.Writer.Examples.{
  opened, eager, ping, calls, start, start_made, ending, ending_made, accepted_twice, header_stored,
}
use cpp_high_performance_bin.BinaryLog.Reader
use cpp_high_performance_bin.BinaryLog.Reader.{Reader, next, note_timestamp}
use cpp_high_performance_bin.BinaryLog.Reader.Next.{rest_at, ended, next_short, next-record_bytes}
use cpp_high_performance_bin.BinaryLog.Reader.Decode.{record_header_with-IsBytes}
use cpp_high_performance_bin.BinaryLog.Reader.Sound.{IsRecordOf, next-IsStorable}
use cpp_high_performance_bin.BinaryLog.Reader.Open.{opened_at}
use cpp_high_performance_bin.BinaryLog.Reader.Replay.{replay, finished, unfinished}
use cpp_high_performance_bin.BinaryLog.Reader.Ends.{replay-ends}
use cpp_high_performance_bin.BinaryLog.Reader.Cut.{Delivers, replay-cut}
use cpp_high_performance_bin.BinaryLog.RoundTrip.{IsTyped, replay-close, replay-run}
use cpp_high_performance_bin.BinaryLog.Tamper.{next-changed_byte}
use cpp_high_performance_bin.BinaryLog.Tamper.Opening.{construct-changed_byte}

ping-IsEvent : IsEvent ping
ping-IsEvent = record {
  timestamp_u64 = omega arith;
  sequence_u64 = omega arith;
  producer_u32 = omega arith;
  type_u16 = omega arith;
  payload_bytes = (omega arith, (omega arith, tt));
}

ping-IsStorable : IsStorable ping
ping-IsStorable = record { typed = ping-IsEvent; fits = omega arith }

calls-IsTyped : All IsTyped calls
calls-IsTyped = (ping-IsEvent, (tt, (ping-IsEvent, tt)))

few_accepted : length (accepted calls start) < 3
few_accepted = omega (arith, ap length accepted_twice)

append_lem_example : Writer.append ping start ≡ (
    if start.closed
    then (err (io_error append_closed), start)
    else if leb (length ping.payload) k_max_payload_bytes
    then if start.options.flush_on_each_event
        || leb start.options.flush_threshold_bytes (length (start.buffer ++ record_bytes ping))
      then written_out (with_record ping start)
      else (ok tt, with_record ping start)
    else (err (file_format_error (payload_too_large (length ping.payload))), start))
append_lem_example = append_lem ping start

replay-close_example :
    (r : Reader) × (Reader.construct (open_input ending.out.content) ≡ (ok tt, r))
    × (r.info.created_unix_ns ≡ 5)
    × (replay 3 r ≡ (accepted calls start, finished))
replay-close_example =
    replay-close opened eager 5 start refl start_made (omega arith) calls calls-IsTyped 3
      ending_made few_accepted

replay-run_example :
    (r : Reader) × (Reader.construct (open_input (run calls start).out.content) ≡ (ok tt, r))
    × Delivers (accepted calls start) (replay 3 r)
replay-run_example =
    replay-run opened eager 5 start refl start_made (omega arith) calls calls-IsTyped 3
      header_stored few_accepted

-- A reader before the given bytes.
abbrev before : List ℕ → Reader
before bytes = opened_at (open_input []) 5 bytes

ping_rest-IsBytes : IsBytes (record_bytes ping ++ 9 ∷ [])
unfolding record_bytes record_header
ping_rest-IsBytes =
    All-append IsByte (record_bytes ping) (9 ∷ [])
      (All-append IsByte (record_header ping) ping.payload
        (record_header_with-IsBytes ping (crc32 (record_header_with ping 0)))
        ping-IsEvent.payload_bytes)
      (omega arith, tt)

next-IsStorable_example : IsStorable ping × IsRecordOf ping (record_bytes ping ++ 9 ∷ []) (9 ∷ [])
unfolding note_timestamp
next-IsStorable_example =
    next-IsStorable (before (record_bytes ping ++ 9 ∷ []))
      (note_timestamp 1000 (rest_at (before (record_bytes ping ++ 9 ∷ [])) (9 ∷ []))) ping
      ping_rest-IsBytes
      (next-record_bytes ping (9 ∷ []) (before (record_bytes ping ++ 9 ∷ [])) ping-IsStorable refl
        refl)

replay-ends_example : (replay 3 (before (1 ∷ 2 ∷ []))).1 ≢ unfinished
replay-ends_example =
    replay-ends 3 (before (1 ∷ 2 ∷ [])) (omega arith, (omega arith, tt)) (omega arith)

next_short_example :
    next (before (1 ∷ 2 ∷ []))
    ≡ (err (file_format_error truncated_record_header), ended (before (1 ∷ 2 ∷ [])))
next_short_example = next_short (before (1 ∷ 2 ∷ [])) refl (omega arith) (omega arith)

-- The file breaks off in the first byte of a record.
cut_rest : (take 1 (records (ping ∷ []))) ++ drop 1 (records (ping ∷ [])) ≡ records (ping ∷ [])
unfolding records record_bytes record_header
cut_rest = refl

replay-cut_example : Delivers (ping ∷ []) (replay 2 (before (take 1 (records (ping ∷ [])))))
replay-cut_example =
    replay-cut (ping ∷ []) 2 (before (take 1 (records (ping ∷ [])))) (drop 1 (records (ping ∷ [])))
      (ping-IsStorable, tt) (omega arith) refl refl cut_rest

long_enough : 8 < length (record_bytes ping)
unfolding record_bytes record_header
long_enough = omega arith

other_timestamp : 1 ≢ get_or (record_bytes ping) 8 0
unfolding record_bytes record_header
other_timestamp = omega arith

next-changed_byte_example :
    (x : Error) × (r : Reader) × (next (before (set (record_bytes ping) 8 1 ++ [])) ≡ (err x, r))
next-changed_byte_example =
    next-changed_byte ping 8 1 [] (before (set (record_bytes ping) 8 1 ++ [])) ping-IsStorable
      long_enough (omega arith) other_timestamp refl refl

header_long_enough : 16 < length (file_header 5)
unfolding file_header
header_long_enough = omega arith

other_time : 6 ≢ get_or (file_header 5) 16 0
unfolding file_header
other_time = omega arith

construct-changed_byte_example :
    (x : Error) × (r : Reader) × (Reader.construct (open_input (set (file_header 5) 16 6 ++ []))
      ≡ (err x, r))
construct-changed_byte_example =
    construct-changed_byte 5 16 6 [] (open_input (set (file_header 5) 16 6 ++ []))
      header_long_enough (omega arith) other_time refl refl
