-- ===== src/BinaryLog/Writer/Examples.antt =====
-- Runs of the writer of src/core/binary_log.cpp on concrete events.
use cpp_high_performance_bin.Base.{
  ℕ, ◌%◌, ◌^◌, true, false, ◌≡◌, ◌≤◌, arith, refl, List, [], ◌∷◌, ◌++◌, length,
}
use cpp_high_performance_bin.Errors.{ok}
use cpp_high_performance_bin.Event.{Event, Severity}
use cpp_high_performance_bin.BinaryLog.Words.{append_u16, append_u32, append_u64, write_u32_at}
use cpp_high_performance_bin.BinaryLog.Stream
use cpp_high_performance_bin.BinaryLog.Stream.{Ofstream, done, failed}
use cpp_high_performance_bin.BinaryLog.Format.{file_bytes, file_header}
use cpp_high_performance_bin.BinaryLog.Writer.{
  WriterOptions, Writer, construct, append, flush, close, write_file_header, write_all,
  write_buffer_if_needed, draft_file_header, draft_record_header, buffer_record,
}
use cpp_high_performance_bin.BinaryLog.Writer.Log.{
  Call, appends, flushes, run, perform, accepted, accepted_by, run-file_prefix, flush-file_complete,
  run-stats,
}

abbrev pub opened : Ofstream
opened = record { content = []; pending = []; fail = false; outcomes = [] }

abbrev pub eager : WriterOptions
eager = record { flush_threshold_bytes = 0; flush_on_each_event = true }

abbrev pub ping : Event
ping = record {
  timestamp_ns = 1000;
  sequence = 7;
  producer_id = 2;
  type = 101;
  severity = Severity.info;
  payload = 0x61 ∷ 0x62 ∷ [];
}

unfoldable pub start : Writer
start = (construct opened eager 5).1

pub start_made : construct opened eager 5 ≡ (ok tt, start)
unfolding start construct write_file_header write_all append_u16 append_u32 append_u64 write_u32_at
    draft_file_header Stream.write
start_made = refl

abbrev pub calls : List Call
calls = appends ping ∷ flushes ∷ appends ping ∷ []

run-file_prefix_example :
    (missing : List ℕ) × ((run calls start).out.content ++ missing
      ≡ file_bytes 5 (accepted calls start))
run-file_prefix_example = run-file_prefix opened eager 5 start refl start_made calls

pub ending : Writer
ending = (close (run calls start)).1

pub ending_made : close (run calls start) ≡ (ok tt, ending)
unfolding ending start run perform construct write_file_header write_all append_u16 append_u32
    append_u64 write_u32_at draft_file_header Stream.write Stream.flush Stream.close append flush
    close draft_record_header buffer_record write_buffer_if_needed
ending_made = refl

run-stats_example :
    ((run calls start).stats.events_written ≡ length (accepted calls start) % 2 ^ 64)
    × ((run calls start).stats.bytes_written
        ≡ length (file_bytes 5 (accepted calls start)) % 2 ^ 64)
run-stats_example = run-stats opened eager 5 start refl start_made calls

pub accepted_twice : accepted calls start ≡ ping ∷ ping ∷ []
unfolding start accepted accepted_by run perform construct write_file_header write_all append_u16
    append_u32 append_u64 write_u32_at draft_file_header Stream.write Stream.flush append flush
    draft_record_header buffer_record write_buffer_if_needed
accepted_twice = refl

-- The file after the two events and a flush.
pub flushed : Writer
flushed = (flush (run calls start)).1

flushed_made : flush (run calls start) ≡ (ok tt, flushed)
unfolding flushed start run perform construct write_file_header write_all append_u16 append_u32
    append_u64 write_u32_at draft_file_header Stream.write Stream.flush append flush
    draft_record_header buffer_record write_buffer_if_needed
flushed_made = refl

flush-file_complete_example : flushed.out.content ≡ file_bytes 5 (accepted calls start)
flush-file_complete_example =
    flush-file_complete opened eager 5 start refl start_made calls flushed_made

-- A stream that keeps a header back: the file is empty, and a flush that fails leaves it so.
header_kept :
    ((Stream.write opened (file_header 5)).content ≡ [])
    × ((Stream.flush
          (record (Stream.write opened (file_header 5)) { outcomes = failed 0 ∷ [] })).content
        ≡ [])
unfolding Stream.write Stream.flush
header_kept = (refl, refl)

pub header_stored : 36 ≤ length (run calls start).out.content
unfolding start run perform construct write_file_header write_all append_u16 append_u32 append_u64
    write_u32_at draft_file_header Stream.write Stream.flush append flush draft_record_header
    buffer_record write_buffer_if_needed
header_stored = omega arith
