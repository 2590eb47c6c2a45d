-- ===== src/BinaryLog/Writer.antt =====
-- src/core/binary_log.cpp, `BinaryLogWriter`, and its options and statistics.
-- The path of the file is left out: it only stands in the messages. `reserve` changes no value.
-- The clock and the stream that the constructor opens are arguments.
pub mod Encode
pub mod Append
pub mod Invariant
pub mod Steps
pub mod Log
pub mod Branches
pub mod Examples
use cpp_high_performance_bin.Base.{
  ℕ, ◌+◌, ◌-◌, ◌%◌, ◌^◌, Bool, true, false, not, ◌||◌, leb, ◌==◌, if◌then◌else◌, List, [], ◌∷◌,
  ◌++◌, length, is_empty, take,
}
use cpp_high_performance_bin.Crc32.{crc32}
use cpp_high_performance_bin.Errors.{
  io_error, file_format_error, open_output, failed_write, failed_flush, failed_close, append_closed,
  payload_too_large, payload_not_representable, internal_file_header_size,
  internal_record_header_size, Result, ok, Io, ◌>>=◌, ◌>>◌, pure, lift, get, modify, require,
  ensure,
}
use cpp_high_performance_bin.Event.{Event, severity_to_u16}
use cpp_high_performance_bin.BinaryLog.{
  k_file_magic, k_file_header_size, k_record_header_size, k_endian_marker, k_record_magic,
  k_record_header_crc_offset, k_file_header_crc_offset, k_file_format_version, k_max_payload_bytes,
}
use cpp_high_performance_bin.BinaryLog.Words.{append_u16, append_u32, append_u64, write_u32_at}
use cpp_high_performance_bin.BinaryLog.Stream
use cpp_high_performance_bin.BinaryLog.Stream.{Ofstream}

pub record WriterOptions : Type 0 where
  pub flush_threshold_bytes : ℕ
  pub flush_on_each_event : Bool

pub record WriterStats : Type 0 where
  pub events_written : ℕ
  pub bytes_written : ℕ

pub record Writer : Type 0 where
  pub options : WriterOptions
  pub out : Ofstream
  pub buffer : List ℕ
  pub stats : WriterStats
  pub closed : Bool

-- A file header before its checksum is filled in.
unfoldable pub draft_file_header : ℕ → List ℕ
draft_file_header now_unix_ns =
    let h0 = k_file_magic in
    let h1 = append_u16 h0 k_file_format_version in
    let h2 = append_u16 h1 k_file_header_size in
    let h3 = append_u16 h2 k_endian_marker in
    let h4 = append_u16 h3 0 in
    let h5 = append_u64 h4 now_unix_ns in let h6 = append_u64 h5 0 in append_u32 h6 0

-- A record header before its own checksum is filled in.
unfoldable pub draft_record_header : Event → List ℕ
draft_record_header event =
    let payload_crc = crc32 event.payload in
    let h0 = append_u32 [] k_record_magic in
    let h1 = append_u16 h0 k_record_header_size in
    let h2 = append_u16 h1 k_file_format_version in
    let h3 = append_u64 h2 event.timestamp_ns in
    let h4 = append_u64 h3 event.sequence in
    let h5 = append_u32 h4 event.producer_id in
    let h6 = append_u16 h5 event.type in
    let h7 = append_u16 h6 (severity_to_u16 event.severity) in
    let h8 = append_u32 h7 (length event.payload % 2 ^ 32) in
    let h9 = append_u32 h8 0 in let h10 = append_u32 h9 payload_crc in append_u32 h10 0

-- `write_all(out_, data, path_)`
unfoldable pub write_all : List ℕ → Io Writer (Unit {0})
write_all [] w = (ok tt, w)
write_all (byte ∷ rest) w =
    let out' = Stream.write w.out (byte ∷ rest) in
    (ensure (not out'.fail) (io_error failed_write), record w { out = out' })

unfoldable pub write_file_header : ℕ → Io Writer (Unit {0})
write_file_header now_unix_ns = do
  let draft = draft_file_header now_unix_ns
  require (length draft == k_file_header_size) (file_format_error internal_file_header_size)
  let checksum = crc32 (take k_file_header_crc_offset draft)
  header ← lift (write_u32_at draft k_file_header_crc_offset checksum)
  write_all header
  modify (λ w. record w {
    stats = record (w.stats) { bytes_written = (w.stats.bytes_written + length header) % 2 ^ 64 };
  })

-- The options with the default threshold in place of zero.
effective : WriterOptions → WriterOptions
effective options =
    if options.flush_threshold_bytes == 0
    then record options { flush_threshold_bytes = 2 ^ 20 }
    else options

-- The constructor, on the stream that was opened and at a time.
unfoldable pub construct : Ofstream → WriterOptions → ℕ → Result (Unit {0}) × Writer
unfolding effective
construct out options now_unix_ns =
    (do
      require (not out.fail) (io_error open_output)
      modify (λ w. record w { options = effective w.options })
      write_file_header now_unix_ns)
      (record {
        options = options;
        out = out;
        buffer = [];
        stats = record { events_written = 0; bytes_written = 0 };
        closed = false;
      })

unfoldable pub write_buffer_if_needed : Bool → Io Writer (Unit {0})
write_buffer_if_needed force = do
  w ← get
  if not force || is_empty w.buffer
      then pure tt
      else do write_all w.buffer; modify (λ w'. record w' { buffer = [] })

-- The event goes into the buffer, and into the statistics.
unfoldable pub buffer_record : Event → List ℕ → Writer → Writer
buffer_record event header w = record w {
  buffer = (w.buffer ++ header) ++ event.payload;
  stats = record {
    events_written = (w.stats.events_written + 1) % 2 ^ 64;
    bytes_written = (w.stats.bytes_written + (length header + length event.payload)) % 2 ^ 64;
  };
}

unfoldable pub append : Event → Io Writer (Unit {0})
append event = do
  w ← get
  require (not w.closed) (io_error append_closed)
  require (leb (length event.payload) k_max_payload_bytes)
      (file_format_error (payload_too_large (length event.payload)))
  require (leb (length event.payload) (2 ^ 32 - 1)) (file_format_error payload_not_representable)
  let draft = draft_record_header event
  require (length draft == k_record_header_size) (file_format_error internal_record_header_size)
  let header_crc = crc32 draft
  header ← lift (write_u32_at draft k_record_header_crc_offset header_crc)
  modify (buffer_record event header)
  w' ← get
  write_buffer_if_needed
      (w'.options.flush_on_each_event || leb w'.options.flush_threshold_bytes (length w'.buffer))

-- `out_.flush(); if (!out_) throw ...`
unfoldable pub flush_stream : Io Writer (Unit {0})
flush_stream = do
  modify (λ w. record w { out = Stream.flush w.out })
  w ← get
  require (not w.out.fail) (io_error failed_flush)

unfoldable pub flush : Io Writer (Unit {0})
unfolding flush_stream
flush = do w ← get; if w.closed then pure tt else do write_buffer_if_needed true; flush_stream

-- `out_.close(); if (!out_) throw ...; closed_ = true;`
unfoldable pub close_stream : Io Writer (Unit {0})
close_stream = do
  modify (λ w. record w { out = Stream.close w.out })
  w ← get
  require (not w.out.fail) (io_error failed_close)
  modify (λ w'. record w' { closed = true })

unfoldable pub close : Io Writer (Unit {0})
unfolding close_stream
close = do w ← get; if w.closed then pure tt else do flush; close_stream

-- The destructor swallows what `close` throws.
pub destroy : Writer → Writer
destroy w = (close w).1
