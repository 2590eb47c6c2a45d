-- ===== src/BinaryLog/Reader.antt =====
-- src/core/binary_log.cpp, `BinaryLogReader`, and `FileInfo` of include/hpblr/binary_log.hpp.
-- The path is left out, as for the writer; the stream that the constructor opens is an argument.
pub mod Decode
pub mod Next
pub mod Open
pub mod Replay
pub mod Cut
pub mod Inversion
pub mod Sound
pub mod Ends
use cpp_high_performance_bin.Base.{
  ℕ, zero, suc, ◌+◌, ◌-◌, Bool, true, false, not, ◌&&◌, leb, ltb, ◌==◌, if◌then◌else◌, List, [],
  ◌∷◌, ◌++◌, length, take, drop, set, replicate, Option, none, some,
}
use cpp_high_performance_bin.Crc32.{crc32}
use cpp_high_performance_bin.Errors.{
  io_error, file_format_error, crc_error, open_input, short_file_header, invalid_file_magic,
  unsupported_endian_marker, file_header_crc, unsupported_file_version, unsupported_header_size,
  truncated_record_header, invalid_record_magic, unsupported_record_header_size,
  unsupported_record_version, record_payload_too_large, record_header_crc, truncated_payload,
  payload_crc, invalid_severity, Result, ok, Io, ◌>>=◌, ◌>>◌, pure, raise, get, modify, require,
}
use cpp_high_performance_bin.Event.{Event, Severity, severity_from_u16}
use cpp_high_performance_bin.BinaryLog.{
  k_file_magic, k_file_header_size, k_record_header_size, k_endian_marker, k_record_magic,
  k_record_header_crc_offset, k_file_header_crc_offset, k_file_format_version, k_max_payload_bytes,
}
use cpp_high_performance_bin.BinaryLog.Words.{read_u16, read_u32, read_u64}
use cpp_high_performance_bin.BinaryLog.Stream.{Ifstream, read}

pub record FileInfo : Type 0 where
  pub version : ℕ
  pub created_unix_ns : ℕ
  pub first_timestamp_ns : ℕ
  pub last_timestamp_ns : ℕ

pub record Reader : Type 0 where
  pub input : Ifstream
  pub info : FileInfo

-- `in_.read` into a buffer of `n` zeros, and `in_.gcount()`.
unfoldable pub read_into : ℕ → Io Reader (List ℕ × ℕ)
read_into n r =
    let (got, input') = read r.input n in
    (ok (got ++ replicate (n - length got) 0, length got), record r { input = input' })

-- `std::equal(magic.begin(), magic.end(), bytes.begin())`
unfoldable pub equal_prefix : List ℕ → List ℕ → Bool
equal_prefix [] bytes = true
equal_prefix (m ∷ ms) [] = false
equal_prefix (m ∷ ms) (b ∷ bs) = m == b && equal_prefix ms bs

-- The tests that `read_file_header` makes on a full header, and what it stores.
unfoldable pub check_file_header : List ℕ → Io Reader (Unit {0})
unfolding equal_prefix
check_file_header header = do
  require (equal_prefix k_file_magic header) (file_format_error invalid_file_magic)
  let version = read_u16 (drop 8 header)
  let header_size = read_u16 (drop 10 header)
  let endian_marker = read_u16 (drop 12 header)
  let created_ns = read_u64 (drop 16 header)
  let stored_crc = read_u32 (drop k_file_header_crc_offset header)
  let computed_crc = crc32 (take k_file_header_crc_offset header)
  require (version == k_file_format_version) (file_format_error (unsupported_file_version version))
  require (header_size == k_file_header_size)
      (file_format_error (unsupported_header_size header_size))
  require (endian_marker == k_endian_marker) (file_format_error unsupported_endian_marker)
  require (stored_crc == computed_crc) (crc_error file_header_crc)
  modify
      (λ r. record r { info = record (r.info) { version = version; created_unix_ns = created_ns } })

unfoldable pub read_file_header : Io Reader (Unit {0})
read_file_header = do
  (header, count) ← read_into k_file_header_size
  require (count == k_file_header_size) (file_format_error short_file_header)
  check_file_header header

-- The constructor, on the stream that was opened.
unfoldable pub construct : Ifstream → Result (Unit {0}) × Reader
construct input =
    (do require (not input.fail) (io_error open_input); read_file_header)
      (record {
        input = input;
        info = record {
          version = 0;
          created_unix_ns = 0;
          first_timestamp_ns = 0;
          last_timestamp_ns = 0;
        };
      })

-- The fields of a record header, as `next` reads them.
pub record RecordHeader : Type 0 where
  pub magic : ℕ
  pub header_size : ℕ
  pub version : ℕ
  pub timestamp_ns : ℕ
  pub sequence : ℕ
  pub producer_id : ℕ
  pub event_type : ℕ
  pub severity_raw : ℕ
  pub payload_size : ℕ
  pub stored_header_crc : ℕ
  pub stored_payload_crc : ℕ

unfoldable pub decode_record_header : List ℕ → RecordHeader
decode_record_header header = record {
  magic = read_u32 header;
  header_size = read_u16 (drop 4 header);
  version = read_u16 (drop 6 header);
  timestamp_ns = read_u64 (drop 8 header);
  sequence = read_u64 (drop 16 header);
  producer_id = read_u32 (drop 24 header);
  event_type = read_u16 (drop 28 header);
  severity_raw = read_u16 (drop 30 header);
  payload_size = read_u32 (drop 32 header);
  stored_header_crc = read_u32 (drop 36 header);
  stored_payload_crc = read_u32 (drop 40 header);
}

-- `header_for_crc`: the four bytes of the checksum are set to zero.
zero_loop : ℕ → ℕ → List ℕ → List ℕ
zero_loop zero i header = header
zero_loop (suc left) i header =
    zero_loop left (i + 1) (set header (k_record_header_crc_offset + i) 0)

unfoldable pub zero_crc_field : List ℕ → List ℕ
unfolding zero_loop
zero_crc_field header = zero_loop 4 0 header

unfoldable pub check_record_header : List ℕ → RecordHeader → Io Reader (Unit {0})
check_record_header header h = do
  require (h.magic == k_record_magic) (file_format_error (invalid_record_magic h.sequence))
  require (h.header_size == k_record_header_size)
      (file_format_error (unsupported_record_header_size h.header_size))
  require (h.version == k_file_format_version)
      (file_format_error (unsupported_record_version h.version))
  require (leb h.payload_size k_max_payload_bytes)
      (file_format_error (record_payload_too_large h.payload_size))
  let computed_header_crc = crc32 (zero_crc_field header)
  require (h.stored_header_crc == computed_header_crc) (crc_error (record_header_crc h.sequence))

unfoldable pub read_payload : RecordHeader → Io Reader (List ℕ)
read_payload h =
    if ltb 0 h.payload_size
    then (do
      (payload, count) ← read_into h.payload_size
      require (count == h.payload_size) (file_format_error (truncated_payload h.sequence))
      pure payload)
    else pure []

-- The timestamps of the file seen so far.
unfoldable pub note_timestamp : ℕ → Reader → Reader
note_timestamp timestamp_ns r = record r {
  info = record (r.info) {
    first_timestamp_ns =
        if r.info.first_timestamp_ns == 0 then timestamp_ns else r.info.first_timestamp_ns;
    last_timestamp_ns = timestamp_ns;
  };
}

unfoldable pub finish_event : RecordHeader → List ℕ → Option Severity → Io Reader (Option Event)
finish_event h payload none = raise (file_format_error (invalid_severity h.severity_raw))
finish_event h payload (some severity) = do
  modify (note_timestamp h.timestamp_ns)
  pure (
      some (record {
        timestamp_ns = h.timestamp_ns;
        sequence = h.sequence;
        producer_id = h.producer_id;
        type = h.event_type;
        severity = severity;
        payload = payload;
      }))

-- `next` once the header has arrived whole.
unfoldable pub next_after_header : List ℕ → Io Reader (Option Event)
next_after_header header = do
  let h = decode_record_header header
  check_record_header header h
  payload ← read_payload h
  let computed_payload_crc = crc32 payload
  require (h.stored_payload_crc == computed_payload_crc) (crc_error (payload_crc h.sequence))
  finish_event h payload (severity_from_u16 h.severity_raw)

unfoldable pub next : Io Reader (Option Event)
next = do
  (header, count) ← read_into k_record_header_size
  r ← get
  if count == 0 && r.input.eof then pure none else do
    require (count == k_record_header_size) (file_format_error truncated_record_header)
    next_after_header header
