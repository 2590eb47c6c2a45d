-- ===== src/BinaryLog/Reader/Decode.antt =====
-- `BinaryLogReader` of src/core/binary_log.cpp reads the fields that the format lays down.
use cpp_high_performance_bin.Base.{ℕ, ◌^◌, ◌<◌, ◌≡◌, refl, arith, List, length, drop}
use cpp_high_performance_bin.Crc32.{IsBytes, IsU32, crc32}
use cpp_high_performance_bin.Crc32.Reference.{crc32-IsU32}
use cpp_high_performance_bin.Event.{Event, Severity, severity_to_u16}
use cpp_high_performance_bin.BinaryLog.{k_record_magic, k_record_header_size, k_file_format_version}
use cpp_high_performance_bin.BinaryLog.Words.Laws.{
  read_u16-u16_bytes, read_u32-u32_bytes, read_u64-u64_bytes,
}
use cpp_high_performance_bin.BinaryLog.Format.{record_header_with, file_fields, IsStorable}
use cpp_high_performance_bin.BinaryLog.Reader.{RecordHeader, decode_record_header, zero_crc_field}

-- The fields of an event's record around a header checksum.
abbrev pub header_of : Event → ℕ → RecordHeader
header_of e checksum = record {
  magic = k_record_magic;
  header_size = k_record_header_size;
  version = k_file_format_version;
  timestamp_ns = e.timestamp_ns;
  sequence = e.sequence;
  producer_id = e.producer_id;
  event_type = e.type;
  severity_raw = severity_to_u16 e.severity;
  payload_size = length e.payload;
  stored_header_crc = checksum;
  stored_payload_crc = crc32 e.payload;
}

severity-lt : (s : Severity) → severity_to_u16 s < 2 ^ 16
severity-lt Severity.trace = omega arith
severity-lt s = omega arith

pub decode-record_header_with :
    (e : Event) (checksum : ℕ)
    → IsStorable e
    → IsU32 checksum
    → decode_record_header (record_header_with e checksum) ≡ header_of e checksum
unfolding decode_record_header
decode-record_header_with e checksum st hc = λ i. record {
  magic = read_u32-u32_bytes k_record_magic (from 4) (omega arith) i;
  header_size = read_u16-u16_bytes k_record_header_size (from 6) (omega arith) i;
  version = read_u16-u16_bytes k_file_format_version (from 8) (omega arith) i;
  timestamp_ns = read_u64-u64_bytes e.timestamp_ns (from 16) st.typed.timestamp_u64 i;
  sequence = read_u64-u64_bytes e.sequence (from 24) st.typed.sequence_u64 i;
  producer_id = read_u32-u32_bytes e.producer_id (from 28) st.typed.producer_u32 i;
  event_type = read_u16-u16_bytes e.type (from 30) st.typed.type_u16 i;
  severity_raw =
      read_u16-u16_bytes (severity_to_u16 e.severity) (from 32) (severity-lt e.severity) i;
  payload_size = read_u32-u32_bytes (length e.payload) (from 36) (omega (arith, st.fits)) i;
  stored_header_crc = read_u32-u32_bytes checksum (from 40) hc i;
  stored_payload_crc =
      read_u32-u32_bytes (crc32 e.payload) (from 44) (crc32-IsU32 e.payload st.typed.payload_bytes)
        i;
}
  where
    from : ℕ → List ℕ
    from k = drop k (record_header_with e checksum)

pub record_header_with-IsBytes :
    (e : Event) (checksum : ℕ) → IsBytes (record_header_with e checksum)
record_header_with-IsBytes e checksum = omega arith

pub file_fields-IsBytes : (created : ℕ) → IsBytes (file_fields created)
file_fields-IsBytes created = omega arith

-- The checksum field of any record header counts as zero in its own checksum.
pub zero_crc_field-record_header_with :
    (e : Event) (checksum : ℕ)
    → zero_crc_field (record_header_with e checksum) ≡ record_header_with e 0
unfolding zero_crc_field
zero_crc_field-record_header_with e checksum = refl
