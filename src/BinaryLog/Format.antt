-- ===== src/BinaryLog/Format.antt =====
-- The layout of docs/BINARY_FORMAT.md: the bytes that stand for a file header and for a record.
-- This is the description that `BinaryLogWriter` and `BinaryLogReader` of src/core/binary_log.cpp
-- are held to.
use cpp_high_performance_bin.Base.{
  ℕ, ◌≤◌, ◌≡◌, refl, sym, ap, ◌∙◌, List, [], ◌∷◌, ◌++◌, length, append-nil, append_assoc,
}
use cpp_high_performance_bin.Crc32.{crc32}
use cpp_high_performance_bin.Event.{Event, IsEvent, severity_to_u16}
use cpp_high_performance_bin.BinaryLog.{
  k_file_magic, k_file_header_size, k_record_header_size, k_endian_marker, k_record_magic,
  k_file_format_version, k_max_payload_bytes,
}
use cpp_high_performance_bin.BinaryLog.Words.Laws.{u16_bytes, u32_bytes, u64_bytes}

-- Bytes 0 to 32 of the file header.
abbrev pub file_fields : ℕ → List ℕ
file_fields created_unix_ns =
    k_file_magic
    ++ (u16_bytes k_file_format_version
        ++ (u16_bytes k_file_header_size
            ++ (u16_bytes k_endian_marker
                ++ (u16_bytes 0 ++ (u64_bytes created_unix_ns ++ u64_bytes 0)))))

-- The file header around a checksum.
abbrev pub file_header_with : ℕ → ℕ → List ℕ
file_header_with created_unix_ns checksum = file_fields created_unix_ns ++ u32_bytes checksum

unfoldable pub file_header : ℕ → List ℕ
file_header created_unix_ns = file_header_with created_unix_ns (crc32 (file_fields created_unix_ns))

-- Bytes 0 to 36 of a record header: what precedes its checksum.
abbrev pub record_fields : Event → List ℕ
record_fields e =
    u32_bytes k_record_magic
    ++ (u16_bytes k_record_header_size
        ++ (u16_bytes k_file_format_version
            ++ (u64_bytes e.timestamp_ns
                ++ (u64_bytes e.sequence
                    ++ (u32_bytes e.producer_id
                        ++ (u16_bytes e.type
                            ++ (u16_bytes (severity_to_u16 e.severity)
                                ++ u32_bytes (length e.payload))))))))

-- A record header around its checksum.
abbrev pub record_header_with : Event → ℕ → List ℕ
record_header_with e checksum =
    record_fields e ++ (u32_bytes checksum ++ (u32_bytes (crc32 e.payload) ++ u32_bytes 0))

-- The checksum of a record header is taken with its own field zero.
unfoldable pub record_header : Event → List ℕ
record_header e = record_header_with e (crc32 (record_header_with e 0))

unfoldable pub record_bytes : Event → List ℕ
record_bytes e = record_header e ++ e.payload

unfoldable pub records : List Event → List ℕ
records [] = []
records (e ∷ es) = record_bytes e ++ records es

unfoldable pub file_bytes : ℕ → List Event → List ℕ
file_bytes created_unix_ns es = file_header created_unix_ns ++ records es

pub records-append : (es fs : List Event) → records (es ++ fs) ≡ records es ++ records fs
unfolding records
records-append [] fs = refl
records-append (e ∷ es) fs =
    ap (◌++◌ (record_bytes e)) (records-append es fs) ∙ sym (append_assoc (record_bytes e) _ _)

-- One more record at the end of the file.
pub file_bytes-snoc :
    (now : ℕ) (es : List Event) (e : Event)
    → file_bytes now (es ++ e ∷ []) ≡ file_bytes now es ++ record_bytes e
unfolding file_bytes records
file_bytes-snoc now es e =
    ap (◌++◌ (file_header now)) (records-append es (e ∷ []) ∙ ap (◌++◌ (records es)) (append-nil _))
    ∙ sym (append_assoc (file_header now) _ _)

-- An event that the format can hold.
pub record IsStorable (e : Event) : Type 0 where
  pub typed : IsEvent e
  pub fits : length e.payload ≤ k_max_payload_bytes
