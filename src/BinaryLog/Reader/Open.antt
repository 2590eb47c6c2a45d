-- ===== src/BinaryLog/Reader/Open.antt =====
-- The constructor of `BinaryLogReader` (src/core/binary_log.cpp) on a file with a sound header.
use cpp_high_performance_bin.Base.{
  ℕ, ◌^◌, ◌<◌, false, not, ==_refl, ◌≡◌, refl, ap, ◌∙◌, arith, List, [], ◌++◌, length, drop,
}
use cpp_high_performance_bin.Crc32.{IsU32, crc32}
use cpp_high_performance_bin.Crc32.Reference.{crc32-IsU32}
use cpp_high_performance_bin.Errors.{ok, io_error, open_input, ensure, after}
use cpp_high_performance_bin.BinaryLog.{k_file_format_version, k_file_header_size, k_endian_marker}
use cpp_high_performance_bin.BinaryLog.Words.{read_u16, read_u32, read_u64}
use cpp_high_performance_bin.BinaryLog.Words.Laws.{
  read_u16-u16_bytes, read_u32-u32_bytes, read_u64-u64_bytes,
}
use cpp_high_performance_bin.BinaryLog.Stream.{Ifstream}
use cpp_high_performance_bin.BinaryLog.Format.{file_fields, file_header_with, file_header}
use cpp_high_performance_bin.BinaryLog.Reader.{
  Reader, check_file_header, read_file_header, construct, equal_prefix,
}
use cpp_high_performance_bin.BinaryLog.Reader.Decode.{file_fields-IsBytes}
use cpp_high_performance_bin.BinaryLog.Reader.Next.{rest_at, read_into_whole}

-- A reader that has just read the file header.
abbrev pub opened_at : Ifstream → ℕ → List ℕ → Reader
opened_at input created rest = record {
  input = record input { rest = rest };
  info = record {
    version = k_file_format_version;
    created_unix_ns = created;
    first_timestamp_ns = 0;
    last_timestamp_ns = 0;
  };
}

-- The fields of a file header, as the reader decodes them.
record Decoded (header : List ℕ) (created checksum : ℕ) : Type 0 where
  version : read_u16 (drop 8 header) ≡ k_file_format_version
  header_size : read_u16 (drop 10 header) ≡ k_file_header_size
  endian : read_u16 (drop 12 header) ≡ k_endian_marker
  created_ns : read_u64 (drop 16 header) ≡ created
  stored : read_u32 (drop 32 header) ≡ checksum

decode-file_header_with :
    (created checksum : ℕ)
    → created < 2 ^ 64
    → IsU32 checksum
    → Decoded (file_header_with created checksum) created checksum
decode-file_header_with created checksum hc hs = record {
  version = read_u16-u16_bytes k_file_format_version (from 10) (omega arith);
  header_size = read_u16-u16_bytes k_file_header_size (from 12) (omega arith);
  endian = read_u16-u16_bytes k_endian_marker (from 14) (omega arith);
  created_ns = read_u64-u64_bytes created (from 24) hc;
  stored = read_u32-u32_bytes checksum [] hs;
}
  where
    from : ℕ → List ℕ
    from k = drop k (file_header_with created checksum)

check-file_header :
    (created : ℕ) (r : Reader)
    → created < 2 ^ 64
    → check_file_header (file_header created) r ≡ (
      ok tt,
      record r {
        info = record (r.info) { version = k_file_format_version; created_unix_ns = created };
      },
    )
unfolding check_file_header file_header equal_prefix
check-file_header created r h =
    rw (d.version, d.header_size, d.endian, d.created_ns, d.stored, ==_refl) refl
  where
    d :
        Decoded
          (file_header_with created (crc32 (file_fields created)))
          created
          (crc32 (file_fields created))
    d = decode-file_header_with created _ h (crc32-IsU32 _ (file_fields-IsBytes created))

pub length-file_header : (created : ℕ) → length (file_header created) ≡ 36
unfolding file_header
length-file_header created = refl

-- Where a sound stream begins with the file header of a time below 2 ^ 64, the constructor
-- returns, reads the version and this time and leaves the stream behind the header.
pub construct-file_header :
    (created : ℕ) (ys : List ℕ) (input : Ifstream)
    → created < 2 ^ 64
    → input.fail ≡ false
    → input.rest ≡ file_header created ++ ys
    → construct input ≡ (ok tt, opened_at input created ys)
unfolding construct read_file_header
construct-file_header created ys input h good e =
    ap (λ b. after (ensure (not b) (io_error open_input), fresh) (λ _. read_file_header)) good
    ∙ read_file_header-eq
  where
    fresh : Reader
    fresh = record {
      input = input;
      info = record {
        version = 0;
        created_unix_ns = 0;
        first_timestamp_ns = 0;
        last_timestamp_ns = 0;
      };
    }

    read_file_header-eq : read_file_header fresh ≡ (ok tt, opened_at input created ys)
    read_file_header-eq =
        rw (read_into_whole 36 (file_header created) ys fresh good e (length-file_header created))
          (check-file_header created (rest_at fresh ys) h)
