-- ===== src/BinaryLog.antt =====
-- src/core/binary_log.cpp and include/hpblr/binary_log.hpp: constants of the format.
-- The children hold the words of the format (`Words`), the file streams (`Stream`), the writer
-- and the reader, each with its laws below it, and the theorems about both together.
use cpp_high_performance_bin.Base.{ℕ, ◌*◌, List, [], ◌∷◌}
pub mod Words
pub mod Format
pub mod Stream
pub mod Writer
pub mod Reader
pub mod RoundTrip
pub mod Tamper
mod Examples

-- 'H' 'P' 'B' 'L' 'O' 'G' '1' '\0'
abbrev pub k_file_magic : List ℕ
k_file_magic = 0x48 ∷ 0x50 ∷ 0x42 ∷ 0x4c ∷ 0x4f ∷ 0x47 ∷ 0x31 ∷ 0 ∷ []

abbrev pub k_file_header_size : ℕ
k_file_header_size = 36

abbrev pub k_record_header_size : ℕ
k_record_header_size = 48

abbrev pub k_endian_marker : ℕ
k_endian_marker = 0x0102

abbrev pub k_record_magic : ℕ
k_record_magic = 0x524C4248

abbrev pub k_record_header_crc_offset : ℕ
k_record_header_crc_offset = 36

abbrev pub k_file_header_crc_offset : ℕ
k_file_header_crc_offset = 32

abbrev pub k_file_format_version : ℕ
k_file_format_version = 1

abbrev pub k_max_payload_bytes : ℕ
k_max_payload_bytes = 16 * 1024 * 1024
