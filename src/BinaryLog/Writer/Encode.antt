-- ===== src/BinaryLog/Writer/Encode.antt =====
-- What `write_file_header` and `append` of src/core/binary_log.cpp encode, byte by byte.
use cpp_high_performance_bin.Base.{ℕ, ◌/◌, ◌%◌, ◌^◌, ◌≤◌, ◌≡◌, arith, length}
use cpp_high_performance_bin.Base.Bits.{bit_and_byte}
use cpp_high_performance_bin.Errors.{ok}
use cpp_high_performance_bin.Event.{Event}
use cpp_high_performance_bin.BinaryLog.{k_max_payload_bytes}
use cpp_high_performance_bin.BinaryLog.Words.{write_u32_at}
use cpp_high_performance_bin.BinaryLog.Words.Laws.{append_u16-eq, append_u32-eq, append_u64-eq}
use cpp_high_performance_bin.BinaryLog.Format.{file_header_with, record_header_with}
use cpp_high_performance_bin.BinaryLog.Writer.{draft_file_header, draft_record_header}

pub draft_file_header-eq : (now : ℕ) → draft_file_header now ≡ file_header_with now 0
unfolding draft_file_header
draft_file_header-eq now = simp (append_u16-eq, append_u32-eq, append_u64-eq)

pub draft_record_header-eq :
    (e : Event)
    → length e.payload ≤ k_max_payload_bytes
    → draft_record_header e ≡ record_header_with e 0
unfolding draft_record_header
draft_record_header-eq e h =
    let size : length e.payload % 2 ^ 32 ≡ length e.payload = omega arith in
    simp (append_u16-eq, append_u32-eq, append_u64-eq, size)

pub fill_file_header :
    (now v : ℕ) → write_u32_at (file_header_with now 0) 32 v ≡ ok (file_header_with now v)
unfolding write_u32_at
fill_file_header now v = let e : v / 1 ≡ v = omega arith in simp (bit_and_byte, e)

pub fill_record_header :
    (e : Event) (v : ℕ) → write_u32_at (record_header_with e 0) 36 v ≡ ok (record_header_with e v)
unfolding write_u32_at
fill_record_header e v = let e : v / 1 ≡ v = omega arith in simp (bit_and_byte, e)
