-- ===== src/BinaryLog/Tamper/Opening.antt =====
-- The constructor of `BinaryLogReader` (src/core/binary_log.cpp) on a file header in which a byte
-- was changed.
use cpp_high_performance_bin.Base.{
  ℕ, zero, suc, ◌/◌, ◌%◌, ◌^◌, ◌<◌, ◌≡◌, ◌≢◌, refl, sym, ap, ◌∙◌, inl, inr, false, not, ◌==◌,
  Bool-cases, arith, List, [], ◌++◌, length, get_or, set, take, drop, length-set, length-append,
  take-append, drop-append, set-append_cases,
}
use cpp_high_performance_bin.Crc32.{IsByte, IsBytes, IsU32, crc32}
use cpp_high_performance_bin.Crc32.Reference.{crc32-IsU32}
use cpp_high_performance_bin.Crc32.Detection.{crc32-set}
use cpp_high_performance_bin.Errors.{
  Error, file_format_error, crc_error, invalid_file_magic, unsupported_file_version,
  unsupported_header_size, unsupported_endian_marker, file_header_crc, err, io_error, open_input,
  ensure, after,
}
use cpp_high_performance_bin.BinaryLog.{
  k_file_magic, k_file_format_version, k_file_header_size, k_endian_marker,
}
use cpp_high_performance_bin.BinaryLog.Words.{read_u16, read_u32}
use cpp_high_performance_bin.BinaryLog.Words.Laws.{u32_bytes, read_u32-sum, read_u32-u32_bytes}
use cpp_high_performance_bin.BinaryLog.Stream.{Ifstream}
use cpp_high_performance_bin.BinaryLog.Format.{file_fields, file_header}
use cpp_high_performance_bin.BinaryLog.Reader.{
  Reader, check_file_header, read_file_header, construct, equal_prefix,
}
use cpp_high_performance_bin.BinaryLog.Reader.Decode.{file_fields-IsBytes}
use cpp_high_performance_bin.BinaryLog.Reader.Next.{rest_at, read_into_whole}

check_file_header_refuses :
    (header : List ℕ) (r : Reader)
    → read_u32 (drop 32 header) ≢ crc32 (take 32 header)
    → (x : Error) × (check_file_header header r ≡ (err x, r))
unfolding check_file_header
check_file_header_refuses header r differs = elim (Bool-cases (equal_prefix k_file_magic header)) [
  | inr a ↦ (file_format_error invalid_file_magic, rw a refl)
  | inl a ↦ elim (Bool-cases (read_u16 (drop 8 header) == k_file_format_version)) [
    | inr b ↦
        (file_format_error (unsupported_file_version (read_u16 (drop 8 header))), rw (a, b) refl)
    | inl b ↦ elim (Bool-cases (read_u16 (drop 10 header) == k_file_header_size)) [
      | inr c ↦ (
        file_format_error (unsupported_header_size (read_u16 (drop 10 header))),
        rw (a, b, c) refl,
      )
      | inl c ↦ elim (Bool-cases (read_u16 (drop 12 header) == k_endian_marker)) [
        | inr d ↦ (file_format_error unsupported_endian_marker, rw (a, b, c, d) refl)
        | inl d ↦ (crc_error file_header_crc, rw (a, b, c, d, wrong) refl)
      ]
    ]
  ]
]
  where
    wrong : (read_u32 (drop 32 header) == crc32 (take 32 header)) ≡ false
    wrong = ground (arith, differs)

-- A changed byte of four changes the number that they stand for.
read_u32-set :
    (c k v : ℕ)
    → IsU32 c
    → IsByte v
    → k < 4
    → v ≢ get_or (u32_bytes c) k 0
    → read_u32 (set (u32_bytes c) k v) ≢ c
read_u32-set c zero v hc hv below differs h = differs (
    omega (
      arith,
      h,
      read_u32-sum v (c / 2 ^ 8 % 256) (c / 2 ^ 16 % 256) (c / 2 ^ 24 % 256) [] hv (omega arith)
          (omega arith) (omega arith),
    ))
read_u32-set c (suc zero) v hc hv below differs h = differs (
    omega (
      arith,
      h,
      read_u32-sum (c % 256) v (c / 2 ^ 16 % 256) (c / 2 ^ 24 % 256) [] (omega arith) hv
          (omega arith) (omega arith),
    ))
read_u32-set c (suc (suc zero)) v hc hv below differs h = differs (
    omega (
      arith,
      h,
      read_u32-sum (c % 256) (c / 2 ^ 8 % 256) v (c / 2 ^ 24 % 256) [] (omega arith) (omega arith)
          hv (omega arith),
    ))
read_u32-set c (suc (suc (suc zero))) v hc hv below differs h = differs (
    omega (
      arith,
      h,
      read_u32-sum (c % 256) (c / 2 ^ 8 % 256) (c / 2 ^ 16 % 256) v [] (omega arith) (omega arith)
          (omega arith) hv,
    ))
read_u32-set c (suc (suc (suc (suc k)))) v hc hv below differs h = absurd (omega arith)

-- Fields and a checksum that do not belong together are refused.
construct_refuses :
    (fields stored ys : List ℕ) (input : Ifstream)
    → length fields ≡ 32
    → length stored ≡ 4
    → read_u32 stored ≢ crc32 fields
    → input.fail ≡ false
    → input.rest ≡ (fields ++ stored) ++ ys
    → (x : Error) × (r : Reader) × (construct input ≡ (err x, r))
unfolding construct read_file_header
construct_refuses fields stored ys input len_f len_s differs good h =
    let (x, refused) = check_file_header_refuses (fields ++ stored) (rest_at fresh ys) apart in
    (
      x,
      rest_at fresh ys,
      ap (λ b. after (ensure (not b) (io_error open_input), fresh) (λ _. read_file_header)) good
          ∙ rw (read_into_whole 36 (fields ++ stored) ys fresh good h len) refused,
    )
  where
    fresh : Reader
    fresh = record {
      input = input;
      info = record {
        version = 0;
        created_unix_ns = 0;
        first_timestamp_ns = 0;
        last_timestamp_ns = 0;
      };
    }

    len : length (fields ++ stored) ≡ 36
    len = omega (arith, length-append fields stored, len_f, len_s)

    apart : read_u32 (drop 32 (fields ++ stored)) ≢ crc32 (take 32 (fields ++ stored))
    apart e = differs (
        ap read_u32 (sym (drop-append fields stored) ∙ ap (λ n. drop n (fields ++ stored)) len_f)
        ∙ e
        ∙ ap crc32 (ap (λ n. take n (fields ++ stored)) (sym len_f) ∙ take-append fields stored))

-- Where a sound stream begins with a file header with one byte replaced by a different byte, the
-- constructor throws, whatever follows in the file.
pub construct-changed_byte :
    (created i v : ℕ) (ys : List ℕ) (input : Ifstream)
    → i < length (file_header created)
    → IsByte v
    → v ≢ get_or (file_header created) i 0
    → input.fail ≡ false
    → input.rest ≡ set (file_header created) i v ++ ys
    → (x : Error) × (r : Reader) × (construct input ≡ (err x, r))
unfolding file_header
construct-changed_byte created i v ys input below hv differs good h =
    elim (set-append_cases fields (u32_bytes (crc32 fields)) i v below differs) [
      | inl c ↦
          construct_refuses (set fields i v) (u32_bytes (crc32 fields)) ys input
            (length-set fields i v) refl
            (λ e.
              crc32-set fields i v bytes hv c.below c.differs
                (sym e ∙ read_u32-u32_bytes (crc32 fields) [] small))
            good (h ∙ ap (λ xs. xs ++ ys) c.whole)
      | inr c ↦
          construct_refuses fields (set (u32_bytes (crc32 fields)) c.offset v) ys input refl
            (length-set (u32_bytes (crc32 fields)) c.offset v)
            (read_u32-set (crc32 fields) c.offset v small hv c.below c.differs) good
            (h ∙ ap (λ xs. xs ++ ys) c.whole)
    ]
  where
    fields : List ℕ
    fields = file_fields created

    bytes : IsBytes fields
    bytes = file_fields-IsBytes created

    small : IsU32 (crc32 fields)
    small = crc32-IsU32 fields bytes
