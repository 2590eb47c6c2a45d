-- ===== src/BinaryLog/Tamper.antt =====
-- `BinaryLogReader` (src/core/binary_log.cpp) on a file in which a byte was changed.
pub mod Checksum
pub mod Opening
use cpp_high_performance_bin.Base.{
  append_assoc, set-append_cases, ℕ, zero, suc, ◌+◌, ◌-◌, ◌*◌, ◌/◌, ◌%◌, ◌^◌, ◌≤◌, ◌<◌, ◌≡◌, ◌≢◌,
  refl, sym, ap, subst, ◌∙◌, ◌⊎◌, inl, inr, Bool, true, false, leb, ◌==◌, ==_iff, ==_refl,
  Bool-cases, arith, List, [], ◌∷◌, ◌++◌, length, get_or, set, drop, take, length-set,
  length-append, append_assoc, set-set_comm, get_or-set_ne, get_or-drop, All-set, All, Option,
}
use cpp_high_performance_bin.Crc32.{IsByte, IsBytes, IsU32, crc32}
use cpp_high_performance_bin.Crc32.Reference.{crc32-IsU32}
use cpp_high_performance_bin.Crc32.Detection.{crc32-set}
use cpp_high_performance_bin.Errors.{
  Error, crc_error, file_format_error, invalid_record_magic, unsupported_record_header_size,
  unsupported_record_version, record_payload_too_large, record_header_crc, payload_crc, ok, err,
}
use cpp_high_performance_bin.BinaryLog.{
  k_record_magic, k_record_header_size, k_file_format_version, k_max_payload_bytes,
}
use cpp_high_performance_bin.Event.{Event}
use cpp_high_performance_bin.BinaryLog.Words.Laws.{read_u32-sum, read_u32-u32_bytes, read_u32_ext}
use cpp_high_performance_bin.BinaryLog.Words.{read_u32}
use cpp_high_performance_bin.BinaryLog.Format.{
  record_header, record_header_with, record_bytes, IsStorable,
}
use cpp_high_performance_bin.BinaryLog.Reader.{
  read_payload, Reader, RecordHeader, decode_record_header, zero_crc_field, check_record_header,
  next_after_header, next,
}
use cpp_high_performance_bin.BinaryLog.Reader.Decode.{
  header_of, record_header_with-IsBytes, zero_crc_field-record_header_with,
}
use cpp_high_performance_bin.BinaryLog.Tamper.Checksum.{checksum, changed_header}
use cpp_high_performance_bin.BinaryLog.Reader.Next.{
  rest_at, next_whole, read_payload-whole, check-record_header, decode-record_header,
  length-record_header,
}

check_record_header_refuses :
    (header : List ℕ) (h : RecordHeader) (r : Reader)
    → h.stored_header_crc ≢ crc32 (zero_crc_field header)
    → (x : Error) × (check_record_header header h r ≡ (err x, r))
unfolding check_record_header
check_record_header_refuses header h r differs = elim (Bool-cases (h.magic == k_record_magic)) [
  | inr a ↦ (file_format_error (invalid_record_magic h.sequence), rw a refl)
  | inl a ↦ elim (Bool-cases (h.header_size == k_record_header_size)) [
    | inr b ↦ (file_format_error (unsupported_record_header_size h.header_size), rw (a, b) refl)
    | inl b ↦ elim (Bool-cases (h.version == k_file_format_version)) [
      | inr c ↦ (file_format_error (unsupported_record_version h.version), rw (a, b, c) refl)
      | inl c ↦ elim (Bool-cases (leb h.payload_size k_max_payload_bytes)) [
        | inr d ↦
            (file_format_error (record_payload_too_large h.payload_size), rw (a, b, c, d) refl)
        | inl d ↦ (crc_error (record_header_crc h.sequence), rw (a, b, c, d, wrong) refl)
      ]
    ]
  ]
]
  where
    wrong : (h.stored_header_crc == crc32 (zero_crc_field header)) ≡ false
    wrong = ground (arith, differs)

-- Of a header whose stored checksum is not that of its bytes no event is read.
next_after_header_refuses :
    (header : List ℕ) (r : Reader)
    → (decode_record_header header).stored_header_crc ≢ crc32 (zero_crc_field header)
    → (x : Error) × (next_after_header header r ≡ (err x, r))
unfolding next_after_header
next_after_header_refuses header r differs =
    let (x, e) = check_record_header_refuses header (decode_record_header header) r differs in
    (x, rw e refl)

-- A record of which one header byte is changed is refused.
pub next-changed_header :
    (e : Event) (i v : ℕ) (ys : List ℕ) (r : Reader)
    → i < 48
    → IsByte v
    → v ≢ get_or (record_header e) i 0
    → r.input.fail ≡ false
    → r.input.rest ≡ set (record_header e) i v ++ ys
    → (x : Error) × (next r ≡ (err x, rest_at r ys))
unfolding record_header decode_record_header checksum
next-changed_header e i v ys r below hv differs good h =
    let (x, refused) =
      next_after_header_refuses header (rest_at r ys) (changed_header e i v below hv differs) in
    (
      x,
      next_whole header ys r good h (length-set (record_header e) i v ∙ length-record_header e)
          ∙ refused,
    )
  where
    header : List ℕ
    header = set (record_header e) i v

-- A record of which one payload byte is changed is refused, as a checksum error of its sequence.
pub next-changed_payload :
    (e : Event) (i v : ℕ) (ys : List ℕ) (r : Reader)
    → IsStorable e
    → i < length e.payload
    → IsByte v
    → v ≢ get_or e.payload i 0
    → r.input.fail ≡ false
    → r.input.rest ≡ record_header e ++ (set e.payload i v ++ ys)
    → next r ≡ (err (crc_error (payload_crc e.sequence)), rest_at r ys)
unfolding next_after_header
next-changed_payload e i v ys r st below hv differs good h =
    next_whole (record_header e) (payload ++ ys) r good h (length-record_header e)
    ∙ rw (decode-record_header e st, check-record_header e there st, arrived, wrong) refl
  where
    payload : List ℕ
    payload = set e.payload i v

    there : Reader
    there = rest_at r (payload ++ ys)

    fields : RecordHeader
    fields = header_of e (crc32 (record_header_with e 0))

    arrived : read_payload fields there ≡ (ok payload, rest_at r ys)
    arrived = read_payload-whole fields payload ys there (sym (length-set e.payload i v)) good refl

    wrong : (crc32 e.payload == crc32 payload) ≡ false
    wrong =
        let changed : crc32 payload ≢ crc32 e.payload =
          crc32-set e.payload i v st.typed.payload_bytes hv below differs in
        ground (arith, changed)

-- Where a sound stream stands before the record of a storable event with one byte, of header or
-- payload, replaced by a different byte, `next` throws, whatever follows in the file.
pub next-changed_byte :
    (e : Event) (i v : ℕ) (ys : List ℕ) (r : Reader)
    → IsStorable e
    → i < length (record_bytes e)
    → IsByte v
    → v ≢ get_or (record_bytes e) i 0
    → r.input.fail ≡ false
    → r.input.rest ≡ set (record_bytes e) i v ++ ys
    → (x : Error) × (r' : Reader) × (next r ≡ (err x, r'))
unfolding record_bytes
next-changed_byte e i v ys r st below hv differs good h =
    elim (set-append_cases (record_header e) e.payload i v below differs) [
      | inl c ↦
          let (x, refused) =
            next-changed_header e i v (e.payload ++ ys) r
              (omega (arith, c.below, length-record_header e)) hv c.differs good
              (h
                ∙ ap (λ bytes. bytes ++ ys) c.whole
                ∙ append_assoc (set (record_header e) i v) _ ys) in
          (x, rest_at r (e.payload ++ ys), refused)
      | inr c ↦ (
        crc_error (payload_crc e.sequence),
        rest_at r ys,
        next-changed_payload e c.offset v ys r st c.below hv c.differs good
            (h ∙ ap (λ bytes. bytes ++ ys) c.whole ∙ append_assoc (record_header e) _ ys),
      )
    ]
