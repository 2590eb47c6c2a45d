-- ===== src/BinaryLog/Reader/Sound.antt =====
-- What `BinaryLogReader::next` (src/core/binary_log.cpp) accepts, whatever the file holds.
use cpp_high_performance_bin.Base.{
  ℕ, ◌-◌, ◌≤◌, ◌≡◌, ◌≢◌, refl, sym, ap, ◌∙◌, leb, ltb, ◌==◌, ==_iff, Bool-cases, inl, inr, arith,
  List, ◌++◌, length, take, drop, replicate, All-drop, take-append-drop, length-take, some,
  All-append_parts, subst,
}
use cpp_high_performance_bin.Crc32.{IsByte, IsBytes, crc32}
use cpp_high_performance_bin.Errors.{ok, require, after_eq_ok}
use cpp_high_performance_bin.Event.{Event, Severity}
use cpp_high_performance_bin.BinaryLog.{k_max_payload_bytes}
use cpp_high_performance_bin.BinaryLog.Words.{read_u32}
use cpp_high_performance_bin.BinaryLog.Words.Ranges.{read_u16-lt, read_u32-lt, read_u64-lt}
use cpp_high_performance_bin.BinaryLog.Format.{IsStorable}
use cpp_high_performance_bin.BinaryLog.Reader.{
  Reader, read_into, decode_record_header, zero_crc_field, check_record_header, read_payload,
  next_after_header, next,
}
use cpp_high_performance_bin.BinaryLog.Reader.Next.{
  rest_at, read_into_short, next_whole, next_short, ended,
}
use cpp_high_performance_bin.BinaryLog.Reader.Inversion.{
  require_ok, check_record_header_ok, read_into_failed, read_payload_ok, finish_event_ok, event_of,
}

-- What stands in the file in place of an event that is delivered.
pub record IsRecordOf (e : Event) (before after : List ℕ) : Type 0 where
  pub header : List ℕ
  pub size : length header ≡ 48
  pub place : before ≡ header ++ (e.payload ++ after)
  pub header_crc : read_u32 (drop 36 header) ≡ crc32 (zero_crc_field header)
  pub payload_crc : read_u32 (drop 40 header) ≡ crc32 e.payload

event_of-IsStorable :
    (header payload : List ℕ) (severity : Severity)
    → IsBytes header
    → IsBytes payload
    → length payload ≤ k_max_payload_bytes
    → IsStorable (event_of (decode_record_header header) payload severity)
unfolding decode_record_header
event_of-IsStorable header payload severity hb pb fits = record {
  typed = record {
    timestamp_u64 = read_u64-lt (drop 8 header) (All-drop IsByte 8 header hb);
    sequence_u64 = read_u64-lt (drop 16 header) (All-drop IsByte 16 header hb);
    producer_u32 = read_u32-lt (drop 24 header) (All-drop IsByte 24 header hb);
    type_u16 = read_u16-lt (drop 28 header) (All-drop IsByte 28 header hb);
    payload_bytes = pb;
  };
  fits = fits;
}

-- Where the checksums stand in a header.
stored_crcs :
    (header : List ℕ)
    → ((decode_record_header header).stored_header_crc ≡ read_u32 (drop 36 header))
      × ((decode_record_header header).stored_payload_crc ≡ read_u32 (drop 40 header))
unfolding decode_record_header
stored_crcs header = (refl, refl)

next_after_header-IsStorable :
    (header : List ℕ) (r r' : Reader) (e : Event)
    → length header ≡ 48
    → IsBytes (header ++ r.input.rest)
    → next_after_header header r ≡ (ok (some e), r')
    → IsStorable e × IsRecordOf e (header ++ r.input.rest) r'.input.rest
unfolding next_after_header
next_after_header-IsStorable header r r' e len bytes eq =
    let h = decode_record_header header in
    let (_, r1, checked, rest1) = after_eq_ok (check_record_header header h r) _ eq in
    let (small, crc_ok, same) = check_record_header_ok header h r r1 checked in
    let (payload, r2, read_, rest2) = after_eq_ok (read_payload h r1) _ rest1 in
    let (size, split) = read_payload_ok h r1 r2 payload read_ in
    let (_, r3, required, rest3) =
      after_eq_ok (require (h.stored_payload_crc == crc32 payload) _ r2) _ rest2 in
    let (payload_ok, stay) = require_ok (h.stored_payload_crc == crc32 payload) _ r2 r3 required in
    let (severity, found, kept) = finish_event_ok h payload _ r3 r' e rest3 in
    let where_ : header ++ r.input.rest ≡ header ++ (payload ++ r'.input.rest) =
      ap (λ xs. header ++ xs)
        (ap (λ (t : Reader). t.input.rest) (sym same)
          ∙ split
          ∙ ap (λ xs. payload ++ xs)
              (ap (λ (t : Reader). t.input.rest) (sym stay) ∙ sym (ap (λ i. i.rest) kept))) in
    let (hb, later) = All-append_parts IsByte header r.input.rest bytes in
    let (_, later') =
      All-append_parts IsByte header (payload ++ r'.input.rest) (subst IsBytes where_ bytes) in
    let (pb, _) = All-append_parts IsByte payload r'.input.rest later' in
    let fits : length payload ≤ k_max_payload_bytes = ground (arith, size, small) in
    subst (λ d. IsStorable d × IsRecordOf d (header ++ r.input.rest) r'.input.rest) (sym found)
      (
        event_of-IsStorable header payload severity hb pb fits,
        record {
          header = header;
          size = len;
          place = where_;
          header_crc =
              sym (stored_crcs header).0
              ∙ (==_iff h.stored_header_crc (crc32 (zero_crc_field header))).0 crc_ok;
          payload_crc =
              sym (stored_crcs header).1
              ∙ (==_iff h.stored_payload_crc (crc32 payload)).0 payload_ok;
        },
      )

-- Without a byte of a header there is no event.
no_header :
    (r r1 r' : Reader) (e : Event) (xs : List ℕ)
    → read_into 48 r ≡ (ok (xs, 0), r1)
    → next r ≢ (ok (some e), r')
unfolding next
no_header r r1 r' e xs got eq = elim (Bool-cases r1.input.eof) [
  | inl at_end ↦ let eq' = simp (got, at_end) at eq in cc eq'
  | inr bad ↦ let eq' = simp (got, bad) at eq in cc eq'
]

-- An event that `next` returns, whatever the stream holds, is storable: its fields are within their
-- types and its payload is within the limit. In the file, the bytes that `next` consumed are a
-- header of 48 bytes and this payload, and both stored checksums are those of the bytes.
pub next-IsStorable :
    (r r' : Reader) (e : Event)
    → IsBytes r.input.rest
    → next r ≡ (ok (some e), r')
    → IsStorable e × IsRecordOf e r.input.rest r'.input.rest
next-IsStorable r r' e bytes eq = elim (Bool-cases r.input.fail) [
  | inl bad ↦ absurd (no_header r r r' e _ (read_into_failed 48 r bad) eq)
  | inr good ↦ elim (Bool-cases (leb 48 (length r.input.rest))) [
    | inl enough ↦
        let header = take 48 r.input.rest in
        let ys = drop 48 r.input.rest in
        let split = take-append-drop 48 r.input.rest in
        let len : length header ≡ 48 = ground (arith, length-take 48 r.input.rest) in
        let whole = next_whole header ys r good (sym split) len in
        subst (λ (bs : List ℕ). IsStorable e × IsRecordOf e bs r'.input.rest) split
          (next_after_header-IsStorable header (rest_at r ys) r' e len
            (subst IsBytes (sym split) bytes) (sym whole ∙ eq))
    | inr few ↦ elim (Bool-cases (ltb 0 (length r.input.rest))) [
      | inl some_ ↦ let same = next_short r good (ground arith) (ground arith) in cc (same, eq)
      | inr empty ↦
          let none_left : length r.input.rest ≡ 0 = ground arith in
          let read_ = read_into_short 48 r good (omega (arith, none_left)) in
          absurd (
            no_header r (ended r) r' e _
              (read_
                ∙ ap
                    (λ k. (ok (r.input.rest ++ replicate (48 - length r.input.rest) 0, k), ended r))
                    none_left)
              eq)
    ]
  ]
]
