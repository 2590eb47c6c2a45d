-- ===== src/BinaryLog/Reader/Next.antt =====
-- `BinaryLogReader::next` of src/core/binary_log.cpp at each position of the file.
use cpp_high_performance_bin.Base.{
  ℕ, ◌-◌, ◌*◌, ◌<◌, true, false, not, leb, ltb, ◌==◌, ==_refl, ◌≡◌, refl, sym, ap, ap₂, ◌∙◌, arith,
  List, [], ◌∷◌, ◌++◌, length, take, drop, replicate, length-append, take-append, drop-append,
  append-nil, append_assoc, some, none,
}
use cpp_high_performance_bin.Crc32.{crc32}
use cpp_high_performance_bin.Crc32.Reference.{crc32-IsU32}
use cpp_high_performance_bin.Errors.{file_format_error, truncated_record_header, ok, err}
use cpp_high_performance_bin.Event.{Event, severity_from_u16, severity_from_u16-severity_to_u16}
use cpp_high_performance_bin.BinaryLog.Stream.{read}
use cpp_high_performance_bin.BinaryLog.Format.{
  record_header, record_header_with, record_bytes, IsStorable,
}
use cpp_high_performance_bin.BinaryLog.Reader.{
  Reader, RecordHeader, read_into, check_record_header, read_payload, note_timestamp, finish_event,
  decode_record_header, next_after_header, next,
}
use cpp_high_performance_bin.BinaryLog.Reader.Decode.{
  header_of, decode-record_header_with, record_header_with-IsBytes,
  zero_crc_field-record_header_with,
}

-- The reader with another rest of the file before it.
abbrev pub rest_at : Reader → List ℕ → Reader
rest_at r bytes = record r { input = record (r.input) { rest = bytes } }

-- The reader whose stream has met the end.
abbrev pub ended : Reader → Reader
ended r = record r { input = record (r.input) { rest = []; eof = not r.input.broken; fail = true } }

pub read_into_whole :
    (n : ℕ) (xs ys : List ℕ) (r : Reader)
    → r.input.fail ≡ false
    → r.input.rest ≡ xs ++ ys
    → length xs ≡ n
    → read_into n r ≡ (ok (xs, n), rest_at r ys)
unfolding read_into read
read_into_whole n xs ys r good e len = simp (good, enough, taken, left, pad) (simp len)
  where
    enough : leb n (length r.input.rest) ≡ true
    enough = ground (arith, ap length e, length-append xs ys)

    taken : take n r.input.rest ≡ xs
    taken = ap₂ take (sym len) e ∙ take-append xs ys

    left : drop n r.input.rest ≡ ys
    left = ap₂ drop (sym len) e ∙ drop-append xs ys

    pad : xs ++ replicate (n - length xs) 0 ≡ xs
    pad =
        let full : n - length xs ≡ 0 = omega arith in
        ap (λ (k : ℕ). xs ++ replicate k 0) full ∙ append-nil xs

pub read_into_short :
    (n : ℕ) (r : Reader)
    → r.input.fail ≡ false
    → length r.input.rest < n
    → read_into n r
      ≡ (ok (r.input.rest ++ replicate (n - length r.input.rest) 0, length r.input.rest), ended r)
unfolding read_into read
read_into_short n r good short =
    let stop : leb n (length r.input.rest) ≡ false = ground arith in simp (good, stop)

-- Forty-eight bytes before the reader are taken for a header.
pub next_whole :
    (header ys : List ℕ) (r : Reader)
    → r.input.fail ≡ false
    → r.input.rest ≡ header ++ ys
    → length header ≡ 48
    → next r ≡ next_after_header header (rest_at r ys)
unfolding next
next_whole header ys r good e len = rw (read_into_whole 48 header ys r good e len) refl

-- At the end of the file, and only if the device reports it, there is no further event.
pub next_end :
    (r : Reader)
    → r.input.fail ≡ false
    → r.input.broken ≡ false
    → r.input.rest ≡ []
    → next r ≡ (ok none, ended r)
unfolding next
next_end r good sound e = rw (read_into_short 48 r good short) (simp (e, sound))
  where
    short : length r.input.rest < 48
    short = omega (arith, ap length e)

-- Fewer than forty-eight bytes, but some, are a truncated header.
pub next_short :
    (r : Reader)
    → r.input.fail ≡ false
    → 0 < length r.input.rest
    → length r.input.rest < 48
    → next r ≡ (err (file_format_error truncated_record_header), ended r)
unfolding next
next_short r good some_ short = rw (read_into_short 48 r good short) (simp (some_bytes, too_few))
  where
    some_bytes : (length r.input.rest == 0) ≡ false
    some_bytes = ground arith

    too_few : (length r.input.rest == 48) ≡ false
    too_few = ground arith

-- The checks pass on the header of the format.
pub check-record_header :
    (e : Event) (r : Reader)
    → IsStorable e
    → check_record_header (record_header e) (header_of e (crc32 (record_header_with e 0))) r
      ≡ (ok tt, r)
unfolding check_record_header record_header
check-record_header e r st = simp (small, zero_crc_field-record_header_with, ==_refl)
  where
    small : leb (length e.payload) (16 * 1024 * 1024) ≡ true
    small = ground (arith, st.fits)

pub read_payload-whole :
    (h : RecordHeader) (xs ys : List ℕ) (r : Reader)
    → h.payload_size ≡ length xs
    → r.input.fail ≡ false
    → r.input.rest ≡ xs ++ ys
    → read_payload h r ≡ (ok xs, rest_at r ys)
unfolding read_payload
read_payload-whole h [] ys r size good e = simp (size, ← e)
read_payload-whole h (x ∷ xs) ys r size good e =
    simp (size, positive, read_into_whole (length (x ∷ xs)) (x ∷ xs) ys r good e refl, ==_refl)
  where
    positive : ltb 0 (length (x ∷ xs)) ≡ true
    positive = ground arith

-- The course of `next` behind a header whose checks pass.
next_after_header_steps :
    (header : List ℕ) (h : RecordHeader) (payload : List ℕ) (r r' : Reader)
    → decode_record_header header ≡ h
    → check_record_header header h r ≡ (ok tt, r)
    → read_payload h r ≡ (ok payload, r')
    → h.stored_payload_crc ≡ crc32 payload
    → next_after_header header r ≡ finish_event h payload (severity_from_u16 h.severity_raw) r'
unfolding next_after_header
next_after_header_steps header h payload r r' d c p crc = rw (d, c, p, crc, ==_refl) refl

pub length-record_header : (e : Event) → length (record_header e) ≡ 48
unfolding record_header
length-record_header e = refl

pub decode-record_header :
    (e : Event)
    → IsStorable e
    → decode_record_header (record_header e) ≡ header_of e (crc32 (record_header_with e 0))
unfolding record_header
decode-record_header e st =
    decode-record_header_with e _ st (crc32-IsU32 _ (record_header_with-IsBytes e 0))

-- Where a sound stream stands before the record of a storable event, `next` returns this event,
-- notes its timestamp and leaves the stream behind the record.
pub next-record_bytes :
    (e : Event) (ys : List ℕ) (r : Reader)
    → IsStorable e
    → r.input.fail ≡ false
    → r.input.rest ≡ record_bytes e ++ ys
    → next r ≡ (ok (some e), note_timestamp e.timestamp_ns (rest_at r ys))
unfolding record_bytes finish_event
next-record_bytes e ys r st good h =
    next_whole (record_header e) (e.payload ++ ys) r good
      (h ∙ append_assoc (record_header e) e.payload ys) (length-record_header e)
    ∙ next_after_header_steps (record_header e) fields e.payload there (rest_at r ys)
        (decode-record_header e st) (check-record_header e there st)
        (read_payload-whole fields e.payload ys there refl good refl) refl
    ∙ rw (severity_from_u16-severity_to_u16) refl
  where
    fields : RecordHeader
    fields = header_of e (crc32 (record_header_with e 0))

    there : Reader
    there = rest_at r (e.payload ++ ys)
