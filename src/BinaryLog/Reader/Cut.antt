-- ===== src/BinaryLog/Reader/Cut.antt =====
-- `BinaryLogReader::next` (src/core/binary_log.cpp) on a file that was cut off anywhere, as by a
-- crash of the recorder or a full disk.
use cpp_high_performance_bin.Base.{
  ℕ, zero, suc, ◌<◌, ◌≡◌, refl, sym, ap, ◌∙◌, inl, inr, true, false, ltb, ◌==◌, arith, List, [],
  ◌∷◌, ◌++◌, length, length-append, append-eq-append, All, some,
}
use cpp_high_performance_bin.Errors.{
  Error, file_format_error, truncated_record_header, truncated_payload, ok, err,
}
use cpp_high_performance_bin.Event.{Event}
use cpp_high_performance_bin.BinaryLog.Format.{
  records, record_bytes, record_header, record_header_with, IsStorable,
}
use cpp_high_performance_bin.Crc32.{crc32}
use cpp_high_performance_bin.BinaryLog.Reader.{
  Reader, RecordHeader, note_timestamp, read_payload, check_record_header, decode_record_header,
  next_after_header, next,
}
use cpp_high_performance_bin.BinaryLog.Reader.Decode.{header_of}
use cpp_high_performance_bin.BinaryLog.Reader.Next.{
  rest_at, ended, read_into_short, next_whole, next_short, next_end, next-record_bytes,
  check-record_header, decode-record_header, length-record_header,
}
use cpp_high_performance_bin.BinaryLog.Reader.Replay.{
  Ending, finished, thrown, Replay, prepend, replay, replay_event, replay_end, replay_error,
}

read_payload_short :
    (h : RecordHeader) (r : Reader)
    → r.input.fail ≡ false
    → length r.input.rest < h.payload_size
    → read_payload h r ≡ (err (file_format_error (truncated_payload h.sequence)), ended r)
unfolding read_payload
read_payload_short h r good short =
    simp (positive, read_into_short h.payload_size r good short, differs)
  where
    positive : ltb 0 h.payload_size ≡ true
    positive = ground arith

    differs : (length r.input.rest == h.payload_size) ≡ false
    differs = ground arith

next_after_header_payload :
    (header : List ℕ) (h : RecordHeader) (x : Error) (r r' : Reader)
    → decode_record_header header ≡ h
    → check_record_header header h r ≡ (ok tt, r)
    → read_payload h r ≡ (err x, r')
    → next_after_header header r ≡ (err x, r')
unfolding next_after_header
next_after_header_payload header h x r r' d c p = rw (d, c, p) refl

-- A record that breaks off within its payload.
next-cut_payload :
    (e : Event) (part : List ℕ) (r : Reader)
    → IsStorable e
    → r.input.fail ≡ false
    → r.input.rest ≡ record_header e ++ part
    → length part < length e.payload
    → next r ≡ (err (file_format_error (truncated_payload e.sequence)), ended r)
next-cut_payload e part r st good h short =
    next_whole (record_header e) part r good h (length-record_header e)
    ∙ next_after_header_payload (record_header e) fields _ there (ended r)
        (decode-record_header e st) (check-record_header e there st)
        (read_payload_short fields there good short)
  where
    fields : RecordHeader
    fields = header_of e (crc32 (record_header_with e 0))

    there : Reader
    there = rest_at r part

-- How a replay may end on a file that was cut off: at a record boundary, or with an error that
-- says that a header or a payload is truncated.
pub data IsCut : Ending → Type 0 where
  at_boundary : IsCut finished
  in_header : IsCut (thrown (file_format_error truncated_record_header))
  in_payload : (sequence : ℕ) → IsCut (thrown (file_format_error (truncated_payload sequence)))

-- A replay that delivers a first part of `es`.
pub record Delivers (es : List Event) (seen : Replay) : Type 0 where
  pub delivered : List Event
  pub dropped : List Event
  pub ending : Ending
  pub split : es ≡ delivered ++ dropped
  pub result : seen ≡ (delivered, ending)
  pub cut : IsCut ending

deliver_none :
    (es : List Event) (fuel : ℕ) (r : Reader) (ending : Ending)
    → replay fuel r ≡ ([], ending)
    → IsCut ending
    → Delivers es (replay fuel r)
deliver_none es fuel r ending e cut = record {
  delivered = [];
  dropped = es;
  ending = ending;
  split = refl;
  result = e;
  cut = cut;
}

-- The position within a header.
deliver_header :
    (es : List Event) (fuel : ℕ) (r : Reader) (bytes : List ℕ)
    → r.input.fail ≡ false
    → r.input.broken ≡ false
    → r.input.rest ≡ bytes
    → length bytes < 48
    → Delivers es (replay (suc fuel) r)
deliver_header es fuel r [] good sound e short =
    deliver_none es (suc fuel) r finished (replay_end fuel r _ (next_end r good sound e))
      at_boundary
deliver_header es fuel r (b ∷ bs) good sound e short =
    deliver_none es (suc fuel) r _
      (replay_error fuel r _ _
        (next_short r good (omega (arith, ap length e)) (omega (arith, ap length e))))
      in_header

deliver_event :
    (e : Event) (es : List Event) (fuel : ℕ) (r r' : Reader)
    → next r ≡ (ok (some e), r')
    → Delivers es (replay fuel r')
    → Delivers (e ∷ es) (replay (suc fuel) r)
deliver_event e es fuel r r' h d = record {
  delivered = e ∷ d.delivered;
  dropped = d.dropped;
  ending = d.ending;
  split = ap (◌∷◌ e) d.split;
  result = replay_event fuel r r' e h ∙ ap (prepend e) d.result;
  cut = d.cut;
}

-- A record that breaks off: nothing before its end is taken for an event.
replay-cut_record :
    (e : Event) (es : List Event) (fuel : ℕ) (r : Reader) (x : ℕ) (bs : List ℕ)
    → IsStorable e
    → r.input.fail ≡ false
    → r.input.broken ≡ false
    → record_bytes e ≡ r.input.rest ++ x ∷ bs
    → Delivers (e ∷ es) (replay (suc fuel) r)
unfolding record_bytes
replay-cut_record e es fuel r x bs st good sound h =
    elim (append-eq-append r.input.rest (x ∷ bs) (record_header e) e.payload (sym h)) [
      | inl (part, p, q) ↦
          let short : length part < length e.payload =
            omega (arith, ap length q, length-append part (x ∷ bs)) in
          deliver_none (e ∷ es) (suc fuel) r _
            (replay_error fuel r _ _ (next-cut_payload e part r st good p short))
            (in_payload e.sequence)
      | inr (y, ys, p) ↦
          deliver_header (e ∷ es) fuel r r.input.rest good sound refl (
            omega (arith, ap length p, length-append r.input.rest (y ∷ ys), length-record_header e))
    ]

-- Where a sound stream holds the beginning of the records of storable events, cut anywhere, the
-- loop with fuel for more than these events delivers the first of them, each unchanged and in
-- order, and ends at a record boundary or with an error that reports a truncated header or
-- payload.
pub replay-cut :
    (es : List Event) (fuel : ℕ) (r : Reader) (missing : List ℕ)
    → All IsStorable es
    → length es < fuel
    → r.input.fail ≡ false
    → r.input.broken ≡ false
    → r.input.rest ++ missing ≡ records es
    → Delivers es (replay fuel r)
unfolding records
replay-cut es zero r missing st enough good sound h = absurd (omega arith)
replay-cut [] (suc fuel) r missing st enough good sound h =
    deliver_header [] fuel r [] good sound (none_left r.input.rest h) (omega arith)
  where
    none_left : (xs : List ℕ) → xs ++ missing ≡ [] → xs ≡ []
    none_left [] e = refl
    none_left (x ∷ xs) e = cc
replay-cut (e ∷ es) (suc fuel) r missing st enough good sound h =
    elim (append-eq-append r.input.rest missing (record_bytes e) (records es) h) [
      | inl (later, p, q) ↦
          let r' = note_timestamp e.timestamp_ns (rest_at r later) in
          deliver_event e es fuel r r' (next-record_bytes e later r st.0 good p) (
            replay-cut es fuel r' missing st.1 (omega arith) (unfold note_timestamp in good)
              (unfold note_timestamp in sound) (unfold note_timestamp in q))
      | inr (x, bs, p) ↦ replay-cut_record e es fuel r x bs st.0 good sound p
    ]
