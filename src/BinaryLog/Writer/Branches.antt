-- ===== src/BinaryLog/Writer/Branches.antt =====
-- `BinaryLogWriter::append` of src/core/binary_log.cpp on every branch, down to what it buffers and
-- writes.
use cpp_high_performance_bin.Base.{
  ℕ, ◌+◌, ◌%◌, ◌^◌, true, false, Bool, ◌||◌, leb, if◌then◌else◌, ◌≡◌, refl, sym, ap, ◌∙◌, List, [],
  ◌∷◌, ◌++◌, length, length-append, append_assoc,
}
use cpp_high_performance_bin.Errors.{
  io_error, file_format_error, append_closed, payload_too_large, failed_write, Result, ok, err,
}
use cpp_high_performance_bin.Event.{Event}
use cpp_high_performance_bin.BinaryLog.{k_max_payload_bytes}
use cpp_high_performance_bin.BinaryLog.Stream
use cpp_high_performance_bin.BinaryLog.Format.{record_header, record_bytes}
use cpp_high_performance_bin.BinaryLog.Writer.{
  Writer, write_buffer_if_needed, buffer_record, append,
}
use cpp_high_performance_bin.BinaryLog.Writer.Append.{append_branches}
use cpp_high_performance_bin.BinaryLog.Writer.Invariant.{write_buffer_if_needed_full}

-- The writer with the bytes of the record behind its buffer, counted modulo 2 ^ 64.
abbrev pub with_record : Event → Writer → Writer
with_record e w = record w {
  buffer = w.buffer ++ record_bytes e;
  stats = record {
    events_written = (w.stats.events_written + 1) % 2 ^ 64;
    bytes_written = (w.stats.bytes_written + length (record_bytes e)) % 2 ^ 64;
  };
}

-- The whole buffer goes to the stream. It is emptied if the stream takes it.
abbrev pub written_out : Writer → Result (Unit {0}) × Writer
written_out w =
    let out' = Stream.write w.out w.buffer in
    if out'.fail
    then (err (io_error failed_write), record w { out = out' })
    else (ok tt, record w { out = out'; buffer = [] })

buffer_record_lem : (e : Event) (w : Writer) → buffer_record e (record_header e) w ≡ with_record e w
unfolding buffer_record record_bytes
buffer_record_lem e w = λ i. record w {
  buffer = append_assoc w.buffer (record_header e) e.payload i;
  stats = record {
    events_written = (w.stats.events_written + 1) % 2 ^ 64;
    bytes_written =
        ap (λ n. (w.stats.bytes_written + n) % 2 ^ 64)
          (sym (length-append (record_header e) e.payload)) i;
  };
}

-- The bytes of a record are not none.
some_bytes :
    (buffer : List ℕ) (e : Event) → (b : ℕ) × (bs : List ℕ) × (buffer ++ record_bytes e ≡ b ∷ bs)
unfolding record_bytes record_header
some_bytes [] e = (_, _, refl)
some_bytes (b ∷ bs) e = (b, bs ++ record_bytes e, refl)

write_record :
    (needed : Bool) (e : Event) (w : Writer)
    → write_buffer_if_needed needed (with_record e w)
      ≡ (if needed then written_out (with_record e w) else (ok tt, with_record e w))
write_record false e w = unfold write_buffer_if_needed in refl
write_record true e w =
    let (b, bs, shape) = some_bytes w.buffer e in
    write_buffer_if_needed_full (with_record e w) b bs shape

-- `append` refuses a closed writer and a payload above the limit and then changes nothing.
-- Otherwise the bytes that the format has for the event join the buffer and the statistics; where
-- the options flush each event, or the buffer has reached the threshold, the whole buffer goes to
-- the stream in one write, and is emptied unless that fails.
pub append_lem :
    (e : Event) (w : Writer)
    → append e w ≡ (
        if w.closed
        then (err (io_error append_closed), w)
        else if leb (length e.payload) k_max_payload_bytes
        then if w.options.flush_on_each_event
            || leb w.options.flush_threshold_bytes (length (w.buffer ++ record_bytes e))
          then written_out (with_record e w)
          else (ok tt, with_record e w)
        else (err (file_format_error (payload_too_large (length e.payload))), w))
append_lem e w =
    append_branches e w
    ∙ ap
        (λ (stored : Result (Unit {0}) × Writer).
          if w.closed
          then (err (io_error append_closed), w)
          else if leb (length e.payload) k_max_payload_bytes
          then stored
          else (err (file_format_error (payload_too_large (length e.payload))), w))
        (ap
            (λ (w' : Writer).
              write_buffer_if_needed
                (w'.options.flush_on_each_event
                  || leb w'.options.flush_threshold_bytes (length w'.buffer))
                w')
            (buffer_record_lem e w)
          ∙ write_record _ e w)
