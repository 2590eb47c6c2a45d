-- ===== src/BinaryLog/Writer/Append.antt =====
-- `BinaryLogWriter::append` of src/core/binary_log.cpp on every branch.
use cpp_high_performance_bin.Base.{
  ◌-◌, ◌^◌, ◌≤◌, true, ◌||◌, leb, if◌then◌else◌, Bool-cases, ◌≡◌, refl, inl, inr, arith, length,
}
use cpp_high_performance_bin.Errors.{
  io_error, file_format_error, append_closed, payload_too_large, Result, err,
}
use cpp_high_performance_bin.Event.{Event}
use cpp_high_performance_bin.BinaryLog.{k_max_payload_bytes}
use cpp_high_performance_bin.BinaryLog.Format.{record_header}
use cpp_high_performance_bin.BinaryLog.Writer.{
  Writer, write_buffer_if_needed, buffer_record, append,
}
use cpp_high_performance_bin.BinaryLog.Writer.Encode.{draft_record_header-eq, fill_record_header}

-- The record joins the buffer, which is written out where the options ask for it.
abbrev pub store_record : Event → Writer → Result (Unit {0}) × Writer
store_record e w =
    let w' = buffer_record e (record_header e) w in
    write_buffer_if_needed
      (w'.options.flush_on_each_event || leb w'.options.flush_threshold_bytes (length w'.buffer)) w'

-- `append` refuses a closed writer and an oversized payload and then changes nothing. Otherwise
-- the header of the format, with both checksums, and the payload go into the buffer: the two
-- checks for internal errors and the bounds check of `vector::at` never fail.
pub append_branches :
    (e : Event) (w : Writer)
    → append e w ≡ (
        if w.closed
        then (err (io_error append_closed), w)
        else if leb (length e.payload) k_max_payload_bytes
        then store_record e w
        else (err (file_format_error (payload_too_large (length e.payload))), w))
unfolding append record_header
append_branches e w = elim (Bool-cases w.closed) [
  | inl shut ↦ rw shut refl
  | inr open_ ↦ rw open_ (elim (Bool-cases (leb (length e.payload) k_max_payload_bytes)) [
    | inl small ↦
        rw (small, representable small, draft_record_header-eq e (fits small), fill_record_header)
          refl
    | inr large ↦ rw large refl
  ])
]
  where
    fits :
        leb (length e.payload) k_max_payload_bytes ≡ true → length e.payload ≤ k_max_payload_bytes
    fits h = ground arith

    representable :
        leb (length e.payload) k_max_payload_bytes ≡ true
        → leb (length e.payload) (2 ^ 32 - 1) ≡ true
    representable h = ground arith
