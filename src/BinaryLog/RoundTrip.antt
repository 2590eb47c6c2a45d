-- ===== src/BinaryLog/RoundTrip.antt =====
-- `BinaryLogWriter` and `BinaryLogReader` of src/core/binary_log.cpp together: what was appended is
-- read back.
use cpp_high_performance_bin.Base.{
  ℕ, ◌^◌, ◌≤◌, ◌<◌, ◌≡◌, refl, inl, inr, leb, Bool-cases, arith, List, [], ◌∷◌, ◌++◌, length, All,
  All-append,
}
use cpp_high_performance_bin.Errors.{ok}
use cpp_high_performance_bin.Event.{Event, IsEvent}
use cpp_high_performance_bin.BinaryLog.{k_max_payload_bytes}
use cpp_high_performance_bin.BinaryLog.Stream.{Ofstream, taken, Ifstream, open_input}
use cpp_high_performance_bin.BinaryLog.Format.{file_header, file_bytes, records, IsStorable}
use cpp_high_performance_bin.BinaryLog.Writer
use cpp_high_performance_bin.BinaryLog.Writer.{Writer, WriterOptions}
use cpp_high_performance_bin.BinaryLog.Writer.Steps.{admitted}
use cpp_high_performance_bin.BinaryLog.Writer.Log.{
  Call, appends, flushes, closes, run, perform, accepted, accepted_by, run-file_prefix,
  length-file_header, close-file_complete,
}
use cpp_high_performance_bin.BinaryLog.Reader
use cpp_high_performance_bin.BinaryLog.Reader.{Reader}
use cpp_high_performance_bin.BinaryLog.Reader.Open.{opened_at, construct-file_header}
use cpp_high_performance_bin.BinaryLog.Reader.Replay.{finished, replay, replay-records}
use cpp_high_performance_bin.BinaryLog.Reader.Cut.{Delivers, replay-cut}

-- The events of the calls are values of the C++ type.
abbrev pub IsTyped : Call → Type 0
IsTyped (appends e) = IsEvent e
IsTyped flushes = Unit
IsTyped closes = Unit

admitted-IsStorable : (w : Writer) (e : Event) → IsEvent e → All IsStorable (admitted w e)
admitted-IsStorable w e typed = elim (Bool-cases w.closed) [
  | inl shut ↦ rw shut tt
  | inr open_ ↦ elim (Bool-cases (leb (length e.payload) k_max_payload_bytes)) [
    | inl small ↦ rw (open_, small) (record { typed = typed; fits = ground arith }, tt)
    | inr large ↦ rw (open_, large) tt
  ]
]

pub accepted-IsStorable :
    (cs : List Call) (w : Writer) → All IsTyped cs → All IsStorable (accepted cs w)
unfolding accepted accepted_by
accepted-IsStorable [] w typed = tt
accepted-IsStorable (appends e ∷ cs) w typed =
    All-append IsStorable (admitted w e) _ (admitted-IsStorable w e typed.0)
      (accepted-IsStorable cs (perform (appends e) w) typed.1)
accepted-IsStorable (flushes ∷ cs) w typed = accepted-IsStorable cs (perform flushes w) typed.1
accepted-IsStorable (closes ∷ cs) w typed = accepted-IsStorable cs (perform closes w) typed.1

-- A beginning that is not shorter than the first part goes into the second.
split_prefix :
    (xs missing front back : List ℕ)
    → xs ++ missing ≡ front ++ back
    → length front ≤ length xs
    → (body : List ℕ) × (xs ≡ front ++ body) × (body ++ missing ≡ back)
split_prefix xs missing [] back e h = (xs, refl, e)
split_prefix [] missing (y ∷ front) back e h = absurd (omega arith)
split_prefix (x ∷ xs) missing (y ∷ front) back e h =
    let (body, same, rest) = split_prefix xs missing front back (cc e) (omega (arith, h)) in
    (body, cc (e, same), rest)

module _ (out : Ofstream) (options : WriterOptions) (now : ℕ) (w : Writer) (empty : taken out ≡ [])
    (made : Writer.construct out options now ≡ (ok tt, w)) (clock : now < 2 ^ 64) (cs : List Call)
    (typed : All IsTyped cs) where
  -- Take a writer whose constructor returned on an empty file at a time below 2 ^ 64. After any
  -- calls with events of the C++ type and then a `close` that returns, the reader opens the file,
  -- its info carries the creation time, and with fuel for more than the accepted events the loop
  -- delivers exactly these, in order, up to the end of the file.
  pub replay-close :
      {w' : Writer} (fuel : ℕ)
      → Writer.close (run cs w) ≡ (ok tt, w')
      → length (accepted cs w) < fuel
      → (r : Reader) × (Reader.construct (open_input w'.out.content) ≡ (ok tt, r))
        × (r.info.created_unix_ns ≡ now)
        × (replay fuel r ≡ (accepted cs w, finished))
  unfolding file_bytes
  replay-close {w'} fuel closed enough = (
    opened_at input now (records (accepted cs w)),
    construct-file_header now (records (accepted cs w)) input clock refl whole,
    refl,
    replay-records (accepted cs w) fuel _ (accepted-IsStorable cs w typed) enough refl refl refl,
  )
    where
      input : Ifstream
      input = open_input w'.out.content

      whole : w'.out.content ≡ file_bytes now (accepted cs w)
      whole = close-file_complete out options now w empty made cs closed

  -- Take a writer whose constructor returned on an empty file at a time below 2 ^ 64. After any
  -- calls with events of the C++ type, whatever the device has answered, once the file has the 36
  -- bytes of a header the reader opens it, and with fuel for more than the accepted events the
  -- loop delivers the first of these, each unchanged and in order; it ends at a record boundary or
  -- with an error that reports a truncated header or payload.
  pub replay-run :
      (fuel : ℕ)
      → 36 ≤ length (run cs w).out.content
      → length (accepted cs w) < fuel
      → (r : Reader) × (Reader.construct (open_input (run cs w).out.content) ≡ (ok tt, r))
        × Delivers (accepted cs w) (replay fuel r)
  unfolding file_bytes
  replay-run fuel headed enough =
      let content = (run cs w).out.content in
      let (missing, whole) = run-file_prefix out options now w empty made cs in
      let (body, split, rest) =
        split_prefix content missing (file_header now) (records (accepted cs w)) whole
          (omega (arith, headed, length-file_header now)) in
      (
        opened_at (open_input content) now body,
        construct-file_header now body (open_input content) clock refl split,
        replay-cut (accepted cs w) fuel _ missing (accepted-IsStorable cs w typed) enough refl refl
            rest,
      )
