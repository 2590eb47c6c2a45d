-- ===== src/Apps/Tool/Inspected.antt =====
-- `inspect` (apps/hpblr_tool.cpp) on a file that `BinaryLogWriter` wrote.
use cpp_high_performance_bin.Base.{
  ℕ, zero, suc, ◌^◌, ◌<◌, ◌≡◌, refl, sym, ap, ◌∙◌, false, arith, List, [], ◌∷◌, ◌++◌, append_assoc,
  append-nil, length, All, Option, none, some, Text,
}
use cpp_high_performance_bin.Errors.{Result, ok}
use cpp_high_performance_bin.Event.{Event}
use cpp_high_performance_bin.BinaryLog.Stream.{Ifstream, open_input, Ofstream, taken}
use cpp_high_performance_bin.BinaryLog.Format.{records, file_bytes, IsStorable}
use cpp_high_performance_bin.BinaryLog.Reader.{Reader, next, note_timestamp}
use cpp_high_performance_bin.BinaryLog.Reader.Next.{rest_at, next-record_bytes, next_end}
use cpp_high_performance_bin.BinaryLog.RoundTrip.{IsTyped, accepted-IsStorable}
use cpp_high_performance_bin.BinaryLog.Writer
use cpp_high_performance_bin.BinaryLog.Writer.{Writer, WriterOptions}
use cpp_high_performance_bin.BinaryLog.Writer.Log.{Call, run, accepted, close-file_complete}
use cpp_high_performance_bin.Apps.Tool.{CommonOptions}
use cpp_high_performance_bin.Apps.Tool.Inspect.{
  Summary, no_events, count_event, report, inspect_loop, inspect,
}
use cpp_high_performance_bin.BinaryLog.Reader.Replay.{finished}
use cpp_high_performance_bin.Apps.Tool.Recorded.{length-records, reading_file}
use cpp_high_performance_bin.Apps.Tool.Summaries.{
  summary, count_event-summary, info_of, first_timestamp, last_timestamp, total_payload,
  occurrences, first_timestamp-snoc, last_timestamp-snoc,
}
use cpp_high_performance_bin.Apps.Tool.Summed.{summed_up, report-summed_up}

-- A reader behind the events `seen`, in front of the bytes `rest`.
abbrev after_events : Ifstream → ℕ → List Event → List ℕ → Reader
after_events input now seen rest = record {
  input = record input { rest = rest };
  info = info_of now seen;
}

note-after_events :
    (input : Ifstream) (now : ℕ) (seen : List Event) (e : Event) (bytes rest : List ℕ)
    → note_timestamp e.timestamp_ns (rest_at (after_events input now seen bytes) rest)
      ≡ after_events input now (seen ++ e ∷ []) rest
unfolding note_timestamp
note-after_events input now seen e bytes rest = λ i. record {
  input = record input { rest = rest };
  info = record {
    version = 1;
    created_unix_ns = now;
    first_timestamp_ns = sym (first_timestamp-snoc seen e) i;
    last_timestamp_ns = sym (last_timestamp-snoc seen e) i;
  };
}

inspect_loop_event :
    (name : Text) (fuel : ℕ) (s s' : Summary) (r r' : Reader) (e : Event)
    → next r ≡ (ok (some e), r')
    → count_event e s ≡ ok s'
    → inspect_loop name (suc fuel) s r ≡ inspect_loop name fuel s' r'
unfolding inspect_loop
inspect_loop_event name fuel s s' r r' e h c =
    rw (h, inspect_loop)
      (rw (c, inspect_loop)
        (ap (λ (t : Result (Option Event) × Reader). inspect_loop name fuel s' t.1) h))

inspect_loop_end :
    (name : Text) (fuel : ℕ) (s : Summary) (r r' : Reader)
    → next r ≡ (ok none, r')
    → inspect_loop name (suc fuel) s r ≡ report name r'.info s
unfolding inspect_loop
inspect_loop_end name fuel s r r' h =
    rw (h, inspect_loop) (ap (λ (t : Result (Option Event) × Reader). report name t.1.info s) h)

inspect_loop-records :
    (name : Text) (es seen : List Event) (fuel now : ℕ) (input : Ifstream)
    → All IsStorable es
    → length es < fuel
    → input.fail ≡ false
    → input.broken ≡ false
    → inspect_loop name fuel (summary seen) (after_events input now seen (records es))
      ≡ report name (info_of now (seen ++ es)) (summary (seen ++ es))
unfolding records
inspect_loop-records name es seen zero now input storable enough good sound = absurd (omega arith)
inspect_loop-records name [] seen (suc fuel) now input storable enough good sound =
    inspect_loop_end name fuel (summary seen) (after_events input now seen []) _
      (next_end (after_events input now seen []) good sound refl)
    ∙ ap (λ es. report name (info_of now es) (summary es)) (sym (append-nil seen))
inspect_loop-records name (e ∷ es) seen (suc fuel) now input storable enough good sound =
    inspect_loop_event name fuel (summary seen) (summary (seen ++ e ∷ []))
      (after_events input now seen (records (e ∷ es))) _ e
      (next-record_bytes e (records es) (after_events input now seen (records (e ∷ es))) storable.0
        good refl)
      (count_event-summary seen e)
    ∙ ap (inspect_loop name fuel (summary (seen ++ e ∷ [])))
        (note-after_events input now seen e (records (e ∷ es)) (records es))
    ∙ inspect_loop-records name es (seen ++ e ∷ []) fuel now input storable.1 (omega arith) good
        sound
    ∙ ap (λ fs. report name (info_of now fs) (summary fs)) (append_assoc seen (e ∷ []) es)

-- Take a writer whose constructor returned on an empty file at a time below 2 ^ 64, any calls with
-- events of the C++ type, and a `close` that returns. `inspect` prints of the file, each behind its
-- name and on a line of its own, the path, the version, the creation time, as a number and in UTC,
-- and, modulo 2 ^ 64, the number of events that `append` accepted and the sum of their payload
-- sizes, then, where that number is not 0, the first timestamp that is not 0 and the last timestamp,
-- and how many of the events have each severity, modulo 2 ^ 64; it ends without an exception.
pub inspect-close :
    (opts : CommonOptions) (out : Ofstream) (options : WriterOptions) (now : ℕ) (w w' : Writer)
    (cs : List Call)
    → taken out ≡ []
    → Writer.construct out options now ≡ (ok tt, w)
    → now < 2 ^ 64
    → All IsTyped cs
    → Writer.close (run cs w) ≡ (ok tt, w')
    → inspect opts (open_input w'.out.content)
      ≡ (summed_up opts.input now (accepted cs w), finished)
unfolding inspect total_payload occurrences first_timestamp last_timestamp
inspect-close opts out options now w w' cs empty made clock typed closed =
    let es = accepted cs w in
    ap (λ bytes. inspect opts (open_input bytes))
      (close-file_complete out options now w empty made cs closed)
    ∙ reading_file (λ r. inspect_loop opts.input (suc (length r.input.rest)) no_events r) now es
        clock
    ∙ inspect_loop-records opts.input es [] (suc (length (records es))) now
        (open_input (file_bytes now es)) (accepted-IsStorable cs w typed)
        (omega (arith, length-records es)) refl refl
    ∙ report-summed_up opts.input now es
