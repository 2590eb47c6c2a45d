-- ===== src/BinaryLog/Writer/Log.antt =====
-- The file that a `BinaryLogWriter` (src/core/binary_log.cpp) leaves after any calls.
use cpp_high_performance_bin.Base.{
  ℕ, ◌+◌, ◌%◌, ◌^◌, false, Bool-cases, ◌≡◌, refl, sym, ap, ◌∙◌, inl, inr, arith, List, [], ◌∷◌,
  ◌++◌, length, append-nil, append_assoc,
}
use cpp_high_performance_bin.Errors.{ok, after, after_eq_ok, modify}
use cpp_high_performance_bin.Event.{Event}
use cpp_high_performance_bin.BinaryLog.Stream
use cpp_high_performance_bin.BinaryLog.Stream.{Ofstream, taken}
use cpp_high_performance_bin.BinaryLog.Stream.Laws.{write-Stored, content_settled}
use cpp_high_performance_bin.BinaryLog.Format.{file_header, records, file_bytes}
use cpp_high_performance_bin.BinaryLog.Writer.{
  WriterOptions, Writer, write_all, write_file_header, effective, construct, append, flush, close,
}
use cpp_high_performance_bin.BinaryLog.Writer.Encode.{draft_file_header-eq, fill_file_header}
use cpp_high_performance_bin.BinaryLog.Writer.Invariant.{Inv}
use cpp_high_performance_bin.BinaryLog.Writer.Steps.{
  admitted, append-Inv, flush-Inv, flush_ok, close-Inv, close_ok,
}

write_file_header-eq :
    (now : ℕ) (w : Writer)
    → write_file_header now w
      ≡ after (write_all (file_header now) w) (λ _. modify (λ v. record v {
        stats = record (v.stats) { bytes_written = (v.stats.bytes_written + 36) % 2 ^ 64 };
      }))
unfolding write_file_header file_header
write_file_header-eq now w = rw (draft_file_header-eq, fill_file_header) refl

write_all_ok :
    (b : ℕ) (bs : List ℕ) (w w' : Writer)
    → write_all (b ∷ bs) w ≡ (ok tt, w')
    → (w' ≡ record w { out = Stream.write w.out (b ∷ bs) }) × (w'.out.fail ≡ false)
unfolding write_all
write_all_ok b bs w w' e = ground arith

-- The writer behind its file header.
headed : ℕ → Writer → Writer
headed now w = record w {
  out = Stream.write w.out (file_header now);
  stats = record (w.stats) { bytes_written = (w.stats.bytes_written + 36) % 2 ^ 64 };
}

write_file_header_ok :
    (now : ℕ) (w w' : Writer)
    → write_file_header now w ≡ (ok tt, w')
    → (w' ≡ headed now w) × ((Stream.write w.out (file_header now)).fail ≡ false)
unfolding headed file_header
write_file_header_ok now w w' e =
    let (a, v, p, q) =
      after_eq_ok (write_all (file_header now) w) _ (sym (write_file_header-eq now w) ∙ e) in
    let wrote = write_all_ok _ _ w v p in (cc (wrote.0), ground (arith, wrote))

pub length-file_header : (now : ℕ) → length (file_header now) ≡ 36
unfolding file_header
length-file_header now = refl

headed-Inv :
    (now : ℕ) (w : Writer)
    → taken w.out ≡ []
    → w.buffer ≡ []
    → w.closed ≡ false
    → w.stats ≡ record { events_written = 0; bytes_written = 0 }
    → (Stream.write w.out (file_header now)).fail ≡ false
    → Inv now [] (headed now w)
unfolding headed file_bytes records
headed-Inv now w content buffer open_ stats good =
    let st = write-Stored w.out (file_header now) in
    let all = st.whole good in
    let stored : taken (Stream.write w.out (file_header now)) ≡ file_header now =
      st.content
      ∙ ap (λ t. t ++ st.kept) content
      ∙ sym (append-nil st.kept)
      ∙ ap (◌++◌ st.kept) (sym all.1)
      ∙ st.split in
    record {
      missing = [];
      body = [];
      headed = stored ∙ sym (append-nil (file_header now));
      behind = append-nil _ ∙ stored ∙ sym (append-nil (file_header now));
      healthy = λ _. sym buffer;
      drained = λ h. ground arith;
      events_count = ap (λ s. s.events_written) stats;
      bytes_count = omega (
        arith,
        ap (λ s. s.bytes_written) stats,
        length-file_header now,
        ap length (append-nil (file_header now)),
      );
    }

pub construct-Inv :
    (out : Ofstream) (options : WriterOptions) (now : ℕ) {w : Writer}
    → taken out ≡ []
    → construct out options now ≡ (ok tt, w)
    → Inv now [] w
unfolding construct
construct-Inv out options now {w} empty e = elim (Bool-cases out.fail) [
  | inl bad ↦ let h = simp bad at e in cc
  | inr good ↦
      let h : write_file_header now fresh ≡ (ok tt, w) = simp good at e in
      let headed_ok = write_file_header_ok now fresh w h in
      rw headed_ok.0 (headed-Inv now fresh empty refl refl refl headed_ok.1)
]
  where
    fresh : Writer
    fresh = record {
      options = effective options;
      out = out;
      buffer = [];
      stats = record { events_written = 0; bytes_written = 0 };
      closed = false;
    }

pub construct_open :
    (out : Ofstream) (options : WriterOptions) (now : ℕ) {w : Writer}
    → construct out options now ≡ (ok tt, w)
    → w.closed ≡ false
unfolding construct headed
construct_open out options now {w} e = elim (Bool-cases out.fail) [
  | inl bad ↦ let h = simp bad at e in cc
  | inr good ↦
      let h = simp good at e in
      let headed_ok = write_file_header_ok now _ w h in ap (λ (v : Writer). v.closed) headed_ok.0
]

-- A call on a writer. An exception goes to the caller, who may call again.
pub data Call : Type 0 where
  appends : Event → Call
  flushes closes : Call

unfoldable pub perform : Call → Writer → Writer
perform (appends e) w = (append e w).1
perform flushes w = (flush w).1
perform closes w = (close w).1

-- The events that a call accepts: those of `append` on an open writer within the size limit.
unfoldable pub accepted_by : Call → Writer → List Event
accepted_by (appends e) w = admitted w e
accepted_by flushes w = []
accepted_by closes w = []

unfoldable pub run : List Call → Writer → Writer
run [] w = w
run (c ∷ cs) w = run cs (perform c w)

unfoldable pub accepted : List Call → Writer → List Event
accepted [] w = []
accepted (c ∷ cs) w = accepted_by c w ++ accepted cs (perform c w)

perform-Inv :
    {now : ℕ} {es : List Event} (c : Call) (w : Writer)
    → Inv now es w
    → Inv now (es ++ accepted_by c w) (perform c w)
unfolding perform accepted_by
perform-Inv (appends e) w inv = append-Inv w e inv
perform-Inv flushes w inv = rw append-nil (flush-Inv w inv)
perform-Inv closes w inv = rw append-nil (close-Inv w inv)

pub run-Inv :
    {now : ℕ} (es : List Event) (cs : List Call) (w : Writer)
    → Inv now es w
    → Inv now (es ++ accepted cs w) (run cs w)
unfolding run accepted
run-Inv es [] w inv = rw append-nil inv
run-Inv es (c ∷ cs) w inv =
    rw (← append_assoc es (accepted_by c w))
      (run-Inv (es ++ accepted_by c w) cs (perform c w) (perform-Inv c w inv))

-- With nothing left in the writer's buffer, the stream has taken the whole log.
pub behind_empty :
    {now : ℕ} {es : List Event} {w : Writer}
    → Inv now es w
    → w.buffer ≡ []
    → w.out.fail ≡ false
    → taken w.out ≡ file_bytes now es
behind_empty {now} {es} {w} inv empty good =
    sym (append-nil (taken w.out))
    ∙ ap (◌++◌ (taken w.out)) (sym (inv.healthy good ∙ empty))
    ∙ inv.behind

module _ (out : Ofstream) (options : WriterOptions) (now : ℕ) (w : Writer) (empty : taken out ≡ [])
    (made : construct out options now ≡ (ok tt, w)) where
  -- Take a writer whose constructor returned on an empty file. After any calls, whatever the
  -- device answers and whichever calls throw, what is in the file is the beginning of the log: of
  -- the file header and the records of the accepted events, in order.
  pub run-file_prefix :
      (cs : List Call)
      → (missing : List ℕ) × ((run cs w).out.content ++ missing ≡ file_bytes now (accepted cs w))
  run-file_prefix cs =
      let inv = run-Inv [] cs w (construct-Inv out options now empty made) in
      let out' = (run cs w).out in
      (
        out'.pending ++ inv.missing,
        sym (append_assoc out'.content out'.pending inv.missing) ∙ inv.behind,
      )

  -- Take a writer whose constructor returned on an empty file. A `flush` that returns, after any
  -- calls, leaves an open writer with the file header and the records of all accepted events in
  -- the file, and nothing else.
  pub flush-file_complete :
      (cs : List Call) {w' : Writer}
      → flush (run cs w) ≡ (ok tt, w')
      → w'.out.content ≡ file_bytes now (accepted cs w)
  flush-file_complete cs {w'} e = elim (Bool-cases (run cs w).closed) [
    | inl shut ↦
        let same : w' ≡ run cs w = unfold flush in ground arith in
        let d = before.drained shut in
        ap (λ v. v.out.content) same
        ∙ content_settled (run cs w).out d.2
        ∙ behind_empty before (d.0) (d.1)
    | inr open_ ↦
        let d = flush_ok (run cs w) w' open_ e in
        content_settled w'.out d.3 ∙ behind_empty after_ d.0 d.2
  ]
    where
      before : Inv now (accepted cs w) (run cs w)
      before = run-Inv [] cs w (construct-Inv out options now empty made)

      after_ : Inv now (accepted cs w) w'
      after_ = let kept = flush-Inv (run cs w) before in rw e at kept

  -- Take a writer whose constructor returned on an empty file. A `close` that returns, after any
  -- calls, leaves the file header and the records of all accepted events in the file, and nothing
  -- else.
  pub close-file_complete :
      (cs : List Call) {w' : Writer}
      → close (run cs w) ≡ (ok tt, w')
      → w'.out.content ≡ file_bytes now (accepted cs w)
  close-file_complete cs {w'} e =
      content_settled w'.out drained.2 ∙ behind_empty inv drained.0 drained.1
    where
      inv : Inv now (accepted cs w) w'
      inv =
          let after_close =
            close-Inv (run cs w) (run-Inv [] cs w (construct-Inv out options now empty made)) in
          rw e at after_close

      drained : (w'.buffer ≡ []) × (w'.out.fail ≡ false) × (w'.out.pending ≡ [])
      drained = inv.drained (close_ok (run cs w) w' e)

  -- Take a writer whose constructor returned on an empty file. After any calls the statistics are
  -- the number of the accepted events and of the bytes of their log, modulo 2 ^ 64.
  pub run-stats :
      (cs : List Call)
      → ((run cs w).stats.events_written ≡ length (accepted cs w) % 2 ^ 64)
        × ((run cs w).stats.bytes_written ≡ length (file_bytes now (accepted cs w)) % 2 ^ 64)
  run-stats cs =
      let inv = run-Inv [] cs w (construct-Inv out options now empty made) in
      (inv.events_count, inv.bytes_count)
