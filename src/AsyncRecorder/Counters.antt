-- ===== src/AsyncRecorder/Counters.antt =====
-- The counters of `AsyncRecorder` (src/core/async_recorder.cpp).
use cpp_high_performance_bin.Base.{
  ℕ, ◌+◌, ◌%◌, ◌^◌, ◌≡◌, refl, sym, ap, ap₂, subst, ◌∙◌, true, false, arith, List, [], ◌∷◌, length,
  length-append, get_or,
}
use cpp_high_performance_bin.Errors.{ok}
use cpp_high_performance_bin.Event.{Event}
use cpp_high_performance_bin.BinaryLog.Stream.{Ofstream, taken}
use cpp_high_performance_bin.BinaryLog.Writer
use cpp_high_performance_bin.BinaryLog.Writer.{Writer, WriterOptions}
use cpp_high_performance_bin.AsyncRecorder.{
  construct, AsyncRecorder, finished, answered, submit_step, Stop, exchanging, joining, stopped,
  stop_step, stats,
}
use cpp_high_performance_bin.AsyncRecorder.Invariant.{Inv, healthy, is_none}
use cpp_high_performance_bin.AsyncRecorder.Runs.{
  World, Move, writer_moves, stop_called, submit_called, submit_moves, stop_moves, accepts, move,
  moves, begin, IsSound, move-IsSound, submit_step-thread, stop_step-thread, all_logged, begun,
}
use cpp_high_performance_bin.AsyncRecorder.Stops.{submit_step-error, stop_step-error, stop_complete}
use cpp_high_performance_bin.AsyncRecorder.Counting.{
  all_uncounted-append, all_uncounted-set, submit_step-Submitted, run_step-Written, Counted,
  uncounted, all_uncounted, unwritten,
}

-- What is said of the log stays, where the thread, its error and its counter do.
carry :
    (r r' : AsyncRecorder) (logged : List Event)
    → r'.writer_thread ≡ r.writer_thread
    → r'.writer_error ≡ r.writer_error
    → r'.written ≡ r.written
    → (healthy r.writer_thread r.writer_error ≡ true
        → (r.written + unwritten r.writer_thread) % 2 ^ 64 ≡ length logged % 2 ^ 64)
    → healthy r'.writer_thread r'.writer_error ≡ true
    → (r'.written + unwritten r'.writer_thread) % 2 ^ 64 ≡ length logged % 2 ^ 64
carry r r' logged t e c k g = omega (arith, k (sym (ap₂ healthy t e) ∙ g), c, ap unwritten t)

stop_step_counters :
    (s : Stop) (r : AsyncRecorder)
    → ((stop_step s r).1.submitted ≡ r.submitted) × ((stop_step s r).1.written ≡ r.written)
unfolding stop_step
stop_step_counters exchanging r = (refl, refl)
stop_step_counters s r = (refl, refl)

move-Counted : (now : ℕ) (m : Move) (w : World) → IsSound now w → Counted w → Counted (move m w)
unfolding move IsSound
move-Counted now writer_moves w inv c =
    let t = w.recorder.writer_thread in
    let d = run_step-Written now t w.recorder w.logged w.accepted refl inv c.small c.written in
    record {
      fits = omega (arith, d.apart, c.fits);
      submitted = omega (arith, d.apart, c.submitted);
      small = d.small;
      written = d.moved;
    }
move-Counted now stop_called w inv c = record {
  fits = c.fits;
  submitted = c.submitted;
  small = c.small;
  written = c.written;
}
move-Counted now (submit_called event) w inv c = record {
  fits = c.fits;
  submitted = omega (arith, c.submitted, all_uncounted-append w.submissions event);
  small = c.small;
  written = c.written;
}
move-Counted now (submit_moves i) w inv c =
    let s = get_or w.submissions i (answered false) in
    let d = submit_step-Submitted s w.recorder c.fits in
    let counts =
      all_uncounted-set (λ t. (submit_step t w.recorder).0) w.submissions i
        (answered_same w.recorder) in
    record {
      fits = d.fits;
      submitted =
          omega
            (arith, c.submitted, d.moved, counts, length-append w.accepted (accepts s w.recorder));
      small = omega (arith, d.apart, c.small);
      written =
          carry w.recorder (submit_step s w.recorder).1 w.logged (submit_step-thread s w.recorder)
            (submit_step-error s w.recorder) d.apart c.written;
    }
  where
    answered_same : (r : AsyncRecorder) → uncounted (submit_step (answered false) r).0 ≡ 0
    answered_same r = unfold submit_step in refl
move-Counted now (stop_moves i) w inv c =
    let s = get_or w.stops i joining in
    let d = stop_step_counters s w.recorder in
    record {
      fits = omega (arith, d.0, c.fits);
      submitted = omega (arith, d.0, c.submitted);
      small = omega (arith, d.1, c.small);
      written =
          carry w.recorder (stop_step s w.recorder).1 w.logged (stop_step-thread s w.recorder)
            (stop_step-error s w.recorder) d.1 c.written;
    }

moves-Counted :
    (now : ℕ) (ms : List Move) (w : World) → IsSound now w → Counted w → Counted (moves ms w)
unfolding moves
moves-Counted now [] w inv c = c
moves-Counted now (m ∷ ms) w inv c =
    moves-Counted now ms (move m w) (move-IsSound now m w inv) (move-Counted now m w inv c)

module _ (out : Ofstream) (options : WriterOptions) (now : ℕ) (writer : Writer)
    (empty : taken out ≡ []) (made : Writer.construct out options now ≡ (ok tt, writer))
    (capacity : ℕ) (ms : List Move) (i : ℕ) where
  -- Take a recorder whose writer was made on an empty file. After any interleaving of calls of
  -- `submit` and `stop` and of the writer thread, if some call of `stop` has returned without an
  -- exception and no call of `submit` stands between its push and its counter, then `stats` gives
  -- the number of accepted events modulo 2 ^ 64 both as submitted and as written, and an empty
  -- queue.
  pub stats_agree :
      get_or (moves ms (begin writer capacity)).stops i joining ≡ stopped
      → all_uncounted (moves ms (begin writer capacity)).submissions ≡ 0
      → let s = stats (moves ms (begin writer capacity)).recorder in
        (s.submitted ≡ length (moves ms (begin writer capacity)).accepted % 2 ^ 64)
        × (s.written ≡ length (moves ms (begin writer capacity)).accepted % 2 ^ 64)
        × (s.queue_depth ≡ 0)
  unfolding stats construct
  stats_agree returned none_open =
      let last = moves ms (begin writer capacity) in
      let seen = stop_complete out options now writer empty made capacity ms i returned in
      let inv : Inv now last.recorder finished last.logged last.accepted =
        subst (λ t. Inv now last.recorder t last.logged last.accepted) seen.0
          (unfold IsSound in begun out options now writer empty made capacity ms) in
      let c =
        moves-Counted now ms (begin writer capacity)
          (unfold moves in begun out options now writer empty made capacity [])
          (record {
            fits = omega arith;
            submitted = refl;
            small = omega arith;
            written = λ g. refl;
          }) in
      let healthy_ : healthy last.recorder.writer_thread last.recorder.writer_error ≡ true =
        ap₂ healthy seen.0 seen.1 in
      let logged = ap length (all_logged last.recorder inv seen.1) in
      (
        omega (arith, c.submitted, c.fits, none_open),
        omega (arith, c.written healthy_, c.small, ap unwritten seen.0, logged),
        ap length (inv.drained (ap is_none seen.1) refl).0,
      )
