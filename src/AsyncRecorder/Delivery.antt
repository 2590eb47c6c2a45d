-- ===== src/AsyncRecorder/Delivery.antt =====
-- From `submit` (src/core/async_recorder.cpp) to the reader of src/core/binary_log.cpp.
use cpp_high_performance_bin.Base.{
  ℕ, ◌^◌, ◌≤◌, ◌<◌, ◌≡◌, refl, subst, true, false, leb, if◌then◌else◌, Bool, Bool-cases, inl, inr,
  none, some, Option, arith, List, [], ◌∷◌, length, get_or, All, All-append, All-set, All-get_or,
}
use cpp_high_performance_bin.Errors.{Error, ok}
use cpp_high_performance_bin.Event.{Event, IsEvent}
use cpp_high_performance_bin.BinaryLog.{k_max_payload_bytes}
use cpp_high_performance_bin.BinaryLog.Stream.{Ofstream, taken, Ifstream, open_input}
use cpp_high_performance_bin.BinaryLog.Format.{file_bytes, records, IsStorable}
use cpp_high_performance_bin.BinaryLog.Writer
use cpp_high_performance_bin.BinaryLog.Writer.{Writer, WriterOptions}
use cpp_high_performance_bin.BinaryLog.Writer.Steps.{admitted}
use cpp_high_performance_bin.BinaryLog.Reader
use cpp_high_performance_bin.BinaryLog.Reader.{Reader}
use cpp_high_performance_bin.BinaryLog.Reader.Open.{opened_at, construct-file_header}
use cpp_high_performance_bin.BinaryLog.Reader.Replay.{finished, replay, replay-records}
use cpp_high_performance_bin.BlockingQueue.{Answer, waits, returns, push}
use cpp_high_performance_bin.BlockingQueue.Runs.{pushed}
use cpp_high_performance_bin.AsyncRecorder
use cpp_high_performance_bin.AsyncRecorder.{
  AsyncRecorder, WriterThread, popping, appending, counting, flushing, failing, closing, run_step,
  Submission, entering, testing, pushing, accepting, rejecting, answered, rethrown, submit_step,
  after_check, after_push, Stop, joining, stopped, stop_step,
}
use cpp_high_performance_bin.AsyncRecorder.Invariant.{Inv, logs}
use cpp_high_performance_bin.AsyncRecorder.Runs.{
  World, Move, writer_moves, stop_called, submit_called, submit_moves, stop_moves, accepts, move,
  moves, begin, IsSound, all_logged, begun,
}
use cpp_high_performance_bin.AsyncRecorder.Stops.{stop_complete}

-- The events that are submitted are values of the C++ type.
abbrev pub IsTypedMove : Move → Type 0
IsTypedMove (submit_called event) = IsEvent event
IsTypedMove writer_moves = Unit
IsTypedMove stop_called = Unit
IsTypedMove (submit_moves i) = Unit
IsTypedMove (stop_moves i) = Unit

abbrev IsTypedCall : Submission → Type 0
IsTypedCall (entering event) = IsEvent event
IsTypedCall (testing event) = IsEvent event
IsTypedCall (pushing event) = IsEvent event
IsTypedCall accepting = Unit
IsTypedCall rejecting = Unit
IsTypedCall (answered b) = Unit
IsTypedCall (rethrown error) = Unit

abbrev Fits : Event → Type 0
Fits e = length e.payload ≤ k_max_payload_bytes

record Typed (w : World) : Type 0 where
  calls : All IsTypedCall w.submissions
  accepted : All IsEvent w.accepted
  logged : All Fits w.logged

admitted-Fits : (w : Writer) (e : Event) → All Fits (admitted w e)
admitted-Fits w e = elim (Bool-cases w.closed) [
  | inl shut ↦ rw shut tt
  | inr open_ ↦ elim (Bool-cases (leb (length e.payload) k_max_payload_bytes)) [
    | inl small ↦ rw (open_, small) (ground arith, tt)
    | inr large ↦ rw (open_, large) tt
  ]
]

logs-Fits : (t : WriterThread) (r : AsyncRecorder) → All Fits (logs t r)
unfolding logs
logs-Fits (appending event) r = admitted-Fits r.writer event
logs-Fits popping r = tt
logs-Fits counting r = tt
logs-Fits flushing r = tt
logs-Fits (failing error) r = tt
logs-Fits closing r = tt
logs-Fits AsyncRecorder.finished r = tt

checked-IsTypedCall : (o : Option Error) (e : Event) → IsEvent e → IsTypedCall (after_check o e)
unfolding after_check
checked-IsTypedCall none e h = h
checked-IsTypedCall (some error) e h = tt

tested-IsTypedCall :
    (b : Bool) (e : Event) → IsEvent e → IsTypedCall (if b then rejecting else pushing e)
tested-IsTypedCall true e h = tt
tested-IsTypedCall false e h = h

pushed-IsEvent :
    (answer : Answer Bool) (e : Event)
    → IsEvent e
    → IsTypedCall (after_push answer e) × All IsEvent (pushed e answer)
unfolding after_push pushed
pushed-IsEvent waits e h = (h, tt)
pushed-IsEvent (returns true) e h = (tt, (h, tt))
pushed-IsEvent (returns false) e h = (tt, tt)

submit_step-IsTypedCall :
    (s : Submission) (r : AsyncRecorder)
    → IsTypedCall s
    → IsTypedCall (submit_step s r).0 × All IsEvent (accepts s r)
unfolding submit_step accepts
submit_step-IsTypedCall (entering event) r h = (checked-IsTypedCall r.writer_error event h, tt)
submit_step-IsTypedCall (testing event) r h = (tested-IsTypedCall r.stopping event h, tt)
submit_step-IsTypedCall (pushing event) r h = pushed-IsEvent (push event r.queue).0 event h
submit_step-IsTypedCall accepting r h = (tt, tt)
submit_step-IsTypedCall rejecting r h = (tt, tt)
submit_step-IsTypedCall (answered b) r h = (tt, tt)
submit_step-IsTypedCall (rethrown error) r h = (tt, tt)

move-Typed : (m : Move) (w : World) → IsTypedMove m → Typed w → Typed (move m w)
unfolding move
move-Typed writer_moves w h t = record {
  calls = t.calls;
  accepted = t.accepted;
  logged =
      All-append Fits w.logged (logs w.recorder.writer_thread w.recorder) t.logged
        (logs-Fits w.recorder.writer_thread w.recorder);
}
move-Typed stop_called w h t = record { calls = t.calls; accepted = t.accepted; logged = t.logged }
move-Typed (submit_called event) w h t = record {
  calls = All-append IsTypedCall w.submissions (entering event ∷ []) t.calls (h, tt);
  accepted = t.accepted;
  logged = t.logged;
}
move-Typed (submit_moves i) w h t =
    let s = get_or w.submissions i (answered false) in
    let d =
      submit_step-IsTypedCall s w.recorder
        (All-get_or IsTypedCall w.submissions i (answered false) tt t.calls) in
    record {
      calls = All-set IsTypedCall w.submissions i (submit_step s w.recorder).0 d.0 t.calls;
      accepted = All-append IsEvent w.accepted (accepts s w.recorder) t.accepted d.1;
      logged = t.logged;
    }
move-Typed (stop_moves i) w h t = record {
  calls = t.calls;
  accepted = t.accepted;
  logged = t.logged;
}

moves-Typed : (ms : List Move) (w : World) → All IsTypedMove ms → Typed w → Typed (moves ms w)
unfolding moves
moves-Typed [] w h t = t
moves-Typed (m ∷ ms) w h t = moves-Typed ms (move m w) h.1 (move-Typed m w h.0 t)

storable : (es : List Event) → All IsEvent es → All Fits es → All IsStorable es
storable [] h f = tt
storable (e ∷ es) h f = (record { typed = h.0; fits = f.0 }, storable es h.1 f.1)

module _ (out : Ofstream) (options : WriterOptions) (now : ℕ) (writer : Writer)
    (empty : taken out ≡ []) (made : Writer.construct out options now ≡ (ok tt, writer))
    (clock : now < 2 ^ 64) (capacity : ℕ) (ms : List Move) (typed : All IsTypedMove ms)
    (i : ℕ) where
  -- Take a recorder whose writer was made on an empty file at a time below 2 ^ 64. After any
  -- interleaving of calls of `submit`, with events of the C++ type, of calls of `stop` and of the
  -- writer thread, if some call of `stop` has returned without an exception, the reader opens the
  -- file and with fuel for more than the accepted events the loop delivers exactly these, in the
  -- order in which the queue accepted them, up to the end of the file.
  pub stop_replay :
      (fuel : ℕ)
      → get_or (moves ms (begin writer capacity)).stops i joining ≡ stopped
      → length (moves ms (begin writer capacity)).accepted < fuel
      → (r : Reader) × (Reader.construct
            (open_input (moves ms (begin writer capacity)).recorder.writer.out.content)
          ≡ (ok tt, r))
        × (replay fuel r ≡ ((moves ms (begin writer capacity)).accepted, finished))
  unfolding file_bytes
  stop_replay fuel returned enough = (
    opened_at input now (records last.accepted),
    construct-file_header now (records last.accepted) input clock refl seen.2,
    replay-records last.accepted fuel (opened_at input now (records last.accepted)) stored enough
        refl refl refl,
  )
    where
      last : World
      last = moves ms (begin writer capacity)

      input : Ifstream
      input = open_input last.recorder.writer.out.content

      seen :
          (last.recorder.writer_thread ≡ AsyncRecorder.finished)
          × (last.recorder.writer_error ≡ none)
          × (last.recorder.writer.out.content ≡ file_bytes now last.accepted)
      seen = stop_complete out options now writer empty made capacity ms i returned

      inv : Inv now last.recorder AsyncRecorder.finished last.logged last.accepted
      inv =
          subst (λ t. Inv now last.recorder t last.logged last.accepted) seen.0
            (unfold IsSound in begun out options now writer empty made capacity ms)

      types : Typed last
      types =
          moves-Typed ms (begin writer capacity) typed
            (record { calls = tt; accepted = tt; logged = tt })

      stored : All IsStorable last.accepted
      stored =
          storable last.accepted types.accepted
            (subst (All Fits) (all_logged last.recorder inv seen.1) types.logged)
