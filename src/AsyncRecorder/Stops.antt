-- ===== src/AsyncRecorder/Stops.antt =====
-- What a call of `stop` (src/core/async_recorder.cpp) guarantees when it returns.
use cpp_high_performance_bin.Base.{
  Bool-cases, inl, inr, false, ℕ, ◌≡◌, refl, subst, ◌∙◌, none, some, Option, List, [], ◌∷◌, get_or,
  All, All-append, All-set, All-get_or,
}
use cpp_high_performance_bin.Errors.{ok, Error}
use cpp_high_performance_bin.BinaryLog.Stream.{Ofstream, taken}
use cpp_high_performance_bin.BinaryLog.Format.{file_bytes}
use cpp_high_performance_bin.BinaryLog.Writer
use cpp_high_performance_bin.BinaryLog.Writer.{Writer, WriterOptions}
use cpp_high_performance_bin.AsyncRecorder.{
  AsyncRecorder, WriterThread, popping, appending, counting, flushing, failing, closing, finished,
  run_step, Submission, pushing, answered, submit_step, Stop, exchanging, shutting, joining,
  checking, stopped, stop_rethrown, stop_step, after_join, after_stop_check,
}
use cpp_high_performance_bin.AsyncRecorder.Runs.{
  World, Move, writer_moves, stop_called, submit_called, submit_moves, stop_moves, move, moves,
  begin, submit_step-thread, stop_step-thread, finished_complete,
}

-- What a call of `stop` has seen at its place.
abbrev pub HasSeen : AsyncRecorder → Stop → Type 0
HasSeen r exchanging = Unit
HasSeen r shutting = Unit
HasSeen r joining = Unit
HasSeen r checking = r.writer_thread ≡ finished
HasSeen r stopped = (r.writer_thread ≡ finished) × (r.writer_error ≡ none)
HasSeen r (stop_rethrown error) = Unit

-- Once the writer thread has ended, it stays so and its error stays what it is.
record Settled (r r' : AsyncRecorder) : Type 0 where
  ended : r.writer_thread ≡ finished → r'.writer_thread ≡ finished
  kept : r.writer_thread ≡ finished → r'.writer_error ≡ r.writer_error

HasSeen-keep : (r r' : AsyncRecorder) (s : Stop) → Settled r r' → HasSeen r s → HasSeen r' s
HasSeen-keep r r' exchanging k h = tt
HasSeen-keep r r' shutting k h = tt
HasSeen-keep r r' joining k h = tt
HasSeen-keep r r' checking k h = k.ended h
HasSeen-keep r r' stopped k h = (k.ended h.0, k.kept h.0 ∙ h.1)
HasSeen-keep r r' (stop_rethrown error) k h = tt

all_seen :
    (r r' : AsyncRecorder) (ss : List Stop)
    → Settled r r'
    → All (HasSeen r) ss
    → All (HasSeen r') ss
all_seen r r' [] k h = tt
all_seen r r' (s ∷ ss) k h = (HasSeen-keep r r' s k h.0, all_seen r r' ss k h.1)

run_step-Settled : (r : AsyncRecorder) → Settled r (run_step r.writer_thread r)
unfolding run_step
run_step-Settled r = record { ended = λ h. rw h refl; kept = λ h. rw h refl }

pub submit_step-error :
    (s : Submission) (r : AsyncRecorder) → (submit_step s r).1.writer_error ≡ r.writer_error
unfolding submit_step
submit_step-error (pushing event) r = refl
submit_step-error s r = refl

pub stop_step-error :
    (s : Stop) (r : AsyncRecorder) → (stop_step s r).1.writer_error ≡ r.writer_error
unfolding stop_step
stop_step-error exchanging r = refl
stop_step-error s r = refl

after_join-HasSeen :
    (r : AsyncRecorder) (t : WriterThread) → r.writer_thread ≡ t → HasSeen r (after_join t)
unfolding after_join
after_join-HasSeen r finished h = h
after_join-HasSeen r popping h = tt
after_join-HasSeen r (appending event) h = tt
after_join-HasSeen r counting h = tt
after_join-HasSeen r flushing h = tt
after_join-HasSeen r (failing error) h = tt
after_join-HasSeen r closing h = tt

after_check-HasSeen :
    (r : AsyncRecorder) (e : Option Error)
    → r.writer_thread ≡ finished
    → r.writer_error ≡ e
    → HasSeen r (after_stop_check e)
unfolding after_stop_check
after_check-HasSeen r none h k = (h, k)
after_check-HasSeen r (some error) h k = tt

-- The next place of a call has seen what it promises.
stop_step-HasSeen :
    (s : Stop) (r : AsyncRecorder) → HasSeen r s → HasSeen (stop_step s r).1 (stop_step s r).0
unfolding stop_step
stop_step-HasSeen exchanging r h = elim (Bool-cases r.stopping) [
  | inl again ↦ rw again tt
  | inr first ↦ rw first tt
]
stop_step-HasSeen shutting r h = tt
stop_step-HasSeen joining r h = after_join-HasSeen r r.writer_thread refl
stop_step-HasSeen checking r h = after_check-HasSeen r r.writer_error h refl
stop_step-HasSeen stopped r h = h
stop_step-HasSeen (stop_rethrown error) r h = tt

abbrev HaveSeen : World → Type 0
HaveSeen w = All (HasSeen w.recorder) w.stops

move-HaveSeen : (m : Move) (w : World) → HaveSeen w → HaveSeen (move m w)
unfolding move
move-HaveSeen writer_moves w h =
    all_seen w.recorder (run_step w.recorder.writer_thread w.recorder) w.stops
      (run_step-Settled w.recorder) h
move-HaveSeen stop_called w h = All-append (HasSeen w.recorder) w.stops (exchanging ∷ []) h (tt, tt)
move-HaveSeen (submit_called event) w h = h
move-HaveSeen (submit_moves i) w h =
    let s = get_or w.submissions i (answered false) in
    all_seen w.recorder (submit_step s w.recorder).1 w.stops
      (record {
        ended = λ e. submit_step-thread s w.recorder ∙ e;
        kept = λ e. submit_step-error s w.recorder;
      })
      h
move-HaveSeen (stop_moves i) w h =
    let s = get_or w.stops i joining in
    let s' = stop_step s w.recorder in
    All-set (HasSeen s'.1) w.stops i s'.0
      (stop_step-HasSeen s w.recorder (All-get_or (HasSeen w.recorder) w.stops i joining tt h))
      (all_seen w.recorder s'.1 w.stops
        (record {
          ended = λ e. stop_step-thread s w.recorder ∙ e;
          kept = λ e. stop_step-error s w.recorder;
        })
        h)

moves-HaveSeen : (ms : List Move) (w : World) → HaveSeen w → HaveSeen (moves ms w)
unfolding moves
moves-HaveSeen [] w h = h
moves-HaveSeen (m ∷ ms) w h = moves-HaveSeen ms (move m w) (move-HaveSeen m w h)

module _ (out : Ofstream) (options : WriterOptions) (now : ℕ) (writer : Writer)
    (empty : taken out ≡ []) (made : Writer.construct out options now ≡ (ok tt, writer))
    (capacity : ℕ) (ms : List Move) (i : ℕ) where
  -- Take a recorder whose writer was made on an empty file. After any interleaving of calls of
  -- `submit` and `stop` and of the writer thread, if some call of `stop` has returned without an
  -- exception, the writer thread has ended without an error and the file is the header and the
  -- records of exactly the events that the queue accepted, in order of acceptance.
  pub stop_complete :
      get_or (moves ms (begin writer capacity)).stops i joining ≡ stopped
      → ((moves ms (begin writer capacity)).recorder.writer_thread ≡ finished)
        × ((moves ms (begin writer capacity)).recorder.writer_error ≡ none)
        × ((moves ms (begin writer capacity)).recorder.writer.out.content
            ≡ file_bytes now (moves ms (begin writer capacity)).accepted)
  stop_complete returned =
      let last = moves ms (begin writer capacity) in
      let seen : HasSeen last.recorder stopped = subst (HasSeen last.recorder) returned (
        All-get_or (HasSeen last.recorder) last.stops i joining tt
          (moves-HaveSeen ms (begin writer capacity) tt)) in
      (
        seen.0,
        seen.1,
        finished_complete out options now writer empty made capacity ms seen.0 seen.1,
      )
