-- ===== src/AsyncRecorder/Joining.antt =====
-- The writer thread of `AsyncRecorder` (src/core/async_recorder.cpp) ends once the queue is closed,
-- so the `join` of `stop` returns.
use cpp_high_performance_bin.Base.{
  ℕ, suc, ◌+◌, ◌-◌, ◌*◌, ◌≤◌, ◌≡◌, refl, ap, true, false, false, arith, List, [], ◌∷◌, length,
  get_or,
}
use cpp_high_performance_bin.Errors.{Result, ok, err}
use cpp_high_performance_bin.Event.{Event}
use cpp_high_performance_bin.BlockingQueue
use cpp_high_performance_bin.BlockingQueue.{BlockingQueue, push}
use cpp_high_performance_bin.BlockingQueue.Steps.{pop_end, pop-some, push_closed}
use cpp_high_performance_bin.AsyncRecorder.{
  AsyncRecorder, WriterThread, popping, appending, counting, flushing, failing, closing, finished,
  after_pop, after_call, run_step, Submission, entering, testing, pushing, accepting, rejecting,
  answered, rethrown, submit_step, Stop, exchanging, shutting, joining, checking, stopped,
  stop_rethrown, stop_step,
}
use cpp_high_performance_bin.AsyncRecorder.Runs.{
  World, Move, writer_moves, stop_called, submit_called, submit_moves, stop_moves, move, moves,
}

-- The actions that the writer thread takes at most, when `queued` elements wait.
unfoldable pub actions_left : WriterThread → ℕ → ℕ
actions_left finished queued = 0
actions_left closing queued = 1
actions_left (failing error) queued = 2
actions_left flushing queued = 3
actions_left popping queued = 3 * queued + 4
actions_left counting queued = 3 * queued + 5
actions_left (appending event) queued = 3 * queued + 6

abbrev pub left_of : AsyncRecorder → ℕ
left_of r = actions_left r.writer_thread (length r.queue.queue)

-- An action of the writer thread on a closed queue.
pub record Nearer (r : AsyncRecorder) (before : ℕ) : Type 0 where
  pub shut : r.queue.closed ≡ true
  pub fewer : left_of r ≤ before - 1

pub after_call_left :
    (result : Result (Unit {0})) (next : WriterThread) (queued n : ℕ)
    → 2 ≤ n
    → actions_left next queued ≤ n
    → actions_left (after_call result next) queued ≤ n
unfolding after_call actions_left
after_call_left (ok _) next queued n h k = k
after_call_left (err error) next queued n h k = h

pub run_step-Nearer :
    (t : WriterThread) (r : AsyncRecorder)
    → r.writer_thread ≡ t
    → r.queue.closed ≡ true
    → Nearer (run_step t r) (actions_left t (length r.queue.queue))
unfolding run_step actions_left after_pop BlockingQueue.close
run_step-Nearer popping r e shut = go r.queue.queue refl
  where
    go :
        (xs : List Event)
        → r.queue.queue ≡ xs
        → Nearer (run_step popping r) (actions_left popping (length r.queue.queue))
    go [] d = rw (pop_end r.queue shut d) (record { shut = shut; fewer = omega arith })
    go (x ∷ xs) d =
        rw (pop-some r.queue x xs d) (record { shut = shut; fewer = omega (arith, ap length d) })
run_step-Nearer (appending event) r e shut = record {
  shut = shut;
  fewer = after_call_left _ counting _ _ (omega arith) (omega arith);
}
run_step-Nearer counting r e shut = record { shut = shut; fewer = omega arith }
run_step-Nearer flushing r e shut = record {
  shut = shut;
  fewer = after_call_left _ finished _ _ (omega arith) (omega arith);
}
run_step-Nearer (failing error) r e shut = record { shut = shut; fewer = omega arith }
run_step-Nearer closing r e shut = record { shut = refl; fewer = omega arith }
run_step-Nearer finished r e shut = record { shut = shut; fewer = rw e (omega arith) }

-- What the other threads do to a recorder whose queue is closed.
record Unmoved (r r' : AsyncRecorder) : Type 0 where
  shut : r'.queue.closed ≡ true
  as_many : left_of r' ≡ left_of r

submit_step-Unmoved :
    (s : Submission) (r : AsyncRecorder) → r.queue.closed ≡ true → Unmoved r (submit_step s r).1
unfolding submit_step
submit_step-Unmoved (pushing event) r h =
    rw (push_closed event r.queue h) (record { shut = h; as_many = refl })
submit_step-Unmoved (entering event) r h = record { shut = h; as_many = refl }
submit_step-Unmoved (testing event) r h = record { shut = h; as_many = refl }
submit_step-Unmoved accepting r h = record { shut = h; as_many = refl }
submit_step-Unmoved rejecting r h = record { shut = h; as_many = refl }
submit_step-Unmoved (answered b) r h = record { shut = h; as_many = refl }
submit_step-Unmoved (rethrown error) r h = record { shut = h; as_many = refl }

stop_step-Unmoved :
    (s : Stop) (r : AsyncRecorder) → r.queue.closed ≡ true → Unmoved r (stop_step s r).1
unfolding stop_step BlockingQueue.close
stop_step-Unmoved exchanging r h = record { shut = h; as_many = refl }
stop_step-Unmoved shutting r h = record { shut = refl; as_many = refl }
stop_step-Unmoved joining r h = record { shut = h; as_many = refl }
stop_step-Unmoved checking r h = record { shut = h; as_many = refl }
stop_step-Unmoved stopped r h = record { shut = h; as_many = refl }
stop_step-Unmoved (stop_rethrown error) r h = record { shut = h; as_many = refl }

-- How many of the moves are the writer thread's.
abbrev pub writer_count : List Move → ℕ
writer_count [] = 0
writer_count (writer_moves ∷ ms) = suc (writer_count ms)
writer_count (stop_called ∷ ms) = writer_count ms
writer_count (submit_called event ∷ ms) = writer_count ms
writer_count (submit_moves i ∷ ms) = writer_count ms
writer_count (stop_moves i ∷ ms) = writer_count ms

pub none_left : (t : WriterThread) (queued : ℕ) → actions_left t queued ≤ 0 → t ≡ finished
unfolding actions_left
none_left finished queued h = refl
none_left closing queued h = absurd (omega arith)
none_left (failing error) queued h = absurd (omega arith)
none_left flushing queued h = absurd (omega arith)
none_left popping queued h = absurd (omega arith)
none_left counting queued h = absurd (omega arith)
none_left (appending event) queued h = absurd (omega arith)

ends :
    (ms : List Move) (w : World)
    → w.recorder.queue.closed ≡ true
    → left_of w.recorder ≤ writer_count ms
    → (moves ms w).recorder.writer_thread ≡ finished
unfolding moves move
ends [] w shut enough = none_left w.recorder.writer_thread (length w.recorder.queue.queue) enough
ends (writer_moves ∷ ms) w shut enough =
    let near = run_step-Nearer w.recorder.writer_thread w.recorder refl shut in
    ends ms (move writer_moves w) near.shut (omega (arith, near.fewer))
ends (stop_called ∷ ms) w shut enough = ends ms (move stop_called w) shut enough
ends (submit_called event ∷ ms) w shut enough = ends ms (move (submit_called event) w) shut enough
ends (submit_moves i ∷ ms) w shut enough =
    let still = submit_step-Unmoved (get_or w.submissions i (answered false)) w.recorder shut in
    ends ms (move (submit_moves i) w) still.shut (omega (arith, still.as_many))
ends (stop_moves i ∷ ms) w shut enough =
    let still = stop_step-Unmoved (get_or w.stops i joining) w.recorder shut in
    ends ms (move (stop_moves i) w) still.shut (omega (arith, still.as_many))

at_most : (t : WriterThread) (queued : ℕ) → actions_left t queued ≤ 3 * queued + 6
unfolding actions_left
at_most popping queued = omega arith
at_most finished queued = omega arith
at_most closing queued = omega arith
at_most (failing error) queued = omega arith
at_most flushing queued = omega arith
at_most counting queued = omega arith
at_most (appending event) queued = omega arith

-- Once the queue is closed, whatever the other threads do in between and whatever the device
-- answers, the writer thread has ended after three actions of its own for each queued event and at
-- most six more.
pub writer_ends_in :
    (ms : List Move) (w : World)
    → w.recorder.queue.closed ≡ true
    → 3 * length w.recorder.queue.queue + 6 ≤ writer_count ms
    → (moves ms w).recorder.writer_thread ≡ finished
writer_ends_in ms w shut enough =
    ends ms w shut (omega (arith, at_most w.recorder.writer_thread (length w.recorder.queue.queue)))
