-- ===== src/Apps/Producers/Measure.antt =====
-- How much the threads of apps/hpblr_record.cpp and apps/hpblr_bench.cpp have left to do, and when a
-- step is blocked.
use cpp_high_performance_bin.Base.{
  ℕ, ◌+◌, ◌*◌, ◌≤◌, ◌<◌, ◌≡◌, ◌≢◌, ◌⊎◌, refl, ap, Bool, true, false, Bool-cases, inl, inr,
  if◌then◌else◌, Option, none, some, arith, List, [], ◌∷◌, ◌++◌, length, length-append,
}
use cpp_high_performance_bin.Errors.{Error}
use cpp_high_performance_bin.Event.{Event}
use cpp_high_performance_bin.BinaryLog.Writer
use cpp_high_performance_bin.BlockingQueue
use cpp_high_performance_bin.BlockingQueue.{BlockingQueue, Answer, waits, returns, push, push_back}
use cpp_high_performance_bin.BlockingQueue.Steps.{push_closed, push_room, room_cases, pop-some}
use cpp_high_performance_bin.AsyncRecorder.{
  AsyncRecorder, WriterThread, popping, appending, counting, flushing, failing, closing, finished,
  after_pop, run_step, Submission, entering, testing, pushing, accepting, rejecting, answered,
  rethrown, submit_step, after_check, after_push,
}
use cpp_high_performance_bin.AsyncRecorder.Joining.{actions_left, left_of, after_call_left}
use cpp_high_performance_bin.Apps.Producers.Links.{settled}

-- The steps that a call of `submit` has left, a push counted with the work that it makes.
abbrev pub steps_left : Submission → ℕ
steps_left (entering event) = 10
steps_left (testing event) = 9
steps_left (pushing event) = 8
steps_left accepting = 1
steps_left rejecting = 1
steps_left (answered b) = 0
steps_left (rethrown error) = 0

-- An action of the writer thread that has something to do.
pub run_step_less :
    (t : WriterThread) (r : AsyncRecorder)
    → r.writer_thread ≡ t
    → t ≢ finished
    → (t ≡ popping → r.queue.queue ≢ [])
    → left_of (run_step t r) < left_of r
unfolding run_step actions_left after_pop BlockingQueue.close
run_step_less popping r at busy full = go r.queue.queue refl
  where
    go : (xs : List Event) → r.queue.queue ≡ xs → left_of (run_step popping r) < left_of r
    go [] e = absurd (full refl e)
    go (x ∷ xs) e = let size = ap length e in rw (pop-some r.queue x xs e, at) (omega (arith, size))
run_step_less (appending event) r at busy full = rw at (
    let h =
      after_call_left (Writer.append event r.writer).0 counting (length r.queue.queue)
        (3 * length r.queue.queue + 5) (omega arith) (omega arith) in
    omega (arith, h))
run_step_less counting r at busy full = rw at (omega arith)
run_step_less flushing r at busy full = rw at (
    let h =
      after_call_left (Writer.flush r.writer).0 finished (length r.queue.queue) 2 (omega arith)
        (omega arith) in
    omega (arith, h))
run_step_less (failing error) r at busy full = rw at (omega arith)
run_step_less closing r at busy full = rw at (omega arith)
run_step_less finished r at busy full = absurd (busy refl)

-- A call that waits for room: the queue is open and full.
abbrev pub Blocked : AsyncRecorder → Type 0
Blocked r = (r.queue.closed ≡ false) × (r.queue.capacity ≤ length r.queue.queue)

more_queued : (t : WriterThread) (n : ℕ) → actions_left t (n + 1) ≤ actions_left t n + 3
unfolding actions_left
more_queued popping n = omega arith
more_queued (appending event) n = omega arith
more_queued counting n = omega arith
more_queued flushing n = omega arith
more_queued (failing error) n = omega arith
more_queued closing n = omega arith
more_queued finished n = omega arith

pushed_left :
    (t : WriterThread) (q : BlockingQueue Event) (e : Event)
    → actions_left t (length (push_back e q).queue) ≤ actions_left t (length q.queue) + 3
unfolding push_back
pushed_left t q e =
    let size : length (q.queue ++ e ∷ []) ≡ length q.queue + 1 =
      omega (arith, length-append q.queue (e ∷ [])) in
    omega (arith, more_queued t (length q.queue), ap (actions_left t) size)

-- What a step of a call makes less, with the work of the writer thread.
abbrev pub Less : Submission → Submission → AsyncRecorder → AsyncRecorder → Type 0
Less s s' r r' = steps_left s' + left_of r' < steps_left s + left_of r

-- A step of a call that has not returned makes the work less, or it waits for room.
pub submit_step-Less :
    (s : Submission) (r : AsyncRecorder)
    → settled s ≡ false
    → Blocked r ⊎ Less s (submit_step s r).0 r (submit_step s r).1
unfolding submit_step
submit_step-Less (entering event) r h = inr (checked r.writer_error)
  where
    checked : (o : Option Error) → steps_left (after_check o event) + left_of r < 10 + left_of r
    checked none = unfold after_check in omega arith
    checked (some error) = unfold after_check in omega arith
submit_step-Less (testing event) r h = inr (tested r.stopping)
  where
    tested :
        (b : Bool) → steps_left (if b then rejecting else pushing event) + left_of r < 9 + left_of r
    tested true = omega arith
    tested false = omega arith
submit_step-Less (pushing event) r h = pushed_less
  where
    pushed_less :
        Blocked r
        ⊎ Less
            (pushing event)
            (after_push (push event r.queue).0 event)
            r
            (record r { queue = (push event r.queue).1 })
    pushed_less = elim (Bool-cases r.queue.closed) [
      | inl shut ↦ inr (rw (push_closed event r.queue shut) (unfold after_push in omega arith))
      | inr open_ ↦ elim (room_cases r.queue) [
        | inr full ↦ inl (open_, full)
        | inl room ↦
            let more = pushed_left r.writer_thread r.queue event in
            inr (rw (push_room event r.queue open_ room) (unfold after_push in omega (arith, more)))
      ]
    ]
submit_step-Less accepting r h = inr (omega arith)
submit_step-Less rejecting r h = inr (omega arith)
submit_step-Less (answered b) r h = cc h
submit_step-Less (rethrown error) r h = cc h
