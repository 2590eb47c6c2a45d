-- ===== src/AsyncRecorder/Counting.antt =====
-- The counters of src/core/async_recorder.cpp along single actions of the threads.
use cpp_high_performance_bin.Base.{
  ℕ, zero, suc, ◌+◌, ◌%◌, ◌^◌, ◌<◌, ◌≡◌, refl, ap, subst, Bool, true, false, ◌&&◌, none, some,
  Option, if◌then◌else◌, arith, List, [], ◌∷◌, ◌++◌, length, length-append, get_or, set,
}
use cpp_high_performance_bin.Errors.{Error, Result, ok, err}
use cpp_high_performance_bin.Event.{Event}
use cpp_high_performance_bin.BinaryLog.Writer
use cpp_high_performance_bin.BinaryLog.Writer.{Writer, WriterOptions}
use cpp_high_performance_bin.BinaryLog.Writer.Steps.{admitted}
use cpp_high_performance_bin.BlockingQueue.{Answer, waits, returns, push, pop}
use cpp_high_performance_bin.BlockingQueue.Runs.{pushed}
use cpp_high_performance_bin.AsyncRecorder.{
  AsyncRecorder, WriterThread, popping, appending, counting, flushing, failing, closing, finished,
  after_pop, after_call, after_check, after_push, run_step, Submission, entering, testing, pushing,
  accepting, rejecting, answered, rethrown, submit_step,
}
use cpp_high_performance_bin.AsyncRecorder.Invariant.{Inv, runs, healthy, is_none, logs, append_ok}
use cpp_high_performance_bin.AsyncRecorder.Runs.{World, accepts}

-- One for a call of `submit` whose event is in the queue and not yet counted.
abbrev pub uncounted : Submission → ℕ
uncounted accepting = 1
uncounted (entering event) = 0
uncounted (testing event) = 0
uncounted (pushing event) = 0
uncounted rejecting = 0
uncounted (answered b) = 0
uncounted (rethrown error) = 0

abbrev pub all_uncounted : List Submission → ℕ
all_uncounted [] = 0
all_uncounted (s ∷ ss) = uncounted s + all_uncounted ss

-- One for an event that the writer has and that is not yet counted.
abbrev pub unwritten : WriterThread → ℕ
unwritten counting = 1
unwritten popping = 0
unwritten (appending event) = 0
unwritten flushing = 0
unwritten (failing error) = 0
unwritten closing = 0
unwritten finished = 0

pub record Counted (w : World) : Type 0 where
  pub fits : w.recorder.submitted < 2 ^ 64
  pub submitted :
      (w.recorder.submitted + all_uncounted w.submissions) % 2 ^ 64 ≡ length w.accepted % 2 ^ 64
  pub small : w.recorder.written < 2 ^ 64
  pub written :
      healthy w.recorder.writer_thread w.recorder.writer_error ≡ true
      → (w.recorder.written + unwritten w.recorder.writer_thread) % 2 ^ 64
        ≡ length w.logged % 2 ^ 64

pub all_uncounted-append :
    (ss : List Submission) (e : Event) → all_uncounted (ss ++ entering e ∷ []) ≡ all_uncounted ss
all_uncounted-append [] e = omega arith
all_uncounted-append (s ∷ ss) e = omega (arith, all_uncounted-append ss e)

pub all_uncounted-set :
    (f : Submission → Submission) (ss : List Submission) (i : ℕ)
    → uncounted (f (answered false)) ≡ 0
    → all_uncounted (set ss i (f (get_or ss i (answered false))))
        + uncounted (get_or ss i (answered false))
      ≡ all_uncounted ss + uncounted (f (get_or ss i (answered false)))
all_uncounted-set f [] i h = omega (arith, h)
all_uncounted-set f (s ∷ ss) zero h = omega arith
all_uncounted-set f (s ∷ ss) (suc i) h = omega (arith, all_uncounted-set f ss i h)

pub after_push_count :
    (answer : Answer Bool) (e : Event) → uncounted (after_push answer e) ≡ length (pushed e answer)
unfolding after_push pushed
after_push_count waits e = refl
after_push_count (returns true) e = refl
after_push_count (returns false) e = refl

pub after_check_count : (o : Option Error) (e : Event) → uncounted (after_check o e) ≡ 0
unfolding after_check
after_check_count none e = refl
after_check_count (some error) e = refl

pub testing_count : (b : Bool) (e : Event) → uncounted (if b then rejecting else pushing e) ≡ 0
testing_count true e = refl
testing_count false e = refl

-- One action of `submit`.
pub record Submitted (s : Submission) (r : AsyncRecorder) : Type 0 where
  pub fits : (submit_step s r).1.submitted < 2 ^ 64
  pub moved :
      ((submit_step s r).1.submitted + uncounted (submit_step s r).0) % 2 ^ 64
      ≡ (r.submitted + uncounted s + length (accepts s r)) % 2 ^ 64
  pub apart : (submit_step s r).1.written ≡ r.written

pub submit_step-Submitted :
    (s : Submission) (r : AsyncRecorder) → r.submitted < 2 ^ 64 → Submitted s r
unfolding submit_step accepts
submit_step-Submitted (entering event) r h = record {
  fits = h;
  moved = omega (arith, after_check_count r.writer_error event);
  apart = refl;
}
submit_step-Submitted (testing event) r h = record {
  fits = h;
  moved = omega (arith, testing_count r.stopping event);
  apart = refl;
}
submit_step-Submitted (pushing event) r h = record {
  fits = h;
  moved = omega (arith, after_push_count (push event r.queue).0 event);
  apart = refl;
}
submit_step-Submitted accepting r h = record {
  fits = omega arith;
  moved = omega arith;
  apart = refl;
}
submit_step-Submitted rejecting r h = record { fits = h; moved = omega arith; apart = refl }
submit_step-Submitted (answered b) r h = record { fits = h; moved = omega arith; apart = refl }
submit_step-Submitted (rethrown error) r h = record { fits = h; moved = omega arith; apart = refl }

-- One action of the writer thread.
pub record Written (now : ℕ) (t : WriterThread) (r : AsyncRecorder) (logged : List Event)
    : Type 0 where
  pub small : (run_step t r).written < 2 ^ 64
  pub moved :
      healthy (run_step t r).writer_thread (run_step t r).writer_error ≡ true
      → ((run_step t r).written + unwritten (run_step t r).writer_thread) % 2 ^ 64
        ≡ length (logged ++ logs t r) % 2 ^ 64
  pub apart : (run_step t r).submitted ≡ r.submitted

pub after_pop_count : (answer : Answer (Option Event)) → unwritten (after_pop answer) ≡ 0
unfolding after_pop
after_pop_count waits = refl
after_pop_count (returns none) = refl
after_pop_count (returns (some event)) = refl

pub and_right : (b c : Bool) → (b && c) ≡ true → c ≡ true
and_right true c h = h
and_right false c h = cc

pub after_flush :
    (result : Result (Unit {0})) (next : WriterThread) (o : Option Error)
    → unwritten next ≡ 0
    → runs next ≡ true
    → healthy (after_call result next) o ≡ true
    → (unwritten (after_call result next) ≡ 0) × (is_none o ≡ true)
unfolding after_call
after_flush (ok _) next o h k g = (h, and_right (runs next) (is_none o) g)
after_flush (err error) next o h k g = cc

-- The count of the log after an append.
pub after_append_count :
    (event : Event) (r : AsyncRecorder) (logged : List Event) (t : Result (Unit {0}) × Writer)
    → (is_none r.writer_error ≡ true → r.writer.closed ≡ false)
    → (is_none r.writer_error ≡ true → (r.written + 0) % 2 ^ 64 ≡ length logged % 2 ^ 64)
    → Writer.append event r.writer ≡ t
    → healthy (after_call t.0 counting) r.writer_error ≡ true
    → (r.written + unwritten (after_call t.0 counting)) % 2 ^ 64
      ≡ length (logged ++ admitted r.writer event) % 2 ^ 64
unfolding after_call
after_append_count event r logged (ok _, w) open_ k h g = omega (
  arith,
  k g,
  length-append logged (admitted r.writer event),
  ap length (append_ok event r.writer w (open_ g) h).0,
)
after_append_count event r logged (err error, w) open_ k h g = cc

pub run_step-Written :
    (now : ℕ) (t : WriterThread) (r : AsyncRecorder) (logged accepted : List Event)
    → r.writer_thread ≡ t
    → Inv now r t logged accepted
    → r.written < 2 ^ 64
    → (healthy t r.writer_error ≡ true
        → (r.written + unwritten t) % 2 ^ 64 ≡ length logged % 2 ^ 64)
    → Written now t r logged
unfolding run_step logs
run_step-Written now popping r logged accepted e inv h k = record {
  small = h;
  moved = λ g. omega (
    arith,
    k (and_right (runs (after_pop (pop r.queue).0)) (is_none r.writer_error) g),
    after_pop_count (pop r.queue).0,
    length-append logged [],
  );
  apart = refl;
}
run_step-Written now (appending event) r logged accepted e inv h k = record {
  small = h;
  moved = after_append_count event r logged (Writer.append event r.writer) inv.open_ k refl;
  apart = refl;
}
run_step-Written now counting r logged accepted e inv h k = record {
  small = omega arith;
  moved = λ g. omega (arith, k g, length-append logged []);
  apart = refl;
}
run_step-Written now flushing r logged accepted e inv h k = record {
  small = h;
  moved = λ g.
      let f = after_flush (Writer.flush r.writer).0 finished r.writer_error refl refl g in
      omega (arith, k f.1, f.0, length-append logged []);
  apart = refl;
}
run_step-Written now (failing error) r logged accepted e inv h k = record {
  small = h;
  moved = λ g. cc;
  apart = refl;
}
run_step-Written now closing r logged accepted e inv h k = record {
  small = h;
  moved = λ g. cc (g, inv.told refl);
  apart = refl;
}
run_step-Written now finished r logged accepted e inv h k = record {
  small = h;
  moved = λ g.
      let g' : healthy finished r.writer_error ≡ true =
        subst (λ t. healthy t r.writer_error ≡ true) e g in
      omega (arith, k g', ap unwritten e, length-append logged []);
  apart = refl;
}
