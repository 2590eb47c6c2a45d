-- ===== src/Apps/Producers/Calm.antt =====
-- While `main` of apps/hpblr_record.cpp or apps/hpblr_bench.cpp waits for its threads, `submit` refuses
-- an event only after an error of the writer thread.
use cpp_high_performance_bin.Base.{
  ◌≡◌, refl, sym, ◌∙◌, true, false, not, ◌||◌, is_empty, ◌≢◌, Bool-cases, inl, inr, Option, none,
  some, List, [], ◌∷◌,
}
use cpp_high_performance_bin.Errors.{Error, Result, ok, err}
use cpp_high_performance_bin.Event.{Event}
use cpp_high_performance_bin.BlockingQueue
use cpp_high_performance_bin.BlockingQueue.{BlockingQueue, Answer, waits, returns, push, push_back}
use cpp_high_performance_bin.BlockingQueue.Steps.{push_closed, push_full, push_room, room_cases}
use cpp_high_performance_bin.AsyncRecorder.{
  AsyncRecorder, WriterThread, popping, appending, counting, flushing, failing, closing, finished,
  after_pop, after_call, set_writer_error, run_step, Submission, entering, testing, pushing,
  accepting, rejecting, answered, rethrown, submit_step, after_check, after_push,
}
use cpp_high_performance_bin.AsyncRecorder.Invariant.{is_none}
use cpp_high_performance_bin.Apps.Producers.Weights.{refused}

-- No call has stopped the recorder, and the queue is open or the writer thread has failed.
pub record Quiet (r : AsyncRecorder) : Type 0 where
  pub running : r.stopping ≡ false
  pub open_ : is_none r.writer_error ≡ true → r.queue.closed ≡ false
  pub told : r.writer_thread ≡ closing → is_none r.writer_error ≡ false

-- An error of the writer thread stays.
pub first_error :
    (t : WriterThread) (r : AsyncRecorder)
    → is_none (run_step t r).writer_error ≡ true
    → is_none r.writer_error ≡ true
unfolding run_step set_writer_error
first_error popping r h = h
first_error (appending event) r h = h
first_error counting r h = h
first_error flushing r h = h
first_error (failing error) r h = kept r.writer_error error h
  where
    kept :
        (o : Option Error) (error : Error)
        → is_none (set_writer_error error o) ≡ true
        → is_none o ≡ true
    kept none error h = refl
    kept (some first) error h = h
first_error closing r h = h
first_error finished r h = h

pop_closed : (q : BlockingQueue Event) → (BlockingQueue.pop q).1.closed ≡ q.closed
unfolding BlockingQueue.pop
pop_closed q = elim (Bool-cases (q.closed || not (is_empty q.queue))) [
  | inl ready ↦ rw ready (front q.queue)
  | inr blocked ↦ rw blocked refl
]
  where
    front : (xs : List Event) → (BlockingQueue.pop_front xs q).1.closed ≡ q.closed
    front [] = unfold BlockingQueue.pop_front in refl
    front (x ∷ xs) = unfold BlockingQueue.pop_front in refl

after_pop_told : (answer : Answer (Option Event)) → after_pop answer ≢ closing
unfolding after_pop
after_pop_told waits h = cc h
after_pop_told (returns none) h = cc h
after_pop_told (returns (some event)) h = cc h

after_call_told :
    (result : Result (Unit {0})) (next : WriterThread)
    → next ≢ closing
    → after_call result next ≢ closing
unfolding after_call
after_call_told (ok _) next other h = other h
after_call_told (err error) next other h = cc h

set_told : (error : Error) (o : Option Error) → is_none (set_writer_error error o) ≡ false
unfolding set_writer_error
set_told error none = refl
set_told error (some first) = refl

pub run_step-Quiet :
    (t : WriterThread) (r : AsyncRecorder) → r.writer_thread ≡ t → Quiet r → Quiet (run_step t r)
unfolding run_step
run_step-Quiet popping r at q = record {
  running = q.running;
  open_ = λ h. pop_closed r.queue ∙ q.open_ h;
  told = λ h. absurd (after_pop_told _ h);
}
run_step-Quiet (appending event) r at q = record {
  running = q.running;
  open_ = q.open_;
  told = λ h. absurd (after_call_told _ counting (λ e. cc e) h);
}
run_step-Quiet counting r at q = record { running = q.running; open_ = q.open_; told = λ h. cc h }
run_step-Quiet flushing r at q = record {
  running = q.running;
  open_ = q.open_;
  told = λ h. absurd (after_call_told _ finished (λ e. cc e) h);
}
run_step-Quiet (failing error) r at q = record {
  running = q.running;
  open_ = λ h. let some_ = set_told error r.writer_error in cc (h, some_);
  told = λ h. set_told error r.writer_error;
}
run_step-Quiet closing r at q = record {
  running = q.running;
  open_ = λ h. let some_ = q.told at in cc (h, some_);
  told = λ h. cc h;
}
run_step-Quiet finished r at q = q

push_Answer :
    (e : Event) (q : BlockingQueue Event)
    → q.closed ≡ false
    → ((push e q).1.closed ≡ false) × (refused (after_push (push e q).0 e) ≡ 0)
unfolding push_back after_push
push_Answer e q open_ = elim (room_cases q) [
  | inl room ↦ rw (push_room e q open_ room) (open_, refl)
  | inr full ↦ rw (push_full e q open_ full) (open_, refl)
]

pub push_keeps_closed : (e : Event) (q : BlockingQueue Event) → (push e q).1.closed ≡ q.closed
unfolding push_back
push_keeps_closed e q = elim (Bool-cases q.closed) [
  | inl shut ↦ rw (push_closed e q shut) refl
  | inr open_ ↦ (push_Answer e q open_).0 ∙ sym open_
]

pub submit_step-Quiet : (s : Submission) (r : AsyncRecorder) → Quiet r → Quiet (submit_step s r).1
unfolding submit_step
submit_step-Quiet (pushing event) r q = record {
  running = q.running;
  open_ = λ h. push_keeps_closed event r.queue ∙ q.open_ h;
  told = q.told;
}
submit_step-Quiet (entering event) r q = q
submit_step-Quiet (testing event) r q = q
submit_step-Quiet accepting r q = record { running = q.running; open_ = q.open_; told = q.told }
submit_step-Quiet rejecting r q = record { running = q.running; open_ = q.open_; told = q.told }
submit_step-Quiet (answered b) r q = q
submit_step-Quiet (rethrown error) r q = q

refused-after_check :
    (o : Option Error) (e : Event) → is_none o ≡ true → refused (after_check o e) ≡ 0
unfolding after_check
refused-after_check none e h = refl
refused-after_check (some error) e h = cc h

-- Without an error of the writer thread no call is refused.
pub refused-submit_step :
    (s : Submission) (r : AsyncRecorder)
    → Quiet r
    → is_none r.writer_error ≡ true
    → refused (submit_step s r).0 ≡ refused s
unfolding submit_step
refused-submit_step (entering event) r q calm = refused-after_check r.writer_error event calm
refused-submit_step (testing event) r q calm = rw q.running refl
refused-submit_step (pushing event) r q calm = (push_Answer event r.queue (q.open_ calm)).1
refused-submit_step accepting r q calm = refl
refused-submit_step rejecting r q calm = refl
refused-submit_step (answered b) r q calm = refl
refused-submit_step (rethrown error) r q calm = refl
