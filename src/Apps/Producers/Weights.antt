-- ===== src/Apps/Producers/Weights.antt =====
-- Calls of `submit` (src/core/async_recorder.cpp) in flight, by the sequence number of their event.
use cpp_high_performance_bin.Base.{
  ℕ, zero, suc, ◌+◌, ◌≤◌, ◌≡◌, refl, ◌==◌, Bool, true, false, none, some, Option, if◌then◌else◌,
  arith, List, [], ◌∷◌, ◌++◌, get_or, set,
}
use cpp_high_performance_bin.Errors.{Error}
use cpp_high_performance_bin.Event.{Event}
use cpp_high_performance_bin.BlockingQueue.{Answer, waits, returns, push}
use cpp_high_performance_bin.BlockingQueue.Runs.{pushed}
use cpp_high_performance_bin.AsyncRecorder.{
  AsyncRecorder, Submission, entering, testing, pushing, accepting, rejecting, answered, rethrown,
  after_check, after_push, submit_step,
}
use cpp_high_performance_bin.AsyncRecorder.Runs.{accepts}

-- How many of the events have the sequence number `n`.
abbrev pub times : ℕ → List Event → ℕ
times n [] = 0
times n (e ∷ es) = (if e.sequence == n then 1 else 0) + times n es

pub times-append : (n : ℕ) (xs ys : List Event) → times n (xs ++ ys) ≡ times n xs + times n ys
times-append n [] ys = omega arith
times-append n (x ∷ xs) ys = omega (arith, times-append n xs ys)

-- One for a call whose event has the number `n` and is not yet in the queue.
abbrev pub pending : ℕ → Submission → ℕ
pending n (entering event) = if event.sequence == n then 1 else 0
pending n (testing event) = if event.sequence == n then 1 else 0
pending n (pushing event) = if event.sequence == n then 1 else 0
pending n accepting = 0
pending n rejecting = 0
pending n (answered b) = 0
pending n (rethrown error) = 0

-- One for a call that does not take its event.
abbrev pub refused : Submission → ℕ
refused (entering event) = 0
refused (testing event) = 0
refused (pushing event) = 0
refused accepting = 0
refused rejecting = 1
refused (answered true) = 0
refused (answered false) = 1
refused (rethrown error) = 1

abbrev pub total : (Submission → ℕ) → List Submission → ℕ
total f [] = 0
total f (s ∷ ss) = f s + total f ss

pub total-append :
    (f : Submission → ℕ) (xs ys : List Submission) → total f (xs ++ ys) ≡ total f xs + total f ys
total-append f [] ys = omega arith
total-append f (x ∷ xs) ys = omega (arith, total-append f xs ys)

-- A step of one call, which leaves a call that has answered where it is.
pub total-set :
    (f : Submission → ℕ) (step : Submission → Submission) (ss : List Submission) (i : ℕ)
    → f (step (answered false)) ≡ f (answered false)
    → total f (set ss i (step (get_or ss i (answered false)))) + f (get_or ss i (answered false))
      ≡ total f ss + f (step (get_or ss i (answered false)))
total-set f step [] i h = omega (arith, h)
total-set f step (s ∷ ss) zero h = omega arith
total-set f step (s ∷ ss) (suc i) h = omega (arith, total-set f step ss i h)

pub step_answered : (r : AsyncRecorder) → (submit_step (answered false) r).0 ≡ answered false
unfolding submit_step
step_answered r = refl

-- One action of `submit`, for the number `n`.
pub record Weighed (n : ℕ) (r : AsyncRecorder) (s s' : Submission) (es : List Event) : Type 0 where
  pub upper : times n es + pending n s' ≤ pending n s
  pub lower : pending n s + refused s ≤ times n es + pending n s' + refused s'

after_check-Weighed :
    (n : ℕ) (r : AsyncRecorder) (o : Option Error) (e : Event)
    → Weighed n r (entering e) (after_check o e) []
unfolding after_check
after_check-Weighed n r none e = record { upper = omega arith; lower = omega arith }
after_check-Weighed n r (some error) e = record { upper = ground arith; lower = ground arith }

testing-Weighed :
    (n : ℕ) (r : AsyncRecorder) (b : Bool) (e : Event)
    → Weighed n r (testing e) (if b then rejecting else pushing e) []
testing-Weighed n r true e = record { upper = ground arith; lower = ground arith }
testing-Weighed n r false e = record { upper = omega arith; lower = omega arith }

after_push-Weighed :
    (n : ℕ) (r : AsyncRecorder) (answer : Answer Bool) (e : Event)
    → Weighed n r (pushing e) (after_push answer e) (pushed e answer)
unfolding after_push pushed
after_push-Weighed n r waits e = record { upper = omega arith; lower = omega arith }
after_push-Weighed n r (returns true) e = record { upper = ground arith; lower = ground arith }
after_push-Weighed n r (returns false) e = record { upper = ground arith; lower = ground arith }

pub submit_step-Weighed :
    (n : ℕ) (s : Submission) (r : AsyncRecorder) → Weighed n r s (submit_step s r).0 (accepts s r)
unfolding submit_step accepts
submit_step-Weighed n (entering event) r = after_check-Weighed n r r.writer_error event
submit_step-Weighed n (testing event) r = testing-Weighed n r r.stopping event
submit_step-Weighed n (pushing event) r = after_push-Weighed n r (push event r.queue).0 event
submit_step-Weighed n accepting r = record { upper = omega arith; lower = omega arith }
submit_step-Weighed n rejecting r = record { upper = omega arith; lower = omega arith }
submit_step-Weighed n (answered b) r = record { upper = omega arith; lower = omega arith }
submit_step-Weighed n (rethrown error) r = record { upper = omega arith; lower = omega arith }

-- How many of the first numbers are `n` and do not leave the loop.
abbrev pub given : (ℕ → Bool) → ℕ → ℕ → ℕ
given over zero n = 0
given over (suc h) n = given over h n + (if over h then 0 else if h == n then 1 else 0)
