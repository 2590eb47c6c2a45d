-- ===== src/Apps/Producers/Counts.antt =====
-- The counters of apps/hpblr_record.cpp and of its recorder: the events that `submit` has taken.
use cpp_high_performance_bin.Base.{
  ℕ, zero, suc, ◌+◌, ◌%◌, ◌^◌, ◌≤◌, ◌<◌, ◌≡◌, ◌≢◌, refl, Bool, true, false, if◌then◌else◌, arith,
  none, some, Option, List, [], ◌∷◌, get_or, set,
}
use cpp_high_performance_bin.Errors.{Error}
use cpp_high_performance_bin.Event.{Event}
use cpp_high_performance_bin.BlockingQueue.{Answer, waits, returns, push}
use cpp_high_performance_bin.AsyncRecorder.{
  AsyncRecorder, Submission, entering, testing, pushing, accepting, rejecting, answered, rethrown,
  after_check, after_push, submit_step,
}
use cpp_high_performance_bin.Apps.Producers.{
  Place, asking, numbering, counting, ended, submitting, threw, State, after_submit,
}
use cpp_high_performance_bin.Apps.Producers.Weights.{refused, total}
use cpp_high_performance_bin.Apps.Producers.Links.{settled}
use cpp_high_performance_bin.Apps.Producers.Owners.{Owned}

-- One for a call that has returned true.
abbrev pub taken : Submission → ℕ
taken (answered true) = 1
taken (answered false) = 0
taken (entering event) = 0
taken (testing event) = 0
taken (pushing event) = 0
taken accepting = 0
taken rejecting = 0
taken (rethrown error) = 0

-- One for a call that has yet to count its refusal.
abbrev pub uncounted_refusal : Submission → ℕ
uncounted_refusal rejecting = 1
uncounted_refusal (answered b) = 0
uncounted_refusal (entering event) = 0
uncounted_refusal (testing event) = 0
uncounted_refusal (pushing event) = 0
uncounted_refusal accepting = 0
uncounted_refusal (rethrown error) = 0

-- One for a thread that has yet to count its event.
abbrev pub is_counting : Place → ℕ
is_counting counting = 1
is_counting asking = 0
is_counting numbering = 0
is_counting ended = 0
is_counting (submitting i) = 0
is_counting (threw error) = 0

abbrev pub all_counting : List Place → ℕ
all_counting [] = 0
all_counting (place ∷ places) = is_counting place + all_counting places

pub all_counting-set :
    (places : List Place) (p : ℕ) (place : Place)
    → get_or places p ended ≢ ended
    → all_counting (set places p place) + is_counting (get_or places p ended)
      ≡ all_counting places + is_counting place
all_counting-set [] p place h = absurd (h refl)
all_counting-set (x ∷ xs) zero place h = omega arith
all_counting-set (x ∷ xs) (suc p) place h = omega (arith, all_counting-set xs p place h)

-- What a step of a call does to the counters of the recorder.
pub record Counting (s s' : Submission) (r r' : AsyncRecorder) : Type 0 where
  pub fits : r'.submitted < 2 ^ 64
  pub submitted : (r'.submitted + taken s) % 2 ^ 64 ≡ (r.submitted + taken s') % 2 ^ 64
  pub rejected :
      r'.rejected + uncounted_refusal s' + refused s ≤ r.rejected + uncounted_refusal s + refused s'

after_check-Counting :
    (o : Option Error) (e : Event) (r : AsyncRecorder)
    → r.submitted < 2 ^ 64
    → Counting (entering e) (after_check o e) r r
unfolding after_check
after_check-Counting none e r h = record { fits = h; submitted = refl; rejected = omega arith }
after_check-Counting (some error) e r h = record {
  fits = h;
  submitted = refl;
  rejected = omega arith;
}

testing-Counting :
    (b : Bool) (e : Event) (r : AsyncRecorder)
    → r.submitted < 2 ^ 64
    → Counting (testing e) (if b then rejecting else pushing e) r r
testing-Counting true e r h = record { fits = h; submitted = refl; rejected = omega arith }
testing-Counting false e r h = record { fits = h; submitted = refl; rejected = omega arith }

after_push-Counting :
    (answer : Answer Bool) (e : Event) (r r' : AsyncRecorder)
    → r.submitted < 2 ^ 64
    → r'.submitted ≡ r.submitted
    → r'.rejected ≡ r.rejected
    → Counting (pushing e) (after_push answer e) r r'
unfolding after_push
after_push-Counting waits e r r' h p q = record {
  fits = omega (arith, h, p);
  submitted = omega (arith, p);
  rejected = omega (arith, q);
}
after_push-Counting (returns true) e r r' h p q = record {
  fits = omega (arith, h, p);
  submitted = omega (arith, p);
  rejected = omega (arith, q);
}
after_push-Counting (returns false) e r r' h p q = record {
  fits = omega (arith, h, p);
  submitted = omega (arith, p);
  rejected = omega (arith, q);
}

pub submit_step-Counting :
    (s : Submission) (r : AsyncRecorder)
    → r.submitted < 2 ^ 64
    → Counting s (submit_step s r).0 r (submit_step s r).1
unfolding submit_step
submit_step-Counting (entering event) r h = after_check-Counting r.writer_error event r h
submit_step-Counting (testing event) r h = testing-Counting r.stopping event r h
submit_step-Counting (pushing event) r h =
    after_push-Counting (push event r.queue).0 event r _ h refl refl
submit_step-Counting accepting r h = record {
  fits = omega arith;
  submitted = omega arith;
  rejected = omega arith;
}
submit_step-Counting rejecting r h = record { fits = h; submitted = refl; rejected = omega arith }
submit_step-Counting (answered true) r h = record {
  fits = h;
  submitted = refl;
  rejected = omega arith;
}
submit_step-Counting (answered false) r h = record {
  fits = h;
  submitted = refl;
  rejected = omega arith;
}
submit_step-Counting (rethrown error) r h = record {
  fits = h;
  submitted = refl;
  rejected = omega arith;
}

-- The counters of the threads and of the recorder agree.
pub record Counts {R : Type 0} (s : State R) : Type 0 where
  pub owned : Owned s.places s.world.submissions
  pub small : s.generated < 2 ^ 64
  pub generated :
      (s.generated + all_counting s.places) % 2 ^ 64 ≡ total taken s.world.submissions % 2 ^ 64
  pub fits : s.world.recorder.submitted < 2 ^ 64
  pub submitted : s.world.recorder.submitted % 2 ^ 64 ≡ total taken s.world.submissions % 2 ^ 64
  pub rejected :
      s.world.recorder.rejected + total uncounted_refusal s.world.submissions
      ≤ total refused s.world.submissions

pub after_submit_counting :
    (i : ℕ) (s : Submission) → is_counting (after_submit true (submitting i) s) ≡ taken s
unfolding after_submit
after_submit_counting i (answered true) = refl
after_submit_counting i (answered false) = refl
after_submit_counting i (entering event) = refl
after_submit_counting i (testing event) = refl
after_submit_counting i (pushing event) = refl
after_submit_counting i accepting = refl
after_submit_counting i rejecting = refl
after_submit_counting i (rethrown error) = refl

pub open_taken : (s : Submission) → settled s ≡ false → taken s ≡ 0
open_taken (answered b) h = cc h
open_taken (entering event) h = refl
open_taken (testing event) h = refl
open_taken (pushing event) h = refl
open_taken accepting h = refl
open_taken rejecting h = refl
open_taken (rethrown error) h = refl
