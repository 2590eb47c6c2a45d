-- ===== src/Apps/Producers/Counted.antt =====
-- What every action of apps/hpblr_record.cpp keeps of the counters.
use cpp_high_performance_bin.Base.{
  ℕ, zero, suc, ◌≡◌, refl, ap, ◌∙◌, true, false, Bool-cases, inl, inr, arith, List, [], ◌∷◌, length,
  get_or, set, replicate,
}
use cpp_high_performance_bin.AsyncRecorder
use cpp_high_performance_bin.AsyncRecorder.{
  AsyncRecorder, WriterThread, popping, appending, flushing, failing, closing, finished, run_step,
  Submission, entering, answered, submit_step, Stop, exchanging, joining, stop_step,
}
use cpp_high_performance_bin.AsyncRecorder.Runs
use cpp_high_performance_bin.BinaryLog.Writer.{Writer}
use cpp_high_performance_bin.EventGenerator
use cpp_high_performance_bin.Apps.Producers.{
  Program, Place, asking, numbering, counting, ended, submitting, threw, Main, waiting, returned,
  stopping, failed, State, Action, signal_handled, writer_acts, main_acts, producer_acts,
  after_submit, take_number, produce, all_ended, any_threw, finish, act, acts, start,
}
use cpp_high_performance_bin.Apps.Producers.Weights.{
  refused, total-append, total-set, step_answered,
}
use cpp_high_performance_bin.Apps.Producers.Links.{settled, get_or-set_same}
use cpp_high_performance_bin.Apps.Producers.Owners.{move-Owned, call-Owned, step-Owned}
use cpp_high_performance_bin.Apps.Producers.Sound.{not_submitting}
use cpp_high_performance_bin.Apps.Producers.Counts.{
  taken, uncounted_refusal, is_counting, all_counting, all_counting-set, submit_step-Counting,
  Counts, after_submit_counting, open_taken,
}
use cpp_high_performance_bin.Apps.Producers.Uncounted.{
  run_step_counters, stop_step_counters, apart-Counts, moved-Counts,
}

module _ {R : Type 0} (draw : R → ℕ × R) (program : Program) (counts : program.counts ≡ true) where
  take_number-Counts :
      (p now : ℕ) (s : State R)
      → get_or s.places p ended ≡ numbering
      → Counts s
      → Counts (take_number draw program p now s)
  unfolding take_number Runs.move
  take_number-Counts p now s at h = elim (Bool-cases (program.over s.next_sequence)) [
    | inl over ↦ rw over (
        moved-Counts s _ p ended (λ e. cc (at, e)) (ap is_counting at) refl (λ i e. cc e) refl refl
          refl h)
    | inr below ↦ rw below (
        let event =
          (EventGenerator.next draw (program.config p) now s.next_sequence (s.engines p)).0 in
        let calls = s.world.submissions in
        let places_ = all_counting-set s.places p (submitting (length calls)) (λ e. cc (at, e)) in
        let sum = total-append taken calls (entering event ∷ []) in
        record {
          owned = call-Owned s.places calls p (entering event) (λ e. cc (at, e)) refl h.owned;
          small = h.small;
          generated = omega (arith, h.generated, places_, ap is_counting at, sum);
          fits = h.fits;
          submitted = omega (arith, h.submitted, sum);
          rejected = omega (
            arith,
            h.rejected,
            total-append uncounted_refusal calls (entering event ∷ []),
            total-append refused calls (entering event ∷ []),
          );
        })
  ]

  -- A call of `submit` goes on.
  submit_moves-Counts :
      (p now i : ℕ) (s : State R)
      → get_or s.places p ended ≡ submitting i
      → Counts s
      → Counts (produce draw program p now (submitting i) s)
  unfolding produce Runs.move
  submit_moves-Counts p now i s at h =
      let calls = s.world.submissions in
      let r = s.world.recorder in
      let call = get_or calls i (answered false) in
      let open_ = h.owned.open_ p i at in
      let call' = (submit_step call r).0 in
      let stored =
        (get_or-set_same calls i call' (answered false)
          (λ e. let done = ap settled e in cc (open_, done))).1 in
      let v = get_or (set calls i call') i (answered false) in
      let next = after_submit program.counts (submitting i) v in
      let counted =
        ap (λ b. is_counting (after_submit b (submitting i) v)) counts
        ∙ after_submit_counting i v
        ∙ ap taken stored in
      let places_ = all_counting-set s.places p next (λ e. cc (at, e)) in
      let step = submit_step-Counting call r h.fits in
      let sums = λ (f : Submission → ℕ).
        total-set f (λ c. (submit_step c r).0) calls i (ap f (step_answered r)) in
      record {
        owned = step-Owned program.counts s.places calls p i call' at h.owned;
        small = h.small;
        generated = omega (
          arith,
          h.generated,
          places_,
          ap is_counting at,
          counted,
          sums taken,
          open_taken call open_,
        );
        fits = step.fits;
        submitted = omega (arith, h.submitted, step.submitted, sums taken, open_taken call open_);
        rejected = omega (arith, h.rejected, step.rejected, sums uncounted_refusal, sums refused);
      }

  counting-Counts :
      (p now : ℕ) (s : State R)
      → get_or s.places p ended ≡ counting
      → Counts s
      → Counts (produce draw program p now counting s)
  unfolding produce
  counting-Counts p now s at h =
      let places_ = all_counting-set s.places p asking (λ e. cc (at, e)) in
      record {
        owned =
            move-Owned s.places s.world.submissions p asking (λ e. cc (at, e)) (λ i e. cc e)
              h.owned;
        small = omega arith;
        generated = omega (arith, h.generated, places_, ap is_counting at);
        fits = h.fits;
        submitted = h.submitted;
        rejected = h.rejected;
      }

  asking-Counts :
      (p now : ℕ) (s : State R)
      → get_or s.places p ended ≡ asking
      → Counts s
      → Counts (produce draw program p now asking s)
  unfolding produce
  asking-Counts p now s at h = elim (Bool-cases (program.loops s.stop_requested)) [
    | inl goes ↦ rw goes (
        moved-Counts s _ p numbering (λ e. cc (at, e)) (ap is_counting at) refl (λ i e. cc e) refl
          refl refl h)
    | inr stops_ ↦ rw stops_ (
        moved-Counts s _ p ended (λ e. cc (at, e)) (ap is_counting at) refl (λ i e. cc e) refl refl
          refl h)
  ]

  produce-Counts :
      (p now : ℕ) (place : Place) (s : State R)
      → get_or s.places p ended ≡ place
      → Counts s
      → Counts (produce draw program p now place s)
  produce-Counts p now asking s at h = asking-Counts p now s at h
  produce-Counts p now numbering s at h = unfold produce in take_number-Counts p now s at h
  produce-Counts p now (submitting i) s at h = submit_moves-Counts p now i s at h
  produce-Counts p now counting s at h = counting-Counts p now s at h
  produce-Counts p now ended s at h = unfold produce in h
  produce-Counts p now (threw error) s at h = unfold produce in h

  finish-Counts : (main : Main) (s : State R) → Counts s → Counts (finish main s)
  unfolding finish Runs.move
  finish-Counts waiting s h = elim (Bool-cases (all_ended s.places)) [
    | inl all ↦ rw all (apart-Counts s _ refl refl refl (refl, refl) h)
    | inr some_ ↦ rw some_ h
  ]
  finish-Counts (stopping i) s h =
      apart-Counts s _ refl refl refl
        (stop_step_counters (get_or s.world.stops i joining) s.world.recorder) h
  finish-Counts returned s h = h
  finish-Counts (failed error) s h = h

  act-Counts : (a : Action) (s : State R) → Counts s → Counts (act draw program a s)
  unfolding act Runs.move
  act-Counts signal_handled s h = apart-Counts s _ refl refl refl (refl, refl) h
  act-Counts writer_acts s h =
      apart-Counts s _ refl refl refl
        (run_step_counters s.world.recorder.writer_thread s.world.recorder) h
  act-Counts main_acts s h = finish-Counts s.main s h
  act-Counts (producer_acts p now) s h = produce-Counts p now (get_or s.places p ended) s refl h

  pub acts-Counts : (as_ : List Action) (s : State R) → Counts s → Counts (acts draw program as_ s)
  unfolding acts
  acts-Counts [] s h = h
  acts-Counts (a ∷ rest) s h = elim (Bool-cases (any_threw s.places)) [
    | inl dead ↦ rw dead h
    | inr alive ↦ rw alive (acts-Counts rest (act draw program a s) (act-Counts a s h))
  ]

none_counting : (n : ℕ) → all_counting (replicate n asking) ≡ 0
none_counting zero = refl
none_counting (suc n) = omega (arith, none_counting n)

pub start-Counts :
    {R : Type 0} (seeded : ℕ → R) (program : Program) (writer : Writer) (capacity producers : ℕ)
    → Counts (start seeded program writer capacity producers)
unfolding start AsyncRecorder.construct
start-Counts seeded program writer capacity producers = record {
  owned = record {
    open_ = λ p i at. absurd (not_submitting producers p i at);
    apart = λ p q i at at'. absurd (not_submitting producers p i at);
  };
  small = omega arith;
  generated = omega (arith, none_counting producers);
  fits = omega arith;
  submitted = refl;
  rejected = omega arith;
}
