-- ===== src/Apps/Producers/Uncounted.antt =====
-- Actions of apps/hpblr_record.cpp that leave its counters.
use cpp_high_performance_bin.Base.{ℕ, ◌≡◌, ◌≢◌, refl, sym, ap, subst, arith, get_or, set}
use cpp_high_performance_bin.AsyncRecorder.{
  AsyncRecorder, WriterThread, popping, run_step, Stop, exchanging, stop_step,
}
use cpp_high_performance_bin.Apps.Producers.{Place, ended, submitting, State}
use cpp_high_performance_bin.Apps.Producers.Weights.{refused, total}
use cpp_high_performance_bin.Apps.Producers.Owners.{Owned, move-Owned}
use cpp_high_performance_bin.Apps.Producers.Counts.{
  taken, uncounted_refusal, is_counting, all_counting, all_counting-set, Counts,
}

pub run_step_counters :
    (t : WriterThread) (r : AsyncRecorder)
    → ((run_step t r).submitted ≡ r.submitted) × ((run_step t r).rejected ≡ r.rejected)
unfolding run_step
run_step_counters popping r = (refl, refl)
run_step_counters t r = (refl, refl)

pub stop_step_counters :
    (s : Stop) (r : AsyncRecorder)
    → ((stop_step s r).1.submitted ≡ r.submitted) × ((stop_step s r).1.rejected ≡ r.rejected)
unfolding stop_step
stop_step_counters exchanging r = (refl, refl)
stop_step_counters s r = (refl, refl)

module _ {R : Type 0} where
  -- The recorder's counters and the calls stay.
  pub apart-Counts :
      (s s' : State R)
      → s'.places ≡ s.places
      → s'.generated ≡ s.generated
      → s'.world.submissions ≡ s.world.submissions
      → (s'.world.recorder.submitted ≡ s.world.recorder.submitted)
        × (s'.world.recorder.rejected ≡ s.world.recorder.rejected)
      → Counts s
      → Counts s'
  apart-Counts s s' e f g k h =
      let t = ap (total taken) g in
      record {
        owned =
            subst (Owned s'.places) (sym g)
              (subst (λ xs. Owned xs s.world.submissions) (sym e) h.owned);
        small = omega (arith, f, h.small);
        generated = omega (arith, f, h.generated, t, ap all_counting e);
        fits = omega (arith, h.fits, k.0);
        submitted = omega (arith, h.submitted, k.0, t);
        rejected =
            omega (arith, h.rejected, k.1, ap (total uncounted_refusal) g, ap (total refused) g);
      }

  -- A thread outside `submit` goes on without counting.
  pub moved-Counts :
      (s s' : State R) (p : ℕ) (place : Place)
      → get_or s.places p ended ≢ ended
      → is_counting (get_or s.places p ended) ≡ 0
      → is_counting place ≡ 0
      → ((i : ℕ) → place ≢ submitting i)
      → s'.places ≡ set s.places p place
      → s'.generated ≡ s.generated
      → s'.world ≡ s.world
      → Counts s
      → Counts s'
  moved-Counts s s' p place alive before after_ free e f g h =
      let places_ = all_counting-set s.places p place alive in
      subst (λ w. Counts (record s' { world = w })) (sym g)
        (record {
          owned =
              subst (λ xs. Owned xs s.world.submissions) (sym e)
                (move-Owned s.places s.world.submissions p place alive free h.owned);
          small = omega (arith, f, h.small);
          generated = omega (arith, f, h.generated, ap all_counting e, places_, before, after_);
          fits = h.fits;
          submitted = h.submitted;
          rejected = h.rejected;
        })
