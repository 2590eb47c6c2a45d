-- ===== src/Apps/Producers/Safe.antt =====
-- What every action of apps/hpblr_record.cpp and apps/hpblr_bench.cpp keeps of the threads' calls.
use cpp_high_performance_bin.Base.{
  ℕ, ◌≡◌, ◌≢◌, refl, sym, ap, subst, ◌∙◌, Bool, true, false, Bool-cases, inl, inr, arith, List, [],
  ◌∷◌, get_or, set,
}
use cpp_high_performance_bin.AsyncRecorder.{
  entering, answered, submit_step, Stop, exchanging, shutting, joining, checking, stopped,
  stop_rethrown,
}
use cpp_high_performance_bin.AsyncRecorder.Invariant.{is_none}
use cpp_high_performance_bin.AsyncRecorder.Runs
use cpp_high_performance_bin.AsyncRecorder.Runs.{World}
use cpp_high_performance_bin.AsyncRecorder.Stops.{submit_step-error, stop_step-error}
use cpp_high_performance_bin.Apps.Producers.{
  Program, Place, asking, numbering, counting, ended, submitting, threw, Main, waiting, returned,
  stopping, failed, State, Action, signal_handled, writer_acts, main_acts, producer_acts,
  after_submit, take_number, produce, all_ended, any_threw, after_stop, finish, act, acts,
}
use cpp_high_performance_bin.Apps.Producers.Weights.{
  refused, total, total-append, total-set, step_answered,
}
use cpp_high_performance_bin.Apps.Producers.Links.{
  Linked, move-Linked, call-Linked, step-Linked, all_ended-get_or,
}
use cpp_high_performance_bin.Apps.Producers.Calm.{
  Quiet, first_error, run_step-Quiet, submit_step-Quiet, refused-submit_step,
}

abbrev pub is_waiting : Main → Bool
is_waiting waiting = true
is_waiting returned = false
is_waiting (stopping i) = false
is_waiting (failed error) = false

pub record Safe {R : Type 0} (s : State R) : Type 0 where
  pub linked : Linked s.places s.world.submissions
  pub quiet : is_waiting s.main ≡ true → Quiet s.world.recorder
  pub left : is_waiting s.main ≡ false → all_ended s.places ≡ true
  pub taken : is_none s.world.recorder.writer_error ≡ true → total refused s.world.submissions ≡ 0

module _ {R : Type 0} where
  -- A thread that is not in a call goes elsewhere, and only it.
  moved-Safe :
      (s s' : State R) (p : ℕ) (place : Place)
      → ((i : ℕ) → get_or s.places p ended ≢ submitting i)
      → is_waiting s.main ≡ true
      → s'.places ≡ set s.places p place
      → s'.world ≡ s.world
      → s'.main ≡ s.main
      → Safe s
      → Safe s'
  moved-Safe s s' p place free waits_ e f g h = record {
    linked =
        subst (λ w. Linked s'.places w.submissions) (sym f)
          (subst (λ xs. Linked xs s.world.submissions) (sym e)
            (move-Linked s.places s.world.submissions p place free h.linked));
    quiet = λ w. subst (λ v. Quiet v.recorder) (sym f) (h.quiet waits_);
    left = λ w. let same = ap is_waiting g in cc (same, waits_, w);
    taken =
        subst (λ v. is_none v.recorder.writer_error ≡ true → total refused v.submissions ≡ 0)
          (sym f) h.taken;
  }

  -- A call of `submit` goes on.
  submit_moves-Safe :
      (counts : Bool) (s : State R) (p i : ℕ)
      → get_or s.places p ended ≡ submitting i
      → is_waiting s.main ≡ true
      → Safe s
      → (world' : World) → world' ≡ Runs.move (Runs.submit_moves i) s.world
      → Safe (record s {
        world = world';
        places =
            set s.places p
              (after_submit counts (submitting i) (get_or world'.submissions i (answered false)));
      })
  unfolding Runs.move
  submit_moves-Safe counts s p i at waits_ h world' same =
      let r = s.world.recorder in
      let call = get_or s.world.submissions i (answered false) in
      let calm_before = submit_step-error call r in
      let sums =
        total-set refused (λ c. (submit_step c r).0) s.world.submissions i
          (ap refused (step_answered r)) in
      subst
        (λ v. Safe (record s {
          world = v;
          places =
              set s.places p
                (after_submit counts (submitting i) (get_or v.submissions i (answered false)));
        }))
        (sym same)
        (record {
          linked =
              step-Linked counts s.places s.world.submissions p i (submit_step call r).0 at
                h.linked;
          quiet = λ w. submit_step-Quiet call r (h.quiet waits_);
          left = λ w. cc (waits_, w);
          taken = λ calm.
              let calm' = ap is_none (sym calm_before) ∙ calm in
              omega (arith, h.taken calm', sums, refused-submit_step call r (h.quiet waits_) calm');
        })

  module _ (draw : R → ℕ × R) (program : Program) where
    take_number-Safe :
        (p now : ℕ) (s : State R)
        → get_or s.places p ended ≡ numbering
        → is_waiting s.main ≡ true
        → Safe s
        → Safe (take_number draw program p now s)
    unfolding take_number Runs.move
    take_number-Safe p now s at waits_ h = elim (Bool-cases (program.over s.next_sequence)) [
      | inl over ↦ rw over (moved-Safe s _ p ended (λ i e. cc (at, e)) waits_ refl refl refl h)
      | inr below ↦ rw below (record {
        linked = call-Linked s.places s.world.submissions p (entering _) at h.linked;
        quiet = λ w. h.quiet waits_;
        left = λ w. cc (waits_, w);
        taken = λ calm.
            omega (arith, h.taken calm, total-append refused s.world.submissions (entering _ ∷ []));
      })
    ]

    produce-Safe :
        (p now : ℕ) (place : Place) (s : State R)
        → get_or s.places p ended ≡ place
        → is_waiting s.main ≡ true
        → Safe s
        → Safe (produce draw program p now place s)
    unfolding produce
    produce-Safe p now asking s at waits_ h =
        moved-Safe s _ p _ (λ i e. cc (at, e)) waits_ refl refl refl h
    produce-Safe p now numbering s at waits_ h = take_number-Safe p now s at waits_ h
    produce-Safe p now (submitting i) s at waits_ h =
        submit_moves-Safe program.counts s p i at waits_ h _ refl
    produce-Safe p now counting s at waits_ h =
        moved-Safe s _ p _ (λ i e. cc (at, e)) waits_ refl refl refl h
    produce-Safe p now ended s at waits_ h = h
    produce-Safe p now (threw error) s at waits_ h = h

    finish-Safe : (main : Main) (s : State R) → s.main ≡ main → Safe s → Safe (finish main s)
    unfolding finish Runs.move
    finish-Safe waiting s at h = elim (Bool-cases (all_ended s.places)) [
      | inl all ↦
          rw all (record { linked = h.linked; quiet = λ w. cc w; left = λ w. all; taken = h.taken })
      | inr some_ ↦ rw some_ h
    ]
    finish-Safe (stopping i) s at h =
        let stop = get_or s.world.stops i joining in
        record {
          linked = h.linked;
          quiet = λ w. absurd (after_stop_gone i _ w);
          left = λ w. h.left (ap is_waiting at);
          taken = λ calm. h.taken (ap is_none (sym (stop_step-error stop s.world.recorder)) ∙ calm);
        }
      where
        after_stop_gone : (i : ℕ) (stop : Stop) → is_waiting (after_stop (stopping i) stop) ≢ true
        after_stop_gone i stopped h = unfold after_stop in cc h
        after_stop_gone i (stop_rethrown error) h = unfold after_stop in cc h
        after_stop_gone i exchanging h = unfold after_stop in cc h
        after_stop_gone i shutting h = unfold after_stop in cc h
        after_stop_gone i joining h = unfold after_stop in cc h
        after_stop_gone i checking h = unfold after_stop in cc h
    finish-Safe returned s at h = h
    finish-Safe (failed error) s at h = h

    pub act-Safe : (a : Action) (s : State R) → Safe s → Safe (act draw program a s)
    unfolding act Runs.move
    act-Safe signal_handled s h = record {
      linked = h.linked;
      quiet = h.quiet;
      left = h.left;
      taken = h.taken;
    }
    act-Safe writer_acts s h = record {
      linked = h.linked;
      quiet = λ w. run_step-Quiet s.world.recorder.writer_thread s.world.recorder refl (h.quiet w);
      left = h.left;
      taken = λ calm. h.taken (first_error s.world.recorder.writer_thread s.world.recorder calm);
    }
    act-Safe main_acts s h = finish-Safe s.main s refl h
    act-Safe (producer_acts p now) s h = elim (Bool-cases (is_waiting s.main)) [
      | inl waits_ ↦ produce-Safe p now (get_or s.places p ended) s refl waits_ h
      | inr gone ↦ rw (all_ended-get_or s.places p (h.left gone)) (unfold produce in h)
    ]

    acts-Safe : (as_ : List Action) (s : State R) → Safe s → Safe (acts draw program as_ s)
    unfolding acts
    acts-Safe [] s h = h
    acts-Safe (a ∷ rest) s h = elim (Bool-cases (any_threw s.places)) [
      | inl dead ↦ rw dead h
      | inr alive ↦ rw alive (acts-Safe rest (act draw program a s) (act-Safe a s h))
    ]
