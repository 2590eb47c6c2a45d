-- ===== src/Apps/Producers/Lively.antt =====
-- What the actions of apps/hpblr_record.cpp and apps/hpblr_bench.cpp do to who waits for whom.
use cpp_high_performance_bin.Base.{
  ℕ, zero, suc, ◌<◌, ◌≡◌, ◌≢◌, refl, sym, ap, subst, ◌∙◌, Bool, true, false, Bool-cases, inl, inr,
  if◌then◌else◌, arith, List, [], ◌∷◌, ◌++◌, length, length-append, length-set, get_or, set,
}
use cpp_high_performance_bin.AsyncRecorder
use cpp_high_performance_bin.AsyncRecorder.{
  AsyncRecorder, run_step, Submission, entering, answered, submit_step, Stop, exchanging, joining,
  stop_step,
}
use cpp_high_performance_bin.AsyncRecorder.Runs
use cpp_high_performance_bin.Apps.Producers.{
  Program, Place, asking, numbering, counting, ended, submitting, threw, Main, waiting, returned,
  stopping, failed, State, Action, signal_handled, writer_acts, main_acts, producer_acts,
  take_number, produce, all_ended, after_stop, finish, act,
}
use cpp_high_performance_bin.Apps.Producers.Links.{all_ended-get_or}
use cpp_high_performance_bin.Apps.Producers.Owners.{Owned, move-Owned, call-Owned, step-Owned}
use cpp_high_performance_bin.Apps.Producers.Safe.{Safe, is_waiting}
use cpp_high_performance_bin.Apps.Producers.Live.{
  Alive, run_step-Alive, run_step_closed, submit_step-Alive, stop_step-Alive, Going,
  stop_step-Going,
}

pub record Lively {R : Type 0} (s : State R) : Type 0 where
  pub alive : Alive s.world.recorder
  pub owned : Owned s.places s.world.submissions
  pub going :
      (i : ℕ)
      → s.main ≡ stopping i
      → (i < length s.world.stops) × Going s.world.recorder (get_or s.world.stops i joining)

pub get_or-set_in :
    (ss : List Stop) (i : ℕ) (v : Stop) → i < length ss → get_or (set ss i v) i joining ≡ v
get_or-set_in [] i v h = absurd (omega arith)
get_or-set_in (s ∷ ss) zero v h = refl
get_or-set_in (s ∷ ss) (suc i) v h = get_or-set_in ss i v (omega arith)

pub get_or_last : (ss : List Stop) (v : Stop) → get_or (ss ++ v ∷ []) (length ss) joining ≡ v
get_or_last [] v = refl
get_or_last (s ∷ ss) v = get_or_last ss v

asking_apart : (b : Bool) (i : ℕ) → (if b then numbering else ended) ≢ submitting i
asking_apart true i e = cc e
asking_apart false i e = cc e

run_step_stopping : (s : AsyncRecorder) → (run_step s.writer_thread s).stopping ≡ s.stopping
run_step_stopping s = same s.writer_thread
  where
    same : (t : AsyncRecorder.WriterThread) → (run_step t s).stopping ≡ s.stopping
    same AsyncRecorder.popping = unfold run_step in refl
    same t = unfold run_step in refl

module _ {R : Type 0} (draw : R → ℕ × R) (program : Program) where
  -- While `main` waits, only the calls and places matter.
  waiting-Lively :
      (s s' : State R)
      → is_waiting s.main ≡ true
      → s'.main ≡ s.main
      → Alive s'.world.recorder
      → Owned s'.places s'.world.submissions
      → Lively s'
  waiting-Lively s s' waits_ same a o = record {
    alive = a;
    owned = o;
    going = λ i e. let w = ap is_waiting (sym same ∙ e) in cc (waits_, w);
  }

  produce-Lively :
      (p now : ℕ) (place : Place) (s : State R)
      → get_or s.places p ended ≡ place
      → is_waiting s.main ≡ true
      → Lively s
      → Lively (produce draw program p now place s)
  unfolding produce take_number Runs.move
  produce-Lively p now asking s at waits_ h = waiting-Lively s _ waits_ refl h.alive (
      move-Owned s.places s.world.submissions p _ (λ e. cc (at, e))
        (asking_apart (program.loops s.stop_requested)) h.owned)
  produce-Lively p now numbering s at waits_ h = elim (Bool-cases (program.over s.next_sequence)) [
    | inl over ↦ rw over (
        waiting-Lively s _ waits_ refl h.alive
          (move-Owned s.places s.world.submissions p ended (λ e. cc (at, e)) (λ i e. cc e) h.owned))
    | inr below ↦ rw below (
        waiting-Lively s _ waits_ refl h.alive
          (call-Owned s.places s.world.submissions p _ (λ e. cc (at, e)) refl h.owned))
  ]
  produce-Lively p now (submitting i) s at waits_ h =
      let call = get_or s.world.submissions i (answered false) in
      waiting-Lively s _ waits_ refl (submit_step-Alive call s.world.recorder h.alive) (
        step-Owned program.counts s.places s.world.submissions p i
          (submit_step call s.world.recorder).0 at h.owned)
  produce-Lively p now counting s at waits_ h =
      waiting-Lively s _ waits_ refl h.alive
        (move-Owned s.places s.world.submissions p asking (λ e. cc (at, e)) (λ i e. cc e) h.owned)
  produce-Lively p now ended s at waits_ h = h
  produce-Lively p now (threw error) s at waits_ h = h

  finish-Lively :
      (main : Main) (s : State R) → s.main ≡ main → Safe s → Lively s → Lively (finish main s)
  unfolding finish Runs.move
  finish-Lively waiting s at safe h = elim (Bool-cases (all_ended s.places)) [
    | inl all ↦ rw all (record {
      alive = h.alive;
      owned = h.owned;
      going = λ i e.
          let same : length s.world.stops ≡ i = cc e in
          (
            omega (arith, same, length-append s.world.stops (exchanging ∷ [])),
            subst (Going s.world.recorder)
                (sym (get_or_last s.world.stops exchanging)
                  ∙ ap (λ k. get_or (s.world.stops ++ exchanging ∷ []) k joining) same)
                (record {
                  first = λ d. (safe.quiet (ap is_waiting at)).running;
                  shut = λ d. cc d;
                  open_ = (λ d. cc d, λ x d. cc d);
                }),
          );
    })
    | inr some_ ↦ rw some_ h
  ]
  finish-Lively (stopping i) s at safe h =
      let stop = get_or s.world.stops i joining in
      let r = s.world.recorder in
      let (inside, going) = h.going i at in
      let stop' = (stop_step stop r).0 in
      let stored = get_or-set_in s.world.stops i stop' inside in
      record {
        alive = stop_step-Alive stop r h.alive;
        owned = h.owned;
        going = λ j e.
            let (same, next) =
              stop_step-Going i stop r j going (ap (after_stop (stopping i)) (sym stored) ∙ e) in
            (
              omega (arith, same, inside, length-set s.world.stops i stop'),
              subst (Going (stop_step stop r).1)
                  (sym stored ∙ ap (λ k. get_or (set s.world.stops i stop') k joining) same) next,
            );
      }
  finish-Lively returned s at safe h = h
  finish-Lively (failed error) s at safe h = h

  pub act-Lively : (a : Action) (s : State R) → Safe s → Lively s → Lively (act draw program a s)
  unfolding act Runs.move
  act-Lively signal_handled s safe h = record { alive = h.alive; owned = h.owned; going = h.going }
  act-Lively writer_acts s safe h = record {
    alive = run_step-Alive s.world.recorder.writer_thread s.world.recorder refl h.alive;
    owned = h.owned;
    going = λ i e.
        let (inside, g) = h.going i e in
        (
          inside,
          record {
            first = λ d. run_step_stopping s.world.recorder ∙ g.first d;
            shut = λ d. run_step_closed s.world.recorder.writer_thread s.world.recorder (g.shut d);
            open_ = g.open_;
          },
        );
  }
  act-Lively main_acts s safe h = finish-Lively s.main s refl safe h
  act-Lively (producer_acts p now) s safe h = elim (Bool-cases (is_waiting s.main)) [
    | inl waits_ ↦ produce-Lively p now (get_or s.places p ended) s refl waits_ h
    | inr gone ↦ rw (all_ended-get_or s.places p (safe.left gone)) (unfold produce in h)
  ]
