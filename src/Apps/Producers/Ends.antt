-- ===== src/Apps/Producers/Ends.antt =====
-- What every action keeps of the reasons why threads of apps/hpblr_record.cpp or
-- apps/hpblr_bench.cpp have ended.
use cpp_high_performance_bin.Base.{
  ℕ, ◌≡◌, ◌≢◌, refl, sym, ap, ◌∙◌, Bool, true, false, Bool-cases, inl, inr, if◌then◌else◌, arith,
  [], ◌∷◌, length, length-append, length-set, get_or, set,
}
use cpp_high_performance_bin.AsyncRecorder.{entering, answered, submit_step, joining}
use cpp_high_performance_bin.AsyncRecorder.Invariant.{is_none}
use cpp_high_performance_bin.AsyncRecorder.Runs
use cpp_high_performance_bin.AsyncRecorder.Stops.{submit_step-error, stop_step-error}
use cpp_high_performance_bin.EventGenerator
use cpp_high_performance_bin.Apps.Producers.{
  Program, Place, asking, numbering, counting, ended, submitting, threw, Main, waiting, returned,
  stopping, failed, State, Action, signal_handled, writer_acts, main_acts, producer_acts,
  take_number, produce, all_ended, finish, act,
}
use cpp_high_performance_bin.Apps.Producers.Calm.{first_error}
use cpp_high_performance_bin.Apps.Producers.Safe.{Safe}
use cpp_high_performance_bin.Apps.Producers.Reasons.{
  Justified, stay-Justified, move-Justified, asked, after_submit-ended, after_submit-submitting,
  refused_in,
}

module _ {R : Type 0} (program : Program) (draw : R → ℕ × R) where
  take_number-Justified :
      (p now : ℕ) (s : State R)
      → get_or s.places p ended ≡ numbering
      → s.next_sequence ≡ s.handed
      → Justified program s
      → Justified program (take_number draw program p now s)
  unfolding take_number Runs.move
  take_number-Justified p now s at first h = elim (Bool-cases (program.over s.next_sequence)) [
    | inl over ↦ rw over (
        move-Justified program s _ p ended refl (omega arith) (omega arith) (λ e. e) (λ e. e)
          (λ e. cc (at, e))
          (λ e calm running. record {
            number = s.handed;
            taken = omega arith;
            over_ = ap program.over (sym first) ∙ over;
          })
          (λ i e. cc e) h)
    | inr below ↦ rw below (
        let event =
          (EventGenerator.next draw (program.config p) now s.next_sequence (s.engines p)).0 in
        let longer = length-append s.world.submissions (entering event ∷ []) in
        move-Justified program s _ p (submitting (length s.world.submissions)) refl
          (omega (arith, longer)) (omega arith) (λ e. e) (λ e. e) (λ e. cc (at, e)) (λ e. cc e)
          (λ i e. let same : length s.world.submissions ≡ i = cc e in omega (arith, longer, same))
          h)
  ]

  produce-Justified :
      (p now : ℕ) (place : Place) (s : State R)
      → get_or s.places p ended ≡ place
      → s.next_sequence ≡ s.handed
      → Safe (produce draw program p now place s)
      → Justified program s
      → Justified program (produce draw program p now place s)
  unfolding produce Runs.move
  produce-Justified p now asking s at first safe h =
      move-Justified program s _ p _ refl (omega arith) (omega arith) (λ e. e) (λ e. e)
        (λ e. cc (at, e)) (λ e. asked program s e)
        (λ i e. absurd (asked_apart (program.loops s.stop_requested) i e)) h
    where
      asked_apart : (b : Bool) (i : ℕ) → (if b then numbering else ended) ≢ submitting i
      asked_apart true i e = cc e
      asked_apart false i e = cc e
  produce-Justified p now numbering s at first safe h = take_number-Justified p now s at first h
  produce-Justified p now (submitting i) s at first safe h =
      let call = get_or s.world.submissions i (answered false) in
      let calls = set s.world.submissions i (submit_step call s.world.recorder).0 in
      let same = length-set s.world.submissions i (submit_step call s.world.recorder).0 in
      let before = submit_step-error call s.world.recorder in
      let inside = h.inside p i at in
      move-Justified program s _ p _ refl (omega (arith, same)) (omega arith)
        (λ e. ap is_none (sym before) ∙ e) (λ e. e) (λ e. cc (at, e))
        (λ e calm running. absurd (
          omega (
            arith,
            after_submit-ended program.counts i (get_or calls i (answered false)) e,
            refused_in calls i (omega (arith, same, inside)),
            safe.taken calm,
          )))
        (λ j e.
          let same' =
            after_submit-submitting program.counts i j (get_or calls i (answered false)) e in
          omega (arith, same, same', inside))
        h
  produce-Justified p now counting s at first safe h =
      move-Justified program s _ p asking refl (omega arith) (omega arith) (λ e. e) (λ e. e)
        (λ e. cc (at, e)) (λ e. cc e) (λ i e. cc e) h
  produce-Justified p now ended s at first safe h = h
  produce-Justified p now (threw error) s at first safe h = h

  finish-Justified :
      (main : Main) (s : State R) → Justified program s → Justified program (finish main s)
  unfolding finish Runs.move
  finish-Justified waiting s h = elim (Bool-cases (all_ended s.places)) [
    | inl all ↦
        rw all (stay-Justified program s _ refl (omega arith) (omega arith) (λ e. e) (λ e. e) h)
    | inr some_ ↦ rw some_ h
  ]
  finish-Justified (stopping i) s h =
      let before = stop_step-error (get_or s.world.stops i joining) s.world.recorder in
      stay-Justified program s _ refl (omega arith) (omega arith) (λ e. ap is_none (sym before) ∙ e)
        (λ e. e) h
  finish-Justified returned s h = h
  finish-Justified (failed error) s h = h

  unless :
      (b : Bool)
      → (program.loops true ≡ true → program.loops false ≡ true)
      → program.loops true ≡ true
      → program.loops b ≡ true
  unless true always e = e
  unless false always e = always e

  pub act-Justified :
      (a : Action) (s : State R)
      → (program.loops true ≡ true → program.loops false ≡ true)
      → s.next_sequence ≡ s.handed
      → Safe (act draw program a s)
      → Justified program s
      → Justified program (act draw program a s)
  unfolding act Runs.move
  act-Justified signal_handled s always first safe h =
      stay-Justified program s _ refl (omega arith) (omega arith) (λ e. e)
        (unless s.stop_requested always) h
  act-Justified writer_acts s always first safe h =
      stay-Justified program s _ refl (omega arith) (omega arith)
        (first_error s.world.recorder.writer_thread s.world.recorder) (λ e. e) h
  act-Justified main_acts s always first safe h = finish-Justified s.main s h
  act-Justified (producer_acts p now) s always first safe h =
      produce-Justified p now (get_or s.places p ended) s refl first safe h
