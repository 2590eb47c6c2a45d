-- ===== src/Apps/Producers/Progress.antt =====
-- Which thread of apps/hpblr_record.cpp and apps/hpblr_bench.cpp goes on: a producer, main in stop, or
-- the writer thread.
use cpp_high_performance_bin.Base.{
  ℕ, ◌+◌, ◌≤◌, ◌<◌, ◌≡◌, ◌≢◌, ◌⊎◌, refl, ap, true, false, Bool-cases, inl, inr, arith, List, length,
  get_or, set,
}
use cpp_high_performance_bin.Errors.{Error}
use cpp_high_performance_bin.AsyncRecorder
use cpp_high_performance_bin.AsyncRecorder.{
  AsyncRecorder, WriterThread, run_step, Submission, entering, answered, submit_step, Stop,
  exchanging, joining, stop_step,
}
use cpp_high_performance_bin.AsyncRecorder.Joining.{left_of, run_step-Nearer, none_left}
use cpp_high_performance_bin.AsyncRecorder.Runs
use cpp_high_performance_bin.Apps.Producers.{
  Program, ended, Main, waiting, returned, stopping, failed, State, writer_acts, main_acts,
  all_ended, any_threw, after_stop, finish, act,
}
use cpp_high_performance_bin.Apps.Producers.Live.{stop_left, stop_step_less}
use cpp_high_performance_bin.Apps.Producers.Lively.{Lively, get_or-set_in, get_or_last}
use cpp_high_performance_bin.Apps.Producers.Turns.{main_left, Advance, producer_advances, find-Busy}

finished_cases : (t : WriterThread) → (t ≡ AsyncRecorder.finished) ⊎ (t ≢ AsyncRecorder.finished)
finished_cases AsyncRecorder.finished = inl refl
finished_cases AsyncRecorder.popping = inr (λ e. cc e)
finished_cases (AsyncRecorder.appending event) = inr (λ e. cc e)
finished_cases AsyncRecorder.counting = inr (λ e. cc e)
finished_cases AsyncRecorder.flushing = inr (λ e. cc e)
finished_cases (AsyncRecorder.failing error) = inr (λ e. cc e)
finished_cases AsyncRecorder.closing = inr (λ e. cc e)

joining_cases : (s : Stop) → (s ≡ joining) ⊎ (s ≢ joining)
joining_cases joining = inl refl
joining_cases exchanging = inr (λ e. cc e)
joining_cases AsyncRecorder.shutting = inr (λ e. cc e)
joining_cases AsyncRecorder.checking = inr (λ e. cc e)
joining_cases AsyncRecorder.stopped = inr (λ e. cc e)
joining_cases (AsyncRecorder.stop_rethrown error) = inr (λ e. cc e)

after_stop_left :
    (i : ℕ) (v : Stop) (stops : List Stop)
    → get_or stops i joining ≡ v
    → main_left (after_stop (stopping i) v) stops ≤ 1 + stop_left v
unfolding after_stop
after_stop_left i AsyncRecorder.stopped stops e = omega arith
after_stop_left i (AsyncRecorder.stop_rethrown error) stops e = omega arith
after_stop_left i exchanging stops e = omega (arith, ap stop_left e)
after_stop_left i AsyncRecorder.shutting stops e = omega (arith, ap stop_left e)
after_stop_left i joining stops e = omega (arith, ap stop_left e)
after_stop_left i AsyncRecorder.checking stops e = omega (arith, ap stop_left e)

module _ {R : Type 0} (draw : R → ℕ × R) (program : Program) (events : ℕ)
    (last_number : (n : ℕ) → program.over n ≡ false → n < events) where
  main_advances :
      (i : ℕ) (s : State R)
      → s.main ≡ stopping i
      → Lively s
      → (get_or s.world.stops i joining ≡ joining
          → s.world.recorder.writer_thread ≡ AsyncRecorder.finished)
      → Advance draw program events last_number s
  main_advances i s at h done = (
    main_acts,
    unfold act in
        rw at (
          unfold finish in
          unfold Runs.move in
          (let stops = s.world.stops in
            let stop = get_or stops i joining in
            let r = s.world.recorder in
            let (inside, going) = h.going i at in
            let (less, same) = stop_step_less stop r going done in
            let stop' = (stop_step stop r).0 in
            let v = get_or (set stops i stop') i joining in
            let stored = get_or-set_in stops i stop' inside in
            let left_ = after_stop_left i v (set stops i stop') refl in
            omega (arith, less, same, left_, ap stop_left stored, ap (λ m. main_left m stops) at))),
  )

  closed_advances :
      (s : State R)
      → s.world.recorder.queue.closed ≡ true
      → s.world.recorder.writer_thread ≢ AsyncRecorder.finished
      → Advance draw program events last_number s
  closed_advances s shut busy =
      let r = s.world.recorder in
      let near = run_step-Nearer r.writer_thread r refl shut in
      let some_ : left_of r ≢ 0 =
        λ e. busy (none_left r.writer_thread (length r.queue.queue) (omega (arith, e))) in
      (writer_acts, unfold act in unfold Runs.move in omega (arith, near.fewer, some_))

  stop_advances :
      (i : ℕ) (s : State R)
      → s.main ≡ stopping i
      → Lively s
      → Advance draw program events last_number s
  stop_advances i s at h = elim (joining_cases (get_or s.world.stops i joining)) [
    | inr other ↦ main_advances i s at h (λ e. absurd (other e))
    | inl joins ↦ elim (finished_cases s.world.recorder.writer_thread) [
      | inl done ↦ main_advances i s at h (λ e. done)
      | inr busy ↦ closed_advances s (((h.going i at).1).shut joins) busy
    ]
  ]

  -- Unless the program is at its end, some thread advances.
  pub advance :
      (s : State R) (main : Main)
      → s.main ≡ main
      → s.next_sequence ≡ s.handed
      → Lively s
      → any_threw s.places ≡ false
      → main ≢ returned
      → ((e : Error) → main ≢ failed e)
      → Advance draw program events last_number s
  advance s waiting at first h alive a b = elim (Bool-cases (all_ended s.places)) [
    | inr some_ ↦
        let (p, busy) = find-Busy s.places alive some_ in
        producer_advances draw program events last_number p s first h (get_or s.places p ended) refl
          busy
    | inl all ↦ (
      main_acts,
      unfold act in
          rw at (
            unfold finish in
            rw all (
              unfold Runs.move in
              (let last = get_or_last s.world.stops exchanging in
                omega (arith, ap stop_left last, ap (λ m. main_left m s.world.stops) at)))),
    )
  ]
  advance s (stopping i) at first h alive a b = stop_advances i s at h
  advance s returned at first h alive a b = absurd (a refl)
  advance s (failed error) at first h alive a b = absurd (b error refl)
