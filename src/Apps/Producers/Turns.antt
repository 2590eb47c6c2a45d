-- ===== src/Apps/Producers/Turns.antt =====
-- What is left to do in the programs of apps/hpblr_record.cpp and apps/hpblr_bench.cpp, and the calls
-- of their producers that make it less.
use cpp_high_performance_bin.Base.{
  ℕ, zero, suc, ◌+◌, ◌-◌, ◌*◌, ◌≤◌, ◌<◌, ◌≡◌, ◌≢◌, ◌⊎◌, refl, ap, Bool, true, false, Bool-cases,
  inl, inr, if◌then◌else◌, arith, List, [], ◌∷◌, length, get_or, set,
}
use cpp_high_performance_bin.AsyncRecorder
use cpp_high_performance_bin.AsyncRecorder.{
  AsyncRecorder, WriterThread, run_step, Submission, entering, answered, submit_step, Stop,
  exchanging, joining, stop_step,
}
use cpp_high_performance_bin.AsyncRecorder.Invariant.{is_drained}
use cpp_high_performance_bin.AsyncRecorder.Joining.{left_of}
use cpp_high_performance_bin.AsyncRecorder.Runs
use cpp_high_performance_bin.EventGenerator
use cpp_high_performance_bin.Apps.Producers.{
  Program, Place, asking, numbering, counting, ended, submitting, threw, Main, waiting, returned,
  stopping, failed, State, Action, writer_acts, producer_acts, after_submit, take_number, produce,
  all_ended, any_threw, act,
}
use cpp_high_performance_bin.Apps.Producers.Weights.{total, total-append, total-set, step_answered}
use cpp_high_performance_bin.Apps.Producers.Measure.{
  steps_left, run_step_less, Blocked, submit_step-Less,
}
use cpp_high_performance_bin.Apps.Producers.Live.{stop_left}
use cpp_high_performance_bin.Apps.Producers.Lively.{Lively}

abbrev pub place_left : Place → ℕ
place_left asking = 3
place_left numbering = 2
place_left (submitting i) = 5
place_left counting = 4
place_left ended = 0
place_left (threw error) = 0

abbrev pub places_left : List Place → ℕ
places_left [] = 0
places_left (place ∷ places) = place_left place + places_left places

places_left-set :
    (places : List Place) (p : ℕ) (place : Place)
    → get_or places p ended ≢ ended
    → places_left (set places p place) + place_left (get_or places p ended)
      ≡ places_left places + place_left place
places_left-set [] p place h = absurd (h refl)
places_left-set (x ∷ xs) zero place h = omega arith
places_left-set (x ∷ xs) (suc p) place h = omega (arith, places_left-set xs p place h)

abbrev pub main_left : Main → List Stop → ℕ
main_left waiting stops = 10
main_left (stopping i) stops = 1 + stop_left (get_or stops i joining)
main_left returned stops = 0
main_left (failed error) stops = 0

-- What is left to do, with `events` numbers at most.
abbrev pub measure : {R : Type 0} → ℕ → State R → ℕ
measure events s =
    20 * (events - s.handed)
    + total steps_left s.world.submissions
    + left_of s.world.recorder
    + places_left s.places
    + main_left s.main s.world.stops

after_submit_left :
    (counts : Bool) (i : ℕ) (s : Submission) → place_left (after_submit counts (submitting i) s) ≤ 5
unfolding after_submit
after_submit_left true i (answered true) = omega arith
after_submit_left false i (answered true) = omega arith
after_submit_left counts i (answered false) = omega arith
after_submit_left counts i (AsyncRecorder.rethrown error) = omega arith
after_submit_left counts i s = omega arith

asking_left : (b : Bool) → place_left (if b then numbering else ended) < 3
asking_left true = omega arith
asking_left false = omega arith

-- A thread that is not at the end of its function.
pub data Busy : Place → Type 0 where
  asks : Busy asking
  numbers : Busy numbering
  counts_ : Busy counting
  submits : (i : ℕ) → Busy (submitting i)

pub find-Busy :
    (places : List Place)
    → any_threw places ≡ false
    → all_ended places ≡ false
    → (p : ℕ) × Busy (get_or places p ended)
unfolding any_threw all_ended
find-Busy [] h k = cc k
find-Busy (asking ∷ places) h k = (0, asks)
find-Busy (numbering ∷ places) h k = (0, numbers)
find-Busy (counting ∷ places) h k = (0, counts_)
find-Busy (submitting i ∷ places) h k = (0, submits i)
find-Busy (threw error ∷ places) h k = cc h
find-Busy (ended ∷ places) h k = let (p, b) = find-Busy places h k in (suc p, b)

module _ {R : Type 0} (draw : R → ℕ × R) (program : Program) (events : ℕ)
    (last_number : (n : ℕ) → program.over n ≡ false → n < events) where
  -- An action makes less what is left.
  abbrev pub Advance : State R → Type 0
  Advance s = (a : Action) × (measure events (act draw program a s) < measure events s)

  writer_advances :
      (s : State R)
      → s.world.recorder.writer_thread ≢ AsyncRecorder.finished
      → (s.world.recorder.writer_thread ≡ AsyncRecorder.popping → s.world.recorder.queue.queue ≢ [])
      → Advance s
  unfolding act Runs.move
  writer_advances s busy full =
      let r = s.world.recorder in
      let less = run_step_less r.writer_thread r refl busy full in
      (writer_acts, omega (arith, less))

  number_less :
      (p now : ℕ) (s : State R)
      → get_or s.places p ended ≡ numbering
      → s.next_sequence ≡ s.handed
      → measure events (take_number draw program p now s) < measure events s
  unfolding take_number Runs.move
  number_less p now s at first = elim (Bool-cases (program.over s.next_sequence)) [
    | inl over ↦ rw over (
        let places_ = places_left-set s.places p ended (λ e. cc (at, e)) in
        omega (arith, places_, ap place_left at))
    | inr below ↦ rw below (
        let event =
          (EventGenerator.next draw (program.config p) now s.next_sequence (s.engines p)).0 in
        let places_ =
          places_left-set s.places p (submitting (length s.world.submissions)) (λ e. cc (at, e)) in
        let calls = total-append steps_left s.world.submissions (entering event ∷ []) in
        omega (arith, places_, ap place_left at, calls, first, last_number s.next_sequence below))
  ]

  -- A call that waits for room can count on the writer thread.
  Blocked-advances : (s : State R) → Lively s → Blocked s.world.recorder → Advance s
  Blocked-advances s h (open_, full) =
      writer_advances s (λ e. let shut = h.alive.shut (ap is_drained e) in cc (shut, open_))
        (λ e empty. absurd (omega (arith, h.alive.room, full, ap length empty)))

  call_advances :
      (p i : ℕ) (s : State R)
      → get_or s.places p ended ≡ submitting i
      → Lively s
      → Blocked s.world.recorder
        ⊎ (measure events (produce draw program p 0 (submitting i) s) < measure events s)
  unfolding produce Runs.move
  call_advances p i s at h =
      let r = s.world.recorder in
      let calls = s.world.submissions in
      let call = get_or calls i (answered false) in
      elim (submit_step-Less call r (h.owned.open_ p i at)) [
        | inl blocked ↦ inl blocked
        | inr less ↦
            let v = get_or (set calls i (submit_step call r).0) i (answered false) in
            let places_ =
              places_left-set s.places p (after_submit program.counts (submitting i) v)
                (λ e. cc (at, e)) in
            let sums =
              total-set steps_left (λ c. (submit_step c r).0) calls i
                (ap steps_left (step_answered r)) in
            inr (
              omega (
                arith,
                less,
                places_,
                ap place_left at,
                sums,
                after_submit_left program.counts i v,
              ))
      ]

  pub producer_advances :
      (p : ℕ) (s : State R)
      → s.next_sequence ≡ s.handed
      → Lively s
      → (place : Place) → get_or s.places p ended ≡ place
      → Busy place
      → Advance s
  producer_advances p s first h asking at asks = (
    producer_acts p 0,
    unfold act in
        rw at (
          unfold produce in
          (let places_ =
              places_left-set s.places p
                (if program.loops s.stop_requested then numbering else ended) (λ e. cc (at, e)) in
            omega
              (arith, places_, ap place_left at, asking_left (program.loops s.stop_requested)))),
  )
  producer_advances p s first h numbering at numbers =
      (producer_acts p 0, unfold act in rw at (unfold produce in number_less p 0 s at first))
  producer_advances p s first h counting at counts_ = (
    producer_acts p 0,
    unfold act in
        rw at (
          unfold produce in
          (let places_ = places_left-set s.places p asking (λ e. cc (at, e)) in
            omega (arith, places_, ap place_left at))),
  )
  producer_advances p s first h (submitting i) at (submits _) = elim (call_advances p i s at h) [
    | inl blocked ↦ Blocked-advances s h blocked
    | inr less ↦ (producer_acts p 0, unfold act in rw at less)
  ]
  producer_advances p s first h ended at none = elim none [ ]
  producer_advances p s first h (threw _) at none = elim none [ ]
