-- ===== src/Apps/Producers.antt =====
-- The producer threads and the end of `main` in apps/hpblr_record.cpp and apps/hpblr_bench.cpp.
-- Both programs start the same threads, up to a few choices that a `Program` holds. A thread is at a
-- place between two accesses to what the threads share; what it does on its own belongs to the
-- action before. The engine of the generators and the clock are parameters, as in EventGenerator.
pub mod Traces
pub mod Weights
pub mod Numbers
pub mod Links
pub mod Calm
pub mod Safe
pub mod Reasons
pub mod Ends
pub mod Sound
pub mod Delivered
pub mod Bound
pub mod Owners
pub mod Counts
pub mod Uncounted
pub mod Counted
pub mod Totals
pub mod Dying
pub mod Measure
pub mod Live
pub mod Lively
pub mod Turns
pub mod Progress
pub mod Termination
pub mod Examples
use cpp_high_performance_bin.Base.{
  ℕ, suc, ◌+◌, ◌%◌, ◌^◌, ◌==◌, Bool, true, false, if◌then◌else◌, List, [], ◌∷◌, ◌++◌, length,
  get_or, set, replicate,
}
use cpp_high_performance_bin.Errors.{Error}
use cpp_high_performance_bin.BinaryLog.Writer.{Writer}
use cpp_high_performance_bin.AsyncRecorder.{
  Submission, answered, rethrown, Stop, joining, stopped, stop_rethrown,
}
use cpp_high_performance_bin.AsyncRecorder.Runs
use cpp_high_performance_bin.AsyncRecorder.Runs.{World}
use cpp_high_performance_bin.EventGenerator
use cpp_high_performance_bin.EventGenerator.{GeneratorConfig}

-- What the programs choose: the configuration of each producer's generator, the condition of the
-- loop on the stop flag, the test of a sequence number that leaves the loop, and whether a producer
-- counts the events that were taken.
pub record Program : Type 0 where
  pub config : ℕ → GeneratorConfig
  pub loops : Bool → Bool
  pub over : ℕ → Bool
  pub counts : Bool

-- Places of a producer thread. In `submitting i` it is in the call of `submit` with number `i`. An
-- exception that leaves the thread's function is `threw`.
pub data Place : Type 0 where
  asking numbering counting ended : Place
  submitting : ℕ → Place
  threw : Error → Place

-- Places of `main` from `producers.clear()`, which joins the threads, to the end of the program.
pub data Main : Type 0 where
  waiting returned : Main
  stopping : ℕ → Main
  failed : Error → Main

-- The threads with what they share. `handed` counts the sequence numbers taken, without a bound.
pub record State (R : Type 0) : Type 0 where
  pub world : World
  pub next_sequence : ℕ
  pub handed : ℕ
  pub generated : ℕ
  pub stop_requested : Bool
  pub places : List Place
  pub engines : ℕ → R
  pub main : Main

pub data Action : Type 0 where
  signal_handled writer_acts main_acts : Action
  producer_acts : ℕ → ℕ → Action

abbrev pub update : {A : Type 0} → (ℕ → A) → ℕ → A → ℕ → A
update f i a j = if i == j then a else f j

-- What the result of `submit` makes a producer do, which otherwise stays in the call.
unfoldable pub after_submit : Bool → Place → Submission → Place
after_submit counts place (answered true) = if counts then counting else asking
after_submit counts place (answered false) = ended
after_submit counts place (rethrown error) = threw error
after_submit counts place submission = place

-- `fetch_add`, the test of the number, and the begin of `submit` with the next event.
unfoldable pub take_number : {R : Type 0} → (R → ℕ × R) → Program → ℕ → ℕ → State R → State R
take_number draw program p now s =
    let sequence = s.next_sequence in
    let (event, engine) = EventGenerator.next draw (program.config p) now sequence (s.engines p) in
    let taken = record s {
      next_sequence = (s.next_sequence + 1) % 2 ^ 64;
      handed = suc s.handed;
    } in
    if program.over sequence then record taken { places = set s.places p ended } else record taken {
      world = Runs.move (Runs.submit_called event) s.world;
      places = set s.places p (submitting (length s.world.submissions));
      engines = update s.engines p engine;
    }

-- The next action of producer `p`, with the clock at `now`. `sleep_for` changes nothing shared.
unfoldable pub produce : {R : Type 0} → (R → ℕ × R) → Program → ℕ → ℕ → Place → State R → State R
produce draw program p now asking s = record s {
  places = set s.places p (if program.loops s.stop_requested then numbering else ended);
}
produce draw program p now numbering s = take_number draw program p now s
produce draw program p now (submitting i) s =
    let world' = Runs.move (Runs.submit_moves i) s.world in
    record s {
      world = world';
      places = set s.places p (
          after_submit program.counts (submitting i)
            (get_or world'.submissions i (answered false)));
    }
produce draw program p now counting s = record s {
  generated = (s.generated + 1) % 2 ^ 64;
  places = set s.places p asking;
}
produce draw program p now ended s = s
produce draw program p now (threw error) s = s

-- Every thread has left its function.
unfoldable pub all_ended : List Place → Bool
all_ended [] = true
all_ended (ended ∷ places) = all_ended places
all_ended (place ∷ places) = false

unfoldable pub any_threw : List Place → Bool
any_threw [] = false
any_threw (threw error ∷ places) = true
any_threw (place ∷ places) = any_threw places

unfoldable pub after_stop : Main → Stop → Main
after_stop main stopped = returned
after_stop main (stop_rethrown error) = failed error
after_stop main stop = main

-- `producers.clear()` and `recorder.stop()`.
unfoldable pub finish : {R : Type 0} → Main → State R → State R
finish waiting s =
    if all_ended s.places
    then record s {
      world = Runs.move Runs.stop_called s.world;
      main = stopping (length s.world.stops);
    }
    else s
finish (stopping i) s =
    let world' = Runs.move (Runs.stop_moves i) s.world in
    record s { world = world'; main = after_stop (stopping i) (get_or world'.stops i joining) }
finish returned s = s
finish (failed error) s = s

unfoldable pub act : {R : Type 0} → (R → ℕ × R) → Program → Action → State R → State R
act draw program signal_handled s = record s { stop_requested = true }
act draw program writer_acts s = record s { world = Runs.move Runs.writer_moves s.world }
act draw program main_acts s = finish s.main s
act draw program (producer_acts p now) s = produce draw program p now (get_or s.places p ended) s

-- An exception that leaves a thread's function is `std::terminate`, after which nothing acts.
unfoldable pub acts : {R : Type 0} → (R → ℕ × R) → Program → List Action → State R → State R
acts draw program [] s = s
acts draw program (a ∷ rest) s =
    if any_threw s.places then s else acts draw program rest (act draw program a s)

-- The recorder is made and `producers` threads are started.
unfoldable pub start : {R : Type 0} → (ℕ → R) → Program → Writer → ℕ → ℕ → State R
start seeded program writer queue_capacity producers = record {
  world = Runs.begin writer queue_capacity;
  next_sequence = 0;
  handed = 0;
  generated = 0;
  stop_requested = false;
  places = replicate producers asking;
  engines = λ p. EventGenerator.construct seeded (program.config p);
  main = waiting;
}
