-- ===== src/Apps/Producers/Traces.antt =====
-- What the programs of apps/hpblr_record.cpp and apps/hpblr_bench.cpp do to the recorder is a run of
-- it: calls of `submit` and `stop` and the writer thread, interleaved.
use cpp_high_performance_bin.Base.{
  ℕ, ◌^◌, ◌<◌, ◌≡◌, refl, ap, ◌∙◌, Bool-cases, inl, inr, arith, List, [], ◌∷◌, ◌++◌, get_or, All,
  All-append,
}
use cpp_high_performance_bin.AsyncRecorder.Runs
use cpp_high_performance_bin.AsyncRecorder.Runs.{World, Move, moves}
use cpp_high_performance_bin.AsyncRecorder.Delivery.{IsTypedMove}
use cpp_high_performance_bin.EventGenerator.Events.{generated-IsEvent}
use cpp_high_performance_bin.Apps.Producers.{
  Program, Place, asking, numbering, counting, ended, submitting, threw, Main, waiting, returned,
  stopping, failed, State, Action, signal_handled, writer_acts, main_acts, producer_acts,
  take_number, produce, all_ended, any_threw, finish, act, acts,
}

-- The clock is within its type.
abbrev pub IsTimed : Action → Type 0
IsTimed (producer_acts p now) = now < 2 ^ 64
IsTimed signal_handled = Unit
IsTimed writer_acts = Unit
IsTimed main_acts = Unit

moves-append : (ms ms' : List Move) (w : World) → moves ms' (moves ms w) ≡ moves (ms ++ ms') w
unfolding moves
moves-append [] ms' w = refl
moves-append (m ∷ ms) ms' w = moves-append ms ms' (Runs.move m w)

-- The moves of the recorder that lead from one state to another.
pub record Trace {R : Type 0} (s s' : State R) : Type 0 where
  pub ms : List Move
  pub world : s'.world ≡ moves ms s.world
  pub typed : All IsTypedMove ms
  pub number : s'.next_sequence < 2 ^ 64

module _ {R : Type 0} (draw : R → ℕ × R) (program : Program)
    (producer_u32 : (p : ℕ) → (program.config p).producer_id < 2 ^ 32) where
  take_number_trace :
      (p now : ℕ) (s : State R)
      → now < 2 ^ 64
      → s.next_sequence < 2 ^ 64
      → Trace s (take_number draw program p now s)
  unfolding take_number moves
  take_number_trace p now s clock number = elim (Bool-cases (program.over s.next_sequence)) [
    | inl over ↦ rw over (record { ms = []; world = refl; typed = tt; number = omega arith })
    | inr below ↦ rw below (record {
      ms = Runs.submit_called _ ∷ [];
      world = refl;
      typed = (
        generated-IsEvent draw (program.config p) now s.next_sequence (s.engines p) (producer_u32 p)
            clock number,
        tt,
      );
      number = omega arith;
    })
  ]

  produce_trace :
      (p now : ℕ) (place : Place) (s : State R)
      → now < 2 ^ 64
      → s.next_sequence < 2 ^ 64
      → Trace s (produce draw program p now place s)
  unfolding produce moves
  produce_trace p now asking s clock number = record {
    ms = [];
    world = refl;
    typed = tt;
    number = number;
  }
  produce_trace p now numbering s clock number = take_number_trace p now s clock number
  produce_trace p now (submitting i) s clock number = record {
    ms = Runs.submit_moves i ∷ [];
    world = refl;
    typed = (tt, tt);
    number = number;
  }
  produce_trace p now counting s clock number = record {
    ms = [];
    world = refl;
    typed = tt;
    number = number;
  }
  produce_trace p now ended s clock number = record {
    ms = [];
    world = refl;
    typed = tt;
    number = number;
  }
  produce_trace p now (threw error) s clock number = record {
    ms = [];
    world = refl;
    typed = tt;
    number = number;
  }

  finish_trace : (main : Main) (s : State R) → s.next_sequence < 2 ^ 64 → Trace s (finish main s)
  unfolding finish moves
  finish_trace waiting s number = elim (Bool-cases (all_ended s.places)) [
    | inl all ↦
        rw all
          (record { ms = Runs.stop_called ∷ []; world = refl; typed = (tt, tt); number = number })
    | inr some_ ↦ rw some_ (record { ms = []; world = refl; typed = tt; number = number })
  ]
  finish_trace (stopping i) s number = record {
    ms = Runs.stop_moves i ∷ [];
    world = refl;
    typed = (tt, tt);
    number = number;
  }
  finish_trace returned s number = record { ms = []; world = refl; typed = tt; number = number }
  finish_trace (failed error) s number = record {
    ms = [];
    world = refl;
    typed = tt;
    number = number;
  }

  pub act_trace :
      (a : Action) (s : State R)
      → IsTimed a
      → s.next_sequence < 2 ^ 64
      → Trace s (act draw program a s)
  unfolding act moves
  act_trace signal_handled s clock number = record {
    ms = [];
    world = refl;
    typed = tt;
    number = number;
  }
  act_trace writer_acts s clock number = record {
    ms = Runs.writer_moves ∷ [];
    world = refl;
    typed = (tt, tt);
    number = number;
  }
  act_trace main_acts s clock number = finish_trace s.main s number
  act_trace (producer_acts p now) s clock number =
      produce_trace p now (get_or s.places p ended) s clock number

  pub acts_trace :
      (as_ : List Action) (s : State R)
      → All IsTimed as_
      → s.next_sequence < 2 ^ 64
      → Trace s (acts draw program as_ s)
  unfolding acts moves
  acts_trace [] s clocks number = record { ms = []; world = refl; typed = tt; number = number }
  acts_trace (a ∷ rest) s clocks number = elim (Bool-cases (any_threw s.places)) [
    | inl dead ↦ rw dead (record { ms = []; world = refl; typed = tt; number = number })
    | inr alive ↦ rw alive (
        let first = act_trace a s clocks.0 number in
        let later = acts_trace rest (act draw program a s) clocks.1 first.number in
        record {
          ms = first.ms ++ later.ms;
          world =
              later.world
              ∙ ap (moves later.ms) first.world
              ∙ moves-append first.ms later.ms s.world;
          typed = All-append IsTypedMove first.ms later.ms first.typed later.typed;
          number = later.number;
        })
  ]
