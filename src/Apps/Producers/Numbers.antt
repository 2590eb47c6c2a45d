-- ===== src/Apps/Producers/Numbers.antt =====
-- The sequence numbers in apps/hpblr_record.cpp and apps/hpblr_bench.cpp: an event with a number that
-- was taken is accepted, in a call of `submit`, or refused.
use cpp_high_performance_bin.Base.{
  ℕ, ◌+◌, ◌^◌, ◌≤◌, ◌<◌, ◌≡◌, refl, sym, ap, subst, ◌∙◌, ◌==◌, if◌then◌else◌, Bool, true, false,
  Bool-cases, inl, inr, arith, List, [], ◌∷◌, get_or,
}
use cpp_high_performance_bin.Event.{Event}
use cpp_high_performance_bin.AsyncRecorder.{entering, answered, submit_step}
use cpp_high_performance_bin.AsyncRecorder.Runs
use cpp_high_performance_bin.AsyncRecorder.Runs.{World, accepts}
use cpp_high_performance_bin.EventGenerator
use cpp_high_performance_bin.EventGenerator.{GeneratorConfig}
use cpp_high_performance_bin.Apps.Producers.{
  Program, Place, asking, numbering, counting, ended, submitting, threw, Main, waiting, returned,
  stopping, failed, State, Action, signal_handled, writer_acts, main_acts, producer_acts,
  take_number, produce, all_ended, any_threw, finish, act, acts,
}
use cpp_high_performance_bin.Apps.Producers.Weights.{
  times, times-append, pending, refused, total, total-append, total-set, step_answered,
  submit_step-Weighed, given,
}

-- The events of a world against `count`, for the number `n`.
pub record Tallied (n count : ℕ) (w : World) : Type 0 where
  pub upper : times n w.accepted + total (pending n) w.submissions ≤ count
  pub lower :
      count ≤ times n w.accepted + total (pending n) w.submissions + total refused w.submissions

submit_moves-Tallied :
    (n count i : ℕ) (w : World)
    → Tallied n count w
    → Tallied n count (Runs.move (Runs.submit_moves i) w)
unfolding Runs.move
submit_moves-Tallied n count i w t =
    let s = get_or w.submissions i (answered false) in
    let r = w.recorder in
    let step = submit_step-Weighed n s r in
    let more = times-append n w.accepted (accepts s r) in
    let waiting_ =
      total-set (pending n) (λ c. (submit_step c r).0) w.submissions i
        (ap (pending n) (step_answered r)) in
    let refused_ =
      total-set refused (λ c. (submit_step c r).0) w.submissions i (ap refused (step_answered r)) in
    record {
      upper = omega (arith, t.upper, step.upper, more, waiting_);
      lower = omega (arith, t.lower, step.lower, more, waiting_, refused_);
    }

submit_called-Tallied :
    (n count number : ℕ) (e : Event) (w : World)
    → e.sequence ≡ number
    → Tallied n count w
    → Tallied n (count + (if number == n then 1 else 0)) (Runs.move (Runs.submit_called e) w)
unfolding Runs.move
submit_called-Tallied n count number e w same t =
    let waiting_ = total-append (pending n) w.submissions (entering e ∷ []) in
    let taken = ap {B = ℕ} (λ k. if k == n then 1 else 0) same in
    let refused_ = total-append refused w.submissions (entering e ∷ []) in
    record {
      upper = omega (arith, t.upper, waiting_, taken);
      lower = omega (arith, t.lower, waiting_, refused_, taken);
    }

next-sequence :
    {R : Type 0} (draw : R → ℕ × R) (config : GeneratorConfig) (now sequence : ℕ) (rng : R)
    → (EventGenerator.next draw config now sequence rng).0.sequence ≡ sequence
unfolding EventGenerator.next
next-sequence draw config now sequence rng = refl

-- The numbers taken are the first ones, as long as they are within 64 bits.
pub record Numbers {R : Type 0} (over : ℕ → Bool) (s : State R) : Type 0 where
  pub next : s.next_sequence ≡ s.handed
  pub tallied : (n : ℕ) → Tallied n (given over s.handed n) s.world

-- The step keeps the numbers, unless it takes the last one.
pub record Kept {R : Type 0} (over : ℕ → Bool) (s s' : State R) : Type 0 where
  pub more : s.handed ≤ s'.handed
  pub numbers : s'.handed < 2 ^ 64 → Numbers over s → Numbers over s'

module _ {R : Type 0} (draw : R → ℕ × R) (program : Program) where
  same_world :
      (s s' : State R)
      → s'.next_sequence ≡ s.next_sequence
      → s'.handed ≡ s.handed
      → s'.world ≡ s.world
      → Kept program.over s s'
  same_world s s' e f g = record {
    more = omega (arith, f);
    numbers = λ small h. record {
      next = omega (arith, e, f, h.next);
      tallied = λ n.
          subst (Tallied n (given program.over s'.handed n)) (sym g)
            (subst (λ k. Tallied n (given program.over k n) s.world) (sym f) (h.tallied n));
    };
  }

  take_number-Kept :
      (p now : ℕ) (s : State R) → Kept program.over s (take_number draw program p now s)
  unfolding take_number
  take_number-Kept p now s = elim (Bool-cases (program.over s.next_sequence)) [
    | inl over ↦ rw over (record {
      more = omega arith;
      numbers = λ small h. record {
        next = omega (arith, h.next);
        tallied = λ n.
            let over' : program.over s.handed ≡ true = ap program.over (sym h.next) ∙ over in
            rw over' (subst (λ k. Tallied n k s.world) (omega arith) (h.tallied n));
      };
    })
    | inr below ↦ rw below (record {
      more = omega arith;
      numbers = λ small h. record {
        next = omega (arith, h.next);
        tallied = λ n.
            let below' : program.over s.handed ≡ false = ap program.over (sym h.next) ∙ below in
            rw below' (
              submit_called-Tallied n (given program.over s.handed n) s.handed _ s.world
                (next-sequence draw (program.config p) now s.next_sequence (s.engines p) ∙ h.next)
                (h.tallied n));
      };
    })
  ]

  produce-Kept :
      (p now : ℕ) (place : Place) (s : State R)
      → Kept program.over s (produce draw program p now place s)
  unfolding produce
  produce-Kept p now asking s = same_world s _ refl refl refl
  produce-Kept p now numbering s = take_number-Kept p now s
  produce-Kept p now (submitting i) s = record {
    more = omega arith;
    numbers = λ small h. record {
      next = h.next;
      tallied = λ n. submit_moves-Tallied n (given program.over s.handed n) i s.world (h.tallied n);
    };
  }
  produce-Kept p now counting s = same_world s _ refl refl refl
  produce-Kept p now ended s = same_world s _ refl refl refl
  produce-Kept p now (threw error) s = same_world s _ refl refl refl

  stops_apart :
      (s s' : State R)
      → s'.next_sequence ≡ s.next_sequence
      → s'.handed ≡ s.handed
      → s'.world.accepted ≡ s.world.accepted
      → s'.world.submissions ≡ s.world.submissions
      → Kept program.over s s'
  stops_apart s s' e f g k = record {
    more = omega (arith, f);
    numbers = λ small h. record {
      next = omega (arith, e, f, h.next);
      tallied = λ n.
          let t = h.tallied n in
          let x = ap (times n) g in
          let y = ap (total (pending n)) k in
          let z = ap (total refused) k in
          let w = ap (λ m. given program.over m n) f in
          record {
            upper = omega (arith, t.upper, x, y, w);
            lower = omega (arith, t.lower, x, y, z, w);
          };
    };
  }

  finish-Kept : (main : Main) (s : State R) → Kept program.over s (finish main s)
  unfolding finish Runs.move
  finish-Kept waiting s = elim (Bool-cases (all_ended s.places)) [
    | inl all ↦ rw all (stops_apart s _ refl refl refl refl)
    | inr some_ ↦ rw some_ (stops_apart s _ refl refl refl refl)
  ]
  finish-Kept (stopping i) s = stops_apart s _ refl refl refl refl
  finish-Kept returned s = stops_apart s _ refl refl refl refl
  finish-Kept (failed error) s = stops_apart s _ refl refl refl refl

  pub act-Kept : (a : Action) (s : State R) → Kept program.over s (act draw program a s)
  unfolding act Runs.move
  act-Kept signal_handled s = stops_apart s _ refl refl refl refl
  act-Kept writer_acts s = stops_apart s _ refl refl refl refl
  act-Kept main_acts s = finish-Kept s.main s
  act-Kept (producer_acts p now) s = produce-Kept p now (get_or s.places p ended) s

  pub acts-Kept : (as_ : List Action) (s : State R) → Kept program.over s (acts draw program as_ s)
  unfolding acts
  acts-Kept [] s = record { more = omega arith; numbers = λ small h. h }
  acts-Kept (a ∷ rest) s = elim (Bool-cases (any_threw s.places)) [
    | inl dead ↦ rw dead (record { more = omega arith; numbers = λ small h. h })
    | inr alive ↦ rw alive (
        let first = act-Kept a s in
        let later = acts-Kept rest (act draw program a s) in
        record {
          more = omega (arith, first.more, later.more);
          numbers =
              λ small h. later.numbers small (first.numbers (omega (arith, small, later.more)) h);
        })
  ]
