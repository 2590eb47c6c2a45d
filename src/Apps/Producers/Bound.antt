-- ===== src/Apps/Producers/Bound.antt =====
-- How many sequence numbers the producers of apps/hpblr_record.cpp and apps/hpblr_bench.cpp take: each
-- thread leaves its loop with the first number that is over.
use cpp_high_performance_bin.Base.{
  ℕ, zero, suc, ◌+◌, ◌≤◌, ◌<◌, ◌^◌, ◌≡◌, ◌≢◌, refl, ap, ◌∙◌, Bool, false, Bool-cases, inl, inr,
  arith, List, [], ◌∷◌, length, length-set, length-replicate, get_or, set,
}
use cpp_high_performance_bin.BinaryLog.Writer.{Writer}
use cpp_high_performance_bin.Apps.Producers.{
  Program, Place, asking, numbering, counting, ended, submitting, threw, Main, waiting, returned,
  stopping, failed, State, Action, signal_handled, writer_acts, main_acts, producer_acts,
  take_number, produce, all_ended, any_threw, finish, act, acts, start,
}
use cpp_high_performance_bin.Apps.Producers.Numbers.{Numbers, act-Kept}
use cpp_high_performance_bin.Apps.Producers.Sound.{start-Sound}

abbrev pub is_over : Place → ℕ
is_over ended = 1
is_over asking = 0
is_over numbering = 0
is_over counting = 0
is_over (submitting i) = 0
is_over (threw error) = 0

-- The threads that have left their function.
abbrev pub all_over : List Place → ℕ
all_over [] = 0
all_over (place ∷ places) = is_over place + all_over places

all_over_le : (places : List Place) → all_over places ≤ length places
all_over_le [] = omega arith
all_over_le (ended ∷ places) = omega (arith, all_over_le places)
all_over_le (asking ∷ places) = omega (arith, all_over_le places)
all_over_le (numbering ∷ places) = omega (arith, all_over_le places)
all_over_le (counting ∷ places) = omega (arith, all_over_le places)
all_over_le (submitting i ∷ places) = omega (arith, all_over_le places)
all_over_le (threw error ∷ places) = omega (arith, all_over_le places)

over_cases : (place : Place) → place ≢ ended → is_over place ≡ 0
over_cases ended h = absurd (h refl)
over_cases asking h = refl
over_cases numbering h = refl
over_cases counting h = refl
over_cases (submitting i) h = refl
over_cases (threw error) h = refl

all_over-set :
    (places : List Place) (p : ℕ) (place : Place)
    → get_or places p ended ≢ ended
    → all_over (set places p place) ≡ all_over places + is_over place
all_over-set [] p place h = absurd (h refl)
all_over-set (x ∷ xs) zero place h = omega (arith, over_cases x h)
all_over-set (x ∷ xs) (suc p) place h = omega (arith, all_over-set xs p place h)

pub record Bounded {R : Type 0} (over : ℕ → Bool) (events producers : ℕ) (s : State R)
    : Type 0 where
  pub size : length s.places ≡ producers
  pub held : s.handed ≤ events + all_over s.places
  pub numbers : Numbers over s

-- What one action does to the places and the number of numbers.
record Reached {R : Type 0} (events producers : ℕ) (s s' : State R) : Type 0 where
  size : length s'.places ≡ length s.places
  held : s.handed ≤ events + all_over s.places → s'.handed ≤ events + all_over s'.places

module _ {R : Type 0} (draw : R → ℕ × R) (program : Program) (events producers : ℕ)
    (last_number : (n : ℕ) → program.over n ≡ false → n < events) where
  moved-Reached :
      (s s' : State R) (p : ℕ) (place : Place)
      → get_or s.places p ended ≢ ended
      → s'.places ≡ set s.places p place
      → (s.handed ≤ events + all_over s.places
          → s'.handed ≤ events + all_over s.places + is_over place)
      → Reached events producers s s'
  moved-Reached s s' p place alive e more = record {
    size = ap length e ∙ length-set s.places p place;
    held = λ h. omega (arith, more h, ap all_over e, all_over-set s.places p place alive);
  }

  stay-Reached :
      (s s' : State R) → s'.places ≡ s.places → s'.handed ≡ s.handed → Reached events producers s s'
  stay-Reached s s' e f = record {
    size = ap length e;
    held = λ h. omega (arith, h, ap all_over e, f);
  }

  produce-Reached :
      (p now : ℕ) (place : Place) (s : State R)
      → get_or s.places p ended ≡ place
      → s.next_sequence ≡ s.handed
      → Reached events producers s (produce draw program p now place s)
  unfolding produce take_number
  produce-Reached p now asking s at first =
      moved-Reached s _ p _ (λ e. cc (at, e)) refl (λ h. omega arith)
  produce-Reached p now numbering s at first = elim (Bool-cases (program.over s.next_sequence)) [
    | inl over ↦ rw over (moved-Reached s _ p ended (λ e. cc (at, e)) refl (λ h. omega arith))
    | inr below ↦ rw below (
        moved-Reached s _ p (submitting _) (λ e. cc (at, e)) refl
          (λ h. omega (arith, last_number s.next_sequence below, first)))
  ]
  produce-Reached p now (submitting i) s at first =
      moved-Reached s _ p _ (λ e. cc (at, e)) refl (λ h. omega arith)
  produce-Reached p now counting s at first =
      moved-Reached s _ p asking (λ e. cc (at, e)) refl (λ h. omega arith)
  produce-Reached p now ended s at first = stay-Reached s s refl refl
  produce-Reached p now (threw error) s at first = stay-Reached s s refl refl

  act-Reached :
      (a : Action) (s : State R)
      → s.next_sequence ≡ s.handed
      → Reached events producers s (act draw program a s)
  unfolding act
  act-Reached signal_handled s first = stay-Reached s _ refl refl
  act-Reached writer_acts s first = stay-Reached s _ refl refl
  act-Reached main_acts s first = finish-Reached s.main s
    where
      finish-Reached : (main : Main) (s : State R) → Reached events producers s (finish main s)
      finish-Reached waiting s =
          unfold finish in
          (elim (Bool-cases (all_ended s.places)) [
            | inl all ↦ rw all (stay-Reached s _ refl refl)
            | inr some_ ↦ rw some_ (stay-Reached s s refl refl)
          ])
      finish-Reached (stopping i) s = unfold finish in stay-Reached s _ refl refl
      finish-Reached returned s = unfold finish in stay-Reached s s refl refl
      finish-Reached (failed error) s = unfold finish in stay-Reached s s refl refl
  act-Reached (producer_acts p now) s first =
      produce-Reached p now (get_or s.places p ended) s refl first

  pub acts-Bounded :
      (as_ : List Action) (s : State R)
      → events + producers < 2 ^ 64
      → Bounded program.over events producers s
      → Bounded program.over events producers (acts draw program as_ s)
  unfolding acts
  acts-Bounded [] s fits h = h
  acts-Bounded (a ∷ rest) s fits h = elim (Bool-cases (any_threw s.places)) [
    | inl dead ↦ rw dead h
    | inr alive ↦
        let step = act-Reached a s h.numbers.next in
        let held = step.held h.held in
        let most = all_over_le (act draw program a s).places in
        rw alive (
          acts-Bounded rest (act draw program a s) fits (record {
            size = step.size ∙ h.size;
            held = held;
            numbers =
                (act-Kept draw program a s).numbers
                  (omega (arith, held, most, step.size, h.size, fits)) h.numbers;
          }))
  ]

  -- Let no number from `events` on stay in the loop, and let `events` and the number of producers
  -- together be below 2 ^ 64. Then after any actions at most `events` and one for each producer of
  -- sequence numbers have been taken, so that the counter does not wrap, and there are still as
  -- many threads as were started.
  pub handed_bound :
      (seeded : ℕ → R) (writer : Writer) (capacity : ℕ) (as_ : List Action)
      → events + producers < 2 ^ 64
      → ((acts draw program as_ (start seeded program writer capacity producers)).handed
          ≤ events + producers)
        × (length (acts draw program as_ (start seeded program writer capacity producers)).places
            ≡ producers)
  unfolding start
  handed_bound seeded writer capacity as_ fits =
      let first = start seeded program writer capacity producers in
      let b = acts-Bounded as_ first fits (record {
        size = length-replicate producers asking;
        held = omega arith;
        numbers = (start-Sound seeded program writer capacity producers).numbers;
      }) in
      let most = all_over_le (acts draw program as_ first).places in
      (omega (arith, b.held, most, b.size), b.size)
