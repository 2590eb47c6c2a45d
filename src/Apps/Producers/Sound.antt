-- ===== src/Apps/Producers/Sound.antt =====
-- What holds between any two actions of the threads of apps/hpblr_record.cpp and apps/hpblr_bench.cpp.
use cpp_high_performance_bin.Base.{
  ℕ, zero, suc, ◌<◌, ◌^◌, ◌≡◌, ◌≢◌, refl, subst, ltb, not, ◌&&◌, Bool, true, false, Bool-cases, inl,
  inr, if◌then◌else◌, arith, List, [], ◌∷◌, length-replicate, get_or, replicate,
}
use cpp_high_performance_bin.BinaryLog.Writer.{Writer}
use cpp_high_performance_bin.BlockingQueue
use cpp_high_performance_bin.AsyncRecorder
use cpp_high_performance_bin.AsyncRecorder.{
  Submission, entering, testing, pushing, accepting, rejecting, answered, rethrown, Stop, stopped,
  joining, stop_rethrown, exchanging, shutting, checking,
}
use cpp_high_performance_bin.AsyncRecorder.Runs
use cpp_high_performance_bin.Apps.Producers.{
  Program, Place, asking, numbering, counting, ended, submitting, threw, Main, waiting, returned,
  stopping, failed, State, Action, signal_handled, writer_acts, main_acts, producer_acts,
  take_number, produce, all_ended, any_threw, after_stop, finish, act, acts, start,
}
use cpp_high_performance_bin.Apps.Producers.Weights.{pending, total, given}
use cpp_high_performance_bin.Apps.Producers.Numbers.{Numbers, act-Kept, acts-Kept}
use cpp_high_performance_bin.Apps.Producers.Links.{ℕ-cases, settled}
use cpp_high_performance_bin.Apps.Producers.Safe.{Safe, act-Safe}
use cpp_high_performance_bin.Apps.Producers.Ends.{act-Justified}
use cpp_high_performance_bin.Apps.Producers.Reasons.{Justified}

-- All of it.
pub record Sound {R : Type 0} (program : Program) (s : State R) : Type 0 where
  pub numbers : Numbers program.over s
  pub safe : Safe s
  pub justified : Justified program s

module _ {R : Type 0} (draw : R → ℕ × R) (program : Program)
    (always : program.loops true ≡ true → program.loops false ≡ true) where
  pub acts-Sound :
      (as_ : List Action) (s : State R)
      → (acts draw program as_ s).handed < 2 ^ 64
      → Sound program s
      → Sound program (acts draw program as_ s)
  unfolding acts
  acts-Sound [] s small h = h
  acts-Sound (a ∷ rest) s small h = elim (Bool-cases (any_threw s.places)) [
    | inl dead ↦ rw dead h
    | inr alive ↦
        let small' = simp alive at small in
        let later = acts-Kept draw program rest (act draw program a s) in
        let safe = act-Safe draw program a s h.safe in
        rw alive (
          acts-Sound rest (act draw program a s) small' (record {
            numbers =
                (act-Kept draw program a s).numbers (omega (arith, small', later.more)) h.numbers;
            safe = safe;
            justified = act-Justified program draw a s always h.numbers.next safe h.justified;
          }))
  ]

get_or-replicate : (n p : ℕ) → p < n → get_or (replicate n asking) p ended ≡ asking
get_or-replicate zero p below = absurd (omega arith)
get_or-replicate (suc n) zero below = refl
get_or-replicate (suc n) (suc p) below = get_or-replicate n p (omega arith)

pub not_submitting : (n p i : ℕ) → get_or (replicate n asking) p ended ≢ submitting i
not_submitting zero p i e = cc e
not_submitting (suc n) zero i e = cc e
not_submitting (suc n) (suc p) i e = not_submitting n p i e

pub start-Sound :
    {R : Type 0} (seeded : ℕ → R) (program : Program) (writer : Writer) (capacity producers : ℕ)
    → Sound program (start seeded program writer capacity producers)
unfolding start AsyncRecorder.construct BlockingQueue.construct
start-Sound seeded program writer capacity producers = record {
  numbers = record {
    next = refl;
    tallied = λ n. record { upper = omega arith; lower = omega arith };
  };
  safe = record {
    linked = λ i. inl refl;
    quiet = λ w. record { running = refl; open_ = λ e. refl; told = λ e. cc e };
    left = λ w. cc w;
    taken = λ calm. refl;
  };
  justified = record {
    reason = λ p below gone.
        let here =
          get_or-replicate producers p (omega (arith, below, length-replicate producers asking)) in
        cc (here, gone);
    inside = λ p i at. absurd (not_submitting producers p i at);
  };
}

-- No event waits in a call that has returned.
pub none_pending :
    (n : ℕ) (calls : List Submission)
    → ((i : ℕ) → settled (get_or calls i (answered false)) ≡ true)
    → total (pending n) calls ≡ 0
none_pending n [] h = refl
none_pending n (s ∷ ss) h = omega (arith, none_here n s (h 0), none_pending n ss (λ i. h (suc i)))
  where
    none_here : (n : ℕ) (s : Submission) → settled s ≡ true → pending n s ≡ 0
    none_here n (answered b) h = refl
    none_here n (rethrown error) h = refl
    none_here n (entering event) h = cc h
    none_here n (testing event) h = cc h
    none_here n (pushing event) h = cc h
    none_here n accepting h = refl
    none_here n rejecting h = refl

-- A number is given once, if it is one of the first and not over.
pub given_lem :
    (over : ℕ → Bool) (handed n : ℕ)
    → given over handed n ≡ (if ltb n handed && not (over n) then 1 else 0)
given_lem over zero n = ground arith
given_lem over (suc h) n = elim (ℕ-cases h n) [
  | inl same ↦
      subst (λ k. given over (suc h) k ≡ (if ltb k (suc h) && not (over k) then 1 else 0)) same
        (elim (Bool-cases (over h)) [
          | inl over_ ↦ ground (arith, over_, given_lem over h h)
          | inr below ↦ ground (arith, below, given_lem over h h)
        ])
  | inr other ↦ elim (Bool-cases (over h)) [
    | inl over_ ↦ ground (arith, over_, given_lem over h n, other)
    | inr below ↦ ground (arith, below, given_lem over h n, other)
  ]
]

after_stop-returned :
    (i : ℕ) (stop : Stop) → after_stop (stopping i) stop ≡ returned → stop ≡ stopped
unfolding after_stop
after_stop-returned i stopped h = refl
after_stop-returned i (stop_rethrown error) h = cc h
after_stop-returned i exchanging h = cc h
after_stop-returned i shutting h = cc h
after_stop-returned i joining h = cc h
after_stop-returned i checking h = cc h

-- A call of `stop` has returned.
abbrev pub HasStopped : {R : Type 0} → State R → Type 0
HasStopped s = s.main ≡ returned → (i : ℕ) × (get_or s.world.stops i joining ≡ stopped)

module _ {R : Type 0} (draw : R → ℕ × R) (program : Program) where
  produce-HasStopped :
      (p now : ℕ) (place : Place) (s : State R)
      → HasStopped s
      → HasStopped (produce draw program p now place s)
  unfolding produce take_number Runs.move
  produce-HasStopped p now asking s h = h
  produce-HasStopped p now numbering s h = elim (Bool-cases (program.over s.next_sequence)) [
    | inl over ↦ rw over h
    | inr below ↦ rw below h
  ]
  produce-HasStopped p now (submitting i) s h = h
  produce-HasStopped p now counting s h = h
  produce-HasStopped p now ended s h = h
  produce-HasStopped p now (threw error) s h = h

  finish-HasStopped : (main : Main) (s : State R) → HasStopped s → HasStopped (finish main s)
  unfolding finish Runs.move
  finish-HasStopped waiting s h = elim (Bool-cases (all_ended s.places)) [
    | inl all ↦ rw all (λ e. cc e)
    | inr some_ ↦ rw some_ h
  ]
  finish-HasStopped (stopping i) s h = λ e. (i, after_stop-returned i _ e)
  finish-HasStopped returned s h = h
  finish-HasStopped (failed error) s h = h

  pub acts-HasStopped :
      (as_ : List Action) (s : State R) → HasStopped s → HasStopped (acts draw program as_ s)
  unfolding acts act Runs.move
  acts-HasStopped [] s h = h
  acts-HasStopped (a ∷ rest) s h = elim (Bool-cases (any_threw s.places)) [
    | inl dead ↦ rw dead h
    | inr alive ↦ rw alive (acts-HasStopped rest (act draw program a s) (act-HasStopped a h))
  ]
    where
      act-HasStopped : (a : Action) → HasStopped s → HasStopped (act draw program a s)
      act-HasStopped signal_handled h = h
      act-HasStopped writer_acts h = h
      act-HasStopped main_acts h = finish-HasStopped s.main s h
      act-HasStopped (producer_acts p now) h =
          produce-HasStopped p now (get_or s.places p ended) s h
