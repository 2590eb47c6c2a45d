-- ===== src/Apps/Producers/Totals.antt =====
-- Lists of events by their sequence numbers, and calls and threads of apps/hpblr_record.cpp and
-- apps/hpblr_bench.cpp that are done.
use cpp_high_performance_bin.Base.{
  ℕ, zero, suc, ◌+◌, ◌≤◌, ◌≡◌, refl, sym, ap, ◌∙◌, ltb, ==_refl, true, false, if◌then◌else◌, arith,
  List, [], ◌∷◌, length, get_or,
}
use cpp_high_performance_bin.Event.{Event}
use cpp_high_performance_bin.AsyncRecorder.{
  Submission, entering, testing, pushing, accepting, rejecting, answered, rethrown,
}
use cpp_high_performance_bin.AsyncRecorder.Counting.{uncounted, all_uncounted}
use cpp_high_performance_bin.Apps.Producers.{
  Place, asking, numbering, counting, ended, submitting, threw, all_ended,
}
use cpp_high_performance_bin.Apps.Producers.Weights.{times}
use cpp_high_performance_bin.Apps.Producers.Links.{settled}
use cpp_high_performance_bin.Apps.Producers.Counts.{all_counting}

-- How many of the events have a number below `n`.
abbrev below : ℕ → List Event → ℕ
below n [] = 0
below n (e ∷ es) = (if ltb e.sequence n then 1 else 0) + below n es

below_zero : (es : List Event) → below 0 es ≡ 0
below_zero [] = refl
below_zero (e ∷ es) =
    let none_ : ltb e.sequence 0 ≡ false = ground arith in rw none_ (omega (arith, below_zero es))

below_suc : (n : ℕ) (es : List Event) → below (suc n) es ≡ below n es + times n es
below_suc n [] = refl
below_suc n (e ∷ es) = ground (arith, below_suc n es)

below_all :
    (k n : ℕ) (es : List Event)
    → ((m : ℕ) → times m es ≡ (if ltb m n then 1 else 0))
    → k ≤ n
    → below k es ≡ k
below_all zero n es once h = below_zero es
below_all (suc k) n es once h =
    let one : ltb k n ≡ true = ground arith in
    omega (
      arith,
      below_suc k es,
      below_all k n es once (omega arith),
      once k,
      ap {B = ℕ} (λ b. if b then 1 else 0) one,
    )

length_below :
    (n : ℕ) (es : List Event)
    → ((m : ℕ) → times m es ≤ (if ltb m n then 1 else 0))
    → below n es ≡ length es
length_below n [] h = refl
length_below n (e ∷ es) h =
    let self = ==_refl e.sequence in
    let here : ltb e.sequence n ≡ true = ground (arith, h e.sequence, self) in
    rw here (omega (arith, length_below n es (λ m. let less = h m in omega (arith, less))))

-- Events of which each number below `n` occurs once are `n`.
pub length_once :
    (n : ℕ) (es : List Event) → ((m : ℕ) → times m es ≡ (if ltb m n then 1 else 0)) → length es ≡ n
length_once n es once =
    sym (length_below n es (λ m. omega (arith, once m))) ∙ below_all n n es once (omega arith)

-- Calls that have returned count nothing more.
pub idle_calls :
    (calls : List Submission)
    → ((i : ℕ) → settled (get_or calls i (answered false)) ≡ true)
    → all_uncounted calls ≡ 0
idle_calls [] h = refl
idle_calls (s ∷ ss) h = omega (arith, idle_call s (h 0), idle_calls ss (λ i. h (suc i)))
  where
    idle_call : (s : Submission) → settled s ≡ true → uncounted s ≡ 0
    idle_call accepting h = cc h
    idle_call (entering event) h = refl
    idle_call (testing event) h = refl
    idle_call (pushing event) h = refl
    idle_call rejecting h = refl
    idle_call (answered b) h = refl
    idle_call (rethrown error) h = refl

pub idle_places : (places : List Place) → all_ended places ≡ true → all_counting places ≡ 0
unfolding all_ended
idle_places [] h = refl
idle_places (ended ∷ places) h = omega (arith, idle_places places h)
idle_places (asking ∷ places) h = cc h
idle_places (numbering ∷ places) h = cc h
idle_places (counting ∷ places) h = cc h
idle_places (submitting i ∷ places) h = cc h
idle_places (threw error ∷ places) h = cc h
