-- ===== src/Apps/Producers/Reasons.antt =====
-- Why a thread of apps/hpblr_record.cpp or apps/hpblr_bench.cpp has left its loop.
use cpp_high_performance_bin.Base.{
  ℕ, zero, suc, ◌≤◌, ◌<◌, ◌≡◌, ◌≢◌, refl, sym, ap, subst, ◌∙◌, Bool, true, false, inl, inr,
  if◌then◌else◌, arith, List, [], ◌∷◌, length, length-set, get_or, set, get_or-set_ne,
}
use cpp_high_performance_bin.AsyncRecorder.{
  Submission, entering, testing, pushing, accepting, rejecting, answered, rethrown,
}
use cpp_high_performance_bin.AsyncRecorder.Invariant.{is_none}
use cpp_high_performance_bin.Apps.Producers.{
  Program, Place, numbering, ended, submitting, State, after_submit,
}
use cpp_high_performance_bin.Apps.Producers.Weights.{refused, total}
use cpp_high_performance_bin.Apps.Producers.Links.{ℕ-cases, get_or-set_same}

-- One of the numbers that were taken is over the last one.
pub record Exhausted (over : ℕ → Bool) (handed : ℕ) : Type 0 where
  pub number : ℕ
  pub taken : number < handed
  pub over_ : over number ≡ true

-- What stands behind a thread that has left its loop.
abbrev pub Reason : {R : Type 0} → Program → State R → Type 0
Reason program s =
    is_none s.world.recorder.writer_error ≡ true
    → program.loops s.stop_requested ≡ true
    → Exhausted program.over s.handed

pub record Justified {R : Type 0} (program : Program) (s : State R) : Type 0 where
  pub reason : (p : ℕ) → p < length s.places → get_or s.places p ended ≡ ended → Reason program s
  pub inside : (p i : ℕ) → get_or s.places p ended ≡ submitting i → i < length s.world.submissions

-- A call that ends the thread was refused.
pub after_submit-ended :
    (counts : Bool) (i : ℕ) (s : Submission)
    → after_submit counts (submitting i) s ≡ ended
    → refused s ≡ 1
unfolding after_submit
after_submit-ended true i (answered true) h = cc h
after_submit-ended false i (answered true) h = cc h
after_submit-ended counts i (answered false) h = refl
after_submit-ended counts i (rethrown error) h = refl
after_submit-ended counts i (entering event) h = cc h
after_submit-ended counts i (testing event) h = cc h
after_submit-ended counts i (pushing event) h = cc h
after_submit-ended counts i accepting h = cc h
after_submit-ended counts i rejecting h = cc h

-- A call that goes on is the same call.
pub after_submit-submitting :
    (counts : Bool) (i j : ℕ) (s : Submission)
    → after_submit counts (submitting i) s ≡ submitting j
    → i ≡ j
unfolding after_submit
after_submit-submitting true i j (answered true) h = cc h
after_submit-submitting false i j (answered true) h = cc h
after_submit-submitting counts i j (answered false) h = cc h
after_submit-submitting counts i j (rethrown error) h = cc h
after_submit-submitting counts i j (entering event) h = cc h
after_submit-submitting counts i j (testing event) h = cc h
after_submit-submitting counts i j (pushing event) h = cc h
after_submit-submitting counts i j accepting h = cc h
after_submit-submitting counts i j rejecting h = cc h

pub refused_in :
    (calls : List Submission) (i : ℕ)
    → i < length calls
    → refused (get_or calls i (answered false)) ≤ total refused calls
refused_in [] i below = absurd (omega arith)
refused_in (s ∷ ss) zero below = omega arith
refused_in (s ∷ ss) (suc i) below = omega (arith, refused_in ss i (omega arith))

module _ {R : Type 0} (program : Program) where
  pub later_Reason :
      (s s' : State R)
      → s.handed ≤ s'.handed
      → (is_none s'.world.recorder.writer_error ≡ true
          → is_none s.world.recorder.writer_error ≡ true)
      → (program.loops s'.stop_requested ≡ true → program.loops s.stop_requested ≡ true)
      → Reason program s
      → Reason program s'
  later_Reason s s' more calm running reason e f =
      let x = reason (calm e) (running f) in
      record { number = x.number; taken = omega (arith, x.taken); over_ = x.over_ }

  -- The places stay.
  pub stay-Justified :
      (s s' : State R)
      → s'.places ≡ s.places
      → length s.world.submissions ≤ length s'.world.submissions
      → s.handed ≤ s'.handed
      → (is_none s'.world.recorder.writer_error ≡ true
          → is_none s.world.recorder.writer_error ≡ true)
      → (program.loops s'.stop_requested ≡ true → program.loops s.stop_requested ≡ true)
      → Justified program s
      → Justified program s'
  stay-Justified s s' e calls more calm running h = record {
    reason = λ p below gone. later_Reason s s' more calm running (
        h.reason p (subst (λ xs. p < length xs) e below)
          (ap (λ xs. get_or xs p ended) (sym e) ∙ gone));
    inside = λ p i at.
        let below = h.inside p i (ap (λ xs. get_or xs p ended) (sym e) ∙ at) in
        omega (arith, below, calls);
  }

  -- Thread `p` goes to `place`, with a reason if that is the end.
  pub move-Justified :
      (s s' : State R) (p : ℕ) (place : Place)
      → s'.places ≡ set s.places p place
      → length s.world.submissions ≤ length s'.world.submissions
      → s.handed ≤ s'.handed
      → (is_none s'.world.recorder.writer_error ≡ true
          → is_none s.world.recorder.writer_error ≡ true)
      → (program.loops s'.stop_requested ≡ true → program.loops s.stop_requested ≡ true)
      → get_or s.places p ended ≢ ended
      → (place ≡ ended → Reason program s')
      → ((i : ℕ) → place ≡ submitting i → i < length s'.world.submissions)
      → Justified program s
      → Justified program s'
  move-Justified s s' p place e calls more calm running alive why within h = record {
    reason = λ q below gone.
        let gone' = ap (λ xs. get_or xs q ended) (sym e) ∙ gone in
        elim (ℕ-cases p q) [
          | inl same ↦ why (
              sym (get_or-set_same s.places p place ended alive).1
              ∙ ap (λ k. get_or (set s.places p place) k ended) same
              ∙ gone')
          | inr other ↦ later_Reason s s' more calm running (
              h.reason q (omega (arith, below, ap length e, length-set s.places p place))
                (sym (get_or-set_ne s.places p q place ended other) ∙ gone'))
        ];
    inside = λ q i at.
        let at' = ap (λ xs. get_or xs q ended) (sym e) ∙ at in
        elim (ℕ-cases p q) [
          | inl same ↦ within i (
              sym (get_or-set_same s.places p place ended alive).1
              ∙ ap (λ k. get_or (set s.places p place) k ended) same
              ∙ at')
          | inr other ↦
              let below = h.inside q i (sym (get_or-set_ne s.places p q place ended other) ∙ at') in
              omega (arith, below, calls)
        ];
  }

  pub asked :
      (s : State R)
      → (if program.loops s.stop_requested then numbering else ended) ≡ ended
      → Reason program s
  asked s left calm running = let left' = simp running at left in cc left'
