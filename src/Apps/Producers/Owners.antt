-- ===== src/Apps/Producers/Owners.antt =====
-- In apps/hpblr_record.cpp and apps/hpblr_bench.cpp a thread in a call of `submit` is the only one in
-- that call, which has not returned.
use cpp_high_performance_bin.Base.{
  ℕ, ◌≡◌, ◌≢◌, ◌⊎◌, refl, sym, ap, ◌∙◌, Bool, true, false, inl, inr, List, [], ◌∷◌, ◌++◌, length,
  get_or, set, get_or-set_ne,
}
use cpp_high_performance_bin.AsyncRecorder.{
  Submission, entering, testing, pushing, accepting, rejecting, answered, rethrown,
}
use cpp_high_performance_bin.Apps.Producers.{Place, ended, submitting, after_submit}
use cpp_high_performance_bin.Apps.Producers.Links.{
  settled, ℕ-cases, get_or-set_same, get_or-append_end,
}

pub record Owned (places : List Place) (calls : List Submission) : Type 0 where
  pub open_ :
      (p i : ℕ)
      → get_or places p ended ≡ submitting i
      → settled (get_or calls i (answered false)) ≡ false
  pub apart :
      (p q i : ℕ)
      → get_or places p ended ≡ submitting i
      → get_or places q ended ≡ submitting i
      → p ≡ q

-- Where a thread is after thread `p` has moved to `place`.
moved_cases :
    (places : List Place) (p q i : ℕ) (place : Place)
    → get_or places p ended ≢ ended
    → get_or (set places p place) q ended ≡ submitting i
    → ((p ≡ q) × (place ≡ submitting i)) ⊎ ((p ≢ q) × (get_or places q ended ≡ submitting i))
moved_cases places p q i place alive at = elim (ℕ-cases p q) [
  | inl same ↦ inl (
    same,
    sym (get_or-set_same places p place ended alive).1
        ∙ ap (λ k. get_or (set places p place) k ended) same
        ∙ at,
  )
  | inr other ↦ inr (other, sym (get_or-set_ne places p q place ended other) ∙ at)
]

pub move-Owned :
    (places : List Place) (calls : List Submission) (p : ℕ) (place : Place)
    → get_or places p ended ≢ ended
    → ((i : ℕ) → place ≢ submitting i)
    → Owned places calls
    → Owned (set places p place) calls
move-Owned places calls p place alive free h = record {
  open_ = λ q i at. elim (moved_cases places p q i place alive at) [
    | inl (same, here) ↦ absurd (free i here)
    | inr (other, at') ↦ h.open_ q i at'
  ];
  apart = λ q q' i at at'. elim (moved_cases places p q i place alive at) [
    | inl (same, here) ↦ absurd (free i here)
    | inr (other, before) ↦ elim (moved_cases places p q' i place alive at') [
      | inl (same, here) ↦ absurd (free i here)
      | inr (other', before') ↦ h.apart q q' i before before'
    ]
  ];
}

get_or_end :
    (calls : List Submission) (s : Submission)
    → (get_or (calls ++ s ∷ []) (length calls) (answered false) ≡ s)
      × (get_or calls (length calls) (answered false) ≡ answered false)
get_or_end [] s = (refl, refl)
get_or_end (x ∷ xs) s = get_or_end xs s

submitting_inj : {a b : ℕ} → submitting a ≡ submitting b → a ≡ b
submitting_inj e = cc e

pub call-Owned :
    (places : List Place) (calls : List Submission) (p : ℕ) (s : Submission)
    → get_or places p ended ≢ ended
    → settled s ≡ false
    → Owned places calls
    → Owned (set places p (submitting (length calls))) (calls ++ s ∷ [])
call-Owned places calls p s alive fresh h = record {
  open_ = λ q i at. elim (moved_cases places p q i (submitting (length calls)) alive at) [
    | inl (same, here) ↦
        ap (λ k. settled (get_or (calls ++ s ∷ []) k (answered false))) (sym (submitting_inj here))
        ∙ ap settled (get_or_end calls s).0
        ∙ fresh
    | inr (other, before) ↦
        ap settled (get_or-append_end calls s i (not_end q i before)) ∙ h.open_ q i before
  ];
  apart = λ q q' i at at'. elim (moved_cases places p q i (submitting (length calls)) alive at) [
    | inl (same, here) ↦ elim (moved_cases places p q' i (submitting (length calls)) alive at') [
      | inl (same', here') ↦ sym same ∙ same'
      | inr (other', before') ↦ absurd (not_end q' i before' (sym (submitting_inj here)))
    ]
    | inr (other, before) ↦ elim (moved_cases places p q' i (submitting (length calls)) alive at') [
      | inl (same', here') ↦ absurd (not_end q i before (sym (submitting_inj here')))
      | inr (other', before') ↦ h.apart q q' i before before'
    ]
  ];
}
  where
    not_end : (q i : ℕ) → get_or places q ended ≡ submitting i → i ≢ length calls
    not_end q i at e =
        let open_ = h.open_ q i at in
        let past =
          ap (λ k. settled (get_or calls k (answered false))) e
          ∙ ap settled (get_or_end calls s).1 in
        cc (open_, past)

after_submit_open :
    (counts : Bool) (i j : ℕ) (s : Submission)
    → after_submit counts (submitting i) s ≡ submitting j
    → (settled s ≡ false) × (i ≡ j)
unfolding after_submit
after_submit_open true i j (answered true) h = (cc h, cc h)
after_submit_open false i j (answered true) h = (cc h, cc h)
after_submit_open counts i j (answered false) h = (cc h, cc h)
after_submit_open counts i j (rethrown error) h = (cc h, cc h)
after_submit_open counts i j (entering event) h = (refl, cc h)
after_submit_open counts i j (testing event) h = (refl, cc h)
after_submit_open counts i j (pushing event) h = (refl, cc h)
after_submit_open counts i j accepting h = (refl, cc h)
after_submit_open counts i j rejecting h = (refl, cc h)

pub step-Owned :
    (counts : Bool) (places : List Place) (calls : List Submission) (p i : ℕ) (s : Submission)
    → get_or places p ended ≡ submitting i
    → Owned places calls
    → Owned
        (set places p
          (after_submit counts (submitting i) (get_or (set calls i s) i (answered false))))
        (set calls i s)
step-Owned counts places calls p i s at h = record {
  open_ = λ q j at'. elim (moved_cases places p q j next (λ e. cc (at, e)) at') [
    | inl (same, here) ↦
        let (still, e) =
          after_submit_open counts i j (get_or (set calls i s) i (answered false)) here in
        ap (λ k. settled (get_or (set calls i s) k (answered false))) (sym e) ∙ still
    | inr (other, before) ↦
        ap settled (get_or-set_ne calls i j s (answered false) (elsewhere q j other before))
        ∙ h.open_ q j before
  ];
  apart = λ q q' j at' at''. elim (moved_cases places p q j next (λ e. cc (at, e)) at') [
    | inl (same, here) ↦ elim (moved_cases places p q' j next (λ e. cc (at, e)) at'') [
      | inl (same', here') ↦ sym same ∙ same'
      | inr (other', before') ↦ absurd (
          elsewhere q' j other' before'
            (after_submit_open counts i j (get_or (set calls i s) i (answered false)) here).1)
    ]
    | inr (other, before) ↦ elim (moved_cases places p q' j next (λ e. cc (at, e)) at'') [
      | inl (same', here') ↦ absurd (
          elsewhere q j other before
            (after_submit_open counts i j (get_or (set calls i s) i (answered false)) here').1)
      | inr (other', before') ↦ h.apart q q' j before before'
    ]
  ];
}
  where
    next : Place
    next = after_submit counts (submitting i) (get_or (set calls i s) i (answered false))

    elsewhere : (q j : ℕ) → p ≢ q → get_or places q ended ≡ submitting j → i ≢ j
    elsewhere q j other before e = other (h.apart p q i at (before ∙ ap submitting (sym e)))
