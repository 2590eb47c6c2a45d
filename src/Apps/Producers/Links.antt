-- ===== src/Apps/Producers/Links.antt =====
-- Calls of `submit` and the threads of apps/hpblr_record.cpp and apps/hpblr_bench.cpp that make them.
use cpp_high_performance_bin.Base.{
  ℕ, zero, suc, ◌<◌, ◌≡◌, ◌≢◌, ◌⊎◌, refl, sym, ap, subst, ◌∙◌, Bool, true, false, inl, inr, arith,
  List, [], ◌∷◌, ◌++◌, get_or, set, length, get_or-set_ne,
}
use cpp_high_performance_bin.AsyncRecorder.{
  Submission, entering, testing, pushing, accepting, rejecting, answered, rethrown,
}
use cpp_high_performance_bin.Apps.Producers.{
  Place, asking, numbering, counting, ended, submitting, threw, after_submit, all_ended,
}

-- The call has returned or thrown.
abbrev pub settled : Submission → Bool
settled (answered b) = true
settled (rethrown error) = true
settled (entering event) = false
settled (testing event) = false
settled (pushing event) = false
settled accepting = false
settled rejecting = false

-- Each call that has not returned is made by a thread.
abbrev pub Linked : List Place → List Submission → Type 0
Linked places calls =
    (i : ℕ)
    → (settled (get_or calls i (answered false)) ≡ true)
      ⊎ ((p : ℕ) × (get_or places p ended ≡ submitting i))

pub ℕ-cases : (a b : ℕ) → (a ≡ b) ⊎ (a ≢ b)
ℕ-cases a b = ground arith

pub get_or-set_same :
    {A : Type 0} (xs : List A) (i : ℕ) (v d : A)
    → get_or xs i d ≢ d
    → (i < length xs) × (get_or (set xs i v) i d ≡ v)
get_or-set_same [] i v d h = absurd (h refl)
get_or-set_same (x ∷ xs) zero v d h = (omega arith, refl)
get_or-set_same (x ∷ xs) (suc i) v d h =
    let (below, same) = get_or-set_same xs i v d h in (omega (arith, below), same)

-- A thread that is not in a call goes elsewhere.
pub move-Linked :
    (places : List Place) (calls : List Submission) (p : ℕ) (place : Place)
    → ((i : ℕ) → get_or places p ended ≢ submitting i)
    → Linked places calls
    → Linked (set places p place) calls
move-Linked places calls p place free linked i = elim (linked i) [
  | inl done ↦ inl done
  | inr (q, at) ↦ elim (ℕ-cases p q) [
    | inl same ↦ absurd (free i (ap (λ k. get_or places k ended) same ∙ at))
    | inr other ↦ inr (q, get_or-set_ne places p q place ended other ∙ at)
  ]
]

pub get_or-append_end :
    (calls : List Submission) (s : Submission) (i : ℕ)
    → i ≢ length calls
    → get_or (calls ++ s ∷ []) i (answered false) ≡ get_or calls i (answered false)
get_or-append_end [] s zero h = absurd (h refl)
get_or-append_end [] s (suc i) h = refl
get_or-append_end (x ∷ xs) s zero h = refl
get_or-append_end (x ∷ xs) s (suc i) h = get_or-append_end xs s i (λ e. h (ap suc e))

-- A thread begins a call.
pub call-Linked :
    (places : List Place) (calls : List Submission) (p : ℕ) (s : Submission)
    → get_or places p ended ≡ numbering
    → Linked places calls
    → Linked (set places p (submitting (length calls))) (calls ++ s ∷ [])
call-Linked places calls p s at linked i = elim (ℕ-cases i (length calls)) [
  | inl same ↦ inr (
    p,
    (get_or-set_same places p (submitting (length calls)) ended (λ e. cc (at, e))).1
        ∙ ap submitting (sym same),
  )
  | inr other ↦
      elim (move-Linked places calls p (submitting (length calls)) (λ j e. cc (at, e)) linked i) [
        | inl done ↦ inl (ap settled (get_or-append_end calls s i other) ∙ done)
        | inr owned ↦ inr owned
      ]
]

after_submit_cases :
    (counts : Bool) (place : Place) (s : Submission)
    → (settled s ≡ true) ⊎ (after_submit counts place s ≡ place)
unfolding after_submit
after_submit_cases counts place (answered b) = inl refl
after_submit_cases counts place (rethrown error) = inl refl
after_submit_cases counts place (entering event) = inr refl
after_submit_cases counts place (testing event) = inr refl
after_submit_cases counts place (pushing event) = inr refl
after_submit_cases counts place accepting = inr refl
after_submit_cases counts place rejecting = inr refl

-- A thread goes on in its call.
pub step-Linked :
    (counts : Bool) (places : List Place) (calls : List Submission) (p i : ℕ) (s : Submission)
    → get_or places p ended ≡ submitting i
    → Linked places calls
    → Linked
        (set places p
          (after_submit counts (submitting i) (get_or (set calls i s) i (answered false))))
        (set calls i s)
step-Linked counts places calls p i s at linked j = elim (ℕ-cases i j) [
  | inl same ↦ subst Goal same here
  | inr other ↦ elim (linked j) [
    | inl done ↦ inl (ap settled (get_or-set_ne calls i j s (answered false) other) ∙ done)
    | inr (q, owner) ↦ elim (ℕ-cases p q) [
      | inl same ↦
          absurd (other (submitting_inj (sym at ∙ ap (λ k. get_or places k ended) same ∙ owner)))
      | inr apart ↦ inr (q, get_or-set_ne places p q next ended apart ∙ owner)
    ]
  ]
]
  where
    next : Place
    next = after_submit counts (submitting i) (get_or (set calls i s) i (answered false))

    Goal : ℕ → Type 0
    Goal k =
        (settled (get_or (set calls i s) k (answered false)) ≡ true)
        ⊎ ((q : ℕ) × (get_or (set places p next) q ended ≡ submitting k))

    submitting_inj : {a b : ℕ} → submitting a ≡ submitting b → a ≡ b
    submitting_inj e = cc e

    here : Goal i
    here =
        elim (after_submit_cases counts (submitting i)
          (get_or (set calls i s) i (answered false))) [
            | inl done ↦ inl done
            | inr stays ↦ inr (p, (get_or-set_same places p next ended (λ e. cc (at, e))).1 ∙ stays)
          ]

pub all_ended-get_or :
    (places : List Place) (p : ℕ) → all_ended places ≡ true → get_or places p ended ≡ ended
unfolding all_ended
all_ended-get_or [] p h = refl
all_ended-get_or (ended ∷ places) zero h = refl
all_ended-get_or (ended ∷ places) (suc p) h = all_ended-get_or places p h
all_ended-get_or (asking ∷ places) p h = cc h
all_ended-get_or (numbering ∷ places) p h = cc h
all_ended-get_or (counting ∷ places) p h = cc h
all_ended-get_or (submitting i ∷ places) p h = cc h
all_ended-get_or (threw error ∷ places) p h = cc h

-- When every thread has left its function, every call has returned.
pub all_settled :
    (places : List Place) (calls : List Submission) (i : ℕ)
    → all_ended places ≡ true
    → Linked places calls
    → settled (get_or calls i (answered false)) ≡ true
all_settled places calls i h linked = elim (linked i) [
  | inl done ↦ done
  | inr (p, at) ↦ let left = all_ended-get_or places p h in cc (at, left)
]
