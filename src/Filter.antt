-- ===== src/Filter.antt =====
-- include/hpblr/filter.hpp: `EventFilter`, the criteria of a replay.
mod Examples
use cpp_high_performance_bin.Base.{
  ℕ, ◌<◌, ◌≤◌, ◌≡◌, ◌≢◌, ◌↔◌, refl, sym, ap, ◌∙◌, inl, inr, Bool, true, false, not, ◌&&◌, ltb, ◌==◌,
  if◌then◌else◌, Bool-cases, arith, Option, none, some,
}
use cpp_high_performance_bin.Event.{
  Event, Severity, severity_to_u16, severity_from_u16, severity_from_u16-severity_to_u16,
}

pub record EventFilter : Type 0 where
  pub producer_id : Option ℕ
  pub type : Option ℕ
  pub severity : Option Severity
  pub from_timestamp_ns : Option ℕ
  pub to_timestamp_ns : Option ℕ

-- `if (criterion && test(*criterion)) return false;`
unfoldable pub violated : {A : Type 0} → Option A → (A → Bool) → Bool
violated none test = false
violated (some value) test = test value

-- The tests that follow the `&&`.
abbrev pub other_producer : Event → ℕ → Bool
other_producer event id = not (event.producer_id == id)

abbrev pub other_type : Event → ℕ → Bool
other_type event t = not (event.type == t)

-- Enumerators are compared by their values.
abbrev pub other_severity : Event → Severity → Bool
other_severity event s = not (severity_to_u16 event.severity == severity_to_u16 s)

abbrev pub too_early : Event → ℕ → Bool
too_early event from = ltb event.timestamp_ns from

abbrev pub too_late : Event → ℕ → Bool
too_late event to = ltb to event.timestamp_ns

unfoldable pub matches : EventFilter → Event → Bool
matches f event =
    if violated f.producer_id (other_producer event)
    then false
    else if violated f.type (other_type event)
    then false
    else if violated f.severity (other_severity event)
    then false
    else if violated f.from_timestamp_ns (too_early event)
    then false
    else if violated f.to_timestamp_ns (too_late event)
    then false
    else true

-- Each given criterion holds of the event.
pub record IsSelected (f : EventFilter) (e : Event) : Type 0 where
  pub producer : (id : ℕ) → f.producer_id ≡ some id → e.producer_id ≡ id
  pub type : (t : ℕ) → f.type ≡ some t → e.type ≡ t
  pub severity : (s : Severity) → f.severity ≡ some s → e.severity ≡ s
  pub from : (t : ℕ) → f.from_timestamp_ns ≡ some t → t ≤ e.timestamp_ns
  pub to : (t : ℕ) → f.to_timestamp_ns ≡ some t → e.timestamp_ns ≤ t

violated-false :
    {A : Type 0} (c : Option A) (test : A → Bool)
    → violated c test ≡ false
    → (a : A) → c ≡ some a
    → test a ≡ false
unfolding violated
violated-false none test h a e = cc
violated-false (some b) test h a e = cc (h, e)

violated_not :
    {A : Type 0} (c : Option A) (test : A → Bool)
    → ((a : A) → c ≡ some a → test a ≡ false)
    → violated c test ≡ false
unfolding violated
violated_not none test h = refl
violated_not (some b) test h = h b refl

severity_to_u16_inj : (s t : Severity) → severity_to_u16 s ≡ severity_to_u16 t → s ≡ t
severity_to_u16_inj s t e =
    let same =
      sym (severity_from_u16-severity_to_u16 s)
      ∙ ap severity_from_u16 e
      ∙ severity_from_u16-severity_to_u16 t in
    cc same

five_tests :
    (a b c d e : Bool)
    → (if a
        then false
        else if b
        then false
        else if c
        then false
        else if d
        then false
        else if e
        then false
        else true)
      ≡ true
    → (a ≡ false) × (b ≡ false) × (c ≡ false) × (d ≡ false) × (e ≡ false)
five_tests true b c d e h = cc
five_tests false true c d e h = cc
five_tests false false true d e h = cc
five_tests false false false true e h = cc
five_tests false false false false true h = cc
five_tests false false false false false h = (refl, refl, refl, refl, refl)

-- A filter lets exactly the events through of which every given criterion holds.
pub matches-IsSelected : (f : EventFilter) (e : Event) → matches f e ≡ true ↔ IsSelected f e
unfolding matches
matches-IsSelected f e = (to, from)
  where
    to : matches f e ≡ true → IsSelected f e
    to h =
        let (p, t, s, a, b) =
          five_tests (violated f.producer_id (other_producer e)) (violated f.type (other_type e))
            (violated f.severity (other_severity e)) (violated f.from_timestamp_ns (too_early e))
            (violated f.to_timestamp_ns (too_late e)) h in
        record {
          producer = λ id c.
              let q = violated-false f.producer_id (other_producer e) p id c in ground (arith, q);
          type = λ x c. let q = violated-false f.type (other_type e) t x c in ground (arith, q);
          severity = λ x c.
              let q = violated-false f.severity (other_severity e) s x c in
              severity_to_u16_inj e.severity x (ground (arith, q));
          from = λ x c.
              let q = violated-false f.from_timestamp_ns (too_early e) a x c in ground (arith, q);
          to = λ x c.
              let q = violated-false f.to_timestamp_ns (too_late e) b x c in ground (arith, q);
        }

    from : IsSelected f e → matches f e ≡ true
    from h =
        rw
          (
            violated_not f.producer_id (other_producer e)
                (λ id c. let q = h.producer id c in ground (arith, q)),
            violated_not f.type (other_type e) (λ id c. let q = h.type id c in ground (arith, q)),
            violated_not f.severity (other_severity e)
                (λ id c. let q = ap severity_to_u16 (h.severity id c) in ground (arith, q)),
            violated_not f.from_timestamp_ns (too_early e)
                (λ id c. let q = h.from id c in ground (arith, q)),
            violated_not f.to_timestamp_ns (too_late e)
                (λ id c. let q = h.to id c in ground (arith, q)),
          )
          refl
