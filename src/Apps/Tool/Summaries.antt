-- ===== src/Apps/Tool/Summaries.antt =====
-- The counts of `inspect` (apps/hpblr_tool.cpp) are those of a list of events.
use cpp_high_performance_bin.Base.{
  ℕ, ◌+◌, ◌^◌, ◌%◌, ◌≡◌, refl, sym, ap, ◌∙◌, true, ltb, ◌==◌, if◌then◌else◌, arith, List, [], ◌∷◌,
  ◌++◌, length, length-append, get_or, set,
}
use cpp_high_performance_bin.Errors.{ok}
use cpp_high_performance_bin.Event.{Event, Severity, severity_to_u16}
use cpp_high_performance_bin.BinaryLog.Reader.{FileInfo}
use cpp_high_performance_bin.Apps.Tool.Inspect.{Summary, count_event}

-- 1 if the severities are the same.
abbrev hit : Severity → Severity → ℕ
hit s t = if severity_to_u16 s == severity_to_u16 t then 1 else 0

unfoldable pub occurrences : Severity → List Event → ℕ
occurrences s [] = 0
occurrences s (e ∷ es) = hit s e.severity + occurrences s es

unfoldable pub total_payload : List Event → ℕ
total_payload [] = 0
total_payload (e ∷ es) = length e.payload + total_payload es

-- A list with one entry for each severity, modulo 2^64.
abbrev tallies : (Severity → ℕ) → List ℕ
tallies a =
    a Severity.trace % 2 ^ 64
    ∷ a Severity.debug % 2 ^ 64
    ∷ a Severity.info % 2 ^ 64
    ∷ a Severity.warning % 2 ^ 64
    ∷ a Severity.error % 2 ^ 64
    ∷ a Severity.critical % 2 ^ 64
    ∷ []

abbrev pub summary : List Event → Summary
summary es = record {
  count = length es % 2 ^ 64;
  payload_bytes = total_payload es % 2 ^ 64;
  severities = tallies (λ s. occurrences s es);
}

bump : (n : ℕ) → (n % 2 ^ 64 + 1) % 2 ^ 64 ≡ (n + 1) % 2 ^ 64
bump n = omega arith

stay : (n : ℕ) → n % 2 ^ 64 ≡ (n + 0) % 2 ^ 64
stay n = omega arith

six :
    {a b c d e f a' b' c' d' e' f' : ℕ}
    → a ≡ a'
    → b ≡ b'
    → c ≡ c'
    → d ≡ d'
    → e ≡ e'
    → f ≡ f'
    → ◌≡◌ {A = List ℕ} (a ∷ b ∷ c ∷ d ∷ e ∷ f ∷ []) (a' ∷ b' ∷ c' ∷ d' ∷ e' ∷ f' ∷ [])
six p q r s t u = cc (p, q, r, s, t, u)

tallies_step :
    (a : Severity → ℕ) (s : Severity)
    → set (tallies a) (severity_to_u16 s) ((get_or (tallies a) (severity_to_u16 s) 0 + 1) % 2 ^ 64)
      ≡ tallies (λ t. a t + hit t s)
tallies_step a Severity.trace = six (bump _) (stay _) (stay _) (stay _) (stay _) (stay _)
tallies_step a Severity.debug = six (stay _) (bump _) (stay _) (stay _) (stay _) (stay _)
tallies_step a Severity.info = six (stay _) (stay _) (bump _) (stay _) (stay _) (stay _)
tallies_step a Severity.warning = six (stay _) (stay _) (stay _) (bump _) (stay _) (stay _)
tallies_step a Severity.error = six (stay _) (stay _) (stay _) (stay _) (bump _) (stay _)
tallies_step a Severity.critical = six (stay _) (stay _) (stay _) (stay _) (stay _) (bump _)

occurrences-snoc :
    (s : Severity) (es : List Event) (e : Event)
    → occurrences s (es ++ e ∷ []) ≡ occurrences s es + hit s e.severity
unfolding occurrences
occurrences-snoc s [] e = omega arith
occurrences-snoc s (x ∷ es) e = omega (arith, occurrences-snoc s es e)

total_payload-snoc :
    (es : List Event) (e : Event)
    → total_payload (es ++ e ∷ []) ≡ total_payload es + length e.payload
unfolding total_payload
total_payload-snoc [] e = omega arith
total_payload-snoc (x ∷ es) e = omega (arith, total_payload-snoc es e)

in_range : (s : Severity) (a : Severity → ℕ) → ltb (severity_to_u16 s) (length (tallies a)) ≡ true
in_range Severity.trace a = refl
in_range Severity.debug a = refl
in_range Severity.info a = refl
in_range Severity.warning a = refl
in_range Severity.error a = refl
in_range Severity.critical a = refl

pub count_event-summary :
    (es : List Event) (e : Event) → count_event e (summary es) ≡ ok (summary (es ++ e ∷ []))
unfolding count_event
count_event-summary es e =
    rw (in_range e.severity (λ s. occurrences s es))
      (ap ok (λ i. record { count = counted i; payload_bytes = added i; severities = tallied i }))
  where
    counted : (length es % 2 ^ 64 + 1) % 2 ^ 64 ≡ length (es ++ e ∷ []) % 2 ^ 64
    counted = omega (arith, length-append es (e ∷ []))

    added :
        (total_payload es % 2 ^ 64 + length e.payload) % 2 ^ 64
        ≡ total_payload (es ++ e ∷ []) % 2 ^ 64
    added = omega (arith, total_payload-snoc es e)

    tallied :
        set
          (tallies (λ s. occurrences s es))
          (severity_to_u16 e.severity)
          ((get_or (tallies (λ s. occurrences s es)) (severity_to_u16 e.severity) 0 + 1) % 2 ^ 64)
        ≡ tallies (λ s. occurrences s (es ++ e ∷ []))
    tallied =
        tallies_step (λ s. occurrences s es) e.severity
        ∙ (λ i. tallies (λ t. sym (occurrences-snoc t es e) i))

-- The first timestamp that is not 0.
unfoldable pub first_timestamp : List Event → ℕ
first_timestamp [] = 0
first_timestamp (e ∷ es) = if e.timestamp_ns == 0 then first_timestamp es else e.timestamp_ns

unfoldable pub last_timestamp : List Event → ℕ
last_timestamp [] = 0
last_timestamp (e ∷ []) = e.timestamp_ns
last_timestamp (e ∷ f ∷ es) = last_timestamp (f ∷ es)

abbrev pub info_of : ℕ → List Event → FileInfo
info_of now es = record {
  version = 1;
  created_unix_ns = now;
  first_timestamp_ns = first_timestamp es;
  last_timestamp_ns = last_timestamp es;
}

pub first_timestamp-snoc :
    (es : List Event) (e : Event)
    → first_timestamp (es ++ e ∷ [])
      ≡ (if first_timestamp es == 0 then e.timestamp_ns else first_timestamp es)
unfolding first_timestamp
first_timestamp-snoc [] e = ground arith
first_timestamp-snoc (x ∷ es) e = ground (arith, first_timestamp-snoc es e)

pub last_timestamp-snoc :
    (es : List Event) (e : Event) → last_timestamp (es ++ e ∷ []) ≡ e.timestamp_ns
unfolding last_timestamp
last_timestamp-snoc [] e = refl
last_timestamp-snoc (x ∷ []) e = refl
last_timestamp-snoc (x ∷ y ∷ es) e = last_timestamp-snoc (y ∷ es) e
