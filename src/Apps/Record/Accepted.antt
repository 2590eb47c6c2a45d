-- ===== src/Apps/Record/Accepted.antt =====
-- The options that `parse_options` of apps/hpblr_record.cpp accepts.
use cpp_high_performance_bin.Base.{
  ℕ, ◌<◌, ◌^◌, ◌≡◌, subst, ◌==◌, Bool-cases, inl, inr, arith, List, [], ◌∷◌, Option, none, some,
  Text, codes,
}
use cpp_high_performance_bin.Errors.{Result, ok}
use cpp_high_performance_bin.Event.Text.{equals}
use cpp_high_performance_bin.Apps.Arguments.{parse_u64, require_value}
use cpp_high_performance_bin.Apps.Arguments.Inversion.{
  if_keeps, bind_ok, ok_inj, err_ok, number_keeps, parse_u64-lt,
}
use cpp_high_performance_bin.Apps.Record.{
  Options, defaults, fitting, parse_size, positive, parse_option, is_help, parse_arguments,
  parse_options,
}

-- What the program relies on.
pub record IsUsable (opts : Options) : Type 0 where
  pub producers : (0 < opts.producers) × (opts.producers < 2 ^ 64)
  pub events : opts.events < 2 ^ 64
  pub payload_size : opts.payload_size < 2 ^ 64
  pub queue_capacity : (0 < opts.queue_capacity) × (opts.queue_capacity < 2 ^ 64)
  pub flush_bytes : (0 < opts.flush_bytes) × (opts.flush_bytes < 2 ^ 64)
  pub sleep_us : opts.sleep_us < 2 ^ 64

fitting-lt : (o : Option ℕ) (n : ℕ) → fitting o ≡ some n → n < 2 ^ 64
unfolding fitting
fitting-lt none n h = cc h
fitting-lt (some tmp) n h = ground arith

pub positive_lem : (o : Option ℕ) (n : ℕ) → positive o ≡ some n → (0 < n) × (o ≡ some n)
unfolding positive
positive_lem none n h = cc h
positive_lem (some value) n h = elim (Bool-cases (value == 0)) [
  | inl zero_ ↦ let h' = simp zero_ at h in cc h'
  | inr more ↦ let h' = simp more at h in let same : value ≡ n = cc h' in (ground (arith, same), h')
]

pub parse_size-lt : (text : Text) (n : ℕ) → parse_size text ≡ some n → n < 2 ^ 64
unfolding parse_size
parse_size-lt text n h = fitting-lt (parse_u64 text) n h

pub positive_size :
    (text : Text) (n : ℕ) → positive (parse_size text) ≡ some n → (0 < n) × (n < 2 ^ 64)
positive_size text n h =
    let (more, found) = positive_lem (parse_size text) n h in (more, parse_size-lt text n found)

-- An option that is accepted keeps the options usable.
parse_option-IsUsable :
    (opts : Options) (arg : Text) (next : Option Text) (r : Options)
    → IsUsable opts
    → parse_option opts arg next ≡ ok r
    → IsUsable r
unfolding parse_option
parse_option-IsUsable opts arg next r typed =
    (if_keeps IsUsable (equals arg (codes "--output")) _ _ r
      (λ h.
        let (text, _, stored) = bind_ok (require_value next (codes "--output")) _ r h in
        subst IsUsable (ok_inj stored) (record {
          producers = typed.producers;
          events = typed.events;
          payload_size = typed.payload_size;
          queue_capacity = typed.queue_capacity;
          flush_bytes = typed.flush_bytes;
          sleep_us = typed.sleep_us;
        }))
      (if_keeps IsUsable (equals arg (codes "--producers")) _ _ r
        (number_keeps IsUsable next (codes "--producers") (λ text. positive (parse_size text)) _ r
          (λ text n h. record {
            producers = positive_size text n h;
            events = typed.events;
            payload_size = typed.payload_size;
            queue_capacity = typed.queue_capacity;
            flush_bytes = typed.flush_bytes;
            sleep_us = typed.sleep_us;
          }))
        (if_keeps IsUsable (equals arg (codes "--events")) _ _ r
          (number_keeps IsUsable next (codes "--events") parse_u64 _ r (λ text n h. record {
            producers = typed.producers;
            events = parse_u64-lt text n h;
            payload_size = typed.payload_size;
            queue_capacity = typed.queue_capacity;
            flush_bytes = typed.flush_bytes;
            sleep_us = typed.sleep_us;
          }))
          (if_keeps IsUsable (equals arg (codes "--payload-size")) _ _ r
            (number_keeps IsUsable next (codes "--payload-size") parse_size _ r (λ text n h.
              record {
                producers = typed.producers;
                events = typed.events;
                payload_size = parse_size-lt text n h;
                queue_capacity = typed.queue_capacity;
                flush_bytes = typed.flush_bytes;
                sleep_us = typed.sleep_us;
              }))
            (if_keeps IsUsable (equals arg (codes "--queue-capacity")) _ _ r
              (number_keeps IsUsable next (codes "--queue-capacity")
                (λ text. positive (parse_size text)) _ r
                (λ text n h. record {
                  producers = typed.producers;
                  events = typed.events;
                  payload_size = typed.payload_size;
                  queue_capacity = positive_size text n h;
                  flush_bytes = typed.flush_bytes;
                  sleep_us = typed.sleep_us;
                }))
              (if_keeps IsUsable (equals arg (codes "--flush-bytes")) _ _ r
                (number_keeps IsUsable next (codes "--flush-bytes")
                  (λ text. positive (parse_size text)) _ r
                  (λ text n h. record {
                    producers = typed.producers;
                    events = typed.events;
                    payload_size = typed.payload_size;
                    queue_capacity = typed.queue_capacity;
                    flush_bytes = positive_size text n h;
                    sleep_us = typed.sleep_us;
                  }))
                (if_keeps IsUsable (equals arg (codes "--sleep-us")) _ _ r
                  (number_keeps IsUsable next (codes "--sleep-us") parse_u64 _ r (λ text n h.
                    record {
                      producers = typed.producers;
                      events = typed.events;
                      payload_size = typed.payload_size;
                      queue_capacity = typed.queue_capacity;
                      flush_bytes = typed.flush_bytes;
                      sleep_us = parse_u64-lt text n h;
                    }))
                  (if_keeps IsUsable (equals arg (codes "--log-file")) _ _ r
                    (λ h.
                      let (text, _, stored) =
                        bind_ok (require_value next (codes "--log-file")) _ r h in
                      subst IsUsable (ok_inj stored) (record {
                        producers = typed.producers;
                        events = typed.events;
                        payload_size = typed.payload_size;
                        queue_capacity = typed.queue_capacity;
                        flush_bytes = typed.flush_bytes;
                        sleep_us = typed.sleep_us;
                      }))
                    (λ h. absurd (err_ok h))))))))))

defaults-IsUsable : IsUsable defaults
defaults-IsUsable = record {
  producers = (omega arith, omega arith);
  events = omega arith;
  payload_size = omega arith;
  queue_capacity = (omega arith, omega arith);
  flush_bytes = (omega arith, omega arith);
  sleep_us = omega arith;
}

some_ok : {a b : Options} → ◌≡◌ {A = Result (Option Options)} (ok (some a)) (ok (some b)) → a ≡ b
some_ok h = cc h

parse_arguments-IsUsable :
    (opts : Options) (arguments : List Text) (r : Options)
    → IsUsable opts
    → parse_arguments opts arguments ≡ ok (some r)
    → IsUsable r
unfolding parse_arguments
parse_arguments-IsUsable opts [] r typed h = subst IsUsable (some_ok h) typed
parse_arguments-IsUsable opts (arg ∷ []) r typed h = elim (Bool-cases (is_help arg)) [
  | inl help ↦ let h' = simp help at h in cc h'
  | inr other ↦
      let (found, parsed, same) =
        bind_ok (parse_option opts arg none) _ (some r) (simp other at h) in
      subst IsUsable (some_ok same) (parse_option-IsUsable opts arg none found typed parsed)
]
parse_arguments-IsUsable opts (arg ∷ next ∷ rest) r typed h = elim (Bool-cases (is_help arg)) [
  | inl help ↦ let h' = simp help at h in cc h'
  | inr other ↦
      let (found, parsed, later) =
        bind_ok (parse_option opts arg (some next)) _ (some r) (simp other at h) in
      parse_arguments-IsUsable found rest r
        (parse_option-IsUsable opts arg (some next) found typed parsed) later
]

-- When `parse_options` returns options, the number of producers, the queue capacity and the
-- flush threshold are not 0, and the numbers are within 64 bits.
pub parse_options-IsUsable :
    (arguments : List Text) (opts : Options)
    → parse_options arguments ≡ ok (some opts)
    → IsUsable opts
unfolding parse_options
parse_options-IsUsable arguments opts h =
    parse_arguments-IsUsable defaults arguments opts defaults-IsUsable h
