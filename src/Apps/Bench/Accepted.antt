-- ===== src/Apps/Bench/Accepted.antt =====
-- The options that `parse_options` of apps/hpblr_bench.cpp accepts.
use cpp_high_performance_bin.Base.{
  ℕ, ◌<◌, ◌^◌, ◌≡◌, subst, true, Bool-cases, inl, inr, arith, List, [], ◌∷◌, Option, none, some,
  Text, codes,
}
use cpp_high_performance_bin.Errors.{Result, ok}
use cpp_high_performance_bin.Event.Text.{equals}
use cpp_high_performance_bin.Apps.Arguments.{parse_u64, require_value}
use cpp_high_performance_bin.Apps.Arguments.Inversion.{
  if_keeps, bind_ok, ok_inj, err_ok, number_keeps, parse_u64-lt,
}
use cpp_high_performance_bin.Apps.Record.{parse_size, positive}
use cpp_high_performance_bin.Apps.Record.Accepted.{positive_lem, parse_size-lt, positive_size}
use cpp_high_performance_bin.Apps.Bench.{
  Options, defaults, parse_option, is_help, is_json, parse_arguments, parse_options,
}

-- What the program relies on.
pub record IsRunnable (opts : Options) : Type 0 where
  pub producers : (0 < opts.producers) × (opts.producers < 2 ^ 64)
  pub events : (0 < opts.events) × (opts.events < 2 ^ 64)
  pub payload_size : opts.payload_size < 2 ^ 64
  pub queue_capacity : (0 < opts.queue_capacity) × (opts.queue_capacity < 2 ^ 64)
  pub flush_bytes : (0 < opts.flush_bytes) × (opts.flush_bytes < 2 ^ 64)

positive_u64 : (text : Text) (n : ℕ) → positive (parse_u64 text) ≡ some n → (0 < n) × (n < 2 ^ 64)
positive_u64 text n h =
    let (more, found) = positive_lem (parse_u64 text) n h in (more, parse_u64-lt text n found)

-- An option that is accepted keeps the options usable.
parse_option-IsRunnable :
    (opts : Options) (arg : Text) (next : Option Text) (r : Options)
    → IsRunnable opts
    → parse_option opts arg next ≡ ok r
    → IsRunnable r
unfolding parse_option
parse_option-IsRunnable opts arg next r typed =
    (if_keeps IsRunnable (equals arg (codes "--output")) _ _ r
      (λ h.
        let (text, _, stored) = bind_ok (require_value next (codes "--output")) _ r h in
        subst IsRunnable (ok_inj stored) (record {
          producers = typed.producers;
          events = typed.events;
          payload_size = typed.payload_size;
          queue_capacity = typed.queue_capacity;
          flush_bytes = typed.flush_bytes;
        }))
      (if_keeps IsRunnable (equals arg (codes "--report")) _ _ r
        (λ h.
          let (text, _, stored) = bind_ok (require_value next (codes "--report")) _ r h in
          subst IsRunnable (ok_inj stored) (record {
            producers = typed.producers;
            events = typed.events;
            payload_size = typed.payload_size;
            queue_capacity = typed.queue_capacity;
            flush_bytes = typed.flush_bytes;
          }))
        (if_keeps IsRunnable (equals arg (codes "--producers")) _ _ r
          (number_keeps IsRunnable next (codes "--producers") (λ text. positive (parse_size text)) _
            r
            (λ text n h. record {
              producers = positive_size text n h;
              events = typed.events;
              payload_size = typed.payload_size;
              queue_capacity = typed.queue_capacity;
              flush_bytes = typed.flush_bytes;
            }))
          (if_keeps IsRunnable (equals arg (codes "--events")) _ _ r
            (number_keeps IsRunnable next (codes "--events") (λ text. positive (parse_u64 text)) _ r
              (λ text n h. record {
                producers = typed.producers;
                events = positive_u64 text n h;
                payload_size = typed.payload_size;
                queue_capacity = typed.queue_capacity;
                flush_bytes = typed.flush_bytes;
              }))
            (if_keeps IsRunnable (equals arg (codes "--payload-size")) _ _ r
              (number_keeps IsRunnable next (codes "--payload-size") parse_size _ r (λ text n h.
                record {
                  producers = typed.producers;
                  events = typed.events;
                  payload_size = parse_size-lt text n h;
                  queue_capacity = typed.queue_capacity;
                  flush_bytes = typed.flush_bytes;
                }))
              (if_keeps IsRunnable (equals arg (codes "--queue-capacity")) _ _ r
                (number_keeps IsRunnable next (codes "--queue-capacity")
                  (λ text. positive (parse_size text)) _ r
                  (λ text n h. record {
                    producers = typed.producers;
                    events = typed.events;
                    payload_size = typed.payload_size;
                    queue_capacity = positive_size text n h;
                    flush_bytes = typed.flush_bytes;
                  }))
                (if_keeps IsRunnable (equals arg (codes "--flush-bytes")) _ _ r
                  (number_keeps IsRunnable next (codes "--flush-bytes")
                    (λ text. positive (parse_size text)) _ r
                    (λ text n h. record {
                      producers = typed.producers;
                      events = typed.events;
                      payload_size = typed.payload_size;
                      queue_capacity = typed.queue_capacity;
                      flush_bytes = positive_size text n h;
                    }))
                  (λ h. absurd (err_ok h)))))))))

defaults-IsRunnable : IsRunnable defaults
defaults-IsRunnable = record {
  producers = (omega arith, omega arith);
  events = (omega arith, omega arith);
  payload_size = omega arith;
  queue_capacity = (omega arith, omega arith);
  flush_bytes = (omega arith, omega arith);
}

some_ok : {a b : Options} → ◌≡◌ {A = Result (Option Options)} (ok (some a)) (ok (some b)) → a ≡ b
some_ok h = cc h

flagged : (opts : Options) → IsRunnable opts → IsRunnable (record opts { json_stdout = true })
flagged opts typed = record {
  producers = typed.producers;
  events = typed.events;
  payload_size = typed.payload_size;
  queue_capacity = typed.queue_capacity;
  flush_bytes = typed.flush_bytes;
}

parse_arguments-IsRunnable :
    (opts : Options) (arguments : List Text) (r : Options)
    → IsRunnable opts
    → parse_arguments opts arguments ≡ ok (some r)
    → IsRunnable r
unfolding parse_arguments
parse_arguments-IsRunnable opts [] r typed h = subst IsRunnable (some_ok h) typed
parse_arguments-IsRunnable opts (arg ∷ []) r typed h = elim (Bool-cases (is_help arg)) [
  | inl help ↦ let h' = simp help at h in cc h'
  | inr other ↦ elim (Bool-cases (is_json arg)) [
    | inl json ↦
        let h' = simp (other, json) at h in subst IsRunnable (some_ok h') (flagged opts typed)
    | inr valued ↦
        let (found, parsed, same) =
          bind_ok (parse_option opts arg none) _ (some r) (simp (other, valued) at h) in
        subst IsRunnable (some_ok same) (parse_option-IsRunnable opts arg none found typed parsed)
  ]
]
parse_arguments-IsRunnable opts (arg ∷ next ∷ rest) r typed h = elim (Bool-cases (is_help arg)) [
  | inl help ↦ let h' = simp help at h in cc h'
  | inr other ↦ elim (Bool-cases (is_json arg)) [
    | inl json ↦
        parse_arguments-IsRunnable (record opts { json_stdout = true }) (next ∷ rest) r
          (flagged opts typed) (simp (other, json) at h)
    | inr valued ↦
        let (found, parsed, later) =
          bind_ok (parse_option opts arg (some next)) _ (some r) (simp (other, valued) at h) in
        parse_arguments-IsRunnable found rest r
          (parse_option-IsRunnable opts arg (some next) found typed parsed) later
  ]
]

-- When `parse_options` of the benchmark returns options, the numbers of producers and of events,
-- the queue capacity and the flush threshold are not 0, and the numbers are within 64 bits.
pub parse_options-IsRunnable :
    (arguments : List Text) (opts : Options)
    → parse_options arguments ≡ ok (some opts)
    → IsRunnable opts
unfolding parse_options
parse_options-IsRunnable arguments opts h =
    parse_arguments-IsRunnable defaults arguments opts defaults-IsRunnable h
