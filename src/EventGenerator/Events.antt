-- ===== src/EventGenerator/Events.antt =====
-- The events of `EventGenerator::next` (src/core/event_generator.cpp).
use cpp_high_performance_bin.Base.{
  ℕ, ◌%◌, ◌^◌, ◌<◌, ◌≤◌, ◌≡◌, sym, ap, subst, ◌∙◌, arith, ◌++◌, length, length-append, take, drop,
  take_all, length-take, All-take, All-append,
}
use cpp_high_performance_bin.Crc32.{IsByte, IsBytes}
use cpp_high_performance_bin.Event.{severity_to_u16, IsEvent}
use cpp_high_performance_bin.BinaryLog.{k_max_payload_bytes}
use cpp_high_performance_bin.BinaryLog.Format.{IsStorable}
use cpp_high_performance_bin.BinaryLog.Words.{read_u64}
use cpp_high_performance_bin.BinaryLog.Words.Laws.{u64_bytes, read_u64-u64_bytes}
use cpp_high_performance_bin.EventGenerator.{GeneratorConfig, cast_severity, next}
use cpp_high_performance_bin.EventGenerator.Payload.{metadata, metadata-IsBytes, next_payload}

severity_to_u16-cast_severity : (n : ℕ) → n < 6 → severity_to_u16 (cast_severity n) ≡ n
unfolding cast_severity
severity_to_u16-cast_severity n h = ground arith

module _ {R : Type 0} (draw : R → ℕ × R) (config : GeneratorConfig) (now sequence : ℕ) (rng : R)
    (producer : config.producer_id < 2 ^ 32) (clock : now < 2 ^ 64)
    (numbered : sequence < 2 ^ 64) where
  -- The event is a value of the C++ type, whatever the size of its payload.
  pub generated-IsEvent : IsEvent ((next draw config now sequence rng).0)
  unfolding next
  generated-IsEvent =
      let (tail, found, rest, bytes) = next_payload draw config now sequence rng in
      record {
        timestamp_u64 = clock;
        sequence_u64 = numbered;
        producer_u32 = producer;
        type_u16 = omega arith;
        payload_bytes = subst IsBytes (sym found) (
            All-append IsByte (take config.payload_size (metadata config now sequence)) tail
              (All-take IsByte config.payload_size (metadata config now sequence)
                (metadata-IsBytes config now sequence))
              bytes);
      }

  -- Whatever the engine draws, and for a configuration, a clock and a sequence number within their
  -- types whose payload size is within the limit of the format, the event can be stored, its payload
  -- has the size of the configuration, and its severity is the sequence number modulo 6.
  pub generated-IsStorable :
      config.payload_size ≤ k_max_payload_bytes
      → IsStorable ((next draw config now sequence rng).0)
        × (length ((next draw config now sequence rng).0.payload) ≡ config.payload_size)
        × (severity_to_u16 ((next draw config now sequence rng).0.severity) ≡ sequence % 6)
  unfolding next
  generated-IsStorable small =
      let (tail, found, rest, bytes) = next_payload draw config now sequence rng in
      let front = take config.payload_size (metadata config now sequence) in
      let size : length (front ++ tail) ≡ config.payload_size = omega (
        arith,
        length-append front tail,
        rest,
        length-take config.payload_size (metadata config now sequence),
      ) in
      let size' = ap length found ∙ size in
      (
        record { typed = generated-IsEvent; fits = omega (arith, size') },
        size',
        severity_to_u16-cast_severity (sequence % 6) (omega arith),
      )

  -- A payload of at least 24 bytes begins with the sequence number, the producer and the timestamp
  -- of the event, each as a little-endian word of 64 bits, for values within their types.
  pub read_u64-next :
      24 ≤ config.payload_size
      → (read_u64 ((next draw config now sequence rng).0.payload) ≡ sequence)
        × (read_u64 (drop 8 ((next draw config now sequence rng).0.payload)) ≡ config.producer_id)
        × (read_u64 (drop 16 ((next draw config now sequence rng).0.payload)) ≡ now)
  read_u64-next large =
      let (tail, found, rest, bytes) = next_payload draw config now sequence rng in
      let whole =
        found
        ∙ ap (λ xs. xs ++ tail)
            (take_all config.payload_size (metadata config now sequence) large) in
      (
        ap read_u64 whole
            ∙ read_u64-u64_bytes sequence (u64_bytes config.producer_id ++ (u64_bytes now ++ tail))
                numbered,
        ap (λ xs. read_u64 (drop 8 xs)) whole
            ∙ read_u64-u64_bytes config.producer_id (u64_bytes now ++ tail)
                (omega (arith, producer)),
        ap (λ xs. read_u64 (drop 16 xs)) whole ∙ read_u64-u64_bytes now tail clock,
      )
