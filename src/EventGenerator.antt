-- ===== src/EventGenerator.antt =====
-- src/core/event_generator.cpp with include/hpblr/event_generator.hpp: the events of the recorder's
-- demonstration. The engine `std::mt19937_64` is a parameter: a type of states, what the seed makes,
-- and the next number with the next state. The clock is an argument of `next`.
pub mod Payload
pub mod Events
mod Examples
use cpp_high_performance_bin.Base.{
  ℕ, zero, suc, ◌+◌, ◌*◌, ◌/◌, ◌%◌, ◌^◌, bit_and, bit_xor, ltb, ◌==◌, if◌then◌else◌, List, [], ◌∷◌,
  length, replicate, set,
}
use cpp_high_performance_bin.Event.{Event, Severity}

pub record GeneratorConfig : Type 0 where
  pub producer_id : ℕ
  pub event_type_base : ℕ
  pub payload_size : ℕ
  pub seed : ℕ

-- `static_cast<Severity>(n)` of a number below 6.
unfoldable pub cast_severity : ℕ → Severity
cast_severity n =
    if n == 0
    then Severity.trace
    else if n == 1
    then Severity.debug
    else if n == 2
    then Severity.info
    else if n == 3
    then Severity.warning
    else if n == 4
    then Severity.error
    else Severity.critical

-- `(value >> (byte * 8U)) & 0xFFU`
abbrev pub byte_at : ℕ → ℕ → ℕ
byte_at value byte = bit_and (value / 2 ^ (8 * byte)) 0xff

-- The loop over the bytes of a value: `left` rounds, from byte number `byte` on. The result is the
-- payload with the offset behind the last byte written.
unfoldable pub write_value : ℕ → ℕ → ℕ → List ℕ × ℕ → List ℕ × ℕ
write_value zero byte value (payload, offset) = (payload, offset)
write_value (suc left) byte value (payload, offset) =
    let further =
      write_value left (byte + 1) value (set payload offset (byte_at value byte), offset + 1) in
    if ltb offset (length payload) then further else (payload, offset)

-- The loop over `metadata`.
unfoldable pub write_values : List ℕ → List ℕ × ℕ → List ℕ × ℕ
write_values [] state = state
write_values (value ∷ values) state = write_values values (write_value 8 0 value state)

-- The state of the engine after the constructor.
unfoldable pub construct : {R : Type 0} → (ℕ → R) → GeneratorConfig → R
construct seeded config = seeded (bit_xor config.seed (config.producer_id * 2 ^ 32 % 2 ^ 64))

module _ {R : Type 0} (draw : R → ℕ × R) where
  -- `while (offset < event.payload.size())`, with a round for each byte at most.
  unfoldable pub write_random : ℕ → R → List ℕ × ℕ → List ℕ × R
  write_random zero rng (payload, offset) = (payload, rng)
  write_random (suc fuel) rng (payload, offset) =
      let (value, rng') = draw rng in
      let further = write_random fuel rng' (write_value 8 0 value (payload, offset)) in
      if ltb offset (length payload) then further else (payload, rng)

  unfoldable pub next : GeneratorConfig → ℕ → ℕ → R → Event × R
  next config now sequence rng =
      let written =
        write_values (sequence ∷ config.producer_id ∷ now ∷ [])
          (replicate config.payload_size 0, 0) in
      let (payload, rng') = write_random config.payload_size rng written in
      (
        record {
          timestamp_ns = now;
          sequence = sequence;
          producer_id = config.producer_id;
          type = (config.event_type_base + sequence % 8) % 2 ^ 16;
          severity = cast_severity (sequence % 6);
          payload = payload;
        },
        rng',
      )
