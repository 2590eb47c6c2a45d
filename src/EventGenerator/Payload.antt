-- ===== src/EventGenerator/Payload.antt =====
-- What `EventGenerator::next` (src/core/event_generator.cpp) puts into an event.
use cpp_high_performance_bin.Base.{
  ℕ, zero, suc, ◌+◌, ◌-◌, ◌≤◌, ◌≡◌, refl, sym, ap, ap₂, subst, ◌∙◌, ltb, true, false, arith, List,
  [], ◌∷◌, ◌++◌, append_assoc, append-nil, length, length-append, length-take, All-take, take,
  replicate, set, set-append_right, All-append,
}
use cpp_high_performance_bin.Crc32.{IsByte, IsBytes}
use cpp_high_performance_bin.BinaryLog.Words.{append_u64}
use cpp_high_performance_bin.BinaryLog.Words.Laws.{u64_bytes, append_u64-eq}
use cpp_high_performance_bin.EventGenerator.{
  GeneratorConfig, byte_at, write_value, write_values, write_random, next,
}

-- The bytes that the loop writes where there is room.
bytes_from : ℕ → ℕ → ℕ → List ℕ
bytes_from zero byte value = []
bytes_from (suc left) byte value = byte_at value byte ∷ bytes_from left (byte + 1) value

bytes_from-u64_bytes : (value : ℕ) → bytes_from 8 0 value ≡ u64_bytes value
unfolding bytes_from append_u64
bytes_from-u64_bytes value = append_u64-eq [] value

u64_bytes-IsBytes : (value : ℕ) → IsBytes (u64_bytes value)
u64_bytes-IsBytes value = (
  omega arith,
  (
    omega arith,
    (omega arith, (omega arith, (omega arith, (omega arith, (omega arith, (omega arith, tt)))))),
  ),
)

bytes_from-IsBytes : (value : ℕ) → IsBytes (bytes_from 8 0 value)
bytes_from-IsBytes value =
    subst IsBytes (sym (bytes_from-u64_bytes value)) (u64_bytes-IsBytes value)

-- The state with `room` bytes left.
abbrev filled : List ℕ → ℕ → List ℕ × ℕ
filled done room = (done ++ replicate room 0, length done)

filled_eq : (xs ys : List ℕ) (a b : ℕ) → xs ≡ ys → a ≡ b → filled xs a ≡ filled ys b
filled_eq xs ys a b p q = ap₂ filled p q

filled_next :
    (done : List ℕ) (room b : ℕ)
    → ◌≡◌ {A = List ℕ × ℕ}
        (set (done ++ 0 ∷ replicate room 0) (length done) b, length done + 1)
        (filled (done ++ b ∷ []) room)
filled_next done room b = λ i. (bytes i, place i)
  where
    bytes :
        set (done ++ 0 ∷ replicate room 0) (length done) b ≡ (done ++ b ∷ []) ++ replicate room 0
    bytes =
        ap (λ k. set (done ++ 0 ∷ replicate room 0) k b) (omega arith)
        ∙ set-append_right done (0 ∷ replicate room 0) 0 b
        ∙ sym (append_assoc done (b ∷ []) (replicate room 0))

    place : length done + 1 ≡ length (done ++ b ∷ [])
    place = omega (arith, length-append done (b ∷ []))

write_value-filled :
    (left byte value : ℕ) (done : List ℕ) (room : ℕ)
    → write_value left byte value (filled done room)
      ≡ filled (done ++ take room (bytes_from left byte value)) (room - left)
unfolding write_value bytes_from
write_value-filled zero byte value done zero =
    filled_eq done (done ++ []) 0 (0 - 0) (sym (append-nil done)) (omega arith)
write_value-filled zero byte value done (suc room) =
    filled_eq done (done ++ []) (suc room) (suc room - 0) (sym (append-nil done)) (omega arith)
write_value-filled (suc left) byte value done zero =
    let full : ltb (length done) (length (done ++ [])) ≡ false =
      ground (arith, ap length (append-nil done)) in
    rw full (filled_eq done (done ++ []) 0 (0 - suc left) (sym (append-nil done)) (omega arith))
write_value-filled (suc left) byte value done (suc room) =
    let space : ltb (length done) (length (done ++ 0 ∷ replicate room 0)) ≡ true =
      ground (arith, length-append done (0 ∷ replicate room 0)) in
    rw space (
      ap (write_value left (byte + 1) value) (filled_next done room (byte_at value byte))
      ∙ write_value-filled left (byte + 1) value (done ++ byte_at value byte ∷ []) room
      ∙ filled_eq _ _ (room - left) (suc room - suc left)
          (append_assoc done (byte_at value byte ∷ [])
            (take room (bytes_from left (byte + 1) value)))
          (omega arith))

-- The bytes of all values.
bytes_of : List ℕ → List ℕ
bytes_of [] = []
bytes_of (value ∷ values) = u64_bytes value ++ bytes_of values

take-append_long :
    (n : ℕ) (xs ys : List ℕ) → take n xs ++ take (n - length xs) ys ≡ take n (xs ++ ys)
take-append_long zero xs ys = let e : 0 - length xs ≡ 0 = omega arith in ap (λ k. take k ys) e
take-append_long (suc n) [] ys = let e : suc n - 0 ≡ suc n = omega arith in ap (λ k. take k ys) e
take-append_long (suc n) (x ∷ xs) ys =
    let e : suc n - suc (length xs) ≡ n - length xs = omega arith in
    ap (◌∷◌ x) (ap (λ k. take n xs ++ take k ys) e ∙ take-append_long n xs ys)

write_values-filled :
    (values : List ℕ) (done : List ℕ) (room : ℕ)
    → write_values values (filled done room)
      ≡ filled (done ++ take room (bytes_of values)) (room - length (bytes_of values))
unfolding write_values bytes_of
write_values-filled [] done zero =
    filled_eq done (done ++ []) 0 (0 - 0) (sym (append-nil done)) (omega arith)
write_values-filled [] done (suc room) =
    filled_eq done (done ++ []) (suc room) (suc room - 0) (sym (append-nil done)) (omega arith)
write_values-filled (value ∷ values) done room =
    ap (write_values values) (
      write_value-filled 8 0 value done room
      ∙ ap (λ bytes. filled (done ++ take room bytes) (room - 8)) (bytes_from-u64_bytes value))
    ∙ write_values-filled values (done ++ take room (u64_bytes value)) (room - 8)
    ∙ filled_eq _ _ (room - 8 - length (bytes_of values))
        (room - length (u64_bytes value ++ bytes_of values))
        (append_assoc done (take room (u64_bytes value)) (take (room - 8) (bytes_of values))
          ∙ ap (λ xs. done ++ xs) (take-append_long room (u64_bytes value) (bytes_of values)))
        (omega (arith, length-append (u64_bytes value) (bytes_of values)))

-- What the random part adds: as many bytes as there is room.
write_random-filled :
    {R : Type 0} (draw : R → ℕ × R) (fuel : ℕ) (rng : R) (done : List ℕ) (room : ℕ)
    → room ≤ fuel
    → (tail : List ℕ) × ((write_random draw fuel rng (filled done room)).0 ≡ done ++ tail)
      × (length tail ≡ room)
      × IsBytes tail
unfolding write_random
write_random-filled draw zero rng done zero enough = ([], refl, refl, tt)
write_random-filled draw zero rng done (suc room) enough = absurd (omega arith)
write_random-filled draw (suc fuel) rng done zero enough =
    let full : ltb (length done) (length (done ++ [])) ≡ false =
      ground (arith, ap length (append-nil done)) in
    ([], rw full refl, refl, tt)
write_random-filled draw (suc fuel) rng done (suc room) enough =
    let space : ltb (length done) (length (done ++ 0 ∷ replicate room 0)) ≡ true =
      ground (arith, length-append done (0 ∷ replicate room 0)) in
    let (value, rng') = draw rng in
    let new = take (suc room) (bytes_from 8 0 value) in
    let (tail, found, size, bytes) =
      write_random-filled draw fuel rng' (done ++ new) (suc room - 8) (omega arith) in
    (
      new ++ tail,
      rw space (
          ap (λ state. (write_random draw fuel rng' state).0)
            (write_value-filled 8 0 value done (suc room))
          ∙ found
          ∙ append_assoc done new tail),
      omega (
        arith,
        length-append new tail,
        size,
        length-take (suc room) (bytes_from 8 0 value),
        ap length (bytes_from-u64_bytes value),
      ),
      All-append IsByte new tail
          (All-take IsByte (suc room) (bytes_from 8 0 value) (bytes_from-IsBytes value)) bytes,
    )

-- The three words at the beginning of a payload.
abbrev pub metadata : GeneratorConfig → ℕ → ℕ → List ℕ
metadata config now sequence =
    u64_bytes sequence ++ (u64_bytes config.producer_id ++ (u64_bytes now ++ []))

pub metadata-IsBytes :
    (config : GeneratorConfig) (now sequence : ℕ) → IsBytes (metadata config now sequence)
metadata-IsBytes config now sequence =
    All-append IsByte (u64_bytes sequence) (u64_bytes config.producer_id ++ (u64_bytes now ++ []))
      (u64_bytes-IsBytes sequence)
      (All-append IsByte (u64_bytes config.producer_id) (u64_bytes now ++ [])
        (u64_bytes-IsBytes config.producer_id)
        (All-append IsByte (u64_bytes now) [] (u64_bytes-IsBytes now) tt))

module _ {R : Type 0} (draw : R → ℕ × R) (config : GeneratorConfig) (now sequence : ℕ)
    (rng : R) where
  pub next_payload :
      (tail : List ℕ) × ((next draw config now sequence rng).0.payload
        ≡ take config.payload_size (metadata config now sequence) ++ tail)
      × (length tail ≡ config.payload_size - 24)
      × IsBytes tail
  unfolding next bytes_of
  next_payload =
      let size = config.payload_size in
      let new = take size (metadata config now sequence) in
      let (tail, found, rest, bytes) =
        write_random-filled draw size rng new (size - 24) (omega arith) in
      (
        tail,
        ap (λ state. (write_random draw size rng state).0)
              (write_values-filled (sequence ∷ config.producer_id ∷ now ∷ []) [] size)
            ∙ found,
        rest,
        bytes,
      )
