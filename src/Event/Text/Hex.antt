-- ===== src/Event/Text/Hex.antt =====
-- `bytes_to_hex` of src/core/event.cpp, and a reader of its output.
use cpp_high_performance_bin.Base.{
  ℕ, zero, suc, ◌+◌, ◌-◌, ◌*◌, ◌/◌, ◌%◌, ◌<◌, ◌≡◌, refl, sym, ap₂, ◌∙◌, Bool, true, false,
  Bool-cases, inl, inr, leb, ltb, if◌then◌else◌, arith, List, [], ◌∷◌, ◌++◌, length, take, take_all,
}
use cpp_high_performance_bin.Crc32.{IsBytes}

-- A digit as `std::hex` prints it.
abbrev pub hex_digit : ℕ → ℕ
hex_digit d = if ltb d 10 then 48 + d else 87 + d

-- The loop: each of the first `count` bytes with two digits, padded with a zero.
unfoldable pub hex_loop : ℕ → List ℕ → List ℕ
hex_loop zero bytes = []
hex_loop (suc left) [] = []
hex_loop (suc left) (byte ∷ rest) =
    hex_digit (byte / 16) ∷ hex_digit (byte % 16) ∷ hex_loop left rest

abbrev pub dots : List ℕ
dots = 46 ∷ 46 ∷ 46 ∷ []

unfoldable pub bytes_to_hex : List ℕ → ℕ → List ℕ
bytes_to_hex bytes max_bytes =
    let count = if ltb (length bytes) max_bytes then length bytes else max_bytes in
    hex_loop count bytes ++ (if ltb count (length bytes) then dots else [])

abbrev pub hex_value : ℕ → ℕ
hex_value c = if ltb c 58 then c - 48 else c - 87

-- Pairs of digits are read up to the first character below '0'.
unfoldable pub read_hex : List ℕ → List ℕ
read_hex [] = []
read_hex (a ∷ []) = []
read_hex (a ∷ b ∷ rest) =
    let further = read_hex rest in
    if leb 48 a then (hex_value a * 16 + hex_value b) ∷ further else []

hex_value-hex_digit : (d : ℕ) → d < 16 → hex_value (hex_digit d) ≡ d
hex_value-hex_digit d h = ground arith

digit_shown : (d : ℕ) → leb 48 (hex_digit d) ≡ true
digit_shown d = ground arith

read_hex-hex_loop :
    (count : ℕ) (bytes tail : List ℕ)
    → IsBytes bytes
    → read_hex tail ≡ []
    → read_hex (hex_loop count bytes ++ tail) ≡ take count bytes
unfolding read_hex hex_loop
read_hex-hex_loop zero bytes tail h e = e
read_hex-hex_loop (suc left) [] tail h e = e
read_hex-hex_loop (suc left) (byte ∷ rest) tail h e =
    rw
      (
        digit_shown (byte / 16),
        hex_value-hex_digit (byte / 16) (omega (arith, h.0)),
        hex_value-hex_digit (byte % 16) (omega arith),
      )
      (ap₂ (◌∷◌) whole (read_hex-hex_loop left rest tail h.1 e))
  where
    whole : byte / 16 * 16 + byte % 16 ≡ byte
    whole = omega arith

-- The dump shows each of the first `max_bytes` bytes: they can be read back from it, and the dots
-- of a shortened dump are not taken for digits.
pub read_hex-bytes_to_hex :
    (bytes : List ℕ) (max_bytes : ℕ)
    → IsBytes bytes
    → read_hex (bytes_to_hex bytes max_bytes) ≡ take max_bytes bytes
unfolding bytes_to_hex read_hex
read_hex-bytes_to_hex bytes max_bytes h = elim (Bool-cases (ltb (length bytes) max_bytes)) [
  | inl all ↦
      let whole : ltb (length bytes) (length bytes) ≡ false = ground arith in
      rw (all, whole)
        (read_hex-hex_loop (length bytes) bytes [] h refl
          ∙ take_all (length bytes) bytes (omega arith)
          ∙ sym (take_all max_bytes bytes (ground arith)))
  | inr some_ ↦
      rw some_ (read_hex-hex_loop max_bytes bytes _ h (unread (ltb max_bytes (length bytes))))
]
  where
    unread : (b : Bool) → read_hex (if b then dots else []) ≡ []
    unread true = refl
    unread false = refl
