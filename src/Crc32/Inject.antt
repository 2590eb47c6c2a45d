-- ===== src/Crc32/Inject.antt =====
-- A round of the CRC register loses nothing: the top bit of the result tells the bit shifted out.
use cpp_high_performance_bin.Base.{
  ℕ, zero, suc, ◌+◌, ◌-◌, ◌*◌, ◌/◌, ◌%◌, ◌^◌, bit_xor, ◌≡◌, sym, ap, ◌∙◌, inl, inr, arith,
}
use cpp_high_performance_bin.Base.Bits.{
  bit_xor_assoc, bit_xor_comm, bit_xor-lt_pow, bit_xor_fields, bit_xor_cancel_left,
}
use cpp_high_performance_bin.Crc32.{IsU32, k_polynomial, crc_bit, bit_rounds}
use cpp_high_performance_bin.Crc32.Linear.{parity_cases, crc_bit_even, crc_bit_odd, crc_bit-IsU32}

abbrev low_polynomial : ℕ
low_polynomial = k_polynomial - 2 ^ 31

-- The top bit of the polynomial is set, and stays so.
odd_as_sum : (x : ℕ) → IsU32 x → x % 2 ≡ 1 → crc_bit x ≡ 1 * 2 ^ 31 + bit_xor low_polynomial (x / 2)
odd_as_sum x h e =
    crc_bit_odd x e
    ∙ bit_xor_comm (x / 2) k_polynomial
    ∙ ap (λ t. bit_xor t (x / 2)) (sym (bit_xor_fields 31 1 low_polynomial (omega arith)))
    ∙ bit_xor_assoc (1 * 2 ^ 31) low_polynomial (x / 2)
    ∙ bit_xor_fields 31 1 (bit_xor low_polynomial (x / 2))
        (bit_xor-lt_pow 31 low_polynomial (x / 2) (omega arith) (omega arith))

crc_bit_inj : (x y : ℕ) → IsU32 x → IsU32 y → crc_bit x ≡ crc_bit y → x ≡ y
crc_bit_inj x y hx hy e = elim (parity_cases x) [
  | inl p ↦ elim (parity_cases y) [
    | inl q ↦ omega (arith, crc_bit_even x p, crc_bit_even y q)
    | inr q ↦ absurd (omega (arith, crc_bit_even x p, odd_as_sum y hy q))
  ]
  | inr p ↦ elim (parity_cases y) [
    | inl q ↦ absurd (omega (arith, odd_as_sum x hx p, crc_bit_even y q))
    | inr q ↦
        let same : x / 2 ≡ y / 2 =
          bit_xor_cancel_left (x / 2) (y / 2) low_polynomial
            (omega (arith, odd_as_sum x hx p, odd_as_sum y hy q)) in
        omega arith
  ]
]

pub bit_rounds_inj : (k x y : ℕ) → IsU32 x → IsU32 y → bit_rounds k x ≡ bit_rounds k y → x ≡ y
unfolding bit_rounds
bit_rounds_inj zero x y hx hy e = e
bit_rounds_inj (suc k) x y hx hy e =
    crc_bit_inj x y hx hy
      (bit_rounds_inj k (crc_bit x) (crc_bit y) (crc_bit-IsU32 x hx) (crc_bit-IsU32 y hy) e)
