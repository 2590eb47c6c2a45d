-- ===== src/Crc32/Linear.antt =====
-- A round of the CRC register is linear over exclusive or.
use native.Mathlib.Nat.{pow-suc}
use cpp_high_performance_bin.Base.{
  ℕ, zero, suc, ◌+◌, ◌*◌, ◌/◌, ◌%◌, ◌^◌, bit_xor, ◌≡◌, refl, sym, ap, ◌∙◌, ◌⊎◌, inl, inr, arith,
}
use cpp_high_performance_bin.Base.Bits.{
  bit_and-one, bit_xor-div_two, bit_xor-mod_two, bit_xor_assoc, bit_xor-lt_pow,
}
use cpp_high_performance_bin.Crc32.{IsU32, k_polynomial, crc_bit, bit_rounds}

pub parity_cases : (a : ℕ) → (a % 2 ≡ 0) ⊎ (a % 2 ≡ 1)
parity_cases a = omega arith

pub crc_bit_even : (x : ℕ) → x % 2 ≡ 0 → crc_bit x ≡ x / 2
unfolding crc_bit
crc_bit_even x e = rw (bit_and-one x, e) refl

pub crc_bit_odd : (x : ℕ) → x % 2 ≡ 1 → crc_bit x ≡ bit_xor (x / 2) k_polynomial
unfolding crc_bit
crc_bit_odd x e = rw (bit_and-one x, e) refl

-- What stands above the lowest bit passes through a round unchanged.
pub crc_bit-bit_xor : (h y : ℕ) → crc_bit (bit_xor (h * 2) y) ≡ bit_xor h (crc_bit y)
crc_bit-bit_xor h y = elim (parity_cases y) [
  | inl e ↦
      crc_bit_even _ (omega (arith, bit_xor-mod_two (h * 2) y))
      ∙ halves
      ∙ ap (bit_xor h) (sym (crc_bit_even y e))
  | inr e ↦
      crc_bit_odd _ (omega (arith, bit_xor-mod_two (h * 2) y))
      ∙ ap (λ t. bit_xor t k_polynomial) halves
      ∙ bit_xor_assoc h (y / 2) k_polynomial
      ∙ ap (bit_xor h) (sym (crc_bit_odd y e))
]
  where
    twice : h * 2 / 2 ≡ h
    twice = omega arith

    halves : bit_xor (h * 2) y / 2 ≡ bit_xor h (y / 2)
    halves = bit_xor-div_two (h * 2) y ∙ ap (λ t. bit_xor t (y / 2)) twice

pub bit_rounds-bit_xor :
    (k h y : ℕ) → bit_rounds k (bit_xor (h * 2 ^ k) y) ≡ bit_xor h (bit_rounds k y)
unfolding bit_rounds
bit_rounds-bit_xor zero h y = ap (λ t. bit_xor t y) (omega arith)
bit_rounds-bit_xor (suc k) h y =
    ap (λ t. bit_rounds k (crc_bit (bit_xor t y))) shift
    ∙ ap (bit_rounds k) (crc_bit-bit_xor (h * 2 ^ k) y)
    ∙ bit_rounds-bit_xor k h (crc_bit y)
  where
    shift : h * 2 ^ suc k ≡ h * 2 ^ k * 2
    shift = omega (arith, ap (λ (t : ℕ). h * t) (pow-suc 2 k))

pub bit_rounds-add : (k m x : ℕ) → bit_rounds (k + m) x ≡ bit_rounds m (bit_rounds k x)
unfolding bit_rounds
bit_rounds-add zero m x = let e : 0 + m ≡ m = omega arith in ap (λ t. bit_rounds t x) e
bit_rounds-add (suc k) m x =
    let e : suc k + m ≡ suc (k + m) = omega arith in
    ap (λ t. bit_rounds t x) e ∙ bit_rounds-add k m (crc_bit x)

pub crc_bit-IsU32 : (x : ℕ) → IsU32 x → IsU32 (crc_bit x)
crc_bit-IsU32 x h = elim (parity_cases x) [
  | inl e ↦ rw (crc_bit_even x e) (omega arith)
  | inr e ↦
      rw (crc_bit_odd x e) (bit_xor-lt_pow 32 (x / 2) k_polynomial (omega arith) (omega arith))
]

pub bit_rounds-IsU32 : (k x : ℕ) → IsU32 x → IsU32 (bit_rounds k x)
unfolding bit_rounds
bit_rounds-IsU32 zero x h = h
bit_rounds-IsU32 (suc k) x h = bit_rounds-IsU32 k (crc_bit x) (crc_bit-IsU32 x h)
