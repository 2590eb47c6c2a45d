-- ===== src/Base/Bits/Digits.antt =====
-- One equation for the lowest binary digit of each bit operation. The library defines the three
-- by a recursion on digits whose fuel is the first number; here the fuel is dropped.
use Prim.Native.Nat.{ℕ, zero, suc, ◌+◌, ◌*◌, ◌/◌, ◌%◌, ◌≤◌, min, max, digits, differ}
use Prim.Native.Nat.{bit_and, bit_or, bit_xor, bit_and-bitwise, bit_or-bitwise, bit_xor-bitwise}
use mathlib.Core.Path.{◌≡◌, refl, sym, ◌∙◌}
use mathlib.Core.Logic.{◌⊎◌, inl, inr}
use native.Mathlib.Omega.{arith}

module _ (z : ℕ → ℕ) (f : ℕ → ℕ → ℕ) where
  -- The fuel does not count once it covers the first number.
  digits_enough : (p q a b : ℕ) → a ≤ p → a ≤ q → digits z f p a b ≡ digits z f q a b
  digits_enough p q zero b hp hq = empty p ∙ sym (empty q)
    where
      empty : (k : ℕ) → digits z f k 0 b ≡ z b
      empty zero = refl
      empty (suc k) = refl
  digits_enough zero q (suc a) b hp hq = absurd (omega arith)
  digits_enough (suc p) zero (suc a) b hp hq = absurd (omega arith)
  digits_enough (suc p) (suc q) (suc a) b hp hq =
      omega (arith, digits_enough p q (suc a / 2) (b / 2) (omega arith) (omega arith))

parity_cases : (a : ℕ) → (a % 2 ≡ 0) ⊎ (a % 2 ≡ 1)
parity_cases a = omega arith

differ_parity : (a b : ℕ) → differ (a % 2) (b % 2) ≡ (a + b) % 2
differ_parity a b = elim (parity_cases a) [
  | inl e ↦ rw e (omega arith)
  | inr e ↦ elim (parity_cases b) [
    | inl d ↦ rw (e, d) (omega arith)
    | inr d ↦ rw (e, d) (omega arith)
  ]
]

pub bit_and_digit : (a b : ℕ) → bit_and a b ≡ bit_and (a / 2) (b / 2) * 2 + min (a % 2) (b % 2)
bit_and_digit zero b = simp bit_and-bitwise (omega arith)
bit_and_digit (suc a) b = simp bit_and-bitwise (
    omega (
      arith,
      digits_enough (λ _. 0) min a (suc a / 2) (suc a / 2) (b / 2) (omega arith) (omega arith),
    ))

pub bit_or_digit : (a b : ℕ) → bit_or a b ≡ bit_or (a / 2) (b / 2) * 2 + max (a % 2) (b % 2)
bit_or_digit zero b = simp bit_or-bitwise (omega arith)
bit_or_digit (suc a) b = simp bit_or-bitwise (
    omega (
      arith,
      digits_enough (λ y. y) max a (suc a / 2) (suc a / 2) (b / 2) (omega arith) (omega arith),
    ))

pub bit_xor_digit : (a b : ℕ) → bit_xor a b ≡ bit_xor (a / 2) (b / 2) * 2 + (a + b) % 2
bit_xor_digit zero b = simp bit_xor-bitwise (omega arith)
bit_xor_digit (suc a) b = simp bit_xor-bitwise (
    omega (
      arith,
      digits_enough (λ y. y) differ a (suc a / 2) (suc a / 2) (b / 2) (omega arith) (omega arith),
      differ_parity (suc a) b,
    ))
