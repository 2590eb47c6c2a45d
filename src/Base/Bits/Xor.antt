-- ===== src/Base/Bits/Xor.antt =====
-- The laws of exclusive or.
use Prim.Native.Nat.{ℕ, zero, suc, ◌+◌, ◌*◌, ◌/◌, ◌%◌, ◌^◌, ◌≤◌, ◌<◌, bit_xor, bit_xor-bitwise}
use mathlib.Core.Path.{◌≡◌, refl, sym, ap, ◌∙◌}
use native.Mathlib.Omega.{arith}
use native.Mathlib.Nat.{pow-suc}
use cpp_high_performance_bin.Base.Bits.Digits.{bit_xor_digit}

pub bit_xor-div_two : (a b : ℕ) → bit_xor a b / 2 ≡ bit_xor (a / 2) (b / 2)
bit_xor-div_two a b = omega (arith, bit_xor_digit a b)

pub bit_xor-mod_two : (a b : ℕ) → bit_xor a b % 2 ≡ (a + b) % 2
bit_xor-mod_two a b = omega (arith, bit_xor_digit a b)

zero-bit_xor : (a : ℕ) → bit_xor 0 a ≡ a
zero-bit_xor a = bit_xor-bitwise 0 a

-- The inductions go from the halves to the numbers, with a bound that falls.
bit_xor-comm_below : (n a b : ℕ) → a + b ≤ n → bit_xor a b ≡ bit_xor b a
bit_xor-comm_below n zero zero h = refl
bit_xor-comm_below zero zero (suc b) h = absurd (omega arith)
bit_xor-comm_below zero (suc a) b h = absurd (omega arith)
bit_xor-comm_below (suc n) a b h = omega (
  arith,
  bit_xor_digit a b,
  bit_xor_digit b a,
  bit_xor-comm_below n (a / 2) (b / 2) (omega arith),
)

pub bit_xor_comm : (a b : ℕ) → bit_xor a b ≡ bit_xor b a
bit_xor_comm a b = bit_xor-comm_below (a + b) a b (omega arith)

pub bit_xor-zero : (a : ℕ) → bit_xor a 0 ≡ a
bit_xor-zero a = bit_xor_comm a 0 ∙ zero-bit_xor a

bit_xor-assoc_below :
    (n a b c : ℕ) → a + b + c ≤ n → bit_xor (bit_xor a b) c ≡ bit_xor a (bit_xor b c)
bit_xor-assoc_below n zero b c h = rw (zero-bit_xor b, zero-bit_xor (bit_xor b c))
bit_xor-assoc_below zero (suc a) b c h = absurd (omega arith)
bit_xor-assoc_below (suc n) (suc a) b c h = omega (
  arith,
  bit_xor_digit (bit_xor (suc a) b) c,
  bit_xor_digit (suc a) (bit_xor b c),
  ap (λ t. bit_xor t (c / 2)) (bit_xor-div_two (suc a) b),
  ap (bit_xor (suc a / 2)) (bit_xor-div_two b c),
  bit_xor-mod_two (suc a) b,
  bit_xor-mod_two b c,
  bit_xor-assoc_below n (suc a / 2) (b / 2) (c / 2) (omega arith),
)

pub bit_xor_assoc : (a b c : ℕ) → bit_xor (bit_xor a b) c ≡ bit_xor a (bit_xor b c)
bit_xor_assoc a b c = bit_xor-assoc_below (a + b + c) a b c (omega arith)

bit_xor-self_below : (n a : ℕ) → a ≤ n → bit_xor a a ≡ 0
bit_xor-self_below n zero h = refl
bit_xor-self_below zero (suc a) h = absurd (omega arith)
bit_xor-self_below (suc n) (suc a) h =
    omega (arith, bit_xor_digit (suc a) (suc a), bit_xor-self_below n (suc a / 2) (omega arith))

pub bit_xor_self : (a : ℕ) → bit_xor a a ≡ 0
bit_xor_self a = bit_xor-self_below a a (omega arith)

-- Exclusive or by `b` undoes itself.
pub bit_xor_undo : (a b : ℕ) → bit_xor (bit_xor a b) b ≡ a
bit_xor_undo a b = bit_xor_assoc a b b ∙ ap (bit_xor a) (bit_xor_self b) ∙ bit_xor-zero a

pub bit_xor_cancel_right : (a b c : ℕ) → bit_xor a c ≡ bit_xor b c → a ≡ b
bit_xor_cancel_right a b c e = sym (bit_xor_undo a c) ∙ ap (λ t. bit_xor t c) e ∙ bit_xor_undo b c

pub bit_xor_cancel_left : (a b c : ℕ) → bit_xor c a ≡ bit_xor c b → a ≡ b
bit_xor_cancel_left a b c e = bit_xor_cancel_right a b c (bit_xor_comm a c ∙ e ∙ bit_xor_comm c b)

-- The result has no more digits than the operands.
pub bit_xor-lt_pow : (k a b : ℕ) → a < 2 ^ k → b < 2 ^ k → bit_xor a b < 2 ^ k
bit_xor-lt_pow zero zero zero ha hb = omega arith
bit_xor-lt_pow zero zero (suc b) ha hb = absurd (omega arith)
bit_xor-lt_pow zero (suc a) b ha hb = absurd (omega arith)
bit_xor-lt_pow (suc k) a b ha hb = omega (
  arith,
  bit_xor_digit a b,
  pow-suc 2 k,
  bit_xor-lt_pow k (a / 2) (b / 2) (omega (arith, pow-suc 2 k)) (omega (arith, pow-suc 2 k)),
)

-- Over disjoint digits exclusive or is addition.
pub bit_xor_fields : (k q r : ℕ) → r < 2 ^ k → bit_xor (q * 2 ^ k) r ≡ q * 2 ^ k + r
bit_xor_fields zero q r h = let e : r ≡ 0 = omega arith in rw (e, bit_xor-zero) (omega arith)
bit_xor_fields (suc k) q r h =
    let half : q * 2 ^ suc k ≡ 2 * (q * 2 ^ k) =
      omega (arith, ap (λ (t : ℕ). q * t) (pow-suc 2 k)) in
    let part : q * 2 ^ suc k / 2 ≡ q * 2 ^ k = omega arith in
    omega (
      arith,
      bit_xor_digit (q * 2 ^ suc k) r,
      ap (λ t. bit_xor t (r / 2)) part,
      bit_xor_fields k q (r / 2) (omega (arith, pow-suc 2 k)),
    )
