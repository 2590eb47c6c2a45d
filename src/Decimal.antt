-- ===== src/Decimal.antt =====
-- Unsigned numbers as `operator<<` of an output stream prints them, and as `std::from_chars` reads
-- them back.
use Prim.Native.Nat.pow
use cpp_high_performance_bin.Base.{
  ℕ, zero, suc, ◌+◌, ◌-◌, ◌*◌, ◌/◌, ◌%◌, ◌^◌, ◌<◌, ◌≤◌, length, ◌≡◌, refl, sym, ap, ◌∙◌, Bool-cases,
  inl, inr, true, false, ltb, if◌then◌else◌, arith, [], ◌∷◌, ◌++◌, append_assoc, some, All, Text,
}
use cpp_high_performance_bin.Event.Text.{is_digit, scan_digits, from_chars}

-- The digits of a number before `rest`, at most `fuel` of them.
unfoldable pub digits : ℕ → ℕ → Text → Text
digits zero n rest = rest
digits (suc fuel) n rest =
    let longer = digits fuel (n / 10) ((48 + n % 10) ∷ rest) in
    if ltb n 10 then (48 + n) ∷ rest else longer

-- A number of 64 bits has at most twenty digits.
unfoldable pub decimal : ℕ → Text
decimal n = digits 20 n []

pow_suc : (n : ℕ) → 10 ^ suc n ≡ 10 ^ n * 10
pow_suc n = pow.suc 10 n

digits_last : (fuel n : ℕ) (rest : Text) → n < 10 → digits (suc fuel) n rest ≡ (48 + n) ∷ rest
unfolding digits
digits_last fuel n rest h = let short : ltb n 10 ≡ true = ground arith in simp short

digits_step :
    (fuel n : ℕ) (rest : Text)
    → ltb n 10 ≡ false
    → digits (suc fuel) n rest ≡ digits fuel (n / 10) ((48 + n % 10) ∷ rest)
unfolding digits
digits_step fuel n rest h = simp h

scan_digit :
    (value d : ℕ) (cs : Text)
    → d < 10
    → scan_digits value ((48 + d) ∷ cs) ≡ scan_digits (value * 10 + d) cs
unfolding scan_digits
scan_digit value d cs h =
    let shown : is_digit (48 + d) ≡ true = ground arith in simp shown (rw back refl)
  where
    back : (48 + d) - 48 ≡ d
    back = omega arith

scan_digit_first : (d : ℕ) (cs : Text) → d < 10 → scan_digits 0 ((48 + d) ∷ cs) ≡ scan_digits d cs
scan_digit_first d cs h = scan_digit 0 d cs h ∙ ap (λ m. scan_digits m cs) (omega arith)

-- Reading the digits continues with the rest.
scan_digits-digits :
    (fuel n : ℕ) (rest : Text)
    → n < 10 ^ suc fuel
    → scan_digits 0 (digits (suc fuel) n rest) ≡ scan_digits n rest
scan_digits-digits zero n rest small =
    rw (digits_last zero n rest small) (scan_digit_first n rest small)
scan_digits-digits (suc fuel) n rest small = elim (Bool-cases (ltb n 10)) [
  | inl one ↦
      rw (digits_last (suc fuel) n rest (ground arith)) (scan_digit_first n rest (ground arith))
  | inr more ↦
      rw
        (
          digits_step (suc fuel) n rest more,
          scan_digits-digits fuel (n / 10) ((48 + n % 10) ∷ rest)
              (omega (arith, pow_suc (suc fuel))),
          scan_digit (n / 10) (n % 10) rest (omega arith),
        )
        (ap (λ m. scan_digits m rest) (omega arith))
]

digits-append : (fuel n : ℕ) (rest : Text) → digits fuel n rest ≡ digits fuel n [] ++ rest
unfolding digits
digits-append zero n rest = refl
digits-append (suc fuel) n rest = elim (Bool-cases (ltb n 10)) [
  | inl one ↦ simp one
  | inr more ↦
      rw
        (
          more,
          digits-append fuel (n / 10) ((48 + n % 10) ∷ rest),
          digits-append fuel (n / 10) ((48 + n % 10) ∷ []),
          append_assoc,
        )
        refl
]

abbrev pub IsDigit : ℕ → Type 0
IsDigit c = is_digit c ≡ true

digits-IsDigit : (fuel n : ℕ) (rest : Text) → All IsDigit rest → All IsDigit (digits fuel n rest)
unfolding digits
digits-IsDigit zero n rest h = h
digits-IsDigit (suc fuel) n rest h = elim (Bool-cases (ltb n 10)) [
  | inl one ↦ rw one ((ground arith, h))
  | inr more ↦ rw more (digits-IsDigit fuel (n / 10) ((48 + n % 10) ∷ rest) (ground arith, h))
]

pub decimal-IsDigit : (n : ℕ) → All IsDigit (decimal n)
unfolding decimal
decimal-IsDigit n = digits-IsDigit 20 n [] tt

digits_start :
    (fuel n : ℕ) (rest : Text)
    → (c : ℕ) × (cs : Text) × (digits (suc fuel) n rest ≡ c ∷ cs) × IsDigit c
unfolding digits
digits_start zero n rest = elim (Bool-cases (ltb n 10)) [
  | inl one ↦ (48 + n, rest, simp one, ground arith)
  | inr more ↦ (48 + n % 10, rest, simp more, ground arith)
]
digits_start (suc fuel) n rest = elim (Bool-cases (ltb n 10)) [
  | inl one ↦ (48 + n, rest, simp one, ground arith)
  | inr more ↦
      let (c, cs, shape, digit) = digits_start fuel (n / 10) ((48 + n % 10) ∷ rest) in
      (c, cs, digits_step (suc fuel) n rest more ∙ shape, digit)
]

pub from_chars_scan :
    (bits c n : ℕ) (cs rest : Text)
    → IsDigit c
    → scan_digits 0 (c ∷ cs) ≡ (n, rest)
    → n < 2 ^ bits
    → from_chars bits (c ∷ cs) ≡ some (n, rest)
unfolding from_chars
from_chars_scan bits c n cs rest digit scanned fits =
    let small : ltb n (2 ^ bits) ≡ true = ground arith in rw (digit, scanned, small) refl

pub from_chars_sound :
    (bits c n : ℕ) (cs rest : Text)
    → from_chars bits (c ∷ cs) ≡ some (n, rest)
    → IsDigit c × (scan_digits 0 (c ∷ cs) ≡ (n, rest)) × (n < 2 ^ bits)
unfolding from_chars
from_chars_sound bits c n cs rest h = elim (Bool-cases (is_digit c)) [
  | inr other ↦ let h' = simp other at h in (cc h', cc h', cc h')
  | inl digit ↦ elim (Bool-cases (ltb (scan_digits 0 (c ∷ cs)).0 (2 ^ bits))) [
    | inr large ↦ let h' = simp (digit, large) at h in (cc h', cc h', cc h')
    | inl small ↦
        let h' = simp (digit, small) at h in
        let scanned : scan_digits 0 (c ∷ cs) ≡ (n, rest) = cc h' in
        (digit, scanned, ground (arith, small, ap (λ p. p.0) scanned))
  ]
]

-- `std::from_chars` reads a printed number back and stops behind it.
pub from_chars-decimal :
    (bits n : ℕ) (rest : Text)
    → n < 2 ^ bits
    → n < 2 ^ 64
    → scan_digits n rest ≡ (n, rest)
    → from_chars bits (decimal n ++ rest) ≡ some (n, rest)
unfolding decimal
from_chars-decimal bits n rest fits small stop =
    let (c, cs, shape, digit) = digits_start 19 n rest in
    ap (from_chars bits) (sym (digits-append 20 n rest) ∙ shape)
    ∙ from_chars_scan bits c n cs rest digit
        (ap (scan_digits 0) (sym shape) ∙ scan_digits-digits 19 n rest (omega arith) ∙ stop) fits

-- The digits of a number before another character.
pub scan_digits-decimal :
    (n c : ℕ) (rest : Text)
    → n < 2 ^ 64
    → is_digit c ≡ false
    → scan_digits 0 (decimal n ++ c ∷ rest) ≡ (n, c ∷ rest)
unfolding decimal scan_digits
scan_digits-decimal n c rest fits stop =
    ap (scan_digits 0) (sym (digits-append 20 n (c ∷ rest)))
    ∙ scan_digits-digits 19 n (c ∷ rest) (omega arith)
    ∙ rw stop refl

digits_short :
    (k fuel n : ℕ) (rest : Text)
    → n < 10 ^ suc k
    → length (digits fuel n rest) ≤ suc k + length rest
unfolding digits
digits_short k zero n rest small = omega arith
digits_short zero (suc fuel) n rest small =
    let one : ltb n 10 ≡ true = ground arith in rw one (omega arith)
digits_short (suc k) (suc fuel) n rest small = elim (Bool-cases (ltb n 10)) [
  | inl one ↦ rw one (omega arith)
  | inr more ↦ rw more (
      let shorter =
        digits_short k fuel (n / 10) ((48 + n % 10) ∷ rest) (omega (arith, pow_suc (suc k))) in
      omega (arith, shorter))
]

-- A number below a power of ten has at most as many digits.
pub length-decimal : (k n : ℕ) → n < 10 ^ suc k → length (decimal n) ≤ suc k
unfolding decimal
length-decimal k n small = omega (arith, digits_short k 20 n [] small)

-- A number of four digits.
pub length-decimal_four : (n : ℕ) → 1000 ≤ n → n < 10000 → length (decimal n) ≡ 4
unfolding decimal
length-decimal_four n low high = ap length (
    digits_step 19 n [] (ground arith)
    ∙ digits_step 18 (n / 10) _ (ground arith)
    ∙ digits_step 17 (n / 10 / 10) _ (ground arith)
    ∙ digits_last 16 (n / 10 / 10 / 10) _ (omega arith))
