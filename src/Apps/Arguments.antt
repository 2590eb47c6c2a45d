-- ===== src/Apps/Arguments.antt =====
-- Reading the arguments of a command, as apps/hpblr_tool.cpp does.
pub mod Inversion
use mathlib.Core.List.{cons-ne-nil}
use cpp_high_performance_bin.Base.{
  ℕ, ◌+◌, ◌-◌, ◌*◌, ◌^◌, ◌<◌, ◌≤◌, ◌≡◌, ◌≢◌, ◌↔◌, refl, sym, ap, ◌∙◌, Bool-cases, inl, inr, ltb,
  if◌then◌else◌, arith, [], ◌∷◌, append-nil, Option, none, some, All, Text,
}
use cpp_high_performance_bin.Errors.{Result, ok, err, runtime_error, missing_value, invalid_value}
use cpp_high_performance_bin.Event.Text.{is_digit, scan_digits, from_chars}
use cpp_high_performance_bin.Decimal.{
  decimal, from_chars-decimal, from_chars_sound, from_chars_scan, IsDigit,
}

-- `result.ec == std::errc{} && result.ptr == end`
unfoldable pub whole : Option (ℕ × Text) → Option ℕ
whole none = none
whole (some (value, [])) = some value
whole (some (value, c ∷ cs)) = none

unfoldable pub parse_u64 : Text → Option ℕ
unfolding whole
parse_u64 text = whole (from_chars 64 text)

-- A number that is larger than the narrower type can hold is refused.
unfoldable pub narrow : ℕ → Option ℕ → Option ℕ
narrow largest none = none
narrow largest (some tmp) = if ltb largest tmp then none else some tmp

unfoldable pub parse_u32 : Text → Option ℕ
parse_u32 text = narrow (2 ^ 32 - 1) (parse_u64 text)

unfoldable pub parse_u16 : Text → Option ℕ
parse_u16 text = narrow (2 ^ 16 - 1) (parse_u64 text)

-- The argument behind an option, if there is one.
unfoldable pub require_value : Option Text → Text → Result Text
require_value none name = err (runtime_error (missing_value name))
require_value (some value) name = ok value

-- `if (!parse(..., value)) throw ...;`
unfoldable pub checked : {A : Type 0} → Option A → Text → Result A
checked none name = err (runtime_error (invalid_value name))
checked (some value) name = ok value

infixl 5 ◌>>=◌
abbrev pub ◌>>=◌ : {A B : Type 0} → Result A → (A → Result B) → Result B
ok a >>= f = f a
err e >>= f = err e

-- The number that digits spell behind `n`.
abbrev pub value_of : ℕ → Text → ℕ
value_of n [] = n
value_of n (c ∷ cs) = value_of (n * 10 + (c - 48)) cs

scan_digits_sound :
    (cs : Text) (n m : ℕ) → scan_digits n cs ≡ (m, []) → All IsDigit cs × (m ≡ value_of n cs)
unfolding scan_digits
scan_digits_sound [] n m h = (tt, cc h)
scan_digits_sound (c ∷ cs) n m h = elim (Bool-cases (is_digit c)) [
  | inl digit ↦
      let (digits, value) = scan_digits_sound cs (n * 10 + (c - 48)) m (simp digit at h) in
      ((digit, digits), value)
  | inr other ↦ let h' = simp other at h in (cc h', cc h')
]

scan_digits_complete : (cs : Text) (n : ℕ) → All IsDigit cs → scan_digits n cs ≡ (value_of n cs, [])
unfolding scan_digits
scan_digits_complete [] n h = refl
scan_digits_complete (c ∷ cs) n h = rw (h.0) (scan_digits_complete cs (n * 10 + (c - 48)) h.1)

whole_some : (o : Option (ℕ × Text)) (n : ℕ) → whole o ≡ some n → o ≡ some (n, [])
unfolding whole
whole_some none n h = cc h
whole_some (some (value, [])) n h = cc h
whole_some (some (value, c ∷ cs)) n h = cc h

parse_u64_sound :
    (text : Text) (n : ℕ)
    → parse_u64 text ≡ some n
    → (text ≢ []) × All IsDigit text × (n ≡ value_of 0 text) × (n < 2 ^ 64)
unfolding parse_u64
parse_u64_sound [] n h = let h' = whole_some (from_chars 64 []) n h in unfold from_chars in cc h'
parse_u64_sound (c ∷ cs) n h =
    let (digit, scanned, fits) =
      from_chars_sound 64 c n cs [] (whole_some (from_chars 64 (c ∷ cs)) n h) in
    let (digits, value) = scan_digits_sound (c ∷ cs) 0 n scanned in
    (cons-ne-nil c cs, digits, value, fits)

parse_u64_complete :
    (text : Text)
    → text ≢ []
    → All IsDigit text
    → value_of 0 text < 2 ^ 64
    → parse_u64 text ≡ some (value_of 0 text)
unfolding parse_u64 whole
parse_u64_complete [] some_ h fits = absurd (some_ refl)
parse_u64_complete (c ∷ cs) some_ h fits =
    rw
      (from_chars_scan 64 c (value_of 0 (c ∷ cs)) cs [] h.0 (scan_digits_complete (c ∷ cs) 0 h)
        fits)
      refl

-- `parse_u64` accepts exactly the texts of one or more digits whose value is below 2^64, and
-- returns this value.
pub parse_u64_lem :
    (text : Text) (n : ℕ)
    → parse_u64 text ≡ some n
      ↔ (text ≢ []) × All IsDigit text × (n ≡ value_of 0 text) × (n < 2 ^ 64)
parse_u64_lem text n = (
  parse_u64_sound text n,
  λ h.
      let fits : value_of 0 text < 2 ^ 64 = omega (arith, h.2, h.3) in
      parse_u64_complete text h.0 h.1 fits ∙ ap some (sym h.2),
)

-- A number of 64 bits that is printed is read back.
pub parse_u64-decimal : (n : ℕ) → n < 2 ^ 64 → parse_u64 (decimal n) ≡ some n
unfolding parse_u64 whole
parse_u64-decimal n fits =
    rw (← append-nil (decimal n))
      (rw (from_chars-decimal 64 n [] fits fits (scan_digits_complete [] n tt)) refl)

narrow_ok : (largest n : ℕ) → n ≤ largest → narrow largest (some n) ≡ some n
unfolding narrow
narrow_ok largest n h = ground arith

pub parse_u32-decimal : (n : ℕ) → n < 2 ^ 32 → parse_u32 (decimal n) ≡ some n
unfolding parse_u32
parse_u32-decimal n fits =
    ap (narrow (2 ^ 32 - 1)) (parse_u64-decimal n (omega arith))
    ∙ narrow_ok (2 ^ 32 - 1) n (omega arith)

pub parse_u16-decimal : (n : ℕ) → n < 2 ^ 16 → parse_u16 (decimal n) ≡ some n
unfolding parse_u16
parse_u16-decimal n fits =
    ap (narrow (2 ^ 16 - 1)) (parse_u64-decimal n (omega arith))
    ∙ narrow_ok (2 ^ 16 - 1) n (omega arith)

narrow_lt : (largest n : ℕ) (o : Option ℕ) → narrow largest o ≡ some n → n ≤ largest
unfolding narrow
narrow_lt largest n none h = cc h
narrow_lt largest n (some tmp) h = ground arith

pub parse_u32-lt : (text : Text) (n : ℕ) → parse_u32 text ≡ some n → n < 2 ^ 32
unfolding parse_u32
parse_u32-lt text n h =
    let small = narrow_lt (2 ^ 32 - 1) n (parse_u64 text) h in omega (arith, small)

pub parse_u16-lt : (text : Text) (n : ℕ) → parse_u16 text ≡ some n → n < 2 ^ 16
unfolding parse_u16
parse_u16-lt text n h =
    let small = narrow_lt (2 ^ 16 - 1) n (parse_u64 text) h in omega (arith, small)
