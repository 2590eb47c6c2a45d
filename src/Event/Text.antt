-- ===== src/Event/Text.antt =====
-- src/core/event.cpp: the texts of severities and the hexadecimal dump. Text is a list of codes.
mod Examples
pub mod Hex
use cpp_high_performance_bin.Base.{
  ℕ, zero, suc, ◌+◌, ◌-◌, ◌*◌, ◌/◌, ◌%◌, ◌^◌, ◌<◌, ◌≡◌, refl, Bool, true, false, ◌&&◌, ◌||◌, leb,
  ltb, ◌==◌, if◌then◌else◌, arith, List, [], ◌∷◌, ◌++◌, length, take, Option, none, some,
}
use cpp_high_performance_bin.Event.{Severity, severity_from_u16}

-- The switch covers every enumerator, so "unknown" is never reached.
unfoldable pub severity_to_string : Severity → List ℕ
severity_to_string Severity.trace = 116 ∷ 114 ∷ 97 ∷ 99 ∷ 101 ∷ []
severity_to_string Severity.debug = 100 ∷ 101 ∷ 98 ∷ 117 ∷ 103 ∷ []
severity_to_string Severity.info = 105 ∷ 110 ∷ 102 ∷ 111 ∷ []
severity_to_string Severity.warning = 119 ∷ 97 ∷ 114 ∷ 110 ∷ 105 ∷ 110 ∷ 103 ∷ []
severity_to_string Severity.error = 101 ∷ 114 ∷ 114 ∷ 111 ∷ 114 ∷ []
severity_to_string Severity.critical = 99 ∷ 114 ∷ 105 ∷ 116 ∷ 105 ∷ 99 ∷ 97 ∷ 108 ∷ []

-- `==` of two string views.
unfoldable pub equals : List ℕ → List ℕ → Bool
equals [] [] = true
equals [] (y ∷ ys) = false
equals (x ∷ xs) [] = false
equals (x ∷ xs) (y ∷ ys) = x == y && equals xs ys

abbrev pub warn : List ℕ
warn = 119 ∷ 97 ∷ 114 ∷ 110 ∷ []

abbrev pub crit : List ℕ
crit = 99 ∷ 114 ∷ 105 ∷ 116 ∷ []

abbrev pub is_digit : ℕ → Bool
is_digit c = leb 48 c && leb c 57

-- The value of the digits at the beginning, and the text behind them.
unfoldable pub scan_digits : ℕ → List ℕ → ℕ × List ℕ
scan_digits value [] = (value, [])
scan_digits value (c ∷ cs) =
    let further = scan_digits (value * 10 + (c - 48)) cs in
    if is_digit c then further else (value, c ∷ cs)

-- `std::from_chars` for an unsigned type of the given width in base ten: the number and what is
-- left at `ptr`. There is no number if the text does not begin with a digit, or if the number does
-- not fit.
unfoldable pub from_chars : ℕ → List ℕ → Option (ℕ × List ℕ)
from_chars bits [] = none
from_chars bits (c ∷ cs) =
    let (value, rest) = scan_digits 0 (c ∷ cs) in
    if is_digit c && ltb value (2 ^ bits) then some (value, rest) else none

-- A number that makes up the whole text and is at most 5.
unfoldable pub severity_from_number : Option (ℕ × List ℕ) → Option Severity
severity_from_number none = none
severity_from_number (some (numeric, [])) =
    if leb numeric 5 then severity_from_u16 numeric else none
severity_from_number (some (numeric, c ∷ cs)) = none

unfoldable pub severity_from_string : List ℕ → Option Severity
severity_from_string value =
    if equals value (severity_to_string Severity.trace)
    then some Severity.trace
    else if equals value (severity_to_string Severity.debug)
    then some Severity.debug
    else if equals value (severity_to_string Severity.info)
    then some Severity.info
    else if equals value (severity_to_string Severity.warning) || equals value warn
    then some Severity.warning
    else if equals value (severity_to_string Severity.error)
    then some Severity.error
    else if equals value (severity_to_string Severity.critical) || equals value crit
    then some Severity.critical
    else severity_from_number (from_chars 32 value)

pub severity_from_string-severity_to_string :
    (s : Severity) → severity_from_string (severity_to_string s) ≡ some s
unfolding severity_from_string severity_to_string equals
severity_from_string-severity_to_string Severity.trace = refl
severity_from_string-severity_to_string Severity.debug = refl
severity_from_string-severity_to_string Severity.info = refl
severity_from_string-severity_to_string Severity.warning = refl
severity_from_string-severity_to_string Severity.error = refl
severity_from_string-severity_to_string Severity.critical = refl
