-- ===== src/Event/Text/Examples.antt =====
-- Texts of src/core/event.cpp on concrete values.
use cpp_high_performance_bin.Base.{◌≡◌, refl, arith, [], ◌∷◌, take, some, none}
use cpp_high_performance_bin.Event.{Severity}
use cpp_high_performance_bin.Event.Text.{
  severity_to_string, severity_from_string, severity_from_number, from_chars, scan_digits, equals,
}
use cpp_high_performance_bin.Event.{severity_from_u16}
use cpp_high_performance_bin.Event.Text.Hex.{bytes_to_hex, read_hex, read_hex-bytes_to_hex}

-- "004" is read as a number, "4a" and "6" are not severities.
leading_zeros : severity_from_string (48 ∷ 48 ∷ 52 ∷ []) ≡ some Severity.error
unfolding severity_from_string severity_to_string severity_from_number from_chars scan_digits equals
    severity_from_u16
leading_zeros = refl

not_a_number : severity_from_string (52 ∷ 97 ∷ []) ≡ none
unfolding severity_from_string severity_to_string severity_from_number from_chars scan_digits equals
    severity_from_u16
not_a_number = refl

read_hex-bytes_to_hex_example :
    read_hex (bytes_to_hex (1 ∷ 171 ∷ 3 ∷ []) 2) ≡ take 2 (1 ∷ 171 ∷ 3 ∷ [])
read_hex-bytes_to_hex_example =
    read_hex-bytes_to_hex (1 ∷ 171 ∷ 3 ∷ []) 2 (omega arith, (omega arith, (omega arith, tt)))
