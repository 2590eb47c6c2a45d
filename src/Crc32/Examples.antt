-- ===== src/Crc32/Examples.antt =====
-- Checksums of concrete bytes (src/core/crc32.cpp).
use cpp_high_performance_bin.Base.{arith, ◌≡◌, ◌≢◌, refl, [], ◌∷◌, ◌++◌, List, ℕ}
use cpp_high_performance_bin.Crc32.{IsBytes, crc32}
use cpp_high_performance_bin.Crc32.Reference.{ieee_crc32, crc32-eq-ieee_crc32}
use cpp_high_performance_bin.Crc32.Detection.{crc32_detects_burst}

-- "123456789", the check value of the standard and of tests/test_crc32.cpp.
abbrev digits : List ℕ
digits = 49 ∷ 50 ∷ 51 ∷ 52 ∷ 53 ∷ 54 ∷ 55 ∷ 56 ∷ 57 ∷ []

digits_checksum : crc32 digits ≡ 0xCBF43926
unfolding crc32
digits_checksum = refl

abbrev two_bytes : List ℕ
two_bytes = 1 ∷ 255 ∷ []

two_IsBytes : IsBytes two_bytes
two_IsBytes = (omega arith, (omega arith, tt))

crc32-eq-ieee_crc32_example : crc32 two_bytes ≡ ieee_crc32 two_bytes
crc32-eq-ieee_crc32_example = crc32-eq-ieee_crc32 two_bytes two_IsBytes

crc32_detects_burst_example :
    crc32 (two_bytes ++ ((3 ∷ 4 ∷ []) ++ two_bytes))
    ≢ crc32 (two_bytes ++ ((5 ∷ 4 ∷ []) ++ two_bytes))
crc32_detects_burst_example =
    crc32_detects_burst two_bytes (3 ∷ 4 ∷ []) (5 ∷ 4 ∷ []) two_bytes two_IsBytes
      (omega arith, (omega arith, tt)) (omega arith, (omega arith, tt)) two_IsBytes refl
      (omega arith) (λ e. cc)
