-- ===== src/Crc32/Reference.antt =====
-- The table-driven loop of src/core/crc32.cpp against the bit-serial definition of CRC-32.
use cpp_high_performance_bin.Base.{
  ℕ, zero, suc, ◌+◌, ◌/◌, ◌%◌, ◌^◌, ◌<◌, bit_xor, ◌≡◌, refl, sym, ap, ap₂, ◌∙◌, arith, List, [],
  ◌∷◌, get_or, ◌==◌, if◌then◌else◌,
}
use cpp_high_performance_bin.Base.Bits.{
  bit_and_byte, bit_and-one, bit_xor-div_two, bit_xor-lt_pow, bit_xor_fields, bit_xor-zero,
}
use cpp_high_performance_bin.Crc32.{
  IsByte, IsBytes, IsU32, crc_bit, bit_rounds, table_from, make_table, crc_byte, crc_loop, crc32,
}
use cpp_high_performance_bin.Crc32.Linear.{bit_rounds-bit_xor, bit_rounds-IsU32}

-- The register takes a byte and is then shifted eight times, a bit at a time.
abbrev pub serial : ℕ → List ℕ → ℕ
serial crc [] = crc
serial crc (byte ∷ rest) = serial (bit_rounds 8 (bit_xor crc byte)) rest

abbrev pub reference : List ℕ → ℕ
reference bytes = bit_xor (serial 0xffff_ffff bytes) 0xffff_ffff

table_from-entry : (left i j : ℕ) → j < left → get_or (table_from left i) j 0 ≡ bit_rounds 8 (i + j)
unfolding table_from
table_from-entry zero i j h = absurd (omega arith)
table_from-entry (suc left) i zero h = ap (bit_rounds 8) (omega arith)
table_from-entry (suc left) i (suc j) h =
    table_from-entry left (i + 1) j (omega arith) ∙ ap (bit_rounds 8) (omega arith)

make_table-entry : (j : ℕ) → j < 256 → get_or make_table j 0 ≡ bit_rounds 8 j
unfolding make_table
make_table-entry j h = table_from-entry 256 0 j h ∙ ap (bit_rounds 8) (omega arith)

div_256 : (x : ℕ) → x / 2 ^ 8 ≡ x / 2 / 2 / 2 / 2 / 2 / 2 / 2 / 2
div_256 x = omega arith

bit_xor-div_byte : (x b : ℕ) → IsByte b → bit_xor x b / 2 ^ 8 ≡ x / 2 ^ 8
bit_xor-div_byte x b h =
    div_256 (bit_xor x b)
    ∙ rw
        (
          bit_xor-div_two, bit_xor-div_two, bit_xor-div_two, bit_xor-div_two, bit_xor-div_two,
          bit_xor-div_two, bit_xor-div_two, bit_xor-div_two, gone, bit_xor-zero,
        )
        (sym (div_256 x))
  where
    gone : b / 2 / 2 / 2 / 2 / 2 / 2 / 2 / 2 ≡ 0
    gone = omega arith

-- A table step is eight bit steps.
pub crc_byte-eq-bit_rounds :
    (crc byte : ℕ) → IsByte byte → crc_byte crc byte ≡ bit_rounds 8 (bit_xor crc byte)
unfolding crc_byte
crc_byte-eq-bit_rounds crc byte h =
    ap₂ bit_xor (sym (bit_xor-div_byte crc byte h))
      (ap (λ t. get_or make_table t 0) (bit_and_byte x) ∙ make_table-entry (x % 256) (omega arith))
    ∙ sym (bit_rounds-bit_xor 8 (x / 2 ^ 8) (x % 256))
    ∙ ap (bit_rounds 8) (bit_xor_fields 8 (x / 2 ^ 8) (x % 256) (omega arith) ∙ (omega arith))
  where
    x : ℕ
    x = bit_xor crc byte

pub crc_loop-eq-serial :
    (crc : ℕ) (bytes : List ℕ) → IsBytes bytes → crc_loop crc bytes ≡ serial crc bytes
unfolding crc_loop
crc_loop-eq-serial crc [] h = refl
crc_loop-eq-serial crc (byte ∷ rest) h =
    crc_loop-eq-serial (crc_byte crc byte) rest h.1
    ∙ ap (λ t. serial t rest) (crc_byte-eq-bit_rounds crc byte h.0)

pub serial-IsU32 : (crc : ℕ) (bytes : List ℕ) → IsU32 crc → IsBytes bytes → IsU32 (serial crc bytes)
serial-IsU32 crc [] hc h = hc
serial-IsU32 crc (byte ∷ rest) hc h =
    serial-IsU32 (bit_rounds 8 (bit_xor crc byte)) rest
      (bit_rounds-IsU32 8 _ (bit_xor-lt_pow 32 crc byte hc (omega (arith, h.0)))) h.1

-- The register of the CRC-32 of IEEE 802.3 takes a bit: it is shifted right, and 0xEDB88320, the
-- generator with its bits reflected, is added where the bit that leaves is 1.
abbrev shift_bit : ℕ → ℕ
shift_bit register = if register % 2 == 0 then register / 2 else bit_xor (register / 2) 0xEDB88320

abbrev shift_bits : ℕ → ℕ → ℕ
shift_bits zero register = register
shift_bits (suc n) register = shift_bits n (shift_bit register)

abbrev register_after : ℕ → List ℕ → ℕ
register_after register [] = register
register_after register (byte ∷ rest) = register_after (shift_bits 8 (bit_xor register byte)) rest

-- The register is preset to ones and complemented at the end.
abbrev pub ieee_crc32 : List ℕ → ℕ
ieee_crc32 bytes = bit_xor (register_after 0xffff_ffff bytes) 0xffff_ffff

crc_bit-shift_bit : (crc : ℕ) → crc_bit crc ≡ shift_bit crc
unfolding crc_bit
crc_bit-shift_bit crc = rw (bit_and-one crc) refl

bit_rounds-shift_bits : (n r : ℕ) → bit_rounds n r ≡ shift_bits n r
unfolding bit_rounds
bit_rounds-shift_bits zero r = refl
bit_rounds-shift_bits (suc n) r =
    bit_rounds-shift_bits n (crc_bit r) ∙ ap (shift_bits n) (crc_bit-shift_bit r)

serial-register_after : (crc : ℕ) (bytes : List ℕ) → serial crc bytes ≡ register_after crc bytes
serial-register_after crc [] = refl
serial-register_after crc (byte ∷ rest) =
    ap (λ r. serial r rest) (bit_rounds-shift_bits 8 (bit_xor crc byte))
    ∙ serial-register_after (shift_bits 8 (bit_xor crc byte)) rest

pub crc32-eq-reference : (bytes : List ℕ) → IsBytes bytes → crc32 bytes ≡ reference bytes
unfolding crc32
crc32-eq-reference bytes h =
    ap (λ t. bit_xor t 0xffff_ffff) (crc_loop-eq-serial 0xffff_ffff bytes h)

-- On bytes, the table-driven `crc32` is the CRC-32 of IEEE 802.3, computed bit by bit: generator
-- 0xEDB88320 in reflected form, register preset to ones and complemented at the end.
pub crc32-eq-ieee_crc32 : (bytes : List ℕ) → IsBytes bytes → crc32 bytes ≡ ieee_crc32 bytes
crc32-eq-ieee_crc32 bytes h =
    crc32-eq-reference bytes h
    ∙ ap (λ t. bit_xor t 0xffff_ffff) (serial-register_after 0xffff_ffff bytes)

-- The checksum of any bytes fits the 32 bits of its field.
pub crc32-IsU32 : (bytes : List ℕ) → IsBytes bytes → IsU32 (crc32 bytes)
crc32-IsU32 bytes h =
    rw (crc32-eq-reference bytes h)
      (bit_xor-lt_pow 32 _ 0xffff_ffff (serial-IsU32 _ bytes (omega arith) h) (omega arith))
