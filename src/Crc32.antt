-- ===== src/Crc32.antt =====
-- src/core/crc32.cpp: the table-driven CRC-32 that protects headers and payloads.
-- A `uint32_t` is a number below 2 ^ 32 and a `std::span<const uint8_t>` a list of numbers below
-- 256. The shifts are divisions, the masks and exclusive ors the library's bit operations.
-- `crc32(std::string_view)` runs the same function on the bytes of the text, which the model
-- has as a list already.
pub mod Reference
pub mod Detection
mod Linear
mod Inject
mod Examples
use cpp_high_performance_bin.Base.{
  ℕ, zero, suc, ◌+◌, ◌/◌, ◌^◌, ◌<◌, bit_and, bit_xor, ◌==◌, if◌then◌else◌, List, [], ◌∷◌, get_or,
  All,
}

abbrev pub k_polynomial : ℕ
k_polynomial = 0xEDB88320

abbrev pub IsByte : ℕ → Type 0
IsByte b = b < 256

abbrev pub IsBytes : List ℕ → Type 0
IsBytes = All IsByte

abbrev pub IsU32 : ℕ → Type 0
IsU32 n = n < 2 ^ 32

-- One round of the inner loop of `make_table`.
pub crc_bit : ℕ → ℕ
crc_bit crc = if bit_and crc 1 == 0 then crc / 2 else bit_xor (crc / 2) k_polynomial

-- `for (int bit = 0; bit < n; ++bit)`
pub bit_rounds : ℕ → ℕ → ℕ
unfolding crc_bit
bit_rounds zero crc = crc
bit_rounds (suc n) crc = bit_rounds n (crc_bit crc)

-- The entries from index `i` on, `left` of them.
pub table_from : ℕ → ℕ → List ℕ
unfolding bit_rounds
table_from zero i = []
table_from (suc left) i = bit_rounds 8 i ∷ table_from left (i + 1)

pub make_table : List ℕ
unfolding table_from
make_table = table_from 256 0

-- The body of the loop over the bytes.
pub crc_byte : ℕ → ℕ → ℕ
unfolding make_table
crc_byte crc byte =
    let index = bit_and (bit_xor crc byte) 0xff in bit_xor (crc / 2 ^ 8) (get_or make_table index 0)

pub crc_loop : ℕ → List ℕ → ℕ
unfolding crc_byte
crc_loop crc [] = crc
crc_loop crc (byte ∷ rest) = crc_loop (crc_byte crc byte) rest

unfoldable pub crc32 : List ℕ → ℕ
unfolding crc_loop
crc32 bytes = bit_xor (crc_loop 0xffff_ffff bytes) 0xffff_ffff
