-- ===== src/BinaryLog/Words.antt =====
-- src/core/binary_log.cpp, lines 30 to 73: little-endian words in byte vectors.
-- `append_*` returns the vector that `out` becomes. `data + n` is `drop n data`; the arrays that
-- are read always hold the bytes that are asked for, so the default of `get_or` is not met.
pub mod Laws
pub mod Ranges
use cpp_high_performance_bin.Base.{
  ℕ, zero, suc, ◌+◌, ◌*◌, ◌/◌, ◌%◌, ◌^◌, bit_and, bit_or, ltb, if◌then◌else◌, List, [], ◌∷◌, ◌++◌,
  length, get_or, set,
}
use cpp_high_performance_bin.Errors.{Result, ok, err, out_of_range}

-- `(value >> (8U * i)) & 0xFFU`
abbrev byte_of : ℕ → ℕ → ℕ
byte_of value i = bit_and (value / 2 ^ (8 * i)) 0xff

unfoldable pub append_u16 : List ℕ → ℕ → List ℕ
append_u16 out value = (out ++ bit_and value 0xff ∷ []) ++ byte_of value 1 ∷ []

-- `left` rounds of the loop, from round `i` on.
append_loop : ℕ → ℕ → List ℕ → ℕ → List ℕ
append_loop zero i out value = out
append_loop (suc left) i out value = append_loop left (i + 1) (out ++ byte_of value i ∷ []) value

unfoldable pub append_u32 : List ℕ → ℕ → List ℕ
unfolding append_loop
append_u32 out value = append_loop 4 0 out value

unfoldable pub append_u64 : List ℕ → ℕ → List ℕ
unfolding append_loop
append_u64 out value = append_loop 8 0 out value

-- `out.at(i) = byte`
put_at : List ℕ → ℕ → ℕ → Result (List ℕ)
put_at out i byte = if ltb i (length out) then ok (set out i byte) else err out_of_range

write_loop : ℕ → ℕ → List ℕ → ℕ → ℕ → Result (List ℕ)
write_loop zero i out offset value = ok out
write_loop (suc left) i out offset value = elim (put_at out (offset + i) (byte_of value i)) [
  | ok out' ↦ write_loop left (i + 1) out' offset value
  | err e ↦ err e
]

unfoldable pub write_u32_at : List ℕ → ℕ → ℕ → Result (List ℕ)
unfolding write_loop put_at
write_u32_at out offset value = write_loop 4 0 out offset value

unfoldable pub read_u16 : List ℕ → ℕ
read_u16 bytes = bit_or (get_or bytes 0 0) (get_or bytes 1 0 * 2 ^ 8 % 2 ^ 16)

-- `value |= static_cast<T>(data[i]) << (8U * i)` at a type of `w` bits.
read_loop : ℕ → ℕ → ℕ → ℕ → List ℕ → ℕ
read_loop w zero i value bytes = value
read_loop w (suc left) i value bytes =
    read_loop w left (i + 1) (bit_or value (get_or bytes i 0 * 2 ^ (8 * i) % 2 ^ w)) bytes

unfoldable pub read_u32 : List ℕ → ℕ
unfolding read_loop
read_u32 bytes = read_loop 32 4 0 0 bytes

unfoldable pub read_u64 : List ℕ → ℕ
unfolding read_loop
read_u64 bytes = read_loop 64 8 0 0 bytes
