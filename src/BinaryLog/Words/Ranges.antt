-- ===== src/BinaryLog/Words/Ranges.antt =====
-- The numbers that `read_u16`, `read_u32` and `read_u64` (src/core/binary_log.cpp) give fit their
-- types.
use cpp_high_performance_bin.Base.{ℕ, ◌^◌, ◌<◌, arith, List, [], get_or, All-get_or}
use cpp_high_performance_bin.Crc32.{IsByte, IsBytes}
use cpp_high_performance_bin.BinaryLog.Words.{read_u16, read_u32, read_u64}
use cpp_high_performance_bin.BinaryLog.Words.Laws.{read_u16-sum, read_u32-sum, read_u64-sum}

module _ (xs : List ℕ) (bytes : IsBytes xs) where
  at-IsByte : (i : ℕ) → IsByte (get_or xs i 0)
  at-IsByte i = All-get_or IsByte xs i 0 (omega arith) bytes

  pub read_u16-lt : read_u16 xs < 2 ^ 16
  unfolding read_u16
  read_u16-lt = omega (
    arith,
    at-IsByte 0,
    at-IsByte 1,
    read_u16-sum (get_or xs 0 0) (get_or xs 1 0) [] (at-IsByte 0) (at-IsByte 1),
  )

  pub read_u32-lt : read_u32 xs < 2 ^ 32
  unfolding read_u32
  read_u32-lt = omega (
    arith,
    at-IsByte 0,
    at-IsByte 1,
    at-IsByte 2,
    at-IsByte 3,
    read_u32-sum (get_or xs 0 0) (get_or xs 1 0) (get_or xs 2 0) (get_or xs 3 0) [] (at-IsByte 0)
        (at-IsByte 1) (at-IsByte 2) (at-IsByte 3),
  )

  pub read_u64-lt : read_u64 xs < 2 ^ 64
  unfolding read_u64
  read_u64-lt = omega (
    arith,
    at-IsByte 0,
    at-IsByte 1,
    at-IsByte 2,
    at-IsByte 3,
    at-IsByte 4,
    at-IsByte 5,
    at-IsByte 6,
    at-IsByte 7,
    read_u64-sum (get_or xs 0 0) (get_or xs 1 0) (get_or xs 2 0) (get_or xs 3 0) (get_or xs 4 0)
        (get_or xs 5 0) (get_or xs 6 0) (get_or xs 7 0) []
        (
          at-IsByte 0,
          (
            at-IsByte 1,
            (
              at-IsByte 2,
              (at-IsByte 3, (at-IsByte 4, (at-IsByte 5, (at-IsByte 6, (at-IsByte 7, tt))))),
            ),
          ),
        ),
  )
