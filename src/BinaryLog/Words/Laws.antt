-- ===== src/BinaryLog/Words/Laws.antt =====
-- Reading a word back gives the word that was written, and any bytes are the bytes of a word.
use mathlib.Core.List.{append_assoc}
use cpp_high_performance_bin.Base.{
  ℕ, ◌+◌, ◌*◌, ◌/◌, ◌%◌, ◌^◌, ◌<◌, bit_or, ◌≡◌, refl, ap, ◌∙◌, arith, List, [], ◌∷◌, ◌++◌, get_or,
}
use cpp_high_performance_bin.Base.Bits.{bit_and_byte, bit_or_fields}
use cpp_high_performance_bin.Crc32.{IsByte, IsBytes}
use cpp_high_performance_bin.BinaryLog.Words.{
  append_u16, append_u32, append_u64, read_u16, read_u32, read_u64,
}

-- The bytes of a word, lowest first.
abbrev pub u16_bytes : ℕ → List ℕ
u16_bytes v = v % 256 ∷ v / 2 ^ 8 % 256 ∷ []

abbrev pub u32_bytes : ℕ → List ℕ
u32_bytes v = v % 256 ∷ v / 2 ^ 8 % 256 ∷ v / 2 ^ 16 % 256 ∷ v / 2 ^ 24 % 256 ∷ []

abbrev pub u64_bytes : ℕ → List ℕ
u64_bytes v =
    v % 256
    ∷ v / 2 ^ 8 % 256
    ∷ v / 2 ^ 16 % 256
    ∷ v / 2 ^ 24 % 256
    ∷ v / 2 ^ 32 % 256
    ∷ v / 2 ^ 40 % 256
    ∷ v / 2 ^ 48 % 256
    ∷ v / 2 ^ 56 % 256
    ∷ []

pub append_u16-eq : (out : List ℕ) (v : ℕ) → append_u16 out v ≡ out ++ u16_bytes v
unfolding append_u16
append_u16-eq out v = simp (append_assoc, bit_and_byte)

pub append_u32-eq : (out : List ℕ) (v : ℕ) → append_u32 out v ≡ out ++ u32_bytes v
unfolding append_u32
append_u32-eq out v = let e : v / 1 ≡ v = omega arith in simp (append_assoc, bit_and_byte, e)

pub append_u64-eq : (out : List ℕ) (v : ℕ) → append_u64 out v ≡ out ++ u64_bytes v
unfolding append_u64
append_u64-eq out v = let e : v / 1 ≡ v = omega arith in simp (append_assoc, bit_and_byte, e)

-- One round: a byte joins the bytes read below it.
join :
    (w k value byte : ℕ)
    → value < 2 ^ k
    → byte * 2 ^ k < 2 ^ w
    → bit_or value (byte * 2 ^ k % 2 ^ w) ≡ value + byte * 2 ^ k
join w k value byte below fits =
    ap (bit_or value) (fits_mod (byte * 2 ^ k) (2 ^ w) fits) ∙ bit_or_fields k value byte below
  where
    fits_mod : (x m : ℕ) → x < m → x % m ≡ x
    fits_mod x m h = grind arith

pub read_u16-sum :
    (a b : ℕ) (rest : List ℕ) → IsByte a → IsByte b → read_u16 (a ∷ b ∷ rest) ≡ a + b * 2 ^ 8
unfolding read_u16
read_u16-sum a b rest ha hb = join 16 8 a b (omega arith) (omega arith)

pub read_u32-sum :
    (a b c d : ℕ) (rest : List ℕ)
    → IsByte a
    → IsByte b
    → IsByte c
    → IsByte d
    → read_u32 (a ∷ b ∷ c ∷ d ∷ rest) ≡ a + b * 2 ^ 8 + c * 2 ^ 16 + d * 2 ^ 24
unfolding read_u32
read_u32-sum a b c d rest ha hb hc hd =
    rw
      (
        join 32 0 0 a (omega arith) (omega arith),
        join 32 8 (0 + a * 2 ^ 0) b (omega arith) (omega arith),
        join 32 16 (0 + a * 2 ^ 0 + b * 2 ^ 8) c (omega arith) (omega arith),
        join 32 24 (0 + a * 2 ^ 0 + b * 2 ^ 8 + c * 2 ^ 16) d (omega arith) (omega arith),
      )
      (omega arith)

pub read_u64-sum :
    (a b c d e f g h : ℕ) (rest : List ℕ)
    → IsBytes (a ∷ b ∷ c ∷ d ∷ e ∷ f ∷ g ∷ h ∷ [])
    → read_u64 (a ∷ b ∷ c ∷ d ∷ e ∷ f ∷ g ∷ h ∷ rest)
      ≡ a + b * 2 ^ 8 + c * 2 ^ 16 + d * 2 ^ 24 + e * 2 ^ 32 + f * 2 ^ 40 + g * 2 ^ 48 + h * 2 ^ 56
unfolding read_u64
read_u64-sum a b c d e f g h rest bytes =
    rw
      (
        join 64 0 0 a (omega arith) (omega arith),
        join 64 8 (0 + a * 2 ^ 0) b (omega arith) (omega arith),
        join 64 16 (0 + a * 2 ^ 0 + b * 2 ^ 8) c (omega arith) (omega arith),
        join 64 24 (0 + a * 2 ^ 0 + b * 2 ^ 8 + c * 2 ^ 16) d (omega arith) (omega arith),
        join 64 32 (0 + a * 2 ^ 0 + b * 2 ^ 8 + c * 2 ^ 16 + d * 2 ^ 24) e (omega arith)
            (omega arith),
        join 64 40 (0 + a * 2 ^ 0 + b * 2 ^ 8 + c * 2 ^ 16 + d * 2 ^ 24 + e * 2 ^ 32) f
            (omega arith) (omega arith),
        join 64 48 (0 + a * 2 ^ 0 + b * 2 ^ 8 + c * 2 ^ 16 + d * 2 ^ 24 + e * 2 ^ 32 + f * 2 ^ 40) g
            (omega arith) (omega arith),
        join 64 56
            (0
              + a * 2 ^ 0
              + b * 2 ^ 8
              + c * 2 ^ 16
              + d * 2 ^ 24
              + e * 2 ^ 32
              + f * 2 ^ 40
              + g * 2 ^ 48)
            h (omega arith) (omega arith),
      )
      (omega arith)

pub read_u16-u16_bytes : (v : ℕ) (rest : List ℕ) → v < 2 ^ 16 → read_u16 (u16_bytes v ++ rest) ≡ v
read_u16-u16_bytes v rest h =
    read_u16-sum (v % 256) _ rest (omega arith) (omega arith) ∙ omega arith

pub read_u32-u32_bytes : (v : ℕ) (rest : List ℕ) → v < 2 ^ 32 → read_u32 (u32_bytes v ++ rest) ≡ v
read_u32-u32_bytes v rest h =
    read_u32-sum (v % 256) _ _ _ rest (omega arith) (omega arith) (omega arith) (omega arith)
    ∙ omega arith

pub read_u64-u64_bytes : (v : ℕ) (rest : List ℕ) → v < 2 ^ 64 → read_u64 (u64_bytes v ++ rest) ≡ v
read_u64-u64_bytes v rest h = read_u64-sum (v % 256) _ _ _ _ _ _ _ rest (omega arith) ∙ omega arith

-- A word depends on its four bytes only.
pub read_u32_ext :
    (xs ys : List ℕ) → ((k : ℕ) → k < 4 → get_or xs k 0 ≡ get_or ys k 0) → read_u32 xs ≡ read_u32 ys
unfolding read_u32
read_u32_ext xs ys h =
    rw (h 0 (omega arith), h 1 (omega arith), h 2 (omega arith), h 3 (omega arith)) refl
