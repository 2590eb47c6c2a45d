-- ===== src/Crc32/Detection.antt =====
-- What the checksum of src/core/crc32.cpp detects.
use cpp_high_performance_bin.Base.{
  ℕ, ◌+◌, ◌*◌, ◌^◌, ◌≤◌, ◌<◌, bit_xor, ◌≡◌, ◌≢◌, refl, sym, ap, ap₂, ◌∙◌, arith, List, [], ◌∷◌,
  ◌++◌, length, All-append, All-append_parts, set_split, get_or, set, subst,
}
use cpp_high_performance_bin.Base.Bits.{
  bit_xor-lt_pow, bit_xor_fields, bit_xor-zero, bit_xor_comm, bit_xor_assoc, bit_xor_cancel_left,
  bit_xor_cancel_right,
}
use cpp_high_performance_bin.Crc32.{IsByte, IsBytes, IsU32, bit_rounds, crc32}
use cpp_high_performance_bin.Crc32.Linear.{bit_rounds-bit_xor, bit_rounds-add, bit_rounds-IsU32}
use cpp_high_performance_bin.Crc32.Inject.{bit_rounds_inj}
use cpp_high_performance_bin.Crc32.Reference.{serial, reference, serial-IsU32, crc32-eq-reference}

-- A run of bytes as one number, its first byte lowest.
little_endian : List ℕ → ℕ
little_endian [] = 0
little_endian (b ∷ bs) = b + little_endian bs * 256

little_endian-lt : (bs : List ℕ) → IsBytes bs → length bs ≤ 4 → little_endian bs < 2 ^ 32
unfolding little_endian
little_endian-lt [] h l = omega arith
little_endian-lt (a ∷ []) h l = omega (arith, h.0)
little_endian-lt (a ∷ b ∷ []) h l = omega (arith, h.0, h.1.0)
little_endian-lt (a ∷ b ∷ c ∷ []) h l = omega (arith, h.0, h.1.0, h.1.1.0)
little_endian-lt (a ∷ b ∷ c ∷ d ∷ []) h l = omega (arith, h.0, h.1.0, h.1.1.0, h.1.1.1.0)
little_endian-lt (a ∷ b ∷ c ∷ d ∷ e ∷ r) h l = absurd (omega arith)

little_endian_inj :
    (bs cs : List ℕ)
    → IsBytes bs
    → IsBytes cs
    → length bs ≡ length cs
    → little_endian bs ≡ little_endian cs
    → bs ≡ cs
unfolding little_endian
little_endian_inj [] [] hb hc l e = refl
little_endian_inj [] (c ∷ cs) hb hc l e = absurd (omega arith)
little_endian_inj (b ∷ bs) [] hb hc l e = absurd (omega arith)
little_endian_inj (b ∷ bs) (c ∷ cs) hb hc l e =
    ap₂ ◌∷◌ (omega (arith, hb.0, hc.0))
      (little_endian_inj bs cs hb.1 hc.1 (omega arith) (omega (arith, hb.0, hc.0)))

-- Feeding `n` bytes is feeding their number at once and shifting `8 * n` times.
serial-eq-bit_rounds :
    (crc : ℕ) (bs : List ℕ)
    → IsBytes bs
    → serial crc bs ≡ bit_rounds (8 * length bs) (bit_xor crc (little_endian bs))
unfolding little_endian bit_rounds
serial-eq-bit_rounds crc [] h = sym (bit_xor-zero crc)
serial-eq-bit_rounds crc (b ∷ bs) h =
    serial-eq-bit_rounds (bit_rounds 8 (bit_xor crc b)) bs h.1
    ∙ ap (bit_rounds (8 * length bs))
        (bit_xor_comm _ rest ∙ sym (bit_rounds-bit_xor 8 rest (bit_xor crc b)))
    ∙ sym (bit_rounds-add 8 (8 * length bs) _)
    ∙ ap₂ bit_rounds count joined
  where
    rest : ℕ
    rest = little_endian bs

    count : 8 + 8 * length bs ≡ 8 * length (b ∷ bs)
    count = omega arith

    joined : bit_xor (rest * 2 ^ 8) (bit_xor crc b) ≡ bit_xor crc (b + rest * 256)
    joined =
        bit_xor_comm _ _
        ∙ bit_xor_assoc crc b (rest * 2 ^ 8)
        ∙ ap (bit_xor crc) (bit_xor_comm b _ ∙ bit_xor_fields 8 rest b h.0 ∙ omega arith)

-- From one register, bursts of at most four bytes lead to different registers.
serial_burst_inj :
    (crc : ℕ) (bs cs : List ℕ)
    → IsU32 crc
    → IsBytes bs
    → IsBytes cs
    → length bs ≡ length cs
    → length bs ≤ 4
    → serial crc bs ≡ serial crc cs
    → bs ≡ cs
serial_burst_inj crc bs cs hcrc hb hc l short e = little_endian_inj bs cs hb hc l (
    bit_xor_cancel_left _ _ crc (
      bit_rounds_inj (8 * length bs) _ _ (fits bs hb short) (fits cs hc (omega arith)) (
        sym (serial-eq-bit_rounds crc bs hb)
        ∙ e
        ∙ serial-eq-bit_rounds crc cs hc
        ∙ ap (λ t. bit_rounds (8 * t) (bit_xor crc (little_endian cs))) (sym l))))
  where
    fits : (ds : List ℕ) → IsBytes ds → length ds ≤ 4 → IsU32 (bit_xor crc (little_endian ds))
    fits ds hd ld = bit_xor-lt_pow 32 crc _ hcrc (little_endian-lt ds hd ld)

-- Different registers stay different over the same bytes.
serial_inj :
    (c d : ℕ) (bs : List ℕ) → IsU32 c → IsU32 d → IsBytes bs → serial c bs ≡ serial d bs → c ≡ d
serial_inj c d [] hc hd h e = e
serial_inj c d (b ∷ bs) hc hd h e = bit_xor_cancel_right c d b (
    bit_rounds_inj 8 _ _ (taken c hc) (taken d hd) (
      serial_inj (bit_rounds 8 (bit_xor c b)) (bit_rounds 8 (bit_xor d b)) bs
        (bit_rounds-IsU32 8 _ (taken c hc)) (bit_rounds-IsU32 8 _ (taken d hd)) h.1 e))
  where
    taken : (x : ℕ) → IsU32 x → IsU32 (bit_xor x b)
    taken x hx = bit_xor-lt_pow 32 x b hx (omega (arith, h.0))

serial-append : (crc : ℕ) (xs ys : List ℕ) → serial crc (xs ++ ys) ≡ serial (serial crc xs) ys
serial-append crc [] ys = refl
serial-append crc (x ∷ xs) ys = serial-append (bit_rounds 8 (bit_xor crc x)) xs ys

-- The checksums of two byte strings differ that are the same but for a different burst of the
-- same length, at most four bytes, at the same place.
pub crc32_detects_burst :
    (before burst burst' after : List ℕ)
    → IsBytes before
    → IsBytes burst
    → IsBytes burst'
    → IsBytes after
    → length burst ≡ length burst'
    → length burst ≤ 4
    → burst ≢ burst'
    → crc32 (before ++ (burst ++ after)) ≢ crc32 (before ++ (burst' ++ after))
crc32_detects_burst before burst burst' after hx hb hb' hy l short differs e = differs (
    serial_burst_inj reg burst burst' hreg hb hb' l short (
      serial_inj _ _ after (serial-IsU32 reg burst hreg hb) (serial-IsU32 reg burst' hreg hb') hy
        (sym (split burst) ∙ bit_xor_cancel_right _ _ _ registers ∙ split burst')))
  where
    reg : ℕ
    reg = serial 0xffff_ffff before

    hreg : IsU32 reg
    hreg = serial-IsU32 _ before (omega arith) hx

    split :
        (bs : List ℕ) → serial 0xffff_ffff (before ++ (bs ++ after)) ≡ serial (serial reg bs) after
    split bs = serial-append _ before (bs ++ after) ∙ serial-append reg bs after

    whole : (bs : List ℕ) → IsBytes bs → IsBytes (before ++ (bs ++ after))
    whole bs h = All-append IsByte before (bs ++ after) hx (All-append IsByte bs after h hy)

    registers : reference (before ++ (burst ++ after)) ≡ reference (before ++ (burst' ++ after))
    registers =
        sym (crc32-eq-reference _ (whole burst hb)) ∙ e ∙ crc32-eq-reference _ (whole burst' hb')

-- The checksum of some bytes changes with any one of them.
pub crc32-set :
    (bytes : List ℕ) (i v : ℕ)
    → IsBytes bytes
    → IsByte v
    → i < length bytes
    → v ≢ get_or bytes i 0
    → crc32 (set bytes i v) ≢ crc32 bytes
crc32-set bytes i v h hv below differs e =
    let (before, after, p, q) = set_split bytes i v 0 below in
    let parts = All-append_parts IsByte before _ (subst IsBytes p h) in
    crc32_detects_burst before (v ∷ []) (get_or bytes i 0 ∷ []) after parts.0 (hv, tt)
      (parts.1.0, tt) parts.1.1 refl (omega arith) (λ d. differs (cc d))
      (ap crc32 (sym q) ∙ e ∙ ap crc32 p)
