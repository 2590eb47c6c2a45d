-- ===== src/BinaryLog/Tamper/Checksum.antt =====
-- The checksum of a record header (src/core/binary_log.cpp) when a byte of the header is changed.
use cpp_high_performance_bin.Base.{
  ℕ, zero, suc, ◌+◌, ◌/◌, ◌%◌, ◌^◌, ◌<◌, ◌≡◌, ◌≢◌, refl, sym, ap, subst, ◌∙◌, ◌⊎◌, inl, inr, arith,
  List, get_or, set, drop, set-set_comm, get_or-set_ne, get_or-drop,
}
use cpp_high_performance_bin.Crc32.{IsByte, IsU32, crc32}
use cpp_high_performance_bin.Crc32.Reference.{crc32-IsU32}
use cpp_high_performance_bin.Crc32.Detection.{crc32-set}
use cpp_high_performance_bin.Event.{Event}
use cpp_high_performance_bin.BinaryLog.Words.Laws.{read_u32-sum, read_u32-u32_bytes, read_u32_ext}
use cpp_high_performance_bin.BinaryLog.Words.{read_u32}
use cpp_high_performance_bin.BinaryLog.Format.{record_header_with}
use cpp_high_performance_bin.BinaryLog.Reader.{zero_crc_field}
use cpp_high_performance_bin.BinaryLog.Reader.Decode.{
  record_header_with-IsBytes, zero_crc_field-record_header_with,
}

-- Where the byte at `i` of a list stands in relation to the checksum field.
IsOutside : ℕ → Type 0
IsOutside i = (i ≢ 36) × (i ≢ 37) × (i ≢ 38) × (i ≢ 39)

IsOutside-cases : (i : ℕ) → IsOutside i ⊎ (i ≡ 36) ⊎ (i ≡ 37) ⊎ (i ≡ 38) ⊎ (i ≡ 39)
unfolding IsOutside
IsOutside-cases i = ground arith

field_offset :
    (i : ℕ) → (i ≡ 36) ⊎ (i ≡ 37) ⊎ (i ≡ 38) ⊎ (i ≡ 39) → (k : ℕ) × (k < 4) × (i ≡ 36 + k)
field_offset i (inl e) = (0, omega arith, e)
field_offset i (inr (inl e)) = (1, omega arith, e)
field_offset i (inr (inr (inl e))) = (2, omega arith, e)
field_offset i (inr (inr (inr e))) = (3, omega arith, e)

zero_crc_field-set :
    (header : List ℕ) (i v : ℕ)
    → IsOutside i
    → zero_crc_field (set header i v) ≡ set (zero_crc_field header) i v
unfolding zero_crc_field IsOutside
zero_crc_field-set header i v o =
    ap (λ xs. set (set (set xs 37 0) 38 0) 39 0) (set-set_comm header i 36 v 0 o.0)
    ∙ ap (λ xs. set (set xs 38 0) 39 0) (set-set_comm _ i 37 v 0 o.1)
    ∙ ap (λ xs. set xs 39 0) (set-set_comm _ i 38 v 0 o.2)
    ∙ set-set_comm _ i 39 v 0 o.3

stored-set :
    (header : List ℕ) (i v : ℕ)
    → IsOutside i
    → read_u32 (drop 36 (set header i v)) ≡ read_u32 (drop 36 header)
unfolding IsOutside
stored-set header i v o = read_u32_ext _ _ λ k below.
    get_or-drop 36 (set header i v) k (36 + k) 0 refl
    ∙ get_or-set_ne header i (36 + k) v 0 (ground arith)
    ∙ sym (get_or-drop 36 header k (36 + k) 0 refl)

-- A changed byte of the checksum field changes the number that is read.
stored-set_field :
    (e : Event) (c k v : ℕ)
    → IsU32 c
    → IsByte v
    → k < 4
    → v ≢ get_or (record_header_with e c) (36 + k) 0
    → read_u32 (drop 36 (set (record_header_with e c) (36 + k) v)) ≢ c
stored-set_field e c zero v hc hv below differs h = differs (
    omega (
      arith,
      h,
      read_u32-sum v (c / 2 ^ 8 % 256) (c / 2 ^ 16 % 256) (c / 2 ^ 24 % 256)
          (drop 40 (record_header_with e c)) hv (omega arith) (omega arith) (omega arith),
    ))
stored-set_field e c (suc zero) v hc hv below differs h = differs (
    omega (
      arith,
      h,
      read_u32-sum (c % 256) v (c / 2 ^ 16 % 256) (c / 2 ^ 24 % 256)
          (drop 40 (record_header_with e c)) (omega arith) hv (omega arith) (omega arith),
    ))
stored-set_field e c (suc (suc zero)) v hc hv below differs h = differs (
    omega (
      arith,
      h,
      read_u32-sum (c % 256) (c / 2 ^ 8 % 256) v (c / 2 ^ 24 % 256)
          (drop 40 (record_header_with e c)) (omega arith) (omega arith) hv (omega arith),
    ))
stored-set_field e c (suc (suc (suc zero))) v hc hv below differs h = differs (
    omega (
      arith,
      h,
      read_u32-sum (c % 256) (c / 2 ^ 8 % 256) (c / 2 ^ 16 % 256) v
          (drop 40 (record_header_with e c)) (omega arith) (omega arith) (omega arith) hv,
    ))
stored-set_field e c (suc (suc (suc (suc k)))) v hc hv below differs h = absurd (omega arith)

unfoldable pub checksum : Event → ℕ
checksum e = crc32 (record_header_with e 0)

checksum_lem : (e : Event) → checksum e ≡ crc32 (record_header_with e 0)
unfolding checksum
checksum_lem e = refl

checksum-IsU32 : (e : Event) → IsU32 (checksum e)
unfolding checksum
checksum-IsU32 e = crc32-IsU32 _ (record_header_with-IsBytes e 0)

get_or-zero_crc_field :
    (header : List ℕ) (i : ℕ) → IsOutside i → get_or (zero_crc_field header) i 0 ≡ get_or header i 0
unfolding zero_crc_field IsOutside
get_or-zero_crc_field header i o =
    get_or-set_ne _ 39 i 0 0 (λ e. o.3 (sym e))
    ∙ get_or-set_ne _ 38 i 0 0 (λ e. o.2 (sym e))
    ∙ get_or-set_ne _ 37 i 0 0 (λ e. o.1 (sym e))
    ∙ get_or-set_ne header 36 i 0 0 (λ e. o.0 (sym e))

-- A changed byte beside the checksum changes the checksum that is computed.
computed-set :
    (e : Event) (c i v : ℕ)
    → IsOutside i
    → i < 48
    → IsByte v
    → v ≢ get_or (record_header_with e c) i 0
    → crc32 (zero_crc_field (set (record_header_with e c) i v)) ≢ checksum e
unfolding checksum
computed-set e c i v o below hv differs h =
    crc32-set (record_header_with e 0) i v (record_header_with-IsBytes e 0) hv below
      (λ d. differs (d ∙ ap (λ xs. get_or xs i 0) (sym zeroed) ∙ get_or-zero_crc_field _ i o))
      (ap (λ xs. crc32 (set xs i v)) (sym zeroed) ∙ ap crc32 (sym (zero_crc_field-set _ i v o)) ∙ h)
  where
    zeroed : zero_crc_field (record_header_with e c) ≡ record_header_with e 0
    zeroed = zero_crc_field-record_header_with e c

-- The four bytes of the checksum are set to zero before it is computed.
zero_crc_field-set_field :
    (e : Event) (c k v : ℕ)
    → k < 4
    → zero_crc_field (set (record_header_with e c) (36 + k) v) ≡ record_header_with e 0
unfolding zero_crc_field
zero_crc_field-set_field e c zero v below = refl
zero_crc_field-set_field e c (suc zero) v below = refl
zero_crc_field-set_field e c (suc (suc zero)) v below = refl
zero_crc_field-set_field e c (suc (suc (suc zero))) v below = refl
zero_crc_field-set_field e c (suc (suc (suc (suc k)))) v below = absurd (omega arith)

changed_field :
    (e : Event) (k v : ℕ)
    → k < 4
    → IsByte v
    → v ≢ get_or (record_header_with e (checksum e)) (36 + k) 0
    → read_u32 (drop 36 (set (record_header_with e (checksum e)) (36 + k) v))
      ≢ crc32 (zero_crc_field (set (record_header_with e (checksum e)) (36 + k) v))
changed_field e k v below hv differs h =
    stored-set_field e (checksum e) k v (checksum-IsU32 e) hv below differs
      (h ∙ ap crc32 (zero_crc_field-set_field e (checksum e) k v below) ∙ sym (checksum_lem e))

-- In a header with a changed byte the stored checksum is not the computed one.
pub changed_header :
    (e : Event) (i v : ℕ)
    → i < 48
    → IsByte v
    → v ≢ get_or (record_header_with e (checksum e)) i 0
    → read_u32 (drop 36 (set (record_header_with e (checksum e)) i v))
      ≢ crc32 (zero_crc_field (set (record_header_with e (checksum e)) i v))
changed_header e i v below hv differs = elim (IsOutside-cases i) [
  | inl o ↦ λ h. computed-set e c i v o below hv differs (
      sym h
      ∙ stored-set (record_header_with e c) i v o
      ∙ read_u32-u32_bytes c (drop 40 (record_header_with e c)) (checksum-IsU32 e))
  | inr field ↦
      let (k, small, e_i) = field_offset i field in
      subst
        (λ j.
          v ≢ get_or (record_header_with e c) j 0
          → read_u32 (drop 36 (set (record_header_with e c) j v))
            ≢ crc32 (zero_crc_field (set (record_header_with e c) j v)))
        (sym e_i) (changed_field e k v small hv) differs
]
  where
    c : ℕ
    c = checksum e
