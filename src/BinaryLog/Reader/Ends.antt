-- ===== src/BinaryLog/Reader/Ends.antt =====
-- The loop over `BinaryLogReader::next` (src/core/binary_log.cpp) ends on every file.
use cpp_high_performance_bin.Base.{
  ℕ, zero, suc, ◌<◌, ◌≡◌, ◌≢◌, refl, sym, ap, subst, ◌∙◌, arith, List, ◌++◌, length, length-append,
  All-append_parts, All-drop, leb, ◌==◌, not, drop, take, Bool, true, false, Bool-cases, inl, inr,
  Option, none, some,
}
use cpp_high_performance_bin.Crc32.{IsByte, IsBytes, crc32}
use cpp_high_performance_bin.Errors.{Result, ok, err, after, after_keeps, Error, require}
use cpp_high_performance_bin.Event.{Event}
use cpp_high_performance_bin.BinaryLog.{
  k_endian_marker, k_file_format_version, k_file_header_crc_offset, k_file_header_size,
  k_file_magic,
}
use cpp_high_performance_bin.BinaryLog.Words.{read_u16, read_u32}
use cpp_high_performance_bin.BinaryLog.Stream.{Ifstream, read}
use cpp_high_performance_bin.BinaryLog.Reader.{
  Reader, next, read_into, construct, read_file_header, check_file_header, equal_prefix,
}
use cpp_high_performance_bin.BinaryLog.Reader.Sound.{next-IsStorable}
use cpp_high_performance_bin.BinaryLog.Reader.Replay.{
  unfinished, thrown, replay, replay_error, replay_end, replay_event,
}

thrown_ends : {x : _} → thrown x ≢ unfinished
thrown_ends e = cc e

-- After an event the stream is shorter, and its bytes are bytes.
pub next-shorter :
    (r r' : Reader) (e : Event)
    → IsBytes r.input.rest
    → next r ≡ (ok (some e), r')
    → (length r'.input.rest < length r.input.rest) × IsBytes r'.input.rest
next-shorter r r' e bytes h =
    let (_, found) = next-IsStorable r r' e bytes h in
    let (_, later) =
      All-append_parts IsByte found.header (e.payload ++ r'.input.rest)
        (subst IsBytes found.place bytes) in
    let (_, rest) = All-append_parts IsByte e.payload r'.input.rest later in
    (
      omega (
        arith,
        ap length found.place,
        found.size,
        length-append found.header (e.payload ++ r'.input.rest),
        length-append e.payload r'.input.rest,
      ),
      rest,
    )

ends_step :
    (fuel : ℕ) (r r' : Reader) (got : Result (Option Event))
    → IsBytes r.input.rest
    → length r.input.rest < suc fuel
    → next r ≡ (got, r')
    → (IsBytes r'.input.rest → length r'.input.rest < fuel → (replay fuel r').1 ≢ unfinished)
    → (replay (suc fuel) r).1 ≢ unfinished
ends_step fuel r r' (err x) bytes enough h later e =
    cc (ap (λ p. p.1) (replay_error fuel r r' x h), e)
ends_step fuel r r' (ok none) bytes enough h later e =
    cc (ap (λ p. p.1) (replay_end fuel r r' h), e)
ends_step fuel r r' (ok (some event)) bytes enough h later e =
    let (shorter, bytes') = next-shorter r r' event bytes h in
    later bytes' (omega arith) (sym (ap (λ p. p.1) (replay_event fuel r r' event h)) ∙ e)

-- Whatever bytes the stream holds, fuel for more than their number is enough: the loop ends, with
-- the end of the file or with an exception.
pub replay-ends :
    (fuel : ℕ) (r : Reader)
    → IsBytes r.input.rest
    → length r.input.rest < fuel
    → (replay fuel r).1 ≢ unfinished
replay-ends zero r bytes enough = absurd (omega arith)
replay-ends (suc fuel) r bytes enough =
    ends_step fuel r (next r).1 (next r).0 bytes enough refl (replay-ends fuel (next r).1)

read_into-IsBytes :
    (n : ℕ) (r : Reader) → IsBytes r.input.rest → IsBytes (read_into n r).1.input.rest
unfolding read_into read
read_into-IsBytes n r bytes = elim (Bool-cases r.input.fail) [
  | inl bad ↦ rw bad bytes
  | inr good ↦ elim (Bool-cases (leb n (length r.input.rest))) [
    | inl enough ↦ rw (good, enough) (All-drop IsByte n r.input.rest bytes)
    | inr short ↦ rw (good, short) tt
  ]
]

require_keeps :
    {B : Type 0} (b : Bool) (x : Error) (f : Unit {0} → Reader → Result B × Reader) (r : Reader)
    → IsBytes r.input.rest
    → IsBytes (f tt r).1.input.rest
    → IsBytes (after (require b x r) f).1.input.rest
require_keeps true x f r bytes rest = rest
require_keeps false x f r bytes rest = bytes

check_file_header-IsBytes :
    (header : List ℕ) (r : Reader)
    → IsBytes r.input.rest
    → IsBytes (check_file_header header r).1.input.rest
unfolding check_file_header
check_file_header-IsBytes header r bytes =
    require_keeps (equal_prefix k_file_magic header) _ _ r bytes (
      require_keeps (read_u16 (drop 8 header) == k_file_format_version) _ _ r bytes (
        require_keeps (read_u16 (drop 10 header) == k_file_header_size) _ _ r bytes (
          require_keeps (read_u16 (drop 12 header) == k_endian_marker) _ _ r bytes (
            require_keeps
              (read_u32 (drop k_file_header_crc_offset header)
                == crc32 (take k_file_header_crc_offset header))
              _ _ r bytes bytes))))

-- What the constructor leaves to be read are bytes of the file.
pub construct-IsBytes :
    (input : Ifstream) → IsBytes input.rest → IsBytes (construct input).1.input.rest
unfolding construct read_file_header
construct-IsBytes input bytes = require_keeps (not input.fail) _ _ _ bytes (
    after_keeps (λ (r : Reader). IsBytes r.input.rest) (read_into k_file_header_size _) _
      (read_into-IsBytes k_file_header_size _ bytes)
      (λ got r e kept.
        require_keeps (got.1 == k_file_header_size) _ _ r kept
          (check_file_header-IsBytes got.0 r kept)))
