-- ===== src/BinaryLog/Reader/Inversion.antt =====
-- What is known when a part of `BinaryLogReader::next` (src/core/binary_log.cpp) succeeds.
use cpp_high_performance_bin.Base.{
  ℕ, ◌-◌, ◌<◌, ◌≡◌, refl, sym, ap, ap₂, ◌∙◌, Bool, true, false, leb, ltb, ◌==◌, Bool-cases, inl,
  inr, arith, List, [], ◌++◌, length, take, drop, replicate, take-append-drop, length-take, Option,
  none, some,
}
use cpp_high_performance_bin.Crc32.{crc32}
use cpp_high_performance_bin.Errors.{◌>>◌, pure, Error, Result, ok, require, after_eq_ok}
use cpp_high_performance_bin.Event.{Event, Severity}
use cpp_high_performance_bin.BinaryLog.{
  k_max_payload_bytes, k_record_magic, k_record_header_size, k_file_format_version,
}
use cpp_high_performance_bin.BinaryLog.Stream.{read}
use cpp_high_performance_bin.BinaryLog.Reader.{
  Reader, RecordHeader, read_into, zero_crc_field, check_record_header, read_payload,
  note_timestamp, finish_event,
}
use cpp_high_performance_bin.BinaryLog.Reader.Next.{read_into_whole, read_into_short}

pub require_ok :
    {S : Type 0} (b : Bool) (e : Error) (s s' : S) {u : Unit {0}}
    → require b e s ≡ (ok u, s')
    → (b ≡ true) × (s' ≡ s)
require_ok true e s s' h = (refl, cc h)
require_ok false e s s' h = (cc h, cc h)

pub five_checks :
    {S : Type 0} (a b c d f : Bool) (v w x y z : Error) (s s' : S) {u : Unit {0}}
    → (require a v >> (require b w >> (require c x >> (require d y >> require f z)))) s ≡ (ok u, s')
    → (d ≡ true) × (f ≡ true) × (s' ≡ s)
five_checks true true true true true v w x y z s s' h = (refl, refl, cc h)
five_checks true true true true false v w x y z s s' h = (refl, cc h, cc h)
five_checks true true true false f v w x y z s s' h = (cc h, cc h, cc h)
five_checks true true false d f v w x y z s s' h = (cc h, cc h, cc h)
five_checks true false c d f v w x y z s s' h = (cc h, cc h, cc h)
five_checks false b c d f v w x y z s s' h = (cc h, cc h, cc h)

-- The checks of a header pass without an effect.
pub check_record_header_ok :
    (header : List ℕ) (h : RecordHeader) (r r' : Reader) {u : Unit {0}}
    → check_record_header header h r ≡ (ok u, r')
    → (leb h.payload_size k_max_payload_bytes ≡ true)
      × ((h.stored_header_crc == crc32 (zero_crc_field header)) ≡ true)
      × (r' ≡ r)
unfolding check_record_header
check_record_header_ok header h r r' e =
    five_checks (h.magic == k_record_magic) (h.header_size == k_record_header_size)
      (h.version == k_file_format_version) (leb h.payload_size k_max_payload_bytes)
      (h.stored_header_crc == crc32 (zero_crc_field header)) _ _ _ _ _ r r' e

-- A stream that has failed before.
pub read_into_failed :
    (n : ℕ) (r : Reader) → r.input.fail ≡ true → read_into n r ≡ (ok (replicate (n - 0) 0, 0), r)
unfolding read_into read
read_into_failed n r bad = simp bad

pub parts :
    {n m : ℕ} {xs ys : List ℕ} {r r' : Reader}
    → ◌≡◌ {A = Result (List ℕ × ℕ) × Reader} (ok (xs, n), r) (ok (ys, m), r')
    → (xs ≡ ys) × (n ≡ m) × (r ≡ r')
parts h = (cc h, cc h, cc h)

-- A whole buffer is what stood before the reader.
pub read_into_ok :
    (n : ℕ) (r r' : Reader) (got : List ℕ)
    → 0 < n
    → read_into n r ≡ (ok (got, n), r')
    → (length got ≡ n) × (r.input.rest ≡ got ++ r'.input.rest) × (r'.info ≡ r.info)
read_into_ok n r r' got some_ e = elim (Bool-cases r.input.fail) [
  | inl bad ↦
      let none_read : 0 ≡ n = (parts (sym (read_into_failed n r bad) ∙ e)).1 in absurd (omega arith)
  | inr good ↦ elim (Bool-cases (leb n (length r.input.rest))) [
    | inl enough ↦
        let taken : length (take n r.input.rest) ≡ n = ground (arith, length-take n r.input.rest) in
        let whole =
          read_into_whole n (take n r.input.rest) (drop n r.input.rest) r good
            (sym (take-append-drop n r.input.rest)) taken in
        let same = parts (sym whole ∙ e) in
        (
          ap length (sym same.0) ∙ taken,
          sym (take-append-drop n r.input.rest)
              ∙ ap₂ ◌++◌ same.0 (ap (λ (t : Reader). t.input.rest) same.2),
          ap (λ (t : Reader). t.info) (sym same.2),
        )
    | inr short ↦
        let fewer : length r.input.rest < n = ground arith in
        let same = parts (sym (read_into_short n r good fewer) ∙ e) in
        absurd (omega (arith, same.1))
  ]
]

pub pure_ok :
    {A : Type 0} (b : Bool) (x : Error) (a : A) (r : Reader) (a' : A) (r' : Reader)
    → (require b x >> pure a) r ≡ (ok a', r')
    → (b ≡ true) × (a ≡ a') × (r ≡ r')
pure_ok true x a r a' r' h = (refl, cc h, cc h)
pure_ok false x a r a' r' h = (cc h, cc h, cc h)

-- A payload that is read stood before the reader.
pub read_payload_ok :
    (h : RecordHeader) (r r' : Reader) (payload : List ℕ)
    → read_payload h r ≡ (ok payload, r')
    → (length payload ≡ h.payload_size) × (r.input.rest ≡ payload ++ r'.input.rest)
unfolding read_payload
read_payload_ok h r r' payload e = elim (Bool-cases (ltb 0 h.payload_size)) [
  | inr empty ↦
      let e' = simp empty at e in
      let nothing : [] ≡ payload = cc e' in
      let same : r ≡ r' = cc e' in
      (ground (arith, ap length nothing), ap₂ ◌++◌ nothing (ap (λ (t : Reader). t.input.rest) same))
  | inl some_ ↦
      let e' = simp some_ at e in
      let ((got, count), r1, read_, rest) = after_eq_ok (read_into h.payload_size r) _ e' in
      let (full, got_all, stay) = pure_ok _ _ got r1 payload r' rest in
      let exact : count ≡ h.payload_size = ground (arith, full) in
      let read_' : read_into h.payload_size r ≡ (ok (got, h.payload_size), r1) =
        read_ ∙ ap (λ (k : ℕ). (ok (got, k), r1)) exact in
      let (len, split, _) = read_into_ok h.payload_size r r1 got (ground arith) read_' in
      (
        ap length (sym got_all) ∙ len,
        split ∙ ap₂ ◌++◌ got_all (ap (λ (t : Reader). t.input.rest) stay),
      )
]

-- An event that is delivered has the fields of the header and the payload.
abbrev pub event_of : RecordHeader → List ℕ → Severity → Event
event_of h payload severity = record {
  timestamp_ns = h.timestamp_ns;
  sequence = h.sequence;
  producer_id = h.producer_id;
  type = h.event_type;
  severity = severity;
  payload = payload;
}

pub finish_event_ok :
    (h : RecordHeader) (payload : List ℕ) (found : Option Severity) (r r' : Reader) (e : Event)
    → finish_event h payload found r ≡ (ok (some e), r')
    → (severity : Severity) × (e ≡ event_of h payload severity) × (r'.input ≡ r.input)
unfolding finish_event note_timestamp
finish_event_ok h payload none r r' e eq = (Severity.info, cc eq, cc eq)
finish_event_ok h payload (some severity) r r' e eq =
    let found : event_of h payload severity ≡ e = cc eq in
    let at_end : note_timestamp h.timestamp_ns r ≡ r' = cc eq in
    (severity, sym found, sym (ap (λ (t : Reader). t.input) at_end))
