-- ===== src/Errors.antt =====
-- include/hpblr/errors.hpp: the exceptions of the library as values, and code that may throw while
-- it changes an object. `Io S A` takes the state of the object and returns either a value or the
-- exception, with the state that the call leaves behind: an exception undoes nothing.
-- The text of a message is a constructor of `Message` that carries the number printed in it.
-- `QueueClosedError` is declared in the header and thrown nowhere.
use cpp_high_performance_bin.Base.{ℕ, Bool, true, false, ◌≡◌, refl, List}

pub data Message : Type 0 where
  open_output open_input failed_write failed_flush failed_close append_closed : Message
  payload_too_large : ℕ → Message
  payload_not_representable internal_file_header_size internal_record_header_size : Message
  short_file_header invalid_file_magic unsupported_endian_marker file_header_crc : Message
  unsupported_file_version unsupported_header_size : ℕ → Message
  truncated_record_header : Message
  invalid_record_magic unsupported_record_header_size unsupported_record_version : ℕ → Message
  record_payload_too_large record_header_crc truncated_payload payload_crc : ℕ → Message
  invalid_severity : ℕ → Message
  missing_value invalid_value unknown_option unknown_command : List ℕ → Message
  input_required format_required : Message
  failed_output failed_log_file failed_report : List ℕ → Message

-- The subclasses of `HpblrError`, the `std::runtime_error` of the tools, the `std::out_of_range` of
-- `at` and the `std::bad_optional_access` of `value`.
pub data Error : Type 0 where
  io_error file_format_error crc_error queue_closed_error runtime_error : Message → Error
  out_of_range bad_optional_access : Error

pub data Result {ℓ} (A : Type ℓ) : Type ℓ where
  ok : A → Result A
  err : Error → Result A

abbrev pub Io : Type 0 → Type 0 → Type 0
Io S A = S → Result A × S

abbrev pub after : {S A B : Type 0} → Result A × S → (A → Io S B) → Result B × S
after (ok a, s) f = f a s
after (err e, s) f = (err e, s)

infixl 5 ◌>>=◌ ◌>>◌
abbrev pub ◌>>=◌ : {S A B : Type 0} → Io S A → (A → Io S B) → Io S B
◌>>=◌ m f s = after (m s) f

abbrev pub ◌>>◌ : {S B : Type 0} → Io S (Unit {0}) → Io S B → Io S B
◌>>◌ m k s = after (m s) (λ _. k)

abbrev pub pure : {S A : Type 0} → A → Io S A
pure a s = (ok a, s)

abbrev pub raise : {S A : Type 0} → Error → Io S A
raise e s = (err e, s)

abbrev pub lift : {S A : Type 0} → Result A → Io S A
lift r s = (r, s)

abbrev pub get : {S : Type 0} → Io S S
get s = (ok s, s)

abbrev pub modify : {S : Type 0} → (S → S) → Io S (Unit {0})
modify f s = (ok tt, f s)

-- `if (!b) throw e;`
abbrev pub ensure : Bool → Error → Result (Unit {0})
ensure true e = ok tt
ensure false e = err e

abbrev pub require : {S : Type 0} → Bool → Error → Io S (Unit {0})
require b e = lift (ensure b e)

-- A property of the state that both parts of a sequence keep.
pub after_keeps {ℓ} :
    {S A B : Type 0} (P : S → Type ℓ) (r : Result A × S) (f : A → Io S B)
    → P r.1
    → ((a : A) (s : S) → r ≡ (ok a, s) → P s → P (f a s).1)
    → P (after r f).1
after_keeps P (ok a, s) f h keep = keep a s refl h
after_keeps P (err e, s) f h keep = h

-- A sequence that succeeds has parts that succeed.
pub after_eq_ok :
    {S A B : Type 0} (r : Result A × S) (f : A → Io S B) {b : B} {s' : S}
    → after r f ≡ (ok b, s')
    → (a : A) × (s : S) × (r ≡ (ok a, s)) × (f a s ≡ (ok b, s'))
after_eq_ok (ok a, s) f e = (a, s, refl, e)
after_eq_ok (err x, s) f e = cc
