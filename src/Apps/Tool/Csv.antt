-- ===== src/Apps/Tool/Csv.antt =====
-- A reader of the rows that `write_csv` (apps/hpblr_tool.cpp) prints.
use cpp_high_performance_bin.Base.{
  ℕ, zero, suc, ◌-◌, ◌≤◌, ◌≡◌, refl, ap, true, false, ◌==◌, if◌then◌else◌, Bool, arith, List, [],
  ◌∷◌, ◌++◌, replicate, length, All, All-append, Option, none, some, Text,
}
use cpp_high_performance_bin.Event.{Event, Severity}
use cpp_high_performance_bin.Event.Text.{severity_to_string, severity_from_string}
use cpp_high_performance_bin.Event.Text.Hex.{bytes_to_hex, hex_loop, dots, read_hex}
use cpp_high_performance_bin.Decimal.{decimal, decimal-IsDigit, IsDigit}
use cpp_high_performance_bin.Time.{padded, format_unix_ns_utc}
use cpp_high_performance_bin.Apps.Arguments.{parse_u64, parse_u32, parse_u16}

-- A character in front of the first piece.
abbrev push : ℕ → List Text → List Text
push c [] = (c ∷ []) ∷ []
push c (piece ∷ pieces) = (c ∷ piece) ∷ pieces

-- The pieces of a text between separators.
unfoldable pub split : ℕ → Text → List Text
split separator [] = [] ∷ []
split separator (c ∷ cs) =
    let further = split separator cs in if c == separator then [] ∷ further else push c further

unfoldable pub event_of :
    Option ℕ → Option ℕ → Option ℕ → Option ℕ → Option Severity → List ℕ → Option Event
event_of (some sequence) (some timestamp_ns) (some producer_id) (some type) (some severity)
      payload =
    some (record {
      timestamp_ns = timestamp_ns;
      sequence = sequence;
      producer_id = producer_id;
      type = type;
      severity = severity;
      payload = payload;
    })
event_of sequence timestamp_ns producer_id type severity payload = none

unfoldable pub read_columns : List Text → Option Event
read_columns (sequence ∷ timestamp ∷ utc ∷ producer ∷ type ∷ severity ∷ size ∷ hex ∷ []) =
    event_of (parse_u64 sequence) (parse_u64 timestamp) (parse_u32 producer) (parse_u16 type)
      (severity_from_string severity) (read_hex hex)
read_columns columns = none

unfoldable pub read_row : Text → Option Event
read_row row = read_columns (split 44 row)

abbrev pub IsNot : ℕ → ℕ → Type 0
IsNot separator c = (c == separator) ≡ false

-- Neither a comma nor the end of a line.
abbrev pub IsPlain : ℕ → Type 0
IsPlain c = 45 ≤ c

pub All-imply : {P Q : ℕ → Type 0} (f : (c : ℕ) → P c → Q c) (cs : Text) → All P cs → All Q cs
All-imply f [] h = tt
All-imply f (c ∷ cs) h = (f c (h.0), All-imply f cs h.1)

pub split-append :
    (separator : ℕ) (piece rest : Text)
    → All (IsNot separator) piece
    → split separator (piece ++ separator ∷ rest) ≡ piece ∷ split separator rest
unfolding split
split-append separator [] rest h =
    let same : (separator == separator) ≡ true = ground arith in rw same refl
split-append separator (c ∷ cs) rest h = rw (h.0) (ap (push c) (split-append separator cs rest h.1))

pub split_last :
    (separator : ℕ) (piece : Text)
    → All (IsNot separator) piece
    → split separator piece ≡ piece ∷ []
unfolding split
split_last separator [] h = refl
split_last separator (c ∷ cs) h = rw (h.0) (ap (push c) (split_last separator cs h.1))

pub plain_comma : (c : ℕ) → IsPlain c → IsNot 44 c
plain_comma c h = ground arith

pub plain_newline : (c : ℕ) → IsPlain c → IsNot 10 c
plain_newline c h = ground arith

digit-IsPlain : (c : ℕ) → IsDigit c → IsPlain c
digit-IsPlain c h = ground arith

pub decimal-IsPlain : (n : ℕ) → All IsPlain (decimal n)
decimal-IsPlain n = All-imply digit-IsPlain (decimal n) (decimal-IsDigit n)

zeros-IsPlain : (n : ℕ) → All IsPlain (replicate n 48)
zeros-IsPlain zero = tt
zeros-IsPlain (suc n) = (omega arith, zeros-IsPlain n)

padded-IsPlain : (width n : ℕ) → All IsPlain (padded width n)
unfolding padded
padded-IsPlain width n =
    All-append IsPlain (replicate (width - length (decimal n)) 48) (decimal n) (zeros-IsPlain _)
      (decimal-IsPlain n)

pub severity_to_string-IsPlain : (s : Severity) → All IsPlain (severity_to_string s)
unfolding severity_to_string
severity_to_string-IsPlain Severity.trace = ground arith
severity_to_string-IsPlain Severity.debug = ground arith
severity_to_string-IsPlain Severity.info = ground arith
severity_to_string-IsPlain Severity.warning = ground arith
severity_to_string-IsPlain Severity.error = ground arith
severity_to_string-IsPlain Severity.critical = ground arith

hex_loop-IsPlain : (n : ℕ) (bytes : List ℕ) → All IsPlain (hex_loop n bytes)
unfolding hex_loop
hex_loop-IsPlain zero bytes = tt
hex_loop-IsPlain (suc n) [] = tt
hex_loop-IsPlain (suc n) (byte ∷ rest) = (ground arith, (ground arith, hex_loop-IsPlain n rest))

pub bytes_to_hex-IsPlain : (bytes : List ℕ) (n : ℕ) → All IsPlain (bytes_to_hex bytes n)
unfolding bytes_to_hex
bytes_to_hex-IsPlain bytes n = All-append IsPlain _ _ (hex_loop-IsPlain _ bytes) (dotted _)
  where
    dotted : (b : Bool) → All IsPlain (if b then dots else [])
    dotted true = (omega arith, (omega arith, (omega arith, tt)))
    dotted false = tt

pub format_unix_ns_utc-IsPlain : (t : ℕ) → All IsPlain (format_unix_ns_utc t)
unfolding format_unix_ns_utc
format_unix_ns_utc-IsPlain t =
    All-append IsPlain _ _
      (All-append IsPlain _ _
        (All-append IsPlain _ _
          (All-append IsPlain _ _
            (All-append IsPlain _ _
              (All-append IsPlain _ _
                (All-append IsPlain _ _ (decimal-IsPlain _) (omega arith, padded-IsPlain 2 _))
                (omega arith, padded-IsPlain 2 _))
              (omega arith, padded-IsPlain 2 _))
            (omega arith, padded-IsPlain 2 _))
          (omega arith, padded-IsPlain 2 _))
        (omega arith, padded-IsPlain 9 _))
      (omega arith, tt)
