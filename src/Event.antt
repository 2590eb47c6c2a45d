-- ===== src/Event.antt =====
-- include/hpblr/event.hpp and src/core/event.cpp: the event that is recorded.
-- Fields of fixed width are natural numbers; `IsEvent` states the range of their types.
pub mod Text
use cpp_high_performance_bin.Base.{
  ℕ, ◌≡◌, refl, ◌^◌, ◌<◌, ◌==◌, if◌then◌else◌, List, Option, none, some,
}
use cpp_high_performance_bin.Crc32.{IsBytes}

pub data Severity : Type 0 where
  trace debug info warning error critical : Severity

pub record Event : Type 0 where
  pub timestamp_ns : ℕ
  pub sequence : ℕ
  pub producer_id : ℕ
  pub type : ℕ
  pub severity : Severity
  pub payload : List ℕ

-- The value of the enumerator: `static_cast<std::uint16_t>(severity)`.
abbrev pub severity_to_u16 : Severity → ℕ
severity_to_u16 Severity.trace = 0
severity_to_u16 Severity.debug = 1
severity_to_u16 Severity.info = 2
severity_to_u16 Severity.warning = 3
severity_to_u16 Severity.error = 4
severity_to_u16 Severity.critical = 5

unfoldable pub severity_from_u16 : ℕ → Option Severity
severity_from_u16 value =
    if value == 0
    then some trace
    else if value == 1
    then some debug
    else if value == 2
    then some info
    else if value == 3
    then some warning
    else if value == 4
    then some error
    else if value == 5
    then some critical
    else none

-- What the types of the fields guarantee.
pub record IsEvent (e : Event) : Type 0 where
  pub timestamp_u64 : e.timestamp_ns < 2 ^ 64
  pub sequence_u64 : e.sequence < 2 ^ 64
  pub producer_u32 : e.producer_id < 2 ^ 32
  pub type_u16 : e.type < 2 ^ 16
  pub payload_bytes : IsBytes e.payload

pub severity_from_u16-severity_to_u16 :
    (s : Severity) → severity_from_u16 (severity_to_u16 s) ≡ some s
unfolding severity_from_u16
severity_from_u16-severity_to_u16 Severity.trace = refl
severity_from_u16-severity_to_u16 s = refl
