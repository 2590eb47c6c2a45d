-- ===== src/Time.antt =====
-- src/core/time_utils.cpp: `format_unix_ns_utc`, with `gmtime_r` as the Gregorian calendar defines
-- it. The clock of `now_unix_ns` is an argument where the program reads it.
pub mod Calendar
pub mod Reading
mod Examples
use cpp_high_performance_bin.Base.{
  ℕ, zero, suc, ◌+◌, ◌-◌, ◌/◌, ◌%◌, Bool, not, ◌&&◌, ◌||◌, ltb, ◌==◌, if◌then◌else◌, List, [], ◌∷◌,
  ◌++◌, length, replicate, Text, codes,
}
use cpp_high_performance_bin.Decimal.{decimal}

-- The fields of `std::tm` that are printed, as the calendar counts them.
pub record Tm : Type 0 where
  pub year : ℕ
  pub month : ℕ
  pub day : ℕ
  pub hour : ℕ
  pub minute : ℕ
  pub second : ℕ

abbrev pub is_leap : ℕ → Bool
is_leap y = (y % 4 == 0 && not (y % 100 == 0)) || y % 400 == 0

abbrev pub days_in_year : ℕ → ℕ
days_in_year y = if is_leap y then 366 else 365

abbrev pub month_lengths : ℕ → List ℕ
month_lengths y =
    31 ∷ (if is_leap y then 29 else 28) ∷ 31 ∷ 30 ∷ 31 ∷ 30 ∷ 31 ∷ 31 ∷ 30 ∷ 31 ∷ 30 ∷ 31 ∷ []

-- The year that day number `days` falls in, counted from the first day of `year`, and the day
-- within it.
unfoldable pub find_year : ℕ → ℕ → ℕ → ℕ × ℕ
find_year zero year days = (year, days)
find_year (suc fuel) year days =
    let later = find_year fuel (year + 1) (days - days_in_year year) in
    if ltb days (days_in_year year) then (year, days) else later

unfoldable pub find_month : List ℕ → ℕ → ℕ → ℕ × ℕ
find_month [] month days = (month, days)
find_month (n ∷ ns) month days =
    let later = find_month ns (month + 1) (days - n) in if ltb days n then (month, days) else later

-- `gmtime_r`. A time of 64 bits in nanoseconds lies within 600 years.
unfoldable pub gmtime : ℕ → Tm
gmtime seconds =
    let (year, rest) = find_year 600 1970 (seconds / 86400) in
    let (month, days) = find_month (month_lengths year) 1 rest in
    record {
      year = year;
      month = month;
      day = days + 1;
      hour = seconds % 86400 / 3600;
      minute = seconds % 3600 / 60;
      second = seconds % 60;
    }

-- A number with zeros in front up to a width.
unfoldable pub padded : ℕ → ℕ → Text
padded width n = replicate (width - length (decimal n)) 48 ++ decimal n

unfoldable pub format_unix_ns_utc : ℕ → Text
format_unix_ns_utc timestamp_ns =
    let tm = gmtime (timestamp_ns / 1000000000) in
    let nanos = timestamp_ns % 1000000000 in
    decimal tm.year
    ++ (codes "-" ++ padded 2 tm.month)
    ++ (codes "-" ++ padded 2 tm.day)
    ++ (codes "T" ++ padded 2 tm.hour)
    ++ (codes ":" ++ padded 2 tm.minute)
    ++ (codes ":" ++ padded 2 tm.second)
    ++ (codes "." ++ padded 9 nanos)
    ++ codes "Z"
