-- ===== src/Time/Calendar.antt =====
-- The broken-down time in `format_unix_ns_utc` (src/core/time_utils.cpp) against the formula of POSIX
-- for the seconds since the Epoch.
use cpp_high_performance_bin.Base.{
  ℕ, zero, suc, ◌+◌, ◌-◌, ◌*◌, ◌/◌, ◌<◌, ◌≤◌, ◌≡◌, refl, ap, Bool-cases, inl, inr, ltb, arith, List,
  [], ◌∷◌, length, get_or, take, All, All-get_or,
}
use cpp_high_performance_bin.Time.{Tm, days_in_year, month_lengths, find_year, find_month, gmtime}

abbrev pub sum : List ℕ → ℕ
sum [] = 0
sum (n ∷ ns) = n + sum ns

-- The days from 1970 to the first day of a year, as POSIX counts them.
unfoldable pub days_before_year : ℕ → ℕ
days_before_year y = 365 * (y - 1970) + (y - 1969) / 4 + (y - 1601) / 400 - (y - 1901) / 100

abbrev pub days_before_month : ℕ → ℕ → ℕ
days_before_month year month = sum (take (month - 1) (month_lengths year))

-- Seconds since the Epoch.
abbrev pub posix_seconds : Tm → ℕ
posix_seconds tm =
    (days_before_year tm.year + days_before_month tm.year tm.month + (tm.day - 1)) * 86400
    + tm.hour * 3600
    + tm.minute * 60
    + tm.second

leap_cases : (y : ℕ) → 1970 ≤ y → days_before_year (suc y) ≡ days_before_year y + days_in_year y
unfolding days_before_year
leap_cases y h = ground arith

year_days : (y : ℕ) → 365 ≤ days_in_year y
year_days y = ground arith

before_years : (fuel y : ℕ) → 1970 ≤ y → days_before_year y ≤ days_before_year (y + fuel)
before_years zero y h = omega (arith, ap {B = ℕ} days_before_year (plus_zero y))
  where
    plus_zero : (y : ℕ) → y + 0 ≡ y
    plus_zero y = omega arith
before_years (suc fuel) y h =
    let e : y + suc fuel ≡ suc (y + fuel) = omega arith in
    omega (
      arith,
      ap {B = ℕ} days_before_year e,
      leap_cases (y + fuel) (omega arith),
      before_years fuel y h,
    )

-- A day is in the year that is found, at the place that is found.
record InYear (y days : ℕ) (found : ℕ × ℕ) : Type 0 where
  from : y ≤ found.0
  same : days_before_year found.0 + found.1 ≡ days_before_year y + days
  within : found.1 < days_in_year found.0

find_year-InYear :
    (fuel y days : ℕ)
    → 1970 ≤ y
    → days_before_year y + days < days_before_year (y + fuel)
    → InYear y days (find_year fuel y days)
unfolding find_year
find_year-InYear zero y days h enough =
    let e : y + 0 ≡ y = omega arith in absurd (omega (arith, enough, ap {B = ℕ} days_before_year e))
find_year-InYear (suc fuel) y days h enough = elim (Bool-cases (ltb days (days_in_year y))) [
  | inl here ↦ rw here (record { from = omega arith; same = refl; within = ground arith })
  | inr later ↦ rw later (
      let next = leap_cases y h in
      let past : days_in_year y ≤ days = ground arith in
      let e : y + 1 + fuel ≡ y + suc fuel = omega arith in
      let e' : y + 1 ≡ suc y = omega arith in
      let f = ap {B = ℕ} days_before_year e in
      let f' = ap {B = ℕ} days_before_year e' in
      let found =
        find_year-InYear fuel (y + 1) (days - days_in_year y) (omega arith)
          (omega (arith, enough, next, past, f, f')) in
      record {
        from = omega (arith, found.from);
        same = omega (arith, found.same, next, past, f');
        within = found.within;
      })
]

find_year_le : (fuel y days : ℕ) → (find_year fuel y days).0 ≤ y + fuel
unfolding find_year
find_year_le zero y days = omega arith
find_year_le (suc fuel) y days = elim (Bool-cases (ltb days (days_in_year y))) [
  | inl here ↦ rw here (omega arith)
  | inr later ↦ rw later (omega (arith, find_year_le fuel (y + 1) (days - days_in_year y)))
]

-- A day is in the month that is found.
record InMonth (lengths : List ℕ) (month days : ℕ) (found : ℕ × ℕ) : Type 0 where
  from : month ≤ found.0
  last : found.0 < month + length lengths
  same : sum (take (found.0 - month) lengths) + found.1 ≡ days
  within : found.1 < get_or lengths (found.0 - month) 0

find_month-InMonth :
    (lengths : List ℕ) (month days : ℕ)
    → days < sum lengths
    → InMonth lengths month days (find_month lengths month days)
unfolding find_month
find_month-InMonth [] month days h = absurd (omega arith)
find_month-InMonth (n ∷ ns) month days h = elim (Bool-cases (ltb days n)) [
  | inl here ↦
      let e : month - month ≡ 0 = omega arith in
      rw here (record {
        from = omega arith;
        last = omega arith;
        same = rw e (omega arith);
        within = rw e (ground arith);
      })
  | inr later ↦ rw later (
      let past : n ≤ days = ground arith in
      let found = find_month-InMonth ns (month + 1) (days - n) (omega arith) in
      let e : (find_month ns (month + 1) (days - n)).0 - month
          ≡ suc ((find_month ns (month + 1) (days - n)).0 - (month + 1)) =
        omega (arith, found.from) in
      record {
        from = omega (arith, found.from);
        last = omega (arith, found.last);
        same = rw e (omega (arith, found.same, past));
        within = rw e found.within;
      })
]

month_sum : (y : ℕ) → sum (month_lengths y) ≡ days_in_year y
month_sum y = ground arith

pub month_length_le : (y i : ℕ) → get_or (month_lengths y) i 0 ≤ 31
month_length_le y i = All-get_or (λ n. n ≤ 31) (month_lengths y) i 0 (omega arith) lengths
  where
    lengths : All (λ n. n ≤ 31) (month_lengths y)
    lengths = (
      omega arith,
      (
        ground arith,
        (
          omega arith,
          (
            omega arith,
            (
              omega arith,
              (
                omega arith,
                (
                  omega arith,
                  (omega arith, (omega arith, (omega arith, (omega arith, (omega arith, tt))))),
                ),
              ),
            ),
          ),
        ),
      ),
    )

-- The range of the fields.
pub record IsCivil (tm : Tm) : Type 0 where
  pub year : (1970 ≤ tm.year) × (tm.year ≤ 2570)
  pub month : (1 ≤ tm.month) × (tm.month ≤ 12)
  pub day : (1 ≤ tm.day) × (tm.day ≤ get_or (month_lengths tm.year) (tm.month - 1) 0)
  pub hour : tm.hour < 24
  pub minute : tm.minute < 60
  pub second : tm.second < 60

-- A time in seconds whose nanoseconds fit 64 bits is broken down into a date of the calendar and a
-- time of the day, of which the formula of POSIX gives the seconds back.
pub posix_seconds-gmtime :
    (seconds : ℕ)
    → seconds ≤ 18446744073
    → IsCivil (gmtime seconds) × (posix_seconds (gmtime seconds) ≡ seconds)
unfolding gmtime
posix_seconds-gmtime seconds h =
    let start : days_before_year 1970 ≡ 0 = unfold days_before_year in omega arith in
    let limit : days_before_year 2570 ≡ 219146 = unfold days_before_year in omega arith in
    let y =
      find_year-InYear 600 1970 (seconds / 86400) (omega arith) (omega (arith, start, limit, h)) in
    let year = (find_year 600 1970 (seconds / 86400)).0 in
    let rest = (find_year 600 1970 (seconds / 86400)).1 in
    let m =
      find_month-InMonth (month_lengths year) 1 rest (omega (arith, y.within, month_sum year)) in
    (
      record {
        year = (y.from, find_year_le 600 1970 (seconds / 86400));
        month = (m.from, omega (arith, m.last));
        day = (omega arith, omega (arith, m.within));
        hour = omega arith;
        minute = omega arith;
        second = omega arith;
      },
      omega (arith, y.same, m.same, start),
    )
