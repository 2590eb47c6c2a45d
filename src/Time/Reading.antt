-- ===== src/Time/Reading.antt =====
-- A reader of the text of `format_unix_ns_utc` (src/core/time_utils.cpp).
use cpp_high_performance_bin.Base.{
  ℕ, zero, suc, ◌+◌, ◌-◌, ◌*◌, ◌/◌, ◌%◌, ◌^◌, ◌<◌, ◌≡◌, refl, ap, ◌∙◌, false, ◌==◌, ==_refl,
  if◌then◌else◌, arith, List, [], ◌∷◌, ◌++◌, append_assoc, replicate, length, length-append,
  length-replicate, ◌&&◌, Option, none, some, Text,
}
use cpp_high_performance_bin.Event.Text.{is_digit, scan_digits}
use cpp_high_performance_bin.Decimal.{
  decimal, scan_digits-decimal, length-decimal, length-decimal_four,
}
use cpp_high_performance_bin.Time.{Tm, gmtime, padded, format_unix_ns_utc}
use cpp_high_performance_bin.Time.Calendar.{
  posix_seconds, IsCivil, posix_seconds-gmtime, month_length_le,
}

abbrev prepend : ℕ → Option (List ℕ) → Option (List ℕ)
prepend n none = none
prepend n (some ns) = some (n ∷ ns)

-- The separator behind a number that takes as many characters as its field is wide, and what
-- follows it.
unfoldable pub behind : ℕ → ℕ → ℕ → (Text → Option (List ℕ)) → ℕ × Text → Option (List ℕ)
behind width separator before further (n, []) = none
behind width separator before further (n, c ∷ cs) =
    if c == separator && before == width + suc (length cs) then prepend n (further cs) else none

-- Numbers of the given widths with a separator behind each.
unfoldable pub read_fields : List (ℕ × ℕ) → Text → Option (List ℕ)
read_fields [] [] = some []
read_fields [] (c ∷ cs) = none
read_fields ((width, separator) ∷ rest) text =
    behind width separator (length text) (read_fields rest) (scan_digits 0 text)

-- The time that the seven numbers name.
unfoldable pub time_of : Option (List ℕ) → Option ℕ
time_of (some (year ∷ month ∷ day ∷ hour ∷ minute ∷ second ∷ nanos ∷ [])) = some (
    posix_seconds (record {
      year = year;
      month = month;
      day = day;
      hour = hour;
      minute = minute;
      second = second;
    })
      * 1000000000
    + nanos)
time_of numbers = none

-- `YYYY-MM-DDThh:mm:ss.nnnnnnnnnZ`
abbrev pub fields : List (ℕ × ℕ)
fields = (4, 45) ∷ (2, 45) ∷ (2, 84) ∷ (2, 58) ∷ (2, 58) ∷ (2, 46) ∷ (9, 90) ∷ []

unfoldable pub read_utc : Text → Option ℕ
read_utc text = time_of (read_fields fields text)

scan_zeros : (k : ℕ) (text : Text) → scan_digits 0 (replicate k 48 ++ text) ≡ scan_digits 0 text
unfolding scan_digits
scan_zeros zero text = refl
scan_zeros (suc k) text = scan_zeros k text

scan_padded :
    (width n c : ℕ) (rest : Text)
    → n < 2 ^ 64
    → is_digit c ≡ false
    → scan_digits 0 (padded width n ++ c ∷ rest) ≡ (n, c ∷ rest)
unfolding padded
scan_padded width n c rest fits stop =
    ap (scan_digits 0)
      (append_assoc (replicate (width - length (decimal n)) 48) (decimal n) (c ∷ rest))
    ∙ scan_zeros (width - length (decimal n)) (decimal n ++ c ∷ rest)
    ∙ scan_digits-decimal n c rest fits stop

length-padded :
    (k n c : ℕ) (rest : Text)
    → n < 10 ^ suc k
    → length (padded (suc k) n ++ c ∷ rest) ≡ suc k + suc (length rest)
unfolding padded
length-padded k n c rest small = omega (
  arith,
  length-append (replicate (suc k - length (decimal n)) 48 ++ decimal n) (c ∷ rest),
  length-append (replicate (suc k - length (decimal n)) 48) (decimal n),
  length-replicate {A = ℕ} (suc k - length (decimal n)) 48,
  length-decimal k n small,
)

-- A field that is found is read.
read_field :
    (width separator n : ℕ) (more : List (ℕ × ℕ)) (text rest : Text) (found : Option (List ℕ))
    → scan_digits 0 text ≡ (n, separator ∷ rest)
    → length text ≡ width + suc (length rest)
    → read_fields more rest ≡ found
    → read_fields ((width, separator) ∷ more) text ≡ prepend n found
unfolding read_fields behind
read_field width separator n more text rest found h l k =
    ap (behind width separator (length text) (read_fields more)) h
    ∙ rw (==_refl separator, l, ==_refl (width + suc (length rest))) (ap (prepend n) k)

read_year :
    (n : ℕ) (more : List (ℕ × ℕ)) (rest : Text) (found : Option (List ℕ))
    → length (decimal n) ≡ 4
    → n < 2 ^ 64
    → read_fields more rest ≡ found
    → read_fields ((4, 45) ∷ more) (decimal n ++ 45 ∷ rest) ≡ prepend n found
read_year n more rest found four fits rest_read =
    read_field 4 45 n more _ rest found (scan_digits-decimal n 45 rest fits refl)
      (length-append (decimal n) (45 ∷ rest) ∙ ap (λ k. k + suc (length rest)) four) rest_read

-- A field with zeros in front.
read_padded :
    (k separator n : ℕ) (more : List (ℕ × ℕ)) (rest : Text) (found : Option (List ℕ))
    → n < 10 ^ suc k
    → n < 2 ^ 64
    → is_digit separator ≡ false
    → read_fields more rest ≡ found
    → read_fields ((suc k, separator) ∷ more) (padded (suc k) n ++ separator ∷ rest)
      ≡ prepend n found
read_padded k separator n more rest found small fits stop rest_read =
    read_field (suc k) separator n more _ rest found
      (scan_padded (suc k) n separator rest fits stop) (length-padded k n separator rest small)
      rest_read

format_flat :
    (y mo d h mi s ns : Text)
    → y ++ (45 ∷ mo) ++ (45 ∷ d) ++ (84 ∷ h) ++ (58 ∷ mi) ++ (58 ∷ s) ++ (46 ∷ ns) ++ (90 ∷ [])
      ≡ y
        ++ (45
            ∷ (mo
                ++ (45
                    ∷ (d ++ (84 ∷ (h ++ (58 ∷ (mi ++ (58 ∷ (s ++ (46 ∷ (ns ++ (90 ∷ [])))))))))))))
format_flat y mo d h mi s ns = simp append_assoc

-- The text of a time of 64 bits has the form `YYYY-MM-DDThh:mm:ss.nnnnnnnnnZ`, with as many digits
-- in each field, and the time that its fields name is that time.
pub read_utc-format_unix_ns_utc :
    (timestamp_ns : ℕ)
    → timestamp_ns < 2 ^ 64
    → read_utc (format_unix_ns_utc timestamp_ns) ≡ some timestamp_ns
unfolding read_utc format_unix_ns_utc time_of
read_utc-format_unix_ns_utc timestamp_ns small =
    ap (λ text. time_of (read_fields fields text))
      (format_flat (decimal tm.year) (padded 2 tm.month) (padded 2 tm.day) (padded 2 tm.hour)
        (padded 2 tm.minute) (padded 2 tm.second) (padded 9 nanos))
    ∙ ap time_of (
        read_year tm.year _ _ _ year_four (omega (arith, civil.0.year.1)) (
          read_padded 1 45 tm.month _ _ _ month_fits (omega (arith, month_fits)) refl (
            read_padded 1 84 tm.day _ _ _ day_fits (omega (arith, day_fits)) refl (
              read_padded 1 58 tm.hour _ _ _ hour_fits (omega (arith, hour_fits)) refl (
                read_padded 1 58 tm.minute _ _ _ minute_fits (omega (arith, minute_fits)) refl (
                  read_padded 1 46 tm.second _ _ _ second_fits (omega (arith, second_fits)) refl (
                    read_padded 8 90 nanos [] [] (some []) (omega arith) (omega arith) refl
                      (unfold read_fields in refl))))))))
    ∙ ap some whole
  where
    tm : Tm
    tm = gmtime (timestamp_ns / 1000000000)

    nanos : ℕ
    nanos = timestamp_ns % 1000000000

    civil : IsCivil tm × (posix_seconds tm ≡ timestamp_ns / 1000000000)
    civil = posix_seconds-gmtime (timestamp_ns / 1000000000) (omega (arith, small))

    year_four : length (decimal tm.year) ≡ 4
    year_four =
        length-decimal_four tm.year (omega (arith, civil.0.year.0)) (omega (arith, civil.0.year.1))

    month_fits : tm.month < 10 ^ 2
    month_fits = omega (arith, civil.0.month.1)

    day_fits : tm.day < 10 ^ 2
    day_fits = omega (arith, civil.0.day.1, month_length_le tm.year (tm.month - 1))

    hour_fits : tm.hour < 10 ^ 2
    hour_fits = omega (arith, civil.0.hour)

    minute_fits : tm.minute < 10 ^ 2
    minute_fits = omega (arith, civil.0.minute)

    second_fits : tm.second < 10 ^ 2
    second_fits = omega (arith, civil.0.second)

    whole : posix_seconds tm * 1000000000 + nanos ≡ timestamp_ns
    whole = omega (arith, civil.1)
