-- ===== src/Time/Examples.antt =====
-- A time of the year 2023 as text, and back (src/core/time_utils.cpp).
use cpp_high_performance_bin.Base.{◌≡◌, refl, arith, some, codes}
use cpp_high_performance_bin.Decimal.{decimal, digits}
use cpp_high_performance_bin.Time.{gmtime, find_year, find_month, padded, format_unix_ns_utc}
use cpp_high_performance_bin.Time.Reading.{read_utc, read_utc-format_unix_ns_utc}

one_text : format_unix_ns_utc 1700000000123456789 ≡ codes "2023-11-14T22:13:20.123456789Z"
unfolding format_unix_ns_utc gmtime find_year find_month padded decimal digits
one_text = refl

read_utc-format_unix_ns_utc_example :
    read_utc (format_unix_ns_utc 1700000000123456789) ≡ some 1700000000123456789
read_utc-format_unix_ns_utc_example = read_utc-format_unix_ns_utc 1700000000123456789 (omega arith)
