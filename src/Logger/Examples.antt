-- ===== src/Logger/Examples.antt =====
-- Two calls of the logger, one of them below its level.
use cpp_high_performance_bin.Base.{◌≡◌, refl, true, List, [], ◌∷◌, ◌++◌, codes}
use cpp_high_performance_bin.Decimal.{decimal, digits}
use cpp_high_performance_bin.Errors.{ok}
use cpp_high_performance_bin.Time.{format_unix_ns_utc, gmtime, find_year, find_month, padded}
use cpp_high_performance_bin.Logger.{LogLevel, instance_, set_file}
use cpp_high_performance_bin.Logger.Lines.{Call, log_all, lines_from, logging, log_all-logging}

abbrev two_calls : List Call
two_calls =
    record { now = 1; level = LogLevel.debug; component = codes "record"; message = codes "a" }
    ∷ record { now = 2; level = LogLevel.warning; component = codes "record"; message = codes "b" }
    ∷ []

-- The first file that can be opened leaves the logger in the state of the theorem.
file_set : set_file true (codes "a.log") instance_ ≡ (ok tt, logging LogLevel.info [] [])
unfolding set_file
file_set = refl

one_line :
    lines_from LogLevel.info two_calls ≡ codes "1970-01-01T00:00:00.000000002Z [WARN] [record] b\n"
unfolding lines_from decimal digits format_unix_ns_utc gmtime find_year find_month padded
one_line = refl

log_all-logging_example :
    log_all two_calls (logging LogLevel.info [] [])
    ≡ logging LogLevel.info
        ([] ++ lines_from LogLevel.info two_calls)
        ([] ++ lines_from LogLevel.info two_calls)
log_all-logging_example = log_all-logging two_calls LogLevel.info [] []
