-- ===== src/Apps/Tool/Summed.antt =====
-- What `inspect` (apps/hpblr_tool.cpp) prints, as labels with values behind them.
use cpp_high_performance_bin.Base.{
  ℕ, ◌^◌, ◌≡◌, refl, ap, ◌∙◌, false, true, Bool, ◌%◌, ltb, if◌then◌else◌, codes, List, [], ◌∷◌,
  ◌++◌, append_assoc, length, Text,
}
use cpp_high_performance_bin.Event.{Event, Severity, severity_from_u16}
use cpp_high_performance_bin.Apps.Tool.Inspect.{severity_lines, quoted, report}
use cpp_high_performance_bin.Apps.Tool.Print.{Printed}
use cpp_high_performance_bin.Apps.Spelling.{spelled}
use cpp_high_performance_bin.Decimal.{decimal}
use cpp_high_performance_bin.Time.{format_unix_ns_utc}
use cpp_high_performance_bin.Event.Text.{severity_to_string}
use cpp_high_performance_bin.BinaryLog.Reader.Replay.{finished}
use cpp_high_performance_bin.Apps.Tool.Summaries.{
  summary, info_of, first_timestamp, last_timestamp, total_payload, occurrences,
}

-- What a file with `es` is summed up as, around a text for the timestamps.
abbrev summed_with : Text → ℕ → List Event → Text → Text
summed_with name now es t = spelled (
    (codes "file=", quoted name)
    ∷ (codes "\nversion=", decimal 1)
    ∷ (codes "\ncreated_unix_ns=", decimal now)
    ∷ (codes "\ncreated_utc=", format_unix_ns_utc now)
    ∷ (codes "\nevents=", decimal (length es % 2 ^ 64))
    ∷ (codes "\npayload_bytes=", decimal (total_payload es % 2 ^ 64))
    ∷ (codes "\n", t)
    ∷ (codes "severity_trace=", decimal (occurrences Severity.trace es % 2 ^ 64))
    ∷ (codes "\nseverity_debug=", decimal (occurrences Severity.debug es % 2 ^ 64))
    ∷ (codes "\nseverity_info=", decimal (occurrences Severity.info es % 2 ^ 64))
    ∷ (codes "\nseverity_warning=", decimal (occurrences Severity.warning es % 2 ^ 64))
    ∷ (codes "\nseverity_error=", decimal (occurrences Severity.error es % 2 ^ 64))
    ∷ (codes "\nseverity_critical=", decimal (occurrences Severity.critical es % 2 ^ 64))
    ∷ (codes "\n", [])
    ∷ [])

-- The timestamps are left out of a file without events.
abbrev pub summed_up : Text → ℕ → List Event → Text
summed_up name now es = summed_with name now es (
    if ltb 0 (length es % 2 ^ 64)
    then spelled (
        (codes "first_timestamp_ns=", decimal (first_timestamp es))
        ∷ (codes "\nlast_timestamp_ns=", decimal (last_timestamp es))
        ∷ (codes "\n", [])
        ∷ [])
    else [])

timestamps_flat :
    (some_ : Bool) (a b : Text)
    → (if some_
        then codes "first_timestamp_ns="
          ++ (a ++ codes "\n")
          ++ (codes "last_timestamp_ns=" ++ (b ++ codes "\n"))
        else [])
      ≡ (if some_
          then spelled (
              (codes "first_timestamp_ns=", a)
              ∷ (codes "\nlast_timestamp_ns=", b)
              ∷ (codes "\n", [])
              ∷ [])
          else [])
timestamps_flat true a b = simp append_assoc
timestamps_flat false a b = refl

report_flat :
    (a b c d e f t g h i j k l : Text)
    → (codes "file=" ++ (a ++ codes "\n"))
        ++ ((codes "version=" ++ (b ++ codes "\n"))
            ++ ((codes "created_unix_ns=" ++ (c ++ codes "\n"))
                ++ ((codes "created_utc=" ++ (d ++ codes "\n"))
                    ++ ((codes "events=" ++ (e ++ codes "\n"))
                        ++ ((codes "payload_bytes=" ++ (f ++ codes "\n"))
                            ++ (t
                                ++ ((codes "severity_trace=" ++ (g ++ codes "\n"))
                                    ++ ((codes "severity_debug=" ++ (h ++ codes "\n"))
                                        ++ ((codes "severity_info=" ++ (i ++ codes "\n"))
                                            ++ ((codes "severity_warning=" ++ (j ++ codes "\n"))
                                                ++ ((codes "severity_error=" ++ (k ++ codes "\n"))
                                                    ++ ((codes "severity_critical="
                                                          ++ (l ++ codes "\n"))
                                                        ++ []))))))))))))
      ≡ spelled (
          (codes "file=", a)
          ∷ (codes "\nversion=", b)
          ∷ (codes "\ncreated_unix_ns=", c)
          ∷ (codes "\ncreated_utc=", d)
          ∷ (codes "\nevents=", e)
          ∷ (codes "\npayload_bytes=", f)
          ∷ (codes "\n", t)
          ∷ (codes "severity_trace=", g)
          ∷ (codes "\nseverity_debug=", h)
          ∷ (codes "\nseverity_info=", i)
          ∷ (codes "\nseverity_warning=", j)
          ∷ (codes "\nseverity_error=", k)
          ∷ (codes "\nseverity_critical=", l)
          ∷ (codes "\n", [])
          ∷ [])
report_flat a b c d e f t g h i j k l = simp append_assoc

pub report-summed_up :
    (name : Text) (now : ℕ) (es : List Event)
    → report name (info_of now es) (summary es) ≡ (summed_up name now es, finished)
unfolding report severity_lines severity_from_u16 severity_to_string
report-summed_up name now es =
    ap {B = Printed} (λ text. (text, finished))
      (report_flat (quoted name) (decimal 1) (decimal now) (format_unix_ns_utc now)
          (decimal (length es % 2 ^ 64)) (decimal (total_payload es % 2 ^ 64)) _
          (decimal (occurrences Severity.trace es % 2 ^ 64))
          (decimal (occurrences Severity.debug es % 2 ^ 64))
          (decimal (occurrences Severity.info es % 2 ^ 64))
          (decimal (occurrences Severity.warning es % 2 ^ 64))
          (decimal (occurrences Severity.error es % 2 ^ 64))
          (decimal (occurrences Severity.critical es % 2 ^ 64))
        ∙ ap (summed_with name now es) (
            timestamps_flat (ltb 0 (length es % 2 ^ 64)) (decimal (first_timestamp es))
              (decimal (last_timestamp es))))
