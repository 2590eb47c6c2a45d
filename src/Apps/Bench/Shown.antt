-- ===== src/Apps/Bench/Shown.antt =====
-- What apps/hpblr_bench.cpp prints and reports of a run, as labels with values behind them.
use cpp_high_performance_bin.Base.{
  ℕ, ◌≡◌, refl, ap, ◌∙◌, if◌then◌else◌, [], ◌∷◌, ◌++◌, none, some, not, ◌&&◌, false, is_empty,
  append_assoc, append-nil, codes, Text,
}
use cpp_high_performance_bin.Errors.{ok}
use cpp_high_performance_bin.Decimal.{decimal}
use cpp_high_performance_bin.Apps.Spelling.{spelled}
use cpp_high_performance_bin.Apps.Tool.Inspect.{quoted}
use cpp_high_performance_bin.Apps.Bench.{Options}
use cpp_high_performance_bin.Apps.Bench.Main.{
  Doubles, Machine, field, line, summary, make_json_report, measure, publish, conclude_size,
}

-- The rates of `events` events and a file of `size` bytes, which are 0 when no time has passed.
module _ {D : Type 0} (doubles : Doubles D) (seconds : D) (events size : ℕ) where
  abbrev pub events_rate : D
  events_rate =
      if doubles.positive_ seconds
      then doubles.divide (doubles.of_count events) seconds
      else doubles.zero_

  abbrev pub mib_rate : D
  mib_rate =
      if doubles.positive_ seconds
      then doubles.divide (doubles.divide (doubles.of_count size) doubles.mebibyte) seconds
      else doubles.zero_

  -- The report of such a run.
  abbrev pub json_text : Options → Text
  json_text opts = spelled (
      (codes "{\n  \"events\": ", decimal events)
      ∷ (codes ",\n  \"producers\": ", decimal opts.producers)
      ∷ (codes ",\n  \"payload_size\": ", decimal opts.payload_size)
      ∷ (codes ",\n  \"queue_capacity\": ", decimal opts.queue_capacity)
      ∷ (codes ",\n  \"flush_bytes\": ", decimal opts.flush_bytes)
      ∷ (codes ",\n  \"duration_seconds\": ", doubles.fixed 3 seconds)
      ∷ (codes ",\n  \"events_per_second\": ", doubles.fixed 3 events_rate)
      ∷ (codes ",\n  \"file_size_bytes\": ", decimal size)
      ∷ (codes ",\n  \"mib_per_second\": ", doubles.fixed 3 mib_rate)
      ∷ (codes ",\n  \"output\": \"", opts.output)
      ∷ (codes "\"\n}\n", [])
      ∷ [])

  -- The lines for a reader of the screen.
  abbrev pub screen_text : Options → Text
  screen_text opts = spelled (
      (codes "events=", decimal events)
      ∷ (codes "\nduration_seconds=", doubles.fixed 3 seconds)
      ∷ (codes "\nevents_per_second=", doubles.fixed 0 events_rate)
      ∷ (codes "\nfile_size_bytes=", decimal size)
      ∷ (codes "\nmib_per_second=", doubles.fixed 2 mib_rate)
      ∷ (codes "\noutput=", quoted opts.output)
      ∷ (
        codes "\n",
        if is_empty opts.report
            then []
            else spelled ((codes "report=", quoted opts.report) ∷ (codes "\n", []) ∷ []),
      )
      ∷ [])

json_flat :
    (a b c d e f g h i j : Text)
    → codes "{\n"
        ++ (field (codes "events") a
            ++ (field (codes "producers") b
                ++ (field (codes "payload_size") c
                    ++ (field (codes "queue_capacity") d
                        ++ (field (codes "flush_bytes") e
                            ++ (field (codes "duration_seconds") f
                                ++ (field (codes "events_per_second") g
                                    ++ (field (codes "file_size_bytes") h
                                        ++ (field (codes "mib_per_second") i
                                            ++ (codes "  \"output\": \""
                                                ++ (j ++ codes "\"\n}\n")))))))))))
      ≡ spelled (
          (codes "{\n  \"events\": ", a)
          ∷ (codes ",\n  \"producers\": ", b)
          ∷ (codes ",\n  \"payload_size\": ", c)
          ∷ (codes ",\n  \"queue_capacity\": ", d)
          ∷ (codes ",\n  \"flush_bytes\": ", e)
          ∷ (codes ",\n  \"duration_seconds\": ", f)
          ∷ (codes ",\n  \"events_per_second\": ", g)
          ∷ (codes ",\n  \"file_size_bytes\": ", h)
          ∷ (codes ",\n  \"mib_per_second\": ", i)
          ∷ (codes ",\n  \"output\": \"", j)
          ∷ (codes "\"\n}\n", [])
          ∷ [])
unfolding field
json_flat a b c d e f g h i j = simp append_assoc

summary_flat :
    (a b c d e f r : Text)
    → line (codes "events") a
        ++ (line (codes "duration_seconds") b
            ++ (line (codes "events_per_second") c
                ++ (line (codes "file_size_bytes") d
                    ++ (line (codes "mib_per_second") e ++ (line (codes "output") f ++ r)))))
      ≡ spelled (
          (codes "events=", a)
          ∷ (codes "\nduration_seconds=", b)
          ∷ (codes "\nevents_per_second=", c)
          ∷ (codes "\nfile_size_bytes=", d)
          ∷ (codes "\nmib_per_second=", e)
          ∷ (codes "\noutput=", f)
          ∷ (codes "\n", r)
          ∷ [])
unfolding line
summary_flat a b c d e f r = simp (append_assoc, append-nil)

report_flat :
    (report : Text)
    → (if is_empty report then [] else line (codes "report") (quoted report)) ≡ (
        if is_empty report
        then []
        else spelled ((codes "report=", quoted report) ∷ (codes "\n", []) ∷ []))
unfolding line
report_flat [] = refl
report_flat (c ∷ cs) = refl

pub published :
    {D : Type 0} (doubles : Doubles D) (machine : Machine D) (opts : Options) (events size : ℕ)
    → (not (is_empty opts.report) && not (machine.writable opts.report)) ≡ false
    → conclude_size doubles machine opts events (ok size) ≡ record {
      standard_output =
          if opts.json_stdout
          then json_text doubles machine.seconds events size opts
          else screen_text doubles machine.seconds events size opts;
      report_file =
          if is_empty opts.report
          then none
          else some (json_text doubles machine.seconds events size opts);
      standard_error = [];
      status = 0;
    }
unfolding conclude_size publish measure make_json_report summary
published doubles machine opts events size writable =
    let rate = events_rate doubles machine.seconds events size in
    let mib = mib_rate doubles machine.seconds events size in
    let json =
      json_flat (decimal events) (decimal opts.producers) (decimal opts.payload_size)
        (decimal opts.queue_capacity) (decimal opts.flush_bytes) (doubles.fixed 3 machine.seconds)
        (doubles.fixed 3 rate) (decimal size) (doubles.fixed 3 mib) opts.output in
    let screen =
      summary_flat (decimal events) (doubles.fixed 3 machine.seconds) (doubles.fixed 0 rate)
        (decimal size) (doubles.fixed 2 mib) (quoted opts.output) _
      ∙ ap
          (λ r. spelled (
            (codes "events=", decimal events)
            ∷ (codes "\nduration_seconds=", doubles.fixed 3 machine.seconds)
            ∷ (codes "\nevents_per_second=", doubles.fixed 0 rate)
            ∷ (codes "\nfile_size_bytes=", decimal size)
            ∷ (codes "\nmib_per_second=", doubles.fixed 2 mib)
            ∷ (codes "\noutput=", quoted opts.output)
            ∷ (codes "\n", r)
            ∷ []))
          (report_flat opts.report) in
    rw writable (λ i. record {
      standard_output = if opts.json_stdout then json i else screen i;
      report_file = if is_empty opts.report then none else some (json i);
      standard_error = [];
      status = 0;
    })
