-- ===== src/Apps/Bench/Main.antt =====
-- `make_json_report` and `main` of apps/hpblr_bench.cpp. The measured time, floating-point numbers,
-- the files and the order in which the threads act are parameters.
use cpp_high_performance_bin.Base.{
  ℕ, ◌+◌, ◌*◌, ◌%◌, ◌^◌, Bool, true, false, not, ◌&&◌, leb, is_empty, if◌then◌else◌, List, [], ◌++◌,
  Option, none, some, Text, codes,
}
use cpp_high_performance_bin.Errors.{Error, Result, ok, err, runtime_error, failed_report}
use cpp_high_performance_bin.Decimal.{decimal}
use cpp_high_performance_bin.BinaryLog.Stream.{Ofstream}
use cpp_high_performance_bin.BinaryLog.Writer
use cpp_high_performance_bin.BinaryLog.Writer.{Writer, WriterOptions}
use cpp_high_performance_bin.AsyncRecorder.{stats}
use cpp_high_performance_bin.EventGenerator.{GeneratorConfig}
use cpp_high_performance_bin.Apps.Tool.Inspect.{quoted}
use cpp_high_performance_bin.Apps.Producers.{
  Program, Main, returned, failed, State, Action, acts, start,
}
use cpp_high_performance_bin.Apps.Bench.{Options, parse_options}

-- The type `double`: a cast, division, the test against 0.0, and `std::fixed` with a precision.
pub record Doubles (D : Type 0) : Type 0 where
  pub of_count : ℕ → D
  pub zero_ : D
  pub mebibyte : D
  pub divide : D → D → D
  pub positive_ : D → Bool
  pub fixed : ℕ → D → Text

-- What the program takes from the machine. `seconds` is the time between the two clock readings,
-- `file_size` the answer of `std::filesystem::file_size`, which throws for what is no regular file.
pub record Machine (D : Type 0) : Type 0 where
  pub what : Error → Text
  pub usage : Text
  pub files : Text → Ofstream
  pub writable : Text → Bool
  pub file_size : Text → List ℕ → Result ℕ
  pub created : ℕ
  pub seconds : D

-- What the program leaves behind. `report_file` is the text of the report, if it was written.
pub record Outcome : Type 0 where
  pub standard_output : Text
  pub report_file : Option Text
  pub standard_error : Text
  pub status : ℕ

unfoldable pub writer_options : Options → WriterOptions
writer_options opts = record {
  flush_threshold_bytes = opts.flush_bytes;
  flush_on_each_event = false;
}

-- The generator of producer `p`, with the casts to 32 and 16 bits.
unfoldable pub producer_config : Options → ℕ → GeneratorConfig
producer_config opts p = record {
  producer_id = p % 2 ^ 32;
  event_type_base = (100 + p * 10) % 2 ^ 16;
  payload_size = opts.payload_size;
  seed = (0x123456780000 + p) % 2 ^ 64;
}

-- `while (true)`, and `sequence >= opts.events`. The events are not counted.
unfoldable pub program : Options → Program
program opts = record {
  config = producer_config opts;
  loops = λ stop_requested. true;
  over = λ sequence. leb opts.events sequence;
  counts = false;
}

-- The state of the threads after `actions`, if the recorder was made.
unfoldable pub launch :
    {R : Type 0}
    → (R → ℕ × R)
    → (ℕ → R)
    → List Action
    → Options
    → Result (Unit {0}) × Writer
    → Result (State R)
launch draw seeded actions opts (err error, writer) = err error
launch draw seeded actions opts (ok _, writer) = ok (
    acts draw (program opts) actions
      (start seeded (program opts) writer opts.queue_capacity opts.producers))

-- What was measured, as the report and the output show it.
pub record Measured (D : Type 0) : Type 0 where
  pub written : ℕ
  pub seconds : D
  pub file_size : ℕ
  pub events_per_second : D
  pub mib_per_second : D

-- The rates are 0 when no time has passed.
unfoldable pub measure : {D : Type 0} → Doubles D → D → ℕ → ℕ → Measured D
measure doubles seconds written file_size = record {
  written = written;
  seconds = seconds;
  file_size = file_size;
  events_per_second =
      if doubles.positive_ seconds
      then doubles.divide (doubles.of_count written) seconds
      else doubles.zero_;
  mib_per_second =
      if doubles.positive_ seconds
      then doubles.divide (doubles.divide (doubles.of_count file_size) doubles.mebibyte) seconds
      else doubles.zero_;
}

-- `  "name": value,` and the end of the line.
unfoldable pub field : Text → Text → Text
field name value = codes "  \"" ++ (name ++ (codes "\": " ++ (value ++ codes ",\n")))

unfoldable pub make_json_report : {D : Type 0} → Doubles D → Options → Measured D → Text
make_json_report doubles opts m =
    codes "{\n"
    ++ (field (codes "events") (decimal m.written)
        ++ (field (codes "producers") (decimal opts.producers)
            ++ (field (codes "payload_size") (decimal opts.payload_size)
                ++ (field (codes "queue_capacity") (decimal opts.queue_capacity)
                    ++ (field (codes "flush_bytes") (decimal opts.flush_bytes)
                        ++ (field (codes "duration_seconds") (doubles.fixed 3 m.seconds)
                            ++ (field (codes "events_per_second")
                                  (doubles.fixed 3 m.events_per_second)
                                ++ (field (codes "file_size_bytes") (decimal m.file_size)
                                    ++ (field (codes "mib_per_second")
                                          (doubles.fixed 3 m.mib_per_second)
                                        ++ (codes "  \"output\": \""
                                            ++ (opts.output ++ codes "\"\n}\n")))))))))))

-- `name=value` and the end of the line.
unfoldable pub line : Text → Text → Text
line name value = name ++ (codes "=" ++ (value ++ codes "\n"))

unfoldable pub summary : {D : Type 0} → Doubles D → Options → Measured D → Text
summary doubles opts m =
    line (codes "events") (decimal m.written)
    ++ (line (codes "duration_seconds") (doubles.fixed 3 m.seconds)
        ++ (line (codes "events_per_second") (doubles.fixed 0 m.events_per_second)
            ++ (line (codes "file_size_bytes") (decimal m.file_size)
                ++ (line (codes "mib_per_second") (doubles.fixed 2 m.mib_per_second)
                    ++ (line (codes "output") (quoted opts.output)
                        ++ (if is_empty opts.report
                            then []
                            else line (codes "report") (quoted opts.report)))))))

-- The `catch` block.
unfoldable pub caught : {D : Type 0} → Machine D → Error → Outcome
caught machine error = record {
  standard_output = [];
  report_file = none;
  standard_error = codes "hpblr_bench: " ++ (machine.what error ++ codes "\n");
  status = 1;
}

-- The report is written before anything is printed.
unfoldable pub publish : {D : Type 0} → Doubles D → Machine D → Options → Measured D → Outcome
publish doubles machine opts m =
    let json = make_json_report doubles opts m in
    if not (is_empty opts.report) && not (machine.writable opts.report)
    then caught machine (runtime_error (failed_report opts.report))
    else record {
      standard_output = if opts.json_stdout then json else summary doubles opts m;
      report_file = if is_empty opts.report then none else some json;
      standard_error = [];
      status = 0;
    }

-- What follows `std::filesystem::file_size(opts.output)`, with the events that were written.
unfoldable pub conclude_size :
    {D : Type 0} → Doubles D → Machine D → Options → ℕ → Result ℕ → Outcome
conclude_size doubles machine opts written (err error) = caught machine error
conclude_size doubles machine opts written (ok file_size) =
    publish doubles machine opts (measure doubles machine.seconds written file_size)

-- What follows `recorder.stop()`; `none` while the threads run.
unfoldable pub conclude :
    {R : Type 0} {D : Type 0} → Doubles D → Machine D → Options → State R → Main → Option Outcome
conclude doubles machine opts s returned = some (
    conclude_size doubles machine opts (stats s.world.recorder).written
      (machine.file_size opts.output s.world.recorder.writer.out.content))
conclude doubles machine opts s (failed error) = some (caught machine error)
conclude doubles machine opts s place = none

unfoldable pub conclude_launch :
    {R : Type 0} {D : Type 0} → Doubles D → Machine D → Options → Result (State R) → Option Outcome
conclude_launch doubles machine opts (err error) = some (caught machine error)
conclude_launch doubles machine opts (ok s) = conclude doubles machine opts s s.main

-- What follows `parse_options`.
unfoldable pub run_options :
    {R : Type 0} {D : Type 0}
    → Doubles D
    → (R → ℕ × R)
    → (ℕ → R)
    → Machine D
    → List Action
    → Result (Option Options)
    → Option Outcome
run_options doubles draw seeded machine actions (err error) = some (caught machine error)
run_options doubles draw seeded machine actions (ok none) = some (record {
  standard_output = [];
  report_file = none;
  standard_error = machine.usage;
  status = 0;
})
run_options doubles draw seeded machine actions (ok (some opts)) =
    conclude_launch doubles machine opts (
      launch draw seeded actions opts
        (Writer.construct (machine.files opts.output) (writer_options opts) machine.created))

unfoldable pub main :
    {R : Type 0} {D : Type 0}
    → Doubles D
    → (R → ℕ × R)
    → (ℕ → R)
    → Machine D
    → List Action
    → List Text
    → Option Outcome
main doubles draw seeded machine actions arguments =
    run_options doubles draw seeded machine actions (parse_options arguments)
