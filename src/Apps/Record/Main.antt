-- ===== src/Apps/Record/Main.antt =====
-- `main` of apps/hpblr_record.cpp: its producers, as a program of Apps/Producers, and what it prints.
-- What the machine answers is a parameter: the files, the clock, the texts of exceptions, and in
-- which order the threads act.
use cpp_high_performance_bin.Base.{
  ℕ, ◌+◌, ◌*◌, ◌%◌, ◌^◌, Bool, true, false, not, ◌&&◌, ◌==◌, leb, is_empty, if◌then◌else◌, List, [],
  ◌++◌, Option, none, some, Text, codes,
}
use cpp_high_performance_bin.Errors.{Error, Result, ok, err, Io, pure}
use cpp_high_performance_bin.Decimal.{decimal}
use cpp_high_performance_bin.BinaryLog.Stream.{Ofstream}
use cpp_high_performance_bin.BinaryLog.Writer
use cpp_high_performance_bin.BinaryLog.Writer.{Writer, WriterOptions}
use cpp_high_performance_bin.AsyncRecorder.{AsyncRecorderStats, stats}
use cpp_high_performance_bin.EventGenerator.{GeneratorConfig}
use cpp_high_performance_bin.Logger.{Logger, LogLevel, instance_, set_file, log}
use cpp_high_performance_bin.Apps.Tool.Inspect.{quoted}
use cpp_high_performance_bin.Apps.Producers.{
  Program, Main, returned, failed, State, Action, acts, start,
}
use cpp_high_performance_bin.Apps.Record.{Options, parse_options}

-- What the program takes from the machine. `begun` and `ended` are the times of its log lines.
pub record Machine : Type 0 where
  pub what : Error → Text
  pub usage : Text
  pub files : Text → Ofstream
  pub can_log : Text → Bool
  pub created : ℕ
  pub begun : ℕ
  pub ended : ℕ

pub record Outcome : Type 0 where
  pub standard_output : Text
  pub logger : Logger
  pub standard_error : Text
  pub status : ℕ

unfoldable pub writer_options : Options → WriterOptions
writer_options opts = record {
  flush_threshold_bytes = opts.flush_bytes;
  flush_on_each_event = false;
}

-- The generator of producer `p`, with the casts to 32 and 16 bits.
unfoldable pub producer_config : Options → ℕ → GeneratorConfig
producer_config opts p = record {
  producer_id = p % 2 ^ 32;
  event_type_base = (100 + p * 10) % 2 ^ 16;
  payload_size = opts.payload_size;
  seed = (0xBADC0FFEE + p) % 2 ^ 64;
}

-- `while (g_stop_requested == 0)`, and `opts.events != 0 && sequence >= opts.events`.
unfoldable pub program : Options → Program
program opts = record {
  config = producer_config opts;
  loops = not;
  over = λ sequence. not (opts.events == 0) && leb opts.events sequence;
  counts = true;
}

unfoldable pub message : ℕ → AsyncRecorderStats → Text
message generated s =
    codes "finished: generated="
    ++ (decimal generated
        ++ (codes " submitted="
            ++ (decimal s.submitted
                ++ (codes " written="
                    ++ (decimal s.written ++ (codes " rejected=" ++ decimal s.rejected))))))

-- The state of the threads after `actions`, if the recorder was made.
unfoldable pub launch :
    {R : Type 0}
    → (R → ℕ × R)
    → (ℕ → R)
    → List Action
    → Options
    → Result (Unit {0}) × Writer
    → Result (State R)
launch draw seeded actions opts (err error, writer) = err error
launch draw seeded actions opts (ok _, writer) = ok (
    acts draw (program opts) actions
      (start seeded (program opts) writer opts.queue_capacity opts.producers))

-- The `catch` block.
unfoldable pub caught : Machine → Logger → Error → Outcome
caught machine logger error = record {
  standard_output = [];
  logger = logger;
  standard_error = codes "hpblr_record: " ++ (machine.what error ++ codes "\n");
  status = 1;
}

unfoldable pub finish_report : Machine → Options → Logger → Text → Outcome
finish_report machine opts logger msg = record {
  standard_output = msg ++ (codes "\noutput=" ++ (quoted opts.output ++ codes "\n"));
  logger = log machine.ended LogLevel.info (codes "record") msg logger;
  standard_error = [];
  status = 0;
}

-- What follows `recorder.stop()`; `none` while the threads run.
unfoldable pub conclude :
    {R : Type 0} → Machine → Options → Logger → State R → Main → Option Outcome
conclude machine opts logger s returned =
    some (finish_report machine opts logger (message s.generated (stats s.world.recorder)))
conclude machine opts logger s (failed error) = some (caught machine logger error)
conclude machine opts logger s place = none

unfoldable pub conclude_launch :
    {R : Type 0} → Machine → Options → Logger → Result (State R) → Option Outcome
conclude_launch machine opts logger (err error) = some (caught machine logger error)
conclude_launch machine opts logger (ok s) = conclude machine opts logger s s.main

unfoldable pub set_log_file : Machine → Options → Io Logger (Unit {0})
set_log_file machine opts =
    if is_empty opts.log_file
    then pure tt
    else set_file (machine.can_log opts.log_file) opts.log_file

unfoldable pub started : Machine → Logger → Logger
started machine logger =
    log machine.begun LogLevel.info (codes "record") (codes "starting event recorder") logger

-- What follows the opening of the log file.
unfoldable pub run :
    {R : Type 0}
    → (R → ℕ × R)
    → (ℕ → R)
    → Machine
    → List Action
    → Options
    → Result (Unit {0}) × Logger
    → Option Outcome
run draw seeded machine actions opts (err error, logger) = some (caught machine logger error)
run draw seeded machine actions opts (ok _, logger) =
    conclude_launch machine opts (started machine logger) (
      launch draw seeded actions opts
        (Writer.construct (machine.files opts.output) (writer_options opts) machine.created))

-- What follows `parse_options`.
unfoldable pub run_options :
    {R : Type 0}
    → (R → ℕ × R)
    → (ℕ → R)
    → Machine
    → List Action
    → Result (Option Options)
    → Option Outcome
run_options draw seeded machine actions (err error) = some (caught machine instance_ error)
run_options draw seeded machine actions (ok none) = some (record {
  standard_output = [];
  logger = instance_;
  standard_error = machine.usage;
  status = 0;
})
run_options draw seeded machine actions (ok (some opts)) =
    run draw seeded machine actions opts (set_log_file machine opts instance_)

unfoldable pub main :
    {R : Type 0} → (R → ℕ × R) → (ℕ → R) → Machine → List Action → List Text → Option Outcome
main draw seeded machine actions arguments =
    run_options draw seeded machine actions (parse_options arguments)
