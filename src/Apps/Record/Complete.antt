-- ===== src/Apps/Record/Complete.antt =====
-- A run of apps/hpblr_record.cpp without a signal records all its events.
use cpp_high_performance_bin.Base.{
  ℕ, ◌+◌, ◌%◌, ◌<◌, ◌^◌, ◌≡◌, ◌≢◌, refl, ap, ◌∙◌, ◌==◌, ltb, leb, not, false, if◌then◌else◌, arith,
  List, [], length, some, All, Text, codes, ◌∷◌, ◌++◌, append-nil,
}
use cpp_high_performance_bin.Errors.{ok}
use cpp_high_performance_bin.BinaryLog.Stream.{taken}
use cpp_high_performance_bin.BinaryLog.Writer
use cpp_high_performance_bin.BinaryLog.Writer.{Writer}
use cpp_high_performance_bin.AsyncRecorder.{AsyncRecorderStats, stats}
use cpp_high_performance_bin.Logger.{Logger, LogLevel, instance_, log}
use cpp_high_performance_bin.Decimal.{decimal, digits}
use cpp_high_performance_bin.Apps.Spelling.{spelled}
use cpp_high_performance_bin.Apps.Tool.Inspect.{quoted}
use cpp_high_performance_bin.Apps.Producers.{returned, State, Action, acts, start}
use cpp_high_performance_bin.Apps.Producers.Traces.{IsTimed}
use cpp_high_performance_bin.Apps.Producers.Weights.{times}
use cpp_high_performance_bin.Apps.Producers.Totals.{length_once}
use cpp_high_performance_bin.Apps.Producers.Delivered
use cpp_high_performance_bin.Apps.Producers.Delivered.{Delivers}
use cpp_high_performance_bin.Apps.Record.{Options, parse_options}
use cpp_high_performance_bin.Apps.Record.Accepted.{parse_options-IsUsable}
use cpp_high_performance_bin.Apps.Record.Main.{
  Machine, writer_options, producer_config, program, message, launch, finish_report, conclude,
  conclude_launch, set_log_file, started, run, run_options, main,
}

-- What is said of a run that has recorded `events` events.
abbrev pub all_recorded : ℕ → List (Text × Text)
all_recorded events =
    (codes "finished: generated=", decimal events)
    ∷ (codes " submitted=", decimal events)
    ∷ (codes " written=", decimal events)
    ∷ (codes " rejected=", codes "0")
    ∷ []

message_flat :
    (a b c d : Text)
    → codes "finished: generated="
        ++ (a
            ++ (codes " submitted="
                ++ (b ++ (codes " written=" ++ (c ++ (codes " rejected=" ++ d))))))
      ≡ spelled (
          (codes "finished: generated=", a)
          ∷ (codes " submitted=", b)
          ∷ (codes " written=", c)
          ∷ (codes " rejected=", d)
          ∷ [])
message_flat a b c d = simp append-nil

message_same :
    (g n : ℕ) (s : AsyncRecorderStats)
    → g ≡ n
    → s.submitted ≡ n
    → s.written ≡ n
    → s.rejected ≡ 0
    → message g s ≡ spelled (all_recorded n)
unfolding message
message_same g n s a b c d =
    message_flat (decimal g) (decimal s.submitted) (decimal s.written) (decimal s.rejected)
    ∙ rw (a, b, c, d) (unfold decimal in unfold digits in refl)

module _ {R : Type 0} (draw : R → ℕ × R) (seeded : ℕ → R) (machine : Machine) (opts : Options)
    (writer : Writer) (empty : taken (machine.files opts.output) ≡ [])
    (made : Writer.construct (machine.files opts.output) (writer_options opts) machine.created
      ≡ (ok tt, writer))
    (clock : machine.created < 2 ^ 64) (actions : List Action) (timed : All IsTimed actions) where
  abbrev pub ends : State R
  ends =
      acts draw (program opts) actions
        (start seeded (program opts) writer opts.queue_capacity opts.producers)

  -- Let the command line give options with a number of events that is not 0 and that is below
  -- 2 ^ 64 together with the number of producers; let the log file, which is not the output file,
  -- be opened where one is given, and the recorder be made on an empty file at a time below 2 ^ 64.
  -- Take any interleaving of the threads, with the clock below 2 ^ 64, after which
  -- `recorder.stop()` has returned without an exception and without a signal. Then `main` returns 0
  -- and prints and logs that this number of events was generated, submitted and written and that
  -- none was rejected, and with fuel for more than the events the reader delivers the file up to
  -- its end, with each number below the number of events exactly once.
  pub main_records_all :
      (arguments : List Text) (logger : Logger) (fuel : ℕ)
      → parse_options arguments ≡ ok (some opts)
      → opts.log_file ≢ opts.output
      → set_log_file machine opts instance_ ≡ (ok tt, logger)
      → 0 < opts.events
      → opts.events + opts.producers < 2 ^ 64
      → ends.main ≡ returned
      → ends.stop_requested ≡ false
      → opts.events < fuel
      → (main draw seeded machine actions arguments
          ≡ some (record {
            standard_output =
                spelled (all_recorded opts.events)
                ++ spelled ((codes "\noutput=", quoted opts.output) ∷ (codes "\n", []) ∷ []);
            logger =
                log machine.ended LogLevel.info
                  (codes "record")
                  (spelled (all_recorded opts.events))
                  (log machine.begun LogLevel.info
                    (codes "record")
                    (codes "starting event recorder")
                    logger);
            standard_error = [];
            status = 0;
          }))
        × Delivers ends.world.recorder.writer.out.content fuel ends.world.accepted
        × ((n : ℕ) → times n ends.world.accepted ≡ (if ltb n opts.events then 1 else 0))
  unfolding main run_options run launch conclude_launch conclude program finish_report started
  main_records_all arguments logger fuel parsed apart logged some_ fits done calm enough =
      let usable = parse_options-IsUsable arguments opts parsed in
      let (small, once) =
        Delivered.complete draw seeded (program opts) u32 (λ e. cc e) (machine.files opts.output)
          (writer_options opts) machine.created writer empty made clock opts.queue_capacity
          opts.producers actions timed opts.events limit usable.producers.0 fits done
          (ap not calm) in
      let size = length_once opts.events ends.world.accepted once in
      let (a, b, c, d) =
        Delivered.recorded draw seeded (program opts) u32 (λ e. cc e) (machine.files opts.output)
          (writer_options opts) machine.created writer empty made clock opts.queue_capacity
          opts.producers actions timed done small in
      let (e, f) =
        Delivered.counted draw seeded (program opts) u32 (λ e. cc e) (machine.files opts.output)
          (writer_options opts) machine.created writer empty made clock opts.queue_capacity
          opts.producers actions timed refl done small in
      let within : length ends.world.accepted % 2 ^ 64 ≡ opts.events = omega (arith, size, fits) in
      (
        ap (run_options draw seeded machine actions) parsed
            ∙ ap (run draw seeded machine actions opts) logged
            ∙ ap
                (λ r.
                  conclude_launch machine opts (started machine logger)
                    (launch draw seeded actions opts r))
                made
            ∙ ap (conclude machine opts (started machine logger) ends) done
            ∙ ap (λ text. some (finish_report machine opts (started machine logger) text))
                (message_same ends.generated opts.events (stats ends.world.recorder)
                  (e ∙ a ∙ within) (a ∙ within) (b ∙ within) f),
        Delivered.delivers draw seeded (program opts) u32 (λ e. cc e) (machine.files opts.output)
            (writer_options opts) machine.created writer empty made clock opts.queue_capacity
            opts.producers actions timed fuel done (omega (arith, size, enough)),
        once,
      )
    where
      u32 : (p : ℕ) → ((program opts).config p).producer_id < 2 ^ 32
      u32 p = unfold program in unfold producer_config in omega arith

      limit : (n : ℕ) → (program opts).over n ≡ leb opts.events n
      limit n =
          let more : (opts.events == 0) ≡ false = ground arith in unfold program in rw more refl
