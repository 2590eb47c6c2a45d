-- ===== src/Apps/Bench/Complete.antt =====
-- A run of apps/hpblr_bench.cpp measures the recording of all its events.
use cpp_high_performance_bin.Base.{
  ℕ, ◌+◌, ◌%◌, ◌<◌, ◌^◌, ◌≡◌, ◌≢◌, refl, ap, ap₂, ◌∙◌, ltb, if◌then◌else◌, arith, List, [], length,
  none, some, not, ◌&&◌, false, is_empty, All, Text,
}
use cpp_high_performance_bin.Errors.{ok}
use cpp_high_performance_bin.BinaryLog.Format.{file_bytes}
use cpp_high_performance_bin.BinaryLog.Stream.{taken}
use cpp_high_performance_bin.BinaryLog.Writer
use cpp_high_performance_bin.BinaryLog.Writer.{Writer}
use cpp_high_performance_bin.Apps.Producers.{returned, State, Action, acts, start}
use cpp_high_performance_bin.Apps.Producers.Traces.{IsTimed}
use cpp_high_performance_bin.Apps.Producers.Weights.{times}
use cpp_high_performance_bin.Apps.Producers.Totals.{length_once}
use cpp_high_performance_bin.Apps.Producers.Delivered
use cpp_high_performance_bin.Apps.Producers.Delivered.{Delivers}
use cpp_high_performance_bin.Apps.Bench.{Options, parse_options}
use cpp_high_performance_bin.Apps.Bench.Accepted.{parse_options-IsRunnable}
use cpp_high_performance_bin.Apps.Bench.Main.{
  Doubles, Machine, writer_options, producer_config, program, launch, conclude_size, conclude,
  conclude_launch, run_options, main,
}
use cpp_high_performance_bin.Apps.Bench.Shown.{json_text, screen_text, published}

module _ {R : Type 0} {D : Type 0} (doubles : Doubles D) (draw : R → ℕ × R) (seeded : ℕ → R)
    (machine : Machine D) (opts : Options) (writer : Writer)
    (empty : taken (machine.files opts.output) ≡ [])
    (made : Writer.construct (machine.files opts.output) (writer_options opts) machine.created
      ≡ (ok tt, writer))
    (clock : machine.created < 2 ^ 64) (actions : List Action) (timed : All IsTimed actions) where
  abbrev pub ends : State R
  ends =
      acts draw (program opts) actions
        (start seeded (program opts) writer opts.queue_capacity opts.producers)

  -- Let the command line give options whose numbers of events and producers are together below
  -- 2 ^ 64; let the report, where one is given, be a file that can be written and not the output
  -- file, the recorder be made on an empty file at a time below 2 ^ 64, and the size of the output
  -- file be the number of its bytes. Take any interleaving of the threads, with the clock below
  -- 2 ^ 64, after which `recorder.stop()` has returned without an exception. Then `main` returns 0,
  -- and what it prints and the report say, in the format that the options ask for, that exactly the
  -- number of events that was asked for was written, with the size of the header and the records of
  -- the accepted events and the rates of these numbers in the measured time; and with fuel for more
  -- than the events the reader delivers the file up to its end, with each number below the number
  -- of events exactly once.
  pub main_measures_all :
      (arguments : List Text) (fuel : ℕ)
      → parse_options arguments ≡ ok (some opts)
      → opts.events + opts.producers < 2 ^ 64
      → (not (is_empty opts.report) && not (machine.writable opts.report)) ≡ false
      → opts.report ≢ opts.output
      → ((bytes : List ℕ) → machine.file_size opts.output bytes ≡ ok (length bytes))
      → ends.main ≡ returned
      → opts.events < fuel
      → (let size = length (file_bytes machine.created ends.world.accepted) in
          let json = json_text doubles machine.seconds opts.events size opts in
          main doubles draw seeded machine actions arguments
          ≡ some (record {
            standard_output =
                if opts.json_stdout
                then json
                else screen_text doubles machine.seconds opts.events size opts;
            report_file = if is_empty opts.report then none else some json;
            standard_error = [];
            status = 0;
          }))
        × Delivers ends.world.recorder.writer.out.content fuel ends.world.accepted
        × ((n : ℕ) → times n ends.world.accepted ≡ (if ltb n opts.events then 1 else 0))
  unfolding main run_options launch conclude_launch conclude program
  main_measures_all arguments fuel parsed fits writable apart sized done enough =
      let usable = parse_options-IsRunnable arguments opts parsed in
      let (small, once) =
        Delivered.complete draw seeded (program opts) u32 (λ e. refl) (machine.files opts.output)
          (writer_options opts) machine.created writer empty made clock opts.queue_capacity
          opts.producers actions timed opts.events (λ n. refl) usable.producers.0 fits done refl in
      let size = length_once opts.events ends.world.accepted once in
      let (a, b, c, d) =
        Delivered.recorded draw seeded (program opts) u32 (λ e. refl) (machine.files opts.output)
          (writer_options opts) machine.created writer empty made clock opts.queue_capacity
          opts.producers actions timed done small in
      let within : length ends.world.accepted % 2 ^ 64 ≡ opts.events = omega (arith, size, fits) in
      (
        ap (run_options doubles draw seeded machine actions) parsed
            ∙ ap (λ r. conclude_launch doubles machine opts (launch draw seeded actions opts r))
                made
            ∙ ap (conclude doubles machine opts ends) done
            ∙ ap₂ (λ n k. some (conclude_size doubles machine opts n k)) (b ∙ within)
                (sized ends.world.recorder.writer.out.content ∙ ap (λ c. ok (length c)) d)
            ∙ ap some (
                published doubles machine opts opts.events
                  (length (file_bytes machine.created ends.world.accepted)) writable),
        Delivered.delivers draw seeded (program opts) u32 (λ e. refl) (machine.files opts.output)
            (writer_options opts) machine.created writer empty made clock opts.queue_capacity
            opts.producers actions timed fuel done (omega (arith, size, enough)),
        once,
      )
    where
      u32 : (p : ℕ) → ((program opts).config p).producer_id < 2 ^ 32
      u32 p = unfold program in unfold producer_config in omega arith
