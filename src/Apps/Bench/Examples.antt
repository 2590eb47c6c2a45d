-- ===== src/Apps/Bench/Examples.antt =====
-- A command line for apps/hpblr_bench.cpp, and a run with it.
use cpp_high_performance_bin.Base.{
  ℕ, ◌^◌, ◌/◌, ◌≤◌, ◌<◌, ◌≡◌, refl, ltb, leb, not, ◌&&◌, false, if◌then◌else◌, arith, List, [], ◌∷◌,
  length, some, none, true, Text, codes,
}
use cpp_high_performance_bin.Decimal.{decimal}
use cpp_high_performance_bin.BinaryLog.Words.{append_u16, append_u32, append_u64, write_u32_at}
use cpp_high_performance_bin.BinaryLog.Stream
use cpp_high_performance_bin.BinaryLog.Format.{file_bytes}
use cpp_high_performance_bin.BinaryLog.Writer
use cpp_high_performance_bin.BinaryLog.Writer.{
  Writer, write_file_header, write_all, write_buffer_if_needed, draft_file_header,
  draft_record_header, buffer_record,
}
use cpp_high_performance_bin.BinaryLog.Writer.Examples.{opened}
use cpp_high_performance_bin.BlockingQueue
use cpp_high_performance_bin.BlockingQueue.{push, push_back, pop, pop_front}
use cpp_high_performance_bin.BlockingQueue.Runs.{pushed}
use cpp_high_performance_bin.AsyncRecorder.{
  construct, run_step, submit_step, stop_step, after_pop, after_call, after_check, after_push,
  set_writer_error, after_join, after_stop_check,
}
use cpp_high_performance_bin.AsyncRecorder.Invariant.{logs}
use cpp_high_performance_bin.AsyncRecorder.Runs.{accepts, move, moves}
use cpp_high_performance_bin.EventGenerator
use cpp_high_performance_bin.EventGenerator.{write_random, write_values, write_value}
use cpp_high_performance_bin.Apps.Producers
use cpp_high_performance_bin.Apps.Producers.{
  Action, State, returned, writer_acts, acts, act, produce, take_number, after_submit, finish,
  all_ended, any_threw, after_stop, submitting, waiting, producer_acts,
}
use cpp_high_performance_bin.Apps.Producers.Weights.{times}
use cpp_high_performance_bin.Apps.Producers.Bound.{handed_bound}
use cpp_high_performance_bin.Apps.Producers.Delivered.{Delivers, numbers_once}
use cpp_high_performance_bin.Apps.Producers.Examples.{counter, schedule, schedule-IsTimed}
use cpp_high_performance_bin.Errors.{ok}
use cpp_high_performance_bin.Event.Text.{equals, scan_digits, from_chars}
use cpp_high_performance_bin.Apps.Arguments.{parse_u64, whole, require_value, checked}
use cpp_high_performance_bin.Apps.Record.{fitting, parse_size, positive}
use cpp_high_performance_bin.Apps.Bench.{
  Options, defaults, parse_option, parse_arguments, parse_options,
}
use cpp_high_performance_bin.Apps.Bench.Main.{
  Doubles, Machine, writer_options, producer_config, program, main,
}
use cpp_high_performance_bin.Apps.Bench.Shown.{json_text}
use cpp_high_performance_bin.Apps.Bench.Complete.{ends, main_measures_all}

abbrev chosen : Options
chosen = record defaults {
  producers = 1;
  events = 1;
  payload_size = 2;
  json_stdout = true;
  output = codes "a.hpblr";
}

abbrev line : List Text
line =
    codes "--producers"
    ∷ codes "1"
    ∷ codes "--json"
    ∷ codes "--events"
    ∷ codes "1"
    ∷ codes "--payload-size"
    ∷ codes "2"
    ∷ codes "--output"
    ∷ codes "a.hpblr"
    ∷ []

line_parsed : parse_options line ≡ ok (some chosen)
unfolding parse_options parse_arguments parse_option parse_size fitting positive parse_u64 whole
    require_value checked equals scan_digits from_chars
line_parsed = refl

abbrev doubles : Doubles ℕ
doubles = record {
  of_count = λ n. n;
  zero_ = 0;
  mebibyte = 2 ^ 20;
  divide = λ n k. n / k;
  positive_ = λ n. ltb 0 n;
  fixed = λ precision n. decimal n;
}

abbrev machine : Machine ℕ
machine = record {
  what = λ error. codes "error";
  usage = codes "Usage";
  files = λ path. opened;
  writable = λ path. true;
  file_size = λ path bytes. ok (length bytes);
  created = 5;
  seconds = 3;
}

start : Writer
start = (Writer.construct opened (writer_options chosen) 5).1

start_made : Writer.construct opened (writer_options chosen) 5 ≡ (ok tt, start)
unfolding start Writer.construct write_file_header write_all append_u16 append_u32 append_u64
    write_u32_at draft_file_header Stream.write writer_options
start_made = refl

abbrev last : State ℕ
last =
    ends doubles counter (λ seed. seed) machine chosen start refl start_made (omega arith) schedule
      schedule-IsTimed

returns_ : last.main ≡ returned
unfolding acts act produce take_number after_submit finish all_ended any_threw after_stop
    Producers.start program moves move accepts logs construct run_step submit_step stop_step
    after_pop after_call after_check after_push after_join after_stop_check set_writer_error push
    push_back pop pop_front pushed BlockingQueue.construct BlockingQueue.close start
    Writer.construct write_file_header write_all append_u16 append_u32 append_u64 write_u32_at
    draft_file_header Stream.write Stream.flush Writer.append Writer.flush draft_record_header
    buffer_record write_buffer_if_needed writer_options EventGenerator.next EventGenerator.construct
    write_random write_values write_value producer_config
returns_ = refl

main_measures_all_example :
    (main doubles counter (λ seed. seed) machine schedule line
      ≡ some (record {
        standard_output = json_text doubles 3 1 (length (file_bytes 5 last.world.accepted)) chosen;
        report_file = none;
        standard_error = [];
        status = 0;
      }))
    × Delivers last.world.recorder.writer.out.content 2 last.world.accepted
    × ((n : ℕ) → times n last.world.accepted ≡ (if ltb n 1 then 1 else 0))
main_measures_all_example =
    main_measures_all doubles counter (λ seed. seed) machine chosen start refl start_made
      (omega arith) schedule schedule-IsTimed line 2 line_parsed (omega arith) refl (λ e. cc e)
      (λ bytes. refl) returns_ (omega arith)

below_one : (n : ℕ) → leb 1 n ≡ false → n < 1
below_one n h = ground arith

below_limit : (n : ℕ) → (program chosen).over n ≡ false → n < 1
below_limit n h = below_one n (unfold program in h)

taken_at_most : last.handed ≤ 2
taken_at_most =
    (handed_bound counter (program chosen) 1 1 below_limit (λ seed. seed) start 32768 schedule
      (omega arith)).0

abbrev begun : List Action
begun = producer_acts 0 1000 ∷ writer_acts ∷ []

one_accepted : length last.world.accepted ≡ 1
unfolding acts act produce take_number after_submit finish all_ended any_threw after_stop
    Producers.start program moves move accepts logs construct run_step submit_step stop_step
    after_pop after_call after_check after_push after_join after_stop_check set_writer_error push
    push_back pop pop_front pushed BlockingQueue.construct BlockingQueue.close start
    Writer.construct write_file_header write_all append_u16 append_u32 append_u64 write_u32_at
    draft_file_header Stream.write Stream.flush Writer.append Writer.flush draft_record_header
    buffer_record write_buffer_if_needed writer_options EventGenerator.next EventGenerator.construct
    write_random write_values write_value producer_config
one_accepted = refl

numbers_once_example :
    Delivers last.world.recorder.writer.out.content 2 last.world.accepted
    × ((n : ℕ)
        → times n last.world.accepted
          ≡ (if ltb n last.handed && not ((program chosen).over n) then 1 else 0))
numbers_once_example =
    numbers_once counter (λ seed. seed) (program chosen) u32 (λ e. unfold program in refl) opened
      (writer_options chosen) 5 start refl start_made (omega arith) 32768 1 schedule
      schedule-IsTimed 2 returns_ (omega (arith, taken_at_most)) (omega (arith, one_accepted))
  where
    u32 : (p : ℕ) → ((program chosen).config p).producer_id < 2 ^ 32
    u32 p = unfold program in unfold producer_config in omega arith
