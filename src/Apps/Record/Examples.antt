-- ===== src/Apps/Record/Examples.antt =====
-- Command lines for apps/hpblr_record.cpp, and a run.
use cpp_high_performance_bin.Base.{
  ℕ, ◌≡◌, refl, ltb, if◌then◌else◌, arith, List, [], ◌∷◌, ◌++◌, some, true, false, Text, codes,
}
use cpp_high_performance_bin.BinaryLog.Words.{append_u16, append_u32, append_u64, write_u32_at}
use cpp_high_performance_bin.BinaryLog.Stream
use cpp_high_performance_bin.BinaryLog.Writer
use cpp_high_performance_bin.BinaryLog.Writer.{
  Writer, write_file_header, write_all, write_buffer_if_needed, draft_file_header,
  draft_record_header, buffer_record,
}
use cpp_high_performance_bin.BinaryLog.Writer.Examples.{opened}
use cpp_high_performance_bin.BlockingQueue
use cpp_high_performance_bin.BlockingQueue.{push, push_back, pop, pop_front}
use cpp_high_performance_bin.BlockingQueue.Runs.{pushed}
use cpp_high_performance_bin.AsyncRecorder.{
  construct, run_step, submit_step, stop_step, after_pop, after_call, after_check, after_push,
  set_writer_error, after_join, after_stop_check,
}
use cpp_high_performance_bin.AsyncRecorder.Invariant.{logs}
use cpp_high_performance_bin.AsyncRecorder.Runs.{accepts, move, moves}
use cpp_high_performance_bin.EventGenerator
use cpp_high_performance_bin.EventGenerator.{write_random, write_values, write_value}
use cpp_high_performance_bin.Apps.Producers
use cpp_high_performance_bin.Apps.Producers.{
  State, returned, acts, act, produce, take_number, after_submit, finish, all_ended, any_threw,
  after_stop,
}
use cpp_high_performance_bin.Apps.Producers.Weights.{times}
use cpp_high_performance_bin.Apps.Producers.Delivered.{Delivers}
use cpp_high_performance_bin.Apps.Producers.Examples.{counter, schedule, schedule-IsTimed}
use cpp_high_performance_bin.Logger.{LogLevel, instance_, log}
use cpp_high_performance_bin.Apps.Spelling.{spelled}
use cpp_high_performance_bin.Apps.Tool.Inspect.{quoted}
use cpp_high_performance_bin.Errors.{ok}
use cpp_high_performance_bin.Event.Text.{equals, scan_digits, from_chars}
use cpp_high_performance_bin.Apps.Arguments.{parse_u64, whole, require_value, checked}
use cpp_high_performance_bin.Apps.Record.{
  Options, defaults, fitting, parse_size, positive, parse_option, parse_arguments, parse_options,
}
use cpp_high_performance_bin.Apps.Record.Main.{
  Machine, writer_options, producer_config, program, set_log_file, main,
}
use cpp_high_performance_bin.Apps.Record.Complete.{ends, all_recorded, main_records_all}

abbrev chosen : Options
chosen = record defaults { producers = 8; events = 0; output = codes "a.hpblr" }

abbrev line : List Text
line =
    codes "--producers"
    ∷ codes "8"
    ∷ codes "--events"
    ∷ codes "0"
    ∷ codes "--output"
    ∷ codes "a.hpblr"
    ∷ []

line_parsed : parse_options line ≡ ok (some chosen)
unfolding parse_options parse_arguments parse_option parse_size fitting positive parse_u64 whole
    require_value checked equals scan_digits from_chars
line_parsed = refl

abbrev single : Options
single = record defaults { producers = 1; events = 1; payload_size = 2; output = codes "a.hpblr" }

abbrev single_line : List Text
single_line =
    codes "--producers"
    ∷ codes "1"
    ∷ codes "--events"
    ∷ codes "1"
    ∷ codes "--payload-size"
    ∷ codes "2"
    ∷ codes "--output"
    ∷ codes "a.hpblr"
    ∷ []

single_parsed : parse_options single_line ≡ ok (some single)
unfolding parse_options parse_arguments parse_option parse_size fitting positive parse_u64 whole
    require_value checked equals scan_digits from_chars
single_parsed = refl

abbrev machine : Machine
machine = record {
  what = λ error. codes "error";
  usage = codes "Usage";
  files = λ path. opened;
  can_log = λ path. true;
  created = 5;
  begun = 4;
  ended = 6;
}

no_log_file : set_log_file machine single instance_ ≡ (ok tt, instance_)
unfolding set_log_file
no_log_file = refl

start : Writer
start = (Writer.construct opened (writer_options single) 5).1

start_made : Writer.construct opened (writer_options single) 5 ≡ (ok tt, start)
unfolding start Writer.construct write_file_header write_all append_u16 append_u32 append_u64
    write_u32_at draft_file_header Stream.write writer_options
start_made = refl

abbrev last : State ℕ
last =
    ends counter (λ seed. seed) machine single start refl start_made (omega arith) schedule
      schedule-IsTimed

returns_ : last.main ≡ returned
unfolding acts act produce take_number after_submit finish all_ended any_threw after_stop
    Producers.start program moves move accepts logs construct run_step submit_step stop_step
    after_pop after_call after_check after_push after_join after_stop_check set_writer_error push
    push_back pop pop_front pushed BlockingQueue.construct BlockingQueue.close start
    Writer.construct write_file_header write_all append_u16 append_u32 append_u64 write_u32_at
    draft_file_header Stream.write Stream.flush Writer.append Writer.flush draft_record_header
    buffer_record write_buffer_if_needed writer_options EventGenerator.next EventGenerator.construct
    write_random write_values write_value producer_config
returns_ = refl

calm : last.stop_requested ≡ false
unfolding acts act produce take_number after_submit finish all_ended any_threw after_stop
    Producers.start program moves move accepts logs construct run_step submit_step stop_step
    after_pop after_call after_check after_push after_join after_stop_check set_writer_error push
    push_back pop pop_front pushed BlockingQueue.construct BlockingQueue.close start
    Writer.construct write_file_header write_all append_u16 append_u32 append_u64 write_u32_at
    draft_file_header Stream.write Stream.flush Writer.append Writer.flush draft_record_header
    buffer_record write_buffer_if_needed writer_options EventGenerator.next EventGenerator.construct
    write_random write_values write_value producer_config
calm = refl

main_records_all_example :
    (main counter (λ seed. seed) machine schedule single_line
      ≡ some (record {
        standard_output =
            spelled (all_recorded 1)
            ++ spelled ((codes "\noutput=", quoted single.output) ∷ (codes "\n", []) ∷ []);
        logger = log machine.ended LogLevel.info (codes "record") (spelled (all_recorded 1)) (
            log machine.begun LogLevel.info
              (codes "record")
              (codes "starting event recorder")
              instance_);
        standard_error = [];
        status = 0;
      }))
    × Delivers last.world.recorder.writer.out.content 2 last.world.accepted
    × ((n : ℕ) → times n last.world.accepted ≡ (if ltb n 1 then 1 else 0))
main_records_all_example =
    main_records_all counter (λ seed. seed) machine single start refl start_made (omega arith)
      schedule schedule-IsTimed single_line instance_ 2 single_parsed (λ e. cc e) no_log_file
      (omega arith) (omega arith) returns_ calm (omega arith)
