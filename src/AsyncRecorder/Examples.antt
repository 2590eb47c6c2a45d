-- ===== src/AsyncRecorder/Examples.antt =====
-- One submission and a stop (src/core/async_recorder.cpp), action by action.
use cpp_high_performance_bin.Base.{
  true, ◌%◌, ◌^◌, ap, arith, All, length, get_or, ◌≡◌, refl, none, List, [], ◌∷◌,
}
use cpp_high_performance_bin.BinaryLog.Words.{append_u16, append_u32, append_u64, write_u32_at}
use cpp_high_performance_bin.BinaryLog.Stream
use cpp_high_performance_bin.BinaryLog.Format.{file_bytes}
use cpp_high_performance_bin.BinaryLog.Writer
use cpp_high_performance_bin.BinaryLog.Writer.{
  write_file_header, write_all, write_buffer_if_needed, draft_file_header, draft_record_header,
  buffer_record,
}
use cpp_high_performance_bin.BinaryLog.Writer.Examples.{opened, eager, ping, start, start_made}
use cpp_high_performance_bin.BlockingQueue
use cpp_high_performance_bin.BlockingQueue.{push, push_back, pop, pop_front}
use cpp_high_performance_bin.BlockingQueue.Runs.{pushed}
use cpp_high_performance_bin.AsyncRecorder.{
  finished, construct, run_step, submit_step, stop_step, after_pop, after_call, after_check,
  after_push, set_writer_error, after_join, after_stop_check, joining, stopped, stats,
}
use cpp_high_performance_bin.AsyncRecorder.Invariant.{logs}
use cpp_high_performance_bin.AsyncRecorder.Runs.{
  Move, writer_moves, stop_called, submit_called, submit_moves, stop_moves, accepts, move, moves,
  begin, World,
}
use cpp_high_performance_bin.AsyncRecorder.Stops.{stop_complete}
use cpp_high_performance_bin.AsyncRecorder.Joining.{writer_ends_in}
use cpp_high_performance_bin.AsyncRecorder.Counting.{all_uncounted}
use cpp_high_performance_bin.AsyncRecorder.Counters.{stats_agree}
use cpp_high_performance_bin.AsyncRecorder.Delivery.{IsTypedMove, stop_replay}
use cpp_high_performance_bin.Errors.{ok}
use cpp_high_performance_bin.Event.{IsEvent}
use cpp_high_performance_bin.BinaryLog.Stream.{open_input}
use cpp_high_performance_bin.BinaryLog.Reader
use cpp_high_performance_bin.BinaryLog.Reader.{Reader}
use cpp_high_performance_bin.BinaryLog.Reader.Replay
use cpp_high_performance_bin.BinaryLog.Reader.Replay.{replay}

abbrev one_event : List Move
one_event =
    submit_called ping
    ∷ submit_moves 0
    ∷ submit_moves 0
    ∷ submit_moves 0
    ∷ writer_moves
    ∷ stop_called
    ∷ stop_moves 0
    ∷ submit_moves 0
    ∷ stop_moves 0
    ∷ writer_moves
    ∷ writer_moves
    ∷ writer_moves
    ∷ writer_moves
    ∷ stop_moves 0
    ∷ stop_moves 0
    ∷ []

abbrev last : World
last = moves one_event (begin start 2)

-- How the run ends.
outcome :
    (get_or last.stops 0 joining ≡ stopped)
    × (last.accepted ≡ ping ∷ [])
    × (all_uncounted last.submissions ≡ 0)
unfolding moves move accepts logs construct run_step submit_step stop_step after_pop after_call
    after_check after_push after_join after_stop_check set_writer_error push push_back pop pop_front
    pushed BlockingQueue.construct BlockingQueue.close start Writer.construct write_file_header
    write_all append_u16 append_u32 append_u64 write_u32_at draft_file_header Stream.write
    Stream.flush Writer.append Writer.flush draft_record_header buffer_record write_buffer_if_needed
outcome = (refl, refl, refl)

stop_complete_example :
    (last.recorder.writer_thread ≡ finished)
    × (last.recorder.writer_error ≡ none)
    × (last.recorder.writer.out.content ≡ file_bytes 5 last.accepted)
stop_complete_example = stop_complete opened eager 5 start refl start_made 2 one_event 0 outcome.0

stats_agree_example :
    ((stats last.recorder).submitted ≡ length last.accepted % 2 ^ 64)
    × ((stats last.recorder).written ≡ length last.accepted % 2 ^ 64)
    × ((stats last.recorder).queue_depth ≡ 0)
stats_agree_example =
    stats_agree opened eager 5 start refl start_made 2 one_event 0 outcome.0 outcome.2

ping-IsEvent : IsEvent ping
ping-IsEvent = record {
  timestamp_u64 = omega arith;
  sequence_u64 = omega arith;
  producer_u32 = omega arith;
  type_u16 = omega arith;
  payload_bytes = (omega arith, (omega arith, tt));
}

one_event-IsTypedMove : All IsTypedMove one_event
one_event-IsTypedMove = (
  ping-IsEvent,
  (tt, (tt, (tt, (tt, (tt, (tt, (tt, (tt, (tt, (tt, (tt, (tt, (tt, (tt, tt)))))))))))))),
)

stop_replay_example :
    (r : Reader) × (Reader.construct (open_input last.recorder.writer.out.content) ≡ (ok tt, r))
    × (replay 2 r ≡ (last.accepted, Replay.finished))
stop_replay_example =
    stop_replay opened eager 5 start refl start_made (omega arith) 2 one_event one_event-IsTypedMove
      0 2 outcome.0 (omega (arith, ap length outcome.1))

-- The queue is closed while one event is still in it; the writer thread is then left alone.
abbrev closing_down : World
closing_down = record (begin start 2) {
  recorder = record (construct start 2) {
    queue = record { capacity = 2; queue = ping ∷ []; closed = true };
  };
}

abbrev nine_actions : List Move
nine_actions =
    writer_moves
    ∷ writer_moves
    ∷ writer_moves
    ∷ stop_called
    ∷ writer_moves
    ∷ writer_moves
    ∷ writer_moves
    ∷ stop_moves 0
    ∷ writer_moves
    ∷ writer_moves
    ∷ writer_moves
    ∷ []

writer_ends_in_example : (moves nine_actions closing_down).recorder.writer_thread ≡ finished
writer_ends_in_example = writer_ends_in nine_actions closing_down refl (omega arith)
