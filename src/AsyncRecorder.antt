-- ===== src/AsyncRecorder.antt =====
-- src/core/async_recorder.cpp with include/hpblr/async_recorder.hpp: the background recorder.
-- A thread is at a place between two atomic actions: a method of the queue, an access to an atomic
-- variable or to the error under its mutex, or a call of the writer, which only the writer thread
-- uses until it has been joined. Each `..._step` is the next action of a thread at a place.
pub mod Invariant
pub mod Runs
pub mod Stops
pub mod Joining
pub mod Counting
pub mod Counters
pub mod Delivery
mod Examples
use cpp_high_performance_bin.Base.{
  ℕ, ◌+◌, ◌%◌, ◌^◌, Bool, true, false, if◌then◌else◌, Option, none, some, length,
}
use cpp_high_performance_bin.Errors.{Error, Result, ok, err}
use cpp_high_performance_bin.Event.{Event}
use cpp_high_performance_bin.BinaryLog.Writer
use cpp_high_performance_bin.BinaryLog.Writer.{Writer}
use cpp_high_performance_bin.BlockingQueue
use cpp_high_performance_bin.BlockingQueue.{BlockingQueue, Answer, waits, returns, push, pop}

-- Places of the writer thread in `run`.
pub data WriterThread : Type 0 where
  popping : WriterThread
  appending : Event → WriterThread
  counting flushing : WriterThread
  failing : Error → WriterThread
  closing finished : WriterThread

pub record AsyncRecorder : Type 0 where
  pub writer : Writer
  pub queue : BlockingQueue Event
  pub writer_thread : WriterThread
  pub stopping : Bool
  pub submitted : ℕ
  pub rejected : ℕ
  pub written : ℕ
  pub writer_error : Option Error

-- The constructor, once that of the writer has returned.
unfoldable pub construct : Writer → ℕ → AsyncRecorder
construct writer queue_capacity = record {
  writer = writer;
  queue = BlockingQueue.construct queue_capacity;
  writer_thread = popping;
  stopping = false;
  submitted = 0;
  rejected = 0;
  written = 0;
  writer_error = none;
}

-- What the answer of `pop` makes the writer thread do.
unfoldable pub after_pop : Answer (Option Event) → WriterThread
after_pop waits = popping
after_pop (returns none) = flushing
after_pop (returns (some event)) = appending event

-- A call of the writer either returns or is caught.
unfoldable pub after_call : Result (Unit {0}) → WriterThread → WriterThread
after_call (ok _) next = next
after_call (err error) next = failing error

-- The first error is kept.
unfoldable pub set_writer_error : Error → Option Error → Option Error
set_writer_error error none = some error
set_writer_error error (some first) = some first

-- `run`
unfoldable pub run_step : WriterThread → AsyncRecorder → AsyncRecorder
run_step popping r =
    let (answer, queue') = pop r.queue in
    record r { queue = queue'; writer_thread = after_pop answer }
run_step (appending event) r =
    let (result, writer') = Writer.append event r.writer in
    record r { writer = writer'; writer_thread = after_call result counting }
run_step counting r = record r { written = (r.written + 1) % 2 ^ 64; writer_thread = popping }
run_step flushing r =
    let (result, writer') = Writer.flush r.writer in
    record r { writer = writer'; writer_thread = after_call result finished }
run_step (failing error) r = record r {
  writer_error = set_writer_error error r.writer_error;
  writer_thread = closing;
}
run_step closing r = record r { queue = BlockingQueue.close r.queue; writer_thread = finished }
run_step finished r = r

-- Places of a thread in `submit`, and how the call ends.
pub data Submission : Type 0 where
  entering testing pushing : Event → Submission
  accepting rejecting : Submission
  answered : Bool → Submission
  rethrown : Error → Submission

unfoldable pub after_check : Option Error → Event → Submission
after_check none event = testing event
after_check (some error) event = rethrown error

unfoldable pub after_push : Answer Bool → Event → Submission
after_push waits event = pushing event
after_push (returns true) event = accepting
after_push (returns false) event = rejecting

-- `submit`
unfoldable pub submit_step : Submission → AsyncRecorder → Submission × AsyncRecorder
submit_step (entering event) r = (after_check r.writer_error event, r)
submit_step (testing event) r = (if r.stopping then rejecting else pushing event, r)
submit_step (pushing event) r =
    let (answer, queue') = push event r.queue in
    (after_push answer event, record r { queue = queue' })
submit_step accepting r = (answered true, record r { submitted = (r.submitted + 1) % 2 ^ 64 })
submit_step rejecting r = (answered false, record r { rejected = (r.rejected + 1) % 2 ^ 64 })
submit_step (answered b) r = (answered b, r)
submit_step (rethrown error) r = (rethrown error, r)

-- Places of a thread in `stop`, and how the call ends.
pub data Stop : Type 0 where
  exchanging shutting joining checking stopped : Stop
  stop_rethrown : Error → Stop

unfoldable pub after_join : WriterThread → Stop
after_join finished = checking
after_join thread = joining

unfoldable pub after_stop_check : Option Error → Stop
after_stop_check none = stopped
after_stop_check (some error) = stop_rethrown error

-- `stop`. A thread that has been joined already is at `finished`, so `joining` goes on at once.
unfoldable pub stop_step : Stop → AsyncRecorder → Stop × AsyncRecorder
stop_step exchanging r = (if r.stopping then joining else shutting, record r { stopping = true })
stop_step shutting r = (joining, record r { queue = BlockingQueue.close r.queue })
stop_step joining r = (after_join r.writer_thread, r)
stop_step checking r = (after_stop_check r.writer_error, r)
stop_step stopped r = (stopped, r)
stop_step (stop_rethrown error) r = (stop_rethrown error, r)

pub record AsyncRecorderStats : Type 0 where
  pub submitted : ℕ
  pub rejected : ℕ
  pub written : ℕ
  pub queue_depth : ℕ

unfoldable pub stats : AsyncRecorder → AsyncRecorderStats
stats r = record {
  submitted = r.submitted;
  rejected = r.rejected;
  written = r.written;
  queue_depth = BlockingQueue.size r.queue;
}
