-- ===== src/Lib.antt =====
-- HPBLR records events in a binary log: producers hand events to a bounded queue, one thread takes
-- them out and appends them to a file, and the tools read the file back. This library models the
-- log itself, the queue, the recorder that joins the two, the logger, the generator of events, and
-- the programs as far as said below.
--
-- Crc32 is src/core/crc32.cpp, the checksum of headers and payloads.
-- Errors is include/hpblr/errors.hpp: exceptions are values, and a method is a function from the
--   object to a result and the object that the call leaves behind.
-- Event is include/hpblr/event.hpp with the severity numbers of src/core/event.cpp, Event/Text and
--   Event/Text/Hex are the texts of that file.
-- Filter is include/hpblr/filter.hpp, the criteria of a replay.
-- BinaryLog is src/core/binary_log.cpp with include/hpblr/binary_log.hpp:
--   BinaryLog/Words are append_u16 ... read_u64 and write_u32_at,
--   BinaryLog/Format is the layout of docs/BINARY_FORMAT.md, which the other parts are held to,
--   BinaryLog/Stream are std::ofstream and std::ifstream as far as the file uses them,
--   BinaryLog/Writer is BinaryLogWriter (construct, append, write_buffer_if_needed, flush, close,
--     destroy), BinaryLog/Writer/Log any sequence of its calls, BinaryLog/Writer/Branches the
--     branches of append,
--   BinaryLog/Reader is BinaryLogReader (construct, read_file_header, next); `next` is cut into the
--     functions decode_record_header, check_record_header, read_payload and finish_event, in the
--     order of the source; BinaryLog/Reader/Replay is the loop of the tools that calls it,
--   BinaryLog/Reader/Sound says what `next` accepts, BinaryLog/Reader/Ends that the loop ends,
--   BinaryLog/RoundTrip joins writer and reader, BinaryLog/Tamper changes bytes of a file.
-- BlockingQueue is include/hpblr/blocking_queue.hpp: BlockingQueue/Runs has any interleaving of the
--   atomic steps of any threads.
-- AsyncRecorder is src/core/async_recorder.cpp with include/hpblr/async_recorder.hpp: run_step,
--   submit_step and stop_step are the atomic actions of the writer thread and of threads in submit
--   and stop, over the writer and the queue; AsyncRecorder/Runs has any interleaving of them;
--   AsyncRecorder/Stops, Joining, Counting, Counters and Delivery are about a stop: the file that
--   it leaves, its end, the counters, and the events that a reader finds.
-- Time is format_unix_ns_utc of src/core/time_utils.cpp, with the calendar that gmtime_r follows;
--   Time/Calendar has the formula of POSIX for the seconds since the Epoch, Time/Reading a reader of
--   the text.
-- Logger is src/core/logger.cpp with include/hpblr/logger.hpp, Logger/Lines a sequence of calls.
-- EventGenerator is src/core/event_generator.cpp: construct and next, with the engine as a parameter.
-- Apps is about the programs. Apps/Producers are the producer threads that apps/hpblr_record.cpp and
--   apps/hpblr_bench.cpp start, with the join and the stop of `main`: `produce`, `finish` and `act`
--   are atomic actions over a recorder, `acts` any order of them; what the two programs choose is a
--   `Program`. Apps/Record has parse_options of apps/hpblr_record.cpp and Apps/Record/Main its main,
--   Apps/Bench and Apps/Bench/Main the same of apps/hpblr_bench.cpp, with make_json_report. The
--   rest is apps/hpblr_tool.cpp: Apps/Arguments has parse_u64 and its kin and require_value,
--   Apps/Tool parse_common and the option loop of export_events, Apps/Tool/Print is dump, write_csv
--   and write_json, Apps/Tool/Inspect is inspect, Apps/Tool/Main is export_events and main. What a
--   command prints is a text with the way it ends. Apps/Tool/Selected and Apps/Tool/Summaries hold
--   the list views that the loops are compared with, Apps/Tool/Csv a reader of exported rows.
--   Apps/Tool/Layouts, Apps/Tool/Summed and Apps/Bench/Shown write what is printed out as labels with
--   values behind them, in terms of Apps/Spelling.
-- Decimal has the decimal text of an unsigned number, as streams print it.
-- Base holds the list functions, tests and bit lemmas that these share.
--
-- Unsigned integers are natural numbers below a power of two, bytes are numbers below 256, and what
-- wraps around is taken modulo 2 ^ 64 (the statistics) or 2 ^ 32 (the payload size). The output
-- stream has its own buffer between the program and the file: a write may stay in it in whole or in
-- part, a flush or close that succeeds hands all of it over, and a list of outcomes says what happens
-- at each request; the clock and the open streams are arguments. The loops over streams and
-- queues, `replay`, `print_loop`, `inspect_loop` and `drain`, run on fuel; a fuel above the number of
-- bytes or events of the stream, or of elements, is enough, and the theorems about them say so. A
-- decimal number has at most 20 digits and a time lies within 600 years, since both fit 64 bits.
-- The tool sees the files as a function from paths to streams, and a parameter says which output
-- files can be opened; two paths name one file when they are equal as texts.
--
-- The programs with producers take the clock, the engine, floating-point numbers, the texts of
-- exceptions and the order in which threads act as parameters. The counter of sequence numbers is
-- modulo 2 ^ 64; `handed` counts beside it without a bound. A loop that does not end is a list of
-- actions after which `main` has not returned.
--
-- Not modelled: the texts of exception messages and of `usage`, the growth of vectors and failing
-- allocation, the scheduling of threads, the clock, the pacing sleep of producers, and errors of the
-- output of the tools and of an open log file. The notify_one and notify_all of the queue are left
-- out: a thread that waits is one whose action changes nothing until its condition holds, so nothing
-- here speaks of a lost wake-up. Two calls of `stop` that join at the same moment, a data race of
-- `std::thread`, both go on in the model; the programs call it from one thread. The log file, the
-- report and the recording are three files: the theorems about the two mains with producers ask
-- that their paths differ.
pub mod Apps
pub mod AsyncRecorder
pub mod Base
pub mod BinaryLog
pub mod BlockingQueue
pub mod Crc32
pub mod Decimal
pub mod Errors
pub mod Event
pub mod EventGenerator
pub mod Filter
pub mod Logger
pub mod Time
