-- ===== src/Apps/Producers/Termination.antt =====
-- How a run of the threads of apps/hpblr_record.cpp and apps/hpblr_bench.cpp comes to an end.
use cpp_high_performance_bin.Base.{ℕ, ◌≡◌, true}
use cpp_high_performance_bin.Errors.{Error}
use cpp_high_performance_bin.BinaryLog.Writer.{Writer}
use cpp_high_performance_bin.BlockingQueue
use cpp_high_performance_bin.AsyncRecorder
use cpp_high_performance_bin.Apps.Producers.{Program, returned, failed, State, any_threw}
use cpp_high_performance_bin.Apps.Producers.Safe.{Safe}
use cpp_high_performance_bin.Apps.Producers.Bound.{Bounded}
use cpp_high_performance_bin.Apps.Producers.Lively.{Lively}

-- `main` has returned or caught an exception, or `std::terminate` has ended the program.
pub data Ended {R : Type 0} (s : State R) : Type 0 where
  by_return : s.main ≡ returned → Ended s
  by_exception : (e : Error) → s.main ≡ failed e → Ended s
  by_terminate : any_threw s.places ≡ true → Ended s

record Fine {R : Type 0} (program : Program) (events producers : ℕ) (s : State R) : Type 0 where
  bounded : Bounded program.over events producers s
  safe : Safe s
  lively : Lively s
