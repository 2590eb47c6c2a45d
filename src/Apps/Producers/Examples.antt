-- ===== src/Apps/Producers/Examples.antt =====
-- An order in which one producer of apps/hpblr_record.cpp or apps/hpblr_bench.cpp with one event, the
-- writer thread and `main` may act, and an engine that counts.
use cpp_high_performance_bin.Base.{ℕ, zero, suc, ◌+◌, arith, List, ◌++◌, All, All-append, replicate}
use cpp_high_performance_bin.Apps.Producers.{Action, main_acts, writer_acts, producer_acts}
use cpp_high_performance_bin.Apps.Producers.Traces.{IsTimed}

abbrev pub counter : ℕ → ℕ × ℕ
counter n = (n, n + 1)

-- What the writer thread and `main` do when the producer has ended.
abbrev closing_acts : List Action
closing_acts =
    replicate 3 writer_acts
    ++ (replicate 3 main_acts ++ (replicate 2 writer_acts ++ replicate 3 main_acts))

abbrev pub schedule : List Action
schedule = replicate 9 (producer_acts 0 1000) ++ closing_acts

all-IsTimed : (n : ℕ) (a : Action) → IsTimed a → All IsTimed (replicate n a)
all-IsTimed zero a h = tt
all-IsTimed (suc n) a h = (h, all-IsTimed n a h)

pub schedule-IsTimed : All IsTimed schedule
schedule-IsTimed =
    All-append IsTimed (replicate 9 (producer_acts 0 1000)) closing_acts
      (all-IsTimed 9 (producer_acts 0 1000) (omega arith))
      (tt, (tt, (tt, (tt, (tt, (tt, (tt, (tt, (tt, (tt, (tt, tt)))))))))))
