-- ===== src/EventGenerator/Examples.antt =====
-- A generator with an engine that counts.
use cpp_high_performance_bin.Base.{ℕ, ◌+◌, ◌%◌, ◌≡◌, arith, length, drop}
use cpp_high_performance_bin.Event.{severity_to_u16}
use cpp_high_performance_bin.BinaryLog.Format.{IsStorable}
use cpp_high_performance_bin.BinaryLog.Words.{read_u64}
use cpp_high_performance_bin.EventGenerator.{GeneratorConfig, construct, next}
use cpp_high_performance_bin.EventGenerator.Events.{generated-IsStorable, read_u64-next}

abbrev counter : ℕ → ℕ × ℕ
counter n = (n, n + 1)

abbrev config : GeneratorConfig
config = record { producer_id = 3; event_type_base = 130; payload_size = 30; seed = 7 }

abbrev first : ℕ
first = construct (λ seed. seed) config

generated-IsStorable_example :
    IsStorable ((next counter config 1000 8 first).0)
    × (length ((next counter config 1000 8 first).0.payload) ≡ 30)
    × (severity_to_u16 ((next counter config 1000 8 first).0.severity) ≡ 8 % 6)
generated-IsStorable_example =
    generated-IsStorable counter config 1000 8 first (omega arith) (omega arith) (omega arith)
      (omega arith)

read_u64-next_example :
    (read_u64 ((next counter config 1000 8 first).0.payload) ≡ 8)
    × (read_u64 (drop 8 ((next counter config 1000 8 first).0.payload)) ≡ 3)
    × (read_u64 (drop 16 ((next counter config 1000 8 first).0.payload)) ≡ 1000)
read_u64-next_example =
    read_u64-next counter config 1000 8 first (omega arith) (omega arith) (omega arith)
      (omega arith)
