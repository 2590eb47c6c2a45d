-- ===== src/Apps/Producers/Dying.antt =====
-- After an exception that `submit` throws in a thread of apps/hpblr_record.cpp or apps/hpblr_bench.cpp.
use cpp_high_performance_bin.Base.{ℕ, ◌≡◌, refl, true, List, [], ◌∷◌}
use cpp_high_performance_bin.Apps.Producers.{Program, State, Action, any_threw, acts}

module _ {R : Type 0} (draw : R → ℕ × R) (program : Program) where
  pub dead_stays :
      (rest : List Action) (s : State R) → any_threw s.places ≡ true → acts draw program rest s ≡ s
  unfolding acts
  dead_stays [] s dead = refl
  dead_stays (a ∷ rest) s dead = rw dead refl
