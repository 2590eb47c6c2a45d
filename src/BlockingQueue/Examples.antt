-- ===== src/BlockingQueue/Examples.antt =====
-- A queue of capacity two (include/hpblr/blocking_queue.hpp) on concrete elements.
use cpp_high_performance_bin.Base.{
  ℕ, ◌≡◌, refl, arith, List, [], ◌∷◌, ◌++◌, length, ◌<◌, none, some,
}
use cpp_high_performance_bin.BlockingQueue.{
  waits, returns, construct, push, pop, pop_front, push_back, close,
}
use cpp_high_performance_bin.BlockingQueue.Runs.{
  World, Attempt, pushes, pops, closes, perform, pushed, popped, begin, Reachable, begins,
  continues, Inv, Reachable-Inv,
}
use cpp_high_performance_bin.BlockingQueue.Progress.{
  drain, perform_all, close-drain, push_waits-pop,
}

abbrev two_in : World ℕ
two_in = perform (pushes 6) (perform (pushes 5) (begin 2))

two_in-Reachable : Reachable 2 two_in
two_in-Reachable =
    continues (pushes 6) (perform (pushes 5) (begin 2)) (continues (pushes 5) (begin 2) begins)

full_waits : (push 7 two_in.shared).0 ≡ waits
unfolding perform pushed construct push push_back
full_waits = refl

Reachable-Inv_example : Inv two_in
Reachable-Inv_example = Reachable-Inv 2 two_in two_in-Reachable

push_waits-pop_example :
    (x : ℕ) × (xs : List ℕ) × (pop two_in.shared
      ≡ (returns (some x), record (two_in.shared) { queue = xs }))
push_waits-pop_example = push_waits-pop 2 two_in 7 two_in-Reachable full_waits

-- After the close one element is popped and one push is refused.
abbrev later : List (Attempt ℕ)
later = pops ∷ pushes 8 ∷ []

one_left : length (perform_all later (perform closes two_in)).shared.queue < 2
unfolding perform_all perform pushed popped construct push pop pop_front push_back close
one_left = omega arith

close-drain_example :
    (rest : List ℕ) × (drain 2 (perform_all later (perform closes two_in)).shared
      ≡ (rest, returns none))
    × ((perform_all later (perform closes two_in)).taken ++ rest ≡ two_in.accepted)
close-drain_example = close-drain 2 two_in later 2 two_in-Reachable one_left
