-- ===== src/BlockingQueue.antt =====
-- include/hpblr/blocking_queue.hpp: the bounded queue between producers and the writer thread.
-- Each method holds the mutex from its first test to its last change, and a wait on a condition
-- variable gives it back without a change. So a method is one atomic step, which either returns
-- or waits: `waits` is the answer of a step whose predicate is false, after which the thread tries
-- again when it is notified.
pub mod Steps
pub mod Runs
pub mod Progress
mod Examples
use cpp_high_performance_bin.Base.{
  ℕ, Bool, true, false, not, ◌&&◌, ◌||◌, leb, ltb, ◌==◌, if◌then◌else◌, List, [], ◌∷◌, ◌++◌, length,
  is_empty, Option, some, none,
}

pub data Answer {ℓ} (B : Type ℓ) : Type ℓ where
  waits : Answer B
  returns : B → Answer B

pub record BlockingQueue {ℓ} (T : Type ℓ) : Type ℓ where
  pub capacity : ℕ
  pub queue : List T
  pub closed : Bool

module _ {ℓ} {T : Type ℓ} where
  -- A capacity of zero is raised to one.
  unfoldable pub construct : ℕ → BlockingQueue T
  construct capacity = record {
    capacity = if capacity == 0 then 1 else capacity;
    queue = [];
    closed = false;
  }

  unfoldable pub push_back : T → BlockingQueue T → BlockingQueue T
  push_back value q = record q { queue = q.queue ++ value ∷ [] }

  unfoldable pub push : T → BlockingQueue T → Answer Bool × BlockingQueue T
  push value q =
      if not (q.closed || ltb (length q.queue) q.capacity)
      then (waits, q)
      else if q.closed
      then (returns false, q)
      else (returns true, push_back value q)

  unfoldable pub try_push : T → BlockingQueue T → Bool × BlockingQueue T
  try_push value q =
      if q.closed || leb q.capacity (length q.queue) then (false, q) else (true, push_back value q)

  -- The end of `pop`, on the elements that the queue holds.
  unfoldable pub pop_front : List T → BlockingQueue T → Answer (Option T) × BlockingQueue T
  pop_front [] q = (returns none, q)
  pop_front (x ∷ xs) q = (returns (some x), record q { queue = xs })

  -- `pop` with the element that it moves to `out`, where it returns true.
  unfoldable pub pop : BlockingQueue T → Answer (Option T) × BlockingQueue T
  pop q = if not (q.closed || not (is_empty q.queue)) then (waits, q) else pop_front q.queue q

  unfoldable pub close : BlockingQueue T → BlockingQueue T
  close q = record q { closed = true }

  abbrev pub size : BlockingQueue T → ℕ
  size q = length q.queue

  abbrev pub is_closed : BlockingQueue T → Bool
  is_closed q = q.closed
