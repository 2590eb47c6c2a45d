-- ===== src/BlockingQueue/Steps.antt =====
-- The methods of `BlockingQueue` (include/hpblr/blocking_queue.hpp) in each state of the queue.
use cpp_high_performance_bin.Base.{
  ◌⊎◌, ◌<◌, ◌≤◌, ◌≡◌, Bool-cases, inl, inr, true, false, leb, ltb, arith, List, [], ◌∷◌, length,
  none, some,
}
use cpp_high_performance_bin.BlockingQueue.{
  BlockingQueue, waits, returns, push, try_push, pop, pop_front, push_back,
}

module _ {ℓ} {T : Type ℓ} where
  pub push_closed :
      (value : T) (q : BlockingQueue T) → q.closed ≡ true → push value q ≡ (returns false, q)
  unfolding push
  push_closed value q shut = simp shut

  pub push_full :
      (value : T) (q : BlockingQueue T)
      → q.closed ≡ false
      → q.capacity ≤ length q.queue
      → push value q ≡ (waits, q)
  unfolding push
  push_full value q open_ full =
      let no_room : ltb (length q.queue) q.capacity ≡ false = ground arith in simp (open_, no_room)

  pub push_room :
      (value : T) (q : BlockingQueue T)
      → q.closed ≡ false
      → length q.queue < q.capacity
      → push value q ≡ (returns true, push_back value q)
  unfolding push
  push_room value q open_ room =
      let free : ltb (length q.queue) q.capacity ≡ true = ground arith in simp (open_, free)

  pub try_push_closed :
      (value : T) (q : BlockingQueue T) → q.closed ≡ true → try_push value q ≡ (false, q)
  unfolding try_push
  try_push_closed value q shut = simp shut

  pub try_push_full :
      (value : T) (q : BlockingQueue T)
      → q.capacity ≤ length q.queue
      → try_push value q ≡ (false, q)
  unfolding try_push
  try_push_full value q full =
      let no_room : leb q.capacity (length q.queue) ≡ true = ground arith in
      elim (Bool-cases q.closed) [
        | inl shut ↦ try_push_closed value q shut
        | inr open_ ↦ simp (open_, no_room)
      ]

  pub try_push_room :
      (value : T) (q : BlockingQueue T)
      → q.closed ≡ false
      → length q.queue < q.capacity
      → try_push value q ≡ (true, push_back value q)
  unfolding try_push
  try_push_room value q open_ room =
      let free : leb q.capacity (length q.queue) ≡ false = ground arith in simp (open_, free)

  pub pop_waits : (q : BlockingQueue T) → q.closed ≡ false → q.queue ≡ [] → pop q ≡ (waits, q)
  unfolding pop
  pop_waits q open_ empty = simp (open_, empty)

  pub pop_end : (q : BlockingQueue T) → q.closed ≡ true → q.queue ≡ [] → pop q ≡ (returns none, q)
  unfolding pop pop_front
  pop_end q shut empty = simp (shut, empty)

  pub pop-some :
      (q : BlockingQueue T) (x : T) (xs : List T)
      → q.queue ≡ x ∷ xs
      → pop q ≡ (returns (some x), record q { queue = xs })
  unfolding pop pop_front
  pop-some q x xs e = elim (Bool-cases q.closed) [
    | inl shut ↦ simp (shut, e)
    | inr open_ ↦ simp (open_, e)
  ]

  pub room_cases :
      (q : BlockingQueue T) → (length q.queue < q.capacity) ⊎ (q.capacity ≤ length q.queue)
  room_cases q = ground arith
