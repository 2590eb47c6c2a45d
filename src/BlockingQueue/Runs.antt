-- ===== src/BlockingQueue/Runs.antt =====
-- Threads that use one `BlockingQueue` (include/hpblr/blocking_queue.hpp): any sequence of atomic
-- steps, with what was accepted and what was handed out.
use cpp_high_performance_bin.Base.{
  ℕ, ◌<◌, ◌≤◌, ◌≡◌, refl, sym, ap, ◌∙◌, Bool, true, false, Bool-cases, ◌==◌, if◌then◌else◌, inl,
  inr, arith, List, [], ◌∷◌, ◌++◌, length, length-append, append_assoc, append-nil, Option, none,
  some,
}
use cpp_high_performance_bin.BlockingQueue.{
  BlockingQueue, Answer, waits, returns, construct, push, try_push, pop, push_back, close,
}
use cpp_high_performance_bin.BlockingQueue.Steps.{
  push_closed, push_full, push_room, try_push_closed, try_push_full, try_push_room, pop_waits,
  pop_end, pop-some, room_cases,
}

-- The queue, the elements that pushes have accepted and those that pops have handed out.
pub record World {ℓ} (T : Type ℓ) : Type ℓ where
  pub shared : BlockingQueue T
  pub accepted : List T
  pub taken : List T

-- An attempt by some thread.
pub data Attempt {ℓ} (T : Type ℓ) : Type ℓ where
  pushes tries : T → Attempt T
  pops closes : Attempt T

module _ {ℓ} {T : Type ℓ} where
  unfoldable pub pushed : T → Answer Bool → List T
  pushed value waits = []
  pushed value (returns false) = []
  pushed value (returns true) = value ∷ []

  unfoldable pub popped : Answer (Option T) → List T
  popped waits = []
  popped (returns none) = []
  popped (returns (some value)) = value ∷ []

  unfoldable pub perform : Attempt T → World T → World T
  perform (pushes value) w =
      let (answer, q) = push value w.shared in
      record w { shared = q; accepted = w.accepted ++ pushed value answer }
  perform (tries value) w =
      let (answer, q) = try_push value w.shared in
      record w { shared = q; accepted = w.accepted ++ pushed value (returns answer) }
  perform pops w =
      let (answer, q) = pop w.shared in record w { shared = q; taken = w.taken ++ popped answer }
  perform closes w = record w { shared = close w.shared }

  abbrev pub begin : ℕ → World T
  begin capacity = record { shared = construct capacity; accepted = []; taken = [] }

-- What the attempts of any threads, in any order, lead to.
pub data Reachable {ℓ} {T : Type ℓ} (capacity : ℕ) : World T → Type ℓ where
  begins : Reachable capacity (begin capacity)
  continues :
      (a : Attempt T) (w : World T) → Reachable capacity w → Reachable capacity (perform a w)

positive : (capacity : ℕ) → 0 < (if capacity == 0 then 1 else capacity)
positive capacity = ground arith

-- Nothing is lost, doubled or reordered, and the bound is kept.
pub record Inv {ℓ} {T : Type ℓ} (w : World T) : Type ℓ where
  pub fifo : w.taken ++ w.shared.queue ≡ w.accepted
  pub bounded : length w.shared.queue ≤ w.shared.capacity
  pub roomy : 0 < w.shared.capacity

module _ {ℓ} {T : Type ℓ} where
  -- A queue that accepts a further element.
  push_back-Inv :
      (value : T) (w : World T)
      → Inv w
      → length w.shared.queue < w.shared.capacity
      → Inv (record w { shared = push_back value w.shared; accepted = w.accepted ++ value ∷ [] })
  unfolding push_back
  push_back-Inv value w inv room = record {
    fifo =
        sym (append_assoc w.taken w.shared.queue (value ∷ []))
        ∙ ap (λ xs. xs ++ value ∷ []) inv.fifo;
    bounded = omega (arith, room, length-append w.shared.queue (value ∷ []));
    roomy = inv.roomy;
  }

  -- A refusal and a wait.
  refused-Inv :
      (w : World T) → Inv w → Inv (record w { shared = w.shared; accepted = w.accepted ++ [] })
  refused-Inv w inv = rw append-nil inv

  push-Inv : (value : T) (w : World T) → Inv w → Inv (perform (pushes value) w)
  unfolding perform pushed
  push-Inv value w inv = elim (Bool-cases w.shared.closed) [
    | inl shut ↦ rw (push_closed value w.shared shut) (refused-Inv w inv)
    | inr open_ ↦ elim (room_cases w.shared) [
      | inl room ↦ rw (push_room value w.shared open_ room) (push_back-Inv value w inv room)
      | inr full ↦ rw (push_full value w.shared open_ full) (refused-Inv w inv)
    ]
  ]

  try_push-Inv : (value : T) (w : World T) → Inv w → Inv (perform (tries value) w)
  unfolding perform pushed
  try_push-Inv value w inv = elim (Bool-cases w.shared.closed) [
    | inl shut ↦ rw (try_push_closed value w.shared shut) (refused-Inv w inv)
    | inr open_ ↦ elim (room_cases w.shared) [
      | inl room ↦ rw (try_push_room value w.shared open_ room) (push_back-Inv value w inv room)
      | inr full ↦ rw (try_push_full value w.shared full) (refused-Inv w inv)
    ]
  ]

  pop-Inv : (w : World T) → Inv w → Inv (perform pops w)
  unfolding perform popped
  pop-Inv w inv = go w.shared.queue refl
    where
      nothing-Inv : Inv (record w { shared = w.shared; taken = w.taken ++ [] })
      nothing-Inv = rw append-nil inv

      go : (xs : List T) → w.shared.queue ≡ xs → Inv (perform pops w)
      go [] e = elim (Bool-cases w.shared.closed) [
        | inl shut ↦ rw (pop_end w.shared shut e) nothing-Inv
        | inr open_ ↦ rw (pop_waits w.shared open_ e) nothing-Inv
      ]
      go (x ∷ xs) e = rw (pop-some w.shared x xs e) (record {
        fifo = append_assoc w.taken (x ∷ []) xs ∙ ap (◌++◌ w.taken) (sym e) ∙ inv.fifo;
        bounded = omega (arith, inv.bounded, ap length e);
        roomy = inv.roomy;
      })

  perform-Inv : (a : Attempt T) (w : World T) → Inv w → Inv (perform a w)
  unfolding perform close
  perform-Inv (pushes value) w inv = push-Inv value w inv
  perform-Inv (tries value) w inv = try_push-Inv value w inv
  perform-Inv pops w inv = pop-Inv w inv
  perform-Inv closes w inv = record { fifo = inv.fifo; bounded = inv.bounded; roomy = inv.roomy }

  -- From a new queue on, whatever the threads do, the elements handed out and then those in the
  -- queue are the accepted ones in the order of acceptance, and the queue never exceeds its
  -- positive capacity.
  pub Reachable-Inv : (capacity : ℕ) (w : World T) → Reachable capacity w → Inv w
  unfolding construct
  Reachable-Inv capacity _ begins = record {
    fifo = refl;
    bounded = omega arith;
    roomy = positive capacity;
  }
  Reachable-Inv capacity _ (continues a w before) =
      perform-Inv a w (Reachable-Inv capacity w before)
