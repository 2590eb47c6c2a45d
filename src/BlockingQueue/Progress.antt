-- ===== src/BlockingQueue/Progress.antt =====
-- Waiting and closing of `BlockingQueue` (include/hpblr/blocking_queue.hpp).
use cpp_high_performance_bin.Base.{
  ℕ, zero, suc, ◌<◌, ◌≡◌, ◌≢◌, refl, ap, ◌∙◌, true, Bool-cases, inl, inr, arith, List, [], ◌∷◌,
  ◌++◌, length, append-nil, Option, none, some, Bool,
}
use cpp_high_performance_bin.BlockingQueue.{BlockingQueue, Answer, waits, returns, push, pop, close}
use cpp_high_performance_bin.BlockingQueue.Steps.{
  push_closed, push_room, try_push_closed, pop_end, pop-some,
}
use cpp_high_performance_bin.BlockingQueue.Runs.{
  World, Attempt, pushes, tries, pops, closes, perform, pushed, Reachable, continues, Inv,
  Reachable-Inv,
}

module _ {ℓ} {T : Type ℓ} where
  -- The loop `while (queue.pop(event))` of a single consumer: what it gets until `pop` returns
  -- false. It stops at a `pop` that would wait, and when the fuel is used up.
  unfoldable pub drain : ℕ → BlockingQueue T → List T × Answer (Option T)
  drain zero q = ([], waits)
  drain (suc fuel) q = elim (pop q).0 [
    | waits ↦ ([], waits)
    | returns none ↦ ([], returns none)
    | returns (some value) ↦ let rest = drain fuel (pop q).1 in (value ∷ rest.0, rest.1)
  ]

  drain-closed :
      (fuel : ℕ) (xs : List T) (q : BlockingQueue T)
      → q.closed ≡ true
      → q.queue ≡ xs
      → length xs < fuel
      → drain fuel q ≡ (xs, returns none)
  unfolding drain
  drain-closed zero xs q shut e enough = absurd (omega arith)
  drain-closed (suc fuel) [] q shut e enough = rw (pop_end q shut e, drain) refl
  drain-closed (suc fuel) (x ∷ xs) q shut e enough =
      rw (pop-some q x xs e, drain)
        (ap
            (λ (t : Answer (Option T) × BlockingQueue T).
              (x ∷ (drain fuel t.1).0, (drain fuel t.1).1))
            (pop-some q x xs e)
          ∙ ap (λ (rest : List T × Answer (Option T)). (x ∷ rest.0, rest.1))
              (drain-closed fuel xs (record q { queue = xs }) shut refl (omega arith)))

  unfoldable pub perform_all : List (Attempt T) → World T → World T
  perform_all [] w = w
  perform_all (a ∷ later) w = perform_all later (perform a w)

  -- What a closed queue keeps: it stays closed and accepts nothing.
  record Shut (w w' : World T) : Type ℓ where
    shut : w'.shared.closed ≡ true
    same : w'.accepted ≡ w.accepted

  perform-Shut : (a : Attempt T) (w : World T) → w.shared.closed ≡ true → Shut w (perform a w)
  unfolding perform pushed close
  perform-Shut (pushes value) w shut =
      rw (push_closed value w.shared shut) (record { shut = shut; same = append-nil w.accepted })
  perform-Shut (tries value) w shut =
      rw (try_push_closed value w.shared shut)
        (record { shut = shut; same = append-nil w.accepted })
  perform-Shut pops w shut = go w.shared.queue refl
    where
      go : (xs : List T) → w.shared.queue ≡ xs → Shut w (perform pops w)
      go [] e = rw (pop_end w.shared shut e) (record { shut = shut; same = refl })
      go (x ∷ xs) e = rw (pop-some w.shared x xs e) (record { shut = shut; same = refl })
  perform-Shut closes w shut = record { shut = refl; same = refl }

  perform_all-Shut :
      (later : List (Attempt T)) (w : World T)
      → w.shared.closed ≡ true
      → Shut w (perform_all later w)
  unfolding perform_all
  perform_all-Shut [] w shut = record { shut = shut; same = refl }
  perform_all-Shut (a ∷ later) w shut =
      let first = perform-Shut a w shut in
      let rest = perform_all-Shut later (perform a w) first.shut in
      record { shut = rest.shut; same = rest.same ∙ first.same }

  perform_all-Reachable :
      (capacity : ℕ) (later : List (Attempt T)) (w : World T)
      → Reachable capacity w
      → Reachable capacity (perform_all later w)
  unfolding perform_all
  perform_all-Reachable capacity [] w h = h
  perform_all-Reachable capacity (a ∷ later) w h =
      perform_all-Reachable capacity later (perform a w) (continues a w h)

  -- After a `close` in any reached state, whatever the threads attempt then, no further element
  -- is accepted, and a consumer that pops until it is told the end, with fuel for more than the
  -- queued elements, gets behind what was handed out already exactly the rest of the elements
  -- accepted before the close, in order. It never waits.
  pub close-drain :
      (capacity : ℕ) (w : World T) (later : List (Attempt T)) (fuel : ℕ)
      → Reachable capacity w
      → length (perform_all later (perform closes w)).shared.queue < fuel
      → (rest : List T) × (drain fuel (perform_all later (perform closes w)).shared
          ≡ (rest, returns none))
        × ((perform_all later (perform closes w)).taken ++ rest ≡ w.accepted)
  unfolding perform close
  close-drain capacity w later fuel reached enough =
      let last = perform_all later (perform closes w) in
      let closed_ = perform_all-Shut later (perform closes w) refl in
      let inv =
        Reachable-Inv capacity last
          (perform_all-Reachable capacity later (perform closes w) (continues closes w reached)) in
      (
        last.shared.queue,
        drain-closed fuel last.shared.queue last.shared closed_.shut refl enough,
        inv.fifo ∙ closed_.same,
      )

  -- In any reached state in which a `push` waits, `pop` returns an element: a producer and the
  -- consumer never wait for each other.
  pub push_waits-pop :
      (capacity : ℕ) (w : World T) (value : T)
      → Reachable capacity w
      → (push value w.shared).0 ≡ waits
      → (x : T) × (xs : List T) × (pop w.shared
          ≡ (returns (some x), record (w.shared) { queue = xs }))
  push_waits-pop capacity w value reached stuck = go w.shared.queue refl
    where
      inv : Inv w
      inv = Reachable-Inv capacity w reached

      never_waits : w.shared.queue ≢ []
      never_waits e = elim (Bool-cases w.shared.closed) [
        | inl shut ↦
            let answered =
              ap (λ (t : Answer Bool × BlockingQueue T). t.0) (push_closed value w.shared shut) in
            cc (stuck, answered)
        | inr open_ ↦
            let room : length w.shared.queue < w.shared.capacity =
              omega (arith, ap length e, inv.roomy) in
            let answered =
              ap (λ (t : Answer Bool × BlockingQueue T). t.0)
                (push_room value w.shared open_ room) in
            cc (stuck, answered)
      ]

      go :
          (xs : List T)
          → w.shared.queue ≡ xs
          → (x : T) × (xs : List T) × (pop w.shared
              ≡ (returns (some x), record (w.shared) { queue = xs }))
      go [] e = absurd (never_waits e)
      go (x ∷ xs) e = (x, xs, pop-some w.shared x xs e)
