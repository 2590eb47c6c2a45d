-- ===== src/Apps/Producers/Live.antt =====
-- Who waits for whom among the threads of apps/hpblr_record.cpp and apps/hpblr_bench.cpp.
use cpp_high_performance_bin.Base.{
  ℕ, ◌≤◌, ◌<◌, ◌≡◌, ◌≢◌, refl, sym, subst, ◌∙◌, true, false, Bool-cases, inl, inr, Option, none,
  some, arith, List, [], ◌∷◌,
}
use cpp_high_performance_bin.Errors.{Error, Result, ok, err}
use cpp_high_performance_bin.Event.{Event}
use cpp_high_performance_bin.BinaryLog.Writer
use cpp_high_performance_bin.BlockingQueue
use cpp_high_performance_bin.BlockingQueue.{
  BlockingQueue, Answer, waits, returns, push, push_back, pop, pop_front,
}
use cpp_high_performance_bin.BlockingQueue.Steps.{
  push_closed, push_full, push_room, room_cases, pop_waits, pop_end, pop-some,
}
use cpp_high_performance_bin.AsyncRecorder.{
  AsyncRecorder, WriterThread, popping, appending, counting, flushing, failing, closing, finished,
  after_pop, after_call, run_step, Submission, entering, testing, pushing, accepting, rejecting,
  answered, rethrown, submit_step, Stop, exchanging, shutting, joining, checking, stopped,
  stop_rethrown, stop_step, after_join, after_stop_check,
}
use cpp_high_performance_bin.AsyncRecorder.Invariant.{is_drained}
use cpp_high_performance_bin.AsyncRecorder.Joining.{left_of}
use cpp_high_performance_bin.Apps.Producers.{stopping, after_stop}
use cpp_high_performance_bin.Apps.Producers.Calm.{push_keeps_closed}

-- The queue has room for an element, and the writer thread goes to its end only when it is closed.
pub record Alive (r : AsyncRecorder) : Type 0 where
  pub room : 1 ≤ r.queue.capacity
  pub shut : is_drained r.writer_thread ≡ true → r.queue.closed ≡ true

abbrev Drains : Answer (Option Event) × BlockingQueue Event → Type 0
Drains t = is_drained (after_pop t.0) ≡ true → t.1.closed ≡ true

pop-Drains : (q : BlockingQueue Event) (xs : List Event) → q.queue ≡ xs → Drains (pop q)
unfolding after_pop
pop-Drains q [] e = elim (Bool-cases q.closed) [
  | inl shut ↦ subst Drains (sym (pop_end q shut e)) (λ d. shut)
  | inr open_ ↦ subst Drains (sym (pop_waits q open_ e)) (λ d. cc d)
]
pop-Drains q (x ∷ xs) e = subst Drains (sym (pop-some q x xs e)) (λ d. cc d)

pop_keeps :
    (q : BlockingQueue Event) (xs : List Event)
    → q.queue ≡ xs
    → ((pop q).1.closed ≡ q.closed) × ((pop q).1.capacity ≡ q.capacity)
pop_keeps q [] e = elim (Bool-cases q.closed) [
  | inl shut ↦ rw (pop_end q shut e) (refl, refl)
  | inr open_ ↦ rw (pop_waits q open_ e) (refl, refl)
]
pop_keeps q (x ∷ xs) e = rw (pop-some q x xs e) (refl, refl)

after_call_drained :
    (result : Result (Unit {0})) (next : WriterThread)
    → is_drained (after_call result next) ≡ true
    → is_drained next ≡ true
unfolding after_call
after_call_drained (ok _) next h = h
after_call_drained (err error) next h = cc h

-- The writer thread closes the queue or leaves it as it is.
pub run_step-Alive :
    (t : WriterThread) (r : AsyncRecorder) → r.writer_thread ≡ t → Alive r → Alive (run_step t r)
unfolding run_step BlockingQueue.close
run_step-Alive popping r at a =
    let same = (pop_keeps r.queue r.queue.queue refl).1 in
    record { room = omega (arith, a.room, same); shut = pop-Drains r.queue r.queue.queue refl }
run_step-Alive (appending event) r at a = record {
  room = a.room;
  shut = λ d. let d' = after_call_drained (Writer.append event r.writer).0 counting d in cc d';
}
run_step-Alive counting r at a = record { room = a.room; shut = λ d. cc d }
run_step-Alive flushing r at a = record { room = a.room; shut = λ d. a.shut (rw at refl) }
run_step-Alive (failing error) r at a = record { room = a.room; shut = λ d. cc d }
run_step-Alive closing r at a = record { room = a.room; shut = λ d. refl }
run_step-Alive finished r at a = a

pub run_step_closed :
    (t : WriterThread) (r : AsyncRecorder)
    → r.queue.closed ≡ true
    → (run_step t r).queue.closed ≡ true
unfolding run_step BlockingQueue.close
run_step_closed popping r h = (pop_keeps r.queue r.queue.queue refl).0 ∙ h
run_step_closed (appending event) r h = h
run_step_closed counting r h = h
run_step_closed flushing r h = h
run_step_closed (failing error) r h = h
run_step_closed closing r h = refl
run_step_closed finished r h = h

push_keeps_capacity : (e : Event) (q : BlockingQueue Event) → (push e q).1.capacity ≡ q.capacity
unfolding push_back
push_keeps_capacity e q = elim (Bool-cases q.closed) [
  | inl shut ↦ rw (push_closed e q shut) refl
  | inr open_ ↦ elim (room_cases q) [
    | inl room ↦ rw (push_room e q open_ room) refl
    | inr full ↦ rw (push_full e q open_ full) refl
  ]
]

-- A call of `submit` leaves the queue open or closed.
pub submit_step-Alive : (s : Submission) (r : AsyncRecorder) → Alive r → Alive (submit_step s r).1
unfolding submit_step
submit_step-Alive (pushing event) r a =
    let same = push_keeps_capacity event r.queue in
    record {
      room = omega (arith, a.room, same);
      shut = λ d. push_keeps_closed event r.queue ∙ a.shut d;
    }
submit_step-Alive (entering event) r a = a
submit_step-Alive (testing event) r a = a
submit_step-Alive accepting r a = record { room = a.room; shut = a.shut }
submit_step-Alive rejecting r a = record { room = a.room; shut = a.shut }
submit_step-Alive (answered b) r a = a
submit_step-Alive (rethrown error) r a = a

pub stop_step-Alive : (s : Stop) (r : AsyncRecorder) → Alive r → Alive (stop_step s r).1
unfolding stop_step BlockingQueue.close
stop_step-Alive exchanging r a = record { room = a.room; shut = a.shut }
stop_step-Alive shutting r a = record { room = a.room; shut = λ d. refl }
stop_step-Alive joining r a = a
stop_step-Alive checking r a = a
stop_step-Alive stopped r a = a
stop_step-Alive (stop_rethrown error) r a = a

-- Where the call of `stop` in `main` stands.
pub record Going (r : AsyncRecorder) (s : Stop) : Type 0 where
  pub first : s ≡ exchanging → r.stopping ≡ false
  pub shut : s ≡ joining → r.queue.closed ≡ true
  pub open_ : (s ≢ stopped) × ((e : Error) → s ≢ stop_rethrown e)

abbrev pub stop_left : Stop → ℕ
stop_left exchanging = 5
stop_left shutting = 4
stop_left joining = 3
stop_left checking = 2
stop_left stopped = 0
stop_left (stop_rethrown error) = 0

after_check_left : (o : Option Error) → stop_left (after_stop_check o) < 2
unfolding after_stop_check
after_check_left none = omega arith
after_check_left (some error) = omega arith

-- A step of `stop` that does not wait in the join.
pub stop_step_less :
    (s : Stop) (r : AsyncRecorder)
    → Going r s
    → (s ≡ joining → r.writer_thread ≡ finished)
    → (stop_left (stop_step s r).0 < stop_left s) × (left_of (stop_step s r).1 ≡ left_of r)
unfolding stop_step BlockingQueue.close
stop_step_less exchanging r g done = rw (g.first refl) (omega arith, refl)
stop_step_less shutting r g done = (omega arith, refl)
stop_step_less joining r g done = rw (done refl) (unfold after_join in (omega arith, refl))
stop_step_less checking r g done = (after_check_left r.writer_error, refl)
stop_step_less stopped r g done = absurd (g.open_.0 refl)
stop_step_less (stop_rethrown error) r g done = absurd (g.open_.1 error refl)

join-Going :
    (i j : ℕ) (t : WriterThread) (r : AsyncRecorder)
    → r.queue.closed ≡ true
    → after_stop (stopping i) (after_join t) ≡ stopping j
    → (i ≡ j) × Going r (after_join t)
unfolding after_stop after_join
join-Going i j finished r shut e =
    (cc e, record { first = λ d. cc d; shut = λ d. shut; open_ = (λ d. cc d, λ x d. cc d) })
join-Going i j popping r shut e =
    (cc e, record { first = λ d. cc d; shut = λ d. shut; open_ = (λ d. cc d, λ x d. cc d) })
join-Going i j (appending event) r shut e =
    (cc e, record { first = λ d. cc d; shut = λ d. shut; open_ = (λ d. cc d, λ x d. cc d) })
join-Going i j counting r shut e =
    (cc e, record { first = λ d. cc d; shut = λ d. shut; open_ = (λ d. cc d, λ x d. cc d) })
join-Going i j flushing r shut e =
    (cc e, record { first = λ d. cc d; shut = λ d. shut; open_ = (λ d. cc d, λ x d. cc d) })
join-Going i j (failing error) r shut e =
    (cc e, record { first = λ d. cc d; shut = λ d. shut; open_ = (λ d. cc d, λ x d. cc d) })
join-Going i j closing r shut e =
    (cc e, record { first = λ d. cc d; shut = λ d. shut; open_ = (λ d. cc d, λ x d. cc d) })

check_leaves :
    (i j : ℕ) (o : Option Error) → after_stop (stopping i) (after_stop_check o) ≢ stopping j
unfolding after_stop after_stop_check
check_leaves i j none e = cc e
check_leaves i j (some error) e = cc e

-- What follows a step of `stop` in `main`: the call goes on, or `main` leaves it.
pub stop_step-Going :
    (i : ℕ) (s : Stop) (r : AsyncRecorder) (j : ℕ)
    → Going r s
    → after_stop (stopping i) (stop_step s r).0 ≡ stopping j
    → (i ≡ j) × Going (stop_step s r).1 (stop_step s r).0
unfolding stop_step after_stop BlockingQueue.close
stop_step-Going i exchanging r j g e = elim (Bool-cases r.stopping) [
  | inl again ↦ let calm = g.first refl in cc (again, calm)
  | inr first ↦
      let e' = simp first at e in
      rw first
        (cc e', record { first = λ d. cc d; shut = λ d. cc d; open_ = (λ d. cc d, λ x d. cc d) })
]
stop_step-Going i shutting r j g e =
    (cc e, record { first = λ d. cc d; shut = λ d. refl; open_ = (λ d. cc d, λ x d. cc d) })
stop_step-Going i joining r j g e = join-Going i j r.writer_thread r (g.shut refl) e
stop_step-Going i checking r j g e = absurd (check_leaves i j r.writer_error e)
stop_step-Going i stopped r j g e = absurd (g.open_.0 refl)
stop_step-Going i (stop_rethrown error) r j g e = absurd (g.open_.1 error refl)
