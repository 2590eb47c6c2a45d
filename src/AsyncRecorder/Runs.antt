-- ===== src/AsyncRecorder/Runs.antt =====
-- Any interleaving of the actions of the writer thread and of threads in `submit` and `stop`
-- (src/core/async_recorder.cpp).
use cpp_high_performance_bin.Base.{
  ℕ, ◌≡◌, refl, sym, ap, subst, ◌∙◌, Bool, true, false, Bool-cases, inl, inr, none, List, [], ◌∷◌,
  ◌++◌, get_or, set, append_assoc, append-nil,
}
use cpp_high_performance_bin.Errors.{ok}
use cpp_high_performance_bin.Event.{Event}
use cpp_high_performance_bin.BinaryLog.Stream.{Ofstream, taken}
use cpp_high_performance_bin.BinaryLog.Format.{file_bytes}
use cpp_high_performance_bin.BinaryLog.Writer
use cpp_high_performance_bin.BinaryLog.Writer.{Writer, WriterOptions}
use cpp_high_performance_bin.BinaryLog.Writer.Log.{construct-Inv, construct_open, behind_empty}
use cpp_high_performance_bin.BinaryLog.Stream.Laws.{content_settled}
use cpp_high_performance_bin.BlockingQueue
use cpp_high_performance_bin.BlockingQueue.{push, push_back}
use cpp_high_performance_bin.BlockingQueue.Steps.{push_closed, push_full, push_room, room_cases}
use cpp_high_performance_bin.BlockingQueue.Runs.{pushed}
use cpp_high_performance_bin.AsyncRecorder.{
  AsyncRecorder, WriterThread, finished, construct, run_step, Submission, entering, testing,
  pushing, accepting, rejecting, answered, rethrown, submit_step, Stop, exchanging, shutting,
  joining, checking, stopped, stop_rethrown, stop_step,
}
use cpp_high_performance_bin.AsyncRecorder.Invariant.{Inv, in_hand, is_none, logs, run_step-Inv}

-- The recorder, the calls in flight, the events that the log has and those that pushes accepted.
pub record World : Type 0 where
  pub recorder : AsyncRecorder
  pub submissions : List Submission
  pub stops : List Stop
  pub logged : List Event
  pub accepted : List Event

-- A call begins, or the thread of a call or the writer thread takes its next action.
pub data Move : Type 0 where
  writer_moves stop_called : Move
  submit_called : Event → Move
  submit_moves stop_moves : ℕ → Move

unfoldable pub accepts : Submission → AsyncRecorder → List Event
accepts (pushing event) r = pushed event (push event r.queue).0
accepts (entering event) r = []
accepts (testing event) r = []
accepts accepting r = []
accepts rejecting r = []
accepts (answered b) r = []
accepts (rethrown error) r = []

unfoldable pub move : Move → World → World
move writer_moves w =
    let r = w.recorder in
    record w { recorder = run_step r.writer_thread r; logged = w.logged ++ logs r.writer_thread r }
move stop_called w = record w { stops = w.stops ++ exchanging ∷ [] }
move (submit_called event) w = record w { submissions = w.submissions ++ entering event ∷ [] }
move (submit_moves i) w =
    let s = get_or w.submissions i (answered false) in
    record w {
      recorder = (submit_step s w.recorder).1;
      submissions = set w.submissions i (submit_step s w.recorder).0;
      accepted = w.accepted ++ accepts s w.recorder;
    }
move (stop_moves i) w =
    let s = get_or w.stops i joining in
    record w {
      recorder = (stop_step s w.recorder).1;
      stops = set w.stops i (stop_step s w.recorder).0;
    }

unfoldable pub moves : List Move → World → World
moves [] w = w
moves (m ∷ ms) w = moves ms (move m w)

abbrev pub begin : Writer → ℕ → World
begin writer capacity = record {
  recorder = construct writer capacity;
  submissions = [];
  stops = [];
  logged = [];
  accepted = [];
}

module _ {now : ℕ} where
  -- The counters and the flag do not matter.
  touched-Inv :
      {logged accepted : List Event} {t : WriterThread} (r : AsyncRecorder) (stopping : Bool)
      (submitted rejected : ℕ)
      → Inv now r t logged accepted
      → Inv now
          (record r { stopping = stopping; submitted = submitted; rejected = rejected })
          t
          logged
          accepted
  touched-Inv r stopping submitted rejected inv = record {
    log = inv.log;
    open_ = inv.open_;
    lossless = inv.lossless;
    drained = inv.drained;
    flushed = inv.flushed;
    told = inv.told;
  }

  close-Inv :
      {logged accepted : List Event} {t : WriterThread} (r : AsyncRecorder)
      → Inv now r t logged accepted
      → Inv now (record r { queue = BlockingQueue.close r.queue }) t logged accepted
  unfolding BlockingQueue.close
  close-Inv r inv = record {
    log = inv.log;
    open_ = inv.open_;
    lossless = inv.lossless;
    drained = λ h d. ((inv.drained h d).0, refl);
    flushed = inv.flushed;
    told = inv.told;
  }

  push-Inv :
      {logged accepted : List Event} {t : WriterThread} (e : Event) (r : AsyncRecorder)
      → Inv now r t logged accepted
      → Inv now
          (record r { queue = (push e r.queue).1 })
          t
          logged
          (accepted ++ pushed e (push e r.queue).0)
  unfolding pushed push_back
  push-Inv {logged} {accepted} {t} e r inv = elim (Bool-cases r.queue.closed) [
    | inl shut ↦ rw (push_closed e r.queue shut) refused
    | inr open_ ↦ elim (room_cases r.queue) [
      | inl room ↦ rw (push_room e r.queue open_ room) (record {
        log = inv.log;
        open_ = inv.open_;
        lossless = λ h.
            ap (◌++◌ logged) (sym (append_assoc (in_hand t) r.queue.queue (e ∷ [])))
            ∙ sym (append_assoc logged (in_hand t ++ r.queue.queue) (e ∷ []))
            ∙ ap (λ xs. xs ++ e ∷ []) (inv.lossless h);
        drained = λ h d. let closed_ = (inv.drained h d).1 in (cc closed_, cc closed_);
        flushed = inv.flushed;
        told = inv.told;
      })
      | inr full ↦ rw (push_full e r.queue open_ full) refused
    ]
  ]
    where
      refused : Inv now (record r { queue = r.queue }) t logged (accepted ++ [])
      refused = rw append-nil inv

  submit_step-Inv :
      {logged accepted : List Event} {t : WriterThread} (s : Submission) (r : AsyncRecorder)
      → Inv now r t logged accepted
      → Inv now (submit_step s r).1 t logged (accepted ++ accepts s r)
  unfolding submit_step accepts
  submit_step-Inv (entering event) r inv = rw append-nil inv
  submit_step-Inv (testing event) r inv = rw append-nil inv
  submit_step-Inv (pushing event) r inv = push-Inv event r inv
  submit_step-Inv accepting r inv = rw append-nil (touched-Inv r r.stopping _ r.rejected inv)
  submit_step-Inv rejecting r inv = rw append-nil (touched-Inv r r.stopping r.submitted _ inv)
  submit_step-Inv (answered b) r inv = rw append-nil inv
  submit_step-Inv (rethrown error) r inv = rw append-nil inv

  stop_step-Inv :
      {logged accepted : List Event} {t : WriterThread} (s : Stop) (r : AsyncRecorder)
      → Inv now r t logged accepted
      → Inv now (stop_step s r).1 t logged accepted
  unfolding stop_step
  stop_step-Inv exchanging r inv = touched-Inv r true r.submitted r.rejected inv
  stop_step-Inv shutting r inv = close-Inv r inv
  stop_step-Inv joining r inv = inv
  stop_step-Inv checking r inv = inv
  stop_step-Inv stopped r inv = inv
  stop_step-Inv (stop_rethrown error) r inv = inv

pub submit_step-thread :
    (s : Submission) (r : AsyncRecorder) → (submit_step s r).1.writer_thread ≡ r.writer_thread
unfolding submit_step
submit_step-thread (pushing event) r = refl
submit_step-thread s r = refl

pub stop_step-thread :
    (s : Stop) (r : AsyncRecorder) → (stop_step s r).1.writer_thread ≡ r.writer_thread
unfolding stop_step
stop_step-thread exchanging r = refl
stop_step-thread s r = refl

unfoldable pub IsSound : ℕ → World → Type 0
IsSound now w = Inv now w.recorder w.recorder.writer_thread w.logged w.accepted

pub move-IsSound : (now : ℕ) (m : Move) (w : World) → IsSound now w → IsSound now (move m w)
unfolding move IsSound
move-IsSound now writer_moves w inv = run_step-Inv w.recorder.writer_thread w.recorder refl inv
move-IsSound now stop_called w inv = inv
move-IsSound now (submit_called event) w inv = inv
move-IsSound now (submit_moves i) w inv =
    let s = get_or w.submissions i (answered false) in
    subst
      (λ t. Inv now (submit_step s w.recorder).1 t w.logged (w.accepted ++ accepts s w.recorder))
      (sym (submit_step-thread s w.recorder)) (submit_step-Inv s w.recorder inv)
move-IsSound now (stop_moves i) w inv =
    let s = get_or w.stops i joining in
    subst (λ t. Inv now (stop_step s w.recorder).1 t w.logged w.accepted)
      (sym (stop_step-thread s w.recorder)) (stop_step-Inv s w.recorder inv)

moves-IsSound : (now : ℕ) (ms : List Move) (w : World) → IsSound now w → IsSound now (moves ms w)
unfolding moves
moves-IsSound now [] w inv = inv
moves-IsSound now (m ∷ ms) w inv = moves-IsSound now ms (move m w) (move-IsSound now m w inv)

-- The writer thread has ended without an error: everything accepted is in the log.
pub all_logged :
    {now : ℕ} {logged accepted : List Event} (r : AsyncRecorder)
    → Inv now r finished logged accepted
    → r.writer_error ≡ none
    → logged ≡ accepted
all_logged {now} {logged} {accepted} r inv calm =
    sym (append-nil logged)
    ∙ ap (◌++◌ logged) (sym (inv.drained (ap is_none calm) refl).0)
    ∙ inv.lossless (ap is_none calm)

complete :
    {now : ℕ} {logged accepted : List Event} (r : AsyncRecorder)
    → Inv now r finished logged accepted
    → r.writer_error ≡ none
    → r.writer.out.content ≡ file_bytes now accepted
complete {now} r inv calm =
    let stored = inv.flushed (ap is_none calm) refl in
    content_settled r.writer.out stored.2
    ∙ behind_empty inv.log stored.0 stored.1
    ∙ ap (file_bytes now) (all_logged r inv calm)

module _ (out : Ofstream) (options : WriterOptions) (now : ℕ) (writer : Writer)
    (empty : taken out ≡ []) (made : Writer.construct out options now ≡ (ok tt, writer))
    (capacity : ℕ) (ms : List Move) where
  pub begun : IsSound now (moves ms (begin writer capacity))
  unfolding IsSound construct BlockingQueue.construct
  begun = moves-IsSound now ms (begin writer capacity) (record {
    log = construct-Inv out options now empty made;
    open_ = λ h. construct_open out options now made;
    lossless = λ h. refl;
    drained = λ h d. (cc, cc);
    flushed = λ h f. (cc, cc, cc);
    told = λ f. cc;
  })

  -- Take a recorder whose writer was made on an empty file. After any interleaving of calls of
  -- `submit` and `stop` and of the writer thread, if the writer thread has ended and no error is
  -- stored, the file is the header and the records of exactly the events that the queue accepted,
  -- in order of acceptance.
  pub finished_complete :
      (moves ms (begin writer capacity)).recorder.writer_thread ≡ finished
      → (moves ms (begin writer capacity)).recorder.writer_error ≡ none
      → (moves ms (begin writer capacity)).recorder.writer.out.content
        ≡ file_bytes now (moves ms (begin writer capacity)).accepted
  unfolding IsSound
  finished_complete ended calm =
      let last = moves ms (begin writer capacity) in
      complete last.recorder
        (subst (λ t. Inv now last.recorder t last.logged last.accepted) ended begun) calm
