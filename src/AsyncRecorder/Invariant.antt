-- ===== src/AsyncRecorder/Invariant.antt =====
-- What the actions of `AsyncRecorder` (src/core/async_recorder.cpp) keep: no accepted event is lost
-- between the queue, the writer thread and the log.
use cpp_high_performance_bin.Base.{
  ℕ, ◌≡◌, refl, sym, ap, subst, ◌∙◌, Bool, true, false, ◌&&◌, Bool-cases, leb, inl, inr, Option,
  none, some, List, [], ◌∷◌, ◌++◌, length, append_assoc, append-nil,
}
use cpp_high_performance_bin.Errors.{Error, Result, ok, err, file_format_error, payload_too_large}
use cpp_high_performance_bin.Event.{Event}
use cpp_high_performance_bin.BinaryLog.{k_max_payload_bytes}
use cpp_high_performance_bin.BinaryLog.Writer
use cpp_high_performance_bin.BinaryLog.Writer.{Writer, write_buffer_if_needed}
use cpp_high_performance_bin.BinaryLog.Writer.Append.{store_record, append_branches}
use cpp_high_performance_bin.BinaryLog.Writer.Invariant
use cpp_high_performance_bin.BinaryLog.Writer.Steps.{
  admitted, append-Inv, flush-Inv, flush_ok, write_buffer_if_needed_ok,
}
use cpp_high_performance_bin.BlockingQueue
use cpp_high_performance_bin.BlockingQueue.{BlockingQueue, pop}
use cpp_high_performance_bin.BlockingQueue.Steps.{pop_waits, pop_end, pop-some}
use cpp_high_performance_bin.AsyncRecorder.{
  WriterThread, popping, appending, counting, flushing, failing, closing, finished, AsyncRecorder,
  after_pop, after_call, set_writer_error, run_step,
}

abbrev pub runs : WriterThread → Bool
runs (failing error) = false
runs closing = false
runs popping = true
runs (appending event) = true
runs counting = true
runs flushing = true
runs finished = true

abbrev pub is_none : {A : Type 0} → Option A → Bool
is_none none = true
is_none (some value) = false

-- No call of the writer has failed.
abbrev pub healthy : WriterThread → Option Error → Bool
healthy thread writer_error = runs thread && is_none writer_error

-- The event that the writer thread has taken and not yet handed to the writer.
abbrev pub in_hand : WriterThread → List Event
in_hand popping = []
in_hand (appending event) = event ∷ []
in_hand counting = []
in_hand flushing = []
in_hand (failing error) = []
in_hand closing = []
in_hand finished = []

abbrev pub is_drained : WriterThread → Bool
is_drained flushing = true
is_drained finished = true
is_drained popping = false
is_drained (appending event) = false
is_drained counting = false
is_drained (failing error) = false
is_drained closing = false

-- `accepted` are the events that a push has accepted, `logged` those that the writer has.
pub record Inv (now : ℕ) (r : AsyncRecorder) (thread : WriterThread) (logged accepted : List Event)
    : Type 0 where
  pub log : Invariant.Inv now logged r.writer
  pub open_ : healthy thread r.writer_error ≡ true → r.writer.closed ≡ false
  pub lossless :
      healthy thread r.writer_error ≡ true → logged ++ (in_hand thread ++ r.queue.queue) ≡ accepted
  pub drained :
      healthy thread r.writer_error ≡ true
      → is_drained thread ≡ true
      → (r.queue.queue ≡ []) × (r.queue.closed ≡ true)
  pub flushed :
      healthy thread r.writer_error ≡ true
      → thread ≡ finished
      → (r.writer.buffer ≡ []) × (r.writer.out.fail ≡ false) × (r.writer.out.pending ≡ [])
  pub told : thread ≡ closing → is_none r.writer_error ≡ false

write_if_ok :
    (b : Bool) (w w' : Writer) → write_buffer_if_needed b w ≡ (ok tt, w') → w'.closed ≡ w.closed
unfolding write_buffer_if_needed
write_if_ok true w w' h = (write_buffer_if_needed_ok w w' h).1
write_if_ok false w w' h = cc h

-- An append that returns has accepted the event, and the writer stays open.
pub append_ok :
    (e : Event) (w w' : Writer)
    → w.closed ≡ false
    → Writer.append e w ≡ (ok tt, w')
    → (admitted w e ≡ e ∷ []) × (w'.closed ≡ false)
unfolding Writer.buffer_record
append_ok e w w' open_ h = elim (Bool-cases (leb (length e.payload) k_max_payload_bytes)) [
  | inl small ↦
      let branch : Writer.append e w ≡ store_record e w =
        append_branches e w ∙ simp (open_, small) in
      (simp (open_, small), write_if_ok _ _ w' (sym branch ∙ h) ∙ open_)
  | inr large ↦
      let branch : Writer.append e w
          ≡ (err (file_format_error (payload_too_large (length e.payload))), w) =
        append_branches e w ∙ simp (open_, large) in
      let apart = sym branch ∙ h in (cc apart, cc apart)
]

module _ {now : ℕ} {logged accepted : List Event} where
  pop-Inv :
      (r : AsyncRecorder)
      → Inv now r popping logged accepted
      → Inv now (run_step popping r) (run_step popping r).writer_thread logged accepted
  unfolding run_step after_pop
  pop-Inv r inv = go r.queue.queue refl
    where
      Goal : Type 0
      Goal = Inv now (run_step popping r) (run_step popping r).writer_thread logged accepted

      go : (xs : List Event) → r.queue.queue ≡ xs → Goal
      go [] e = elim (Bool-cases r.queue.closed) [
        | inl shut ↦ rw (pop_end r.queue shut e) (record {
          log = inv.log;
          open_ = inv.open_;
          lossless = inv.lossless;
          drained = λ h d. (e, shut);
          flushed = λ h f. (cc, cc, cc);
          told = λ f. cc;
        })
        | inr open_ ↦ rw (pop_waits r.queue open_ e) (record {
          log = inv.log;
          open_ = inv.open_;
          lossless = inv.lossless;
          drained = inv.drained;
          flushed = λ h f. (cc, cc, cc);
          told = λ f. cc;
        })
      ]
      go (x ∷ xs) e = rw (pop-some r.queue x xs e) (record {
        log = inv.log;
        open_ = inv.open_;
        lossless = λ h. ap (λ (t : List Event). logged ++ t) (sym e) ∙ inv.lossless h;
        drained = λ h d. (cc, cc);
        flushed = λ h f. (cc, cc, cc);
        told = λ f. cc;
      })

  append-Inv_step :
      (r : AsyncRecorder) (e : Event)
      → Inv now r (appending e) logged accepted
      → Inv now
          (run_step (appending e) r)
          (run_step (appending e) r).writer_thread
          (logged ++ admitted r.writer e)
          accepted
  unfolding run_step after_call
  append-Inv_step r e inv = go (Writer.append e r.writer) refl (append-Inv r.writer e inv.log)
    where
      Goal : Result (Unit {0}) × Writer → Type 0
      Goal (result, writer') =
          Inv now (record r { writer = writer'; writer_thread = after_call result counting })
            (after_call result counting) (logged ++ admitted r.writer e) accepted

      go :
          (t : Result (Unit {0}) × Writer)
          → Writer.append e r.writer ≡ t
          → Invariant.Inv now (logged ++ admitted r.writer e) t.1
          → Goal t
      go (err x, w) h log = record {
        log = log;
        open_ = λ h. cc;
        lossless = λ h. cc;
        drained = λ h d. (cc, cc);
        flushed = λ h f. (cc, cc, cc);
        told = λ f. cc;
      }
      go (ok _, w) h log = record {
        log = log;
        open_ = λ g. (append_ok e r.writer w (inv.open_ g) h).1;
        lossless = λ g.
            ap (λ (t : List Event). (logged ++ t) ++ r.queue.queue)
              (append_ok e r.writer w (inv.open_ g) h).0
            ∙ append_assoc logged (e ∷ []) r.queue.queue
            ∙ inv.lossless g;
        drained = λ h d. (cc, cc);
        flushed = λ h f. (cc, cc, cc);
        told = λ f. cc;
      }

  flush-Inv_step :
      (r : AsyncRecorder)
      → Inv now r flushing logged accepted
      → Inv now (run_step flushing r) (run_step flushing r).writer_thread logged accepted
  unfolding run_step after_call
  flush-Inv_step r inv = go (Writer.flush r.writer) refl (flush-Inv r.writer inv.log)
    where
      Goal : Result (Unit {0}) × Writer → Type 0
      Goal (result, writer') =
          Inv now (record r { writer = writer'; writer_thread = after_call result finished })
            (after_call result finished) logged accepted

      go :
          (t : Result (Unit {0}) × Writer)
          → Writer.flush r.writer ≡ t
          → Invariant.Inv now logged t.1
          → Goal t
      go (err x, w) h log = record {
        log = log;
        open_ = λ h. cc;
        lossless = λ h. cc;
        drained = λ h d. (cc, cc);
        flushed = λ h f. (cc, cc, cc);
        told = λ f. cc;
      }
      go (ok _, w) h log = record {
        log = log;
        open_ = λ g. (flush_ok r.writer w (inv.open_ g) h).1;
        lossless = inv.lossless;
        drained = λ g d. inv.drained g refl;
        flushed = λ g f. let done = flush_ok r.writer w (inv.open_ g) h in (done.0, done.2, done.3);
        told = λ f. cc;
      }

-- The events that an action of the writer thread hands over to the writer's log.
unfoldable pub logs : WriterThread → AsyncRecorder → List Event
logs (appending event) r = admitted r.writer event
logs popping r = []
logs counting r = []
logs flushing r = []
logs (failing error) r = []
logs closing r = []
logs finished r = []

pub run_step-Inv :
    {now : ℕ} {logged accepted : List Event} (t : WriterThread) (r : AsyncRecorder)
    → r.writer_thread ≡ t
    → Inv now r t logged accepted
    → Inv now (run_step t r) (run_step t r).writer_thread (logged ++ logs t r) accepted
unfolding run_step logs set_writer_error BlockingQueue.close
run_step-Inv popping r h inv = rw append-nil (pop-Inv r inv)
run_step-Inv (appending event) r h inv = append-Inv_step r event inv
run_step-Inv counting r h inv = rw append-nil (record {
  log = inv.log;
  open_ = inv.open_;
  lossless = inv.lossless;
  drained = λ h d. (cc, cc);
  flushed = λ h f. (cc, cc, cc);
  told = λ f. cc;
})
run_step-Inv flushing r h inv = rw append-nil (flush-Inv_step r inv)
run_step-Inv (failing x) r h inv = rw append-nil (record {
  log = inv.log;
  open_ = λ h. cc;
  lossless = λ h. cc;
  drained = λ h d. (cc, cc);
  flushed = λ h f. (cc, cc, cc);
  told = λ f. known r.writer_error;
})
  where
    known : (e : Option Error) → is_none (set_writer_error x e) ≡ false
    known none = refl
    known (some first) = refl
run_step-Inv closing r h inv =
    let known = inv.told refl in
    rw append-nil (record {
      log = inv.log;
      open_ = λ h. cc (h, known);
      lossless = λ h. cc (h, known);
      drained = λ h d. (cc (h, known), refl);
      flushed = λ h f. (cc, cc, cc);
      told = λ f. cc;
    })
run_step-Inv {now} {logged} {accepted} finished r h inv =
    rw append-nil (subst (λ t. Inv now r t logged accepted) (sym h) inv)
