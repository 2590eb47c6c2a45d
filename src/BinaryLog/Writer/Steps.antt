-- ===== src/BinaryLog/Writer/Steps.antt =====
-- Each operation of `BinaryLogWriter` (src/core/binary_log.cpp) keeps the writer's invariant.
use cpp_high_performance_bin.Base.{
  ℕ, true, false, leb, if◌then◌else◌, Bool-cases, ◌≡◌, refl, sym, ap, ◌∙◌, inl, inr, arith, List,
  [], ◌∷◌, ◌++◌, length, length-append, append_assoc, append-nil,
}
use cpp_high_performance_bin.Errors.{ok, after_keeps, after_eq_ok, after}
use cpp_high_performance_bin.Event.{Event}
use cpp_high_performance_bin.BinaryLog.{k_max_payload_bytes}
use cpp_high_performance_bin.BinaryLog.Stream
use cpp_high_performance_bin.BinaryLog.Stream.{Ofstream, taken}
use cpp_high_performance_bin.BinaryLog.Stream.Laws.{
  flush_lem, flush_through, close_lem, close_through,
}
use cpp_high_performance_bin.BinaryLog.Format.{
  record_header, record_bytes, file_bytes, file_bytes-snoc,
}
use cpp_high_performance_bin.BinaryLog.Writer.{
  Writer, write_buffer_if_needed, buffer_record, append, flush_stream, flush, close_stream, close,
}
use cpp_high_performance_bin.BinaryLog.Writer.Append.{store_record, append_branches}
use cpp_high_performance_bin.BinaryLog.Writer.Invariant.{
  Inv, write_buffer_if_needed-Inv, write_buffer_if_needed_empty, write_buffer_if_needed_full,
}

-- The events that a call of `append` adds to the log: its argument, or none.
abbrev pub admitted : Writer → Event → List Event
admitted w e =
    if w.closed then [] else if leb (length e.payload) k_max_payload_bytes then e ∷ [] else []

buffer_record-Inv :
    {now : ℕ} {es : List Event} {w : Writer} (e : Event)
    → w.closed ≡ false
    → Inv now es w
    → Inv now (es ++ e ∷ []) (buffer_record e (record_header e) w)
unfolding buffer_record record_bytes
buffer_record-Inv {now} {es} {w} e open_ inv = record {
  missing = inv.missing ++ record_bytes e;
  body = inv.body;
  headed = inv.headed;
  behind =
      sym (append_assoc (taken w.out) inv.missing (record_bytes e))
      ∙ ap (λ t. t ++ record_bytes e) inv.behind
      ∙ sym (file_bytes-snoc now es e);
  healthy = λ h.
      ap (λ t. t ++ record_bytes e) (inv.healthy h)
      ∙ sym (append_assoc w.buffer (record_header e) e.payload);
  drained = λ h. ground arith;
  events_count = omega (arith, inv.events_count, length-append es (e ∷ []));
  bytes_count = omega (
    arith,
    inv.bytes_count,
    ap length (file_bytes-snoc now es e),
    length-append (file_bytes now es) (record_bytes e),
    length-append (record_header e) e.payload,
  );
}

buffer_record-closed :
    (e : Event) (header : List ℕ) (w : Writer) → (buffer_record e header w).closed ≡ w.closed
unfolding buffer_record
buffer_record-closed e header w = refl

store_record-Inv :
    {now : ℕ} {es : List Event} (w : Writer) (e : Event)
    → w.closed ≡ false
    → Inv now es w
    → Inv now (es ++ e ∷ []) (store_record e w).1
store_record-Inv w e open_ inv =
    write_buffer_if_needed-Inv _ (buffer_record e (record_header e) w)
      (buffer_record-closed e (record_header e) w ∙ open_) (buffer_record-Inv e open_ inv)

pub append-Inv :
    {now : ℕ} {es : List Event} (w : Writer) (e : Event)
    → Inv now es w
    → Inv now (es ++ admitted w e) (append e w).1
append-Inv {now} {es} w e inv = rw (append_branches e w) (elim (Bool-cases w.closed) [
  | inl shut ↦ simp (shut, append-nil) inv
  | inr open_ ↦ elim (Bool-cases (leb (length e.payload) k_max_payload_bytes)) [
    | inl small ↦ simp (open_, small) (store_record-Inv w e open_ inv)
    | inr large ↦ simp (open_, large, append-nil) inv
  ]
])

-- A new state of the stream that stores nothing and forgets no failure.
restream-Inv :
    {now : ℕ} {es : List Event} (w : Writer) (out' : Ofstream)
    → w.closed ≡ false
    → (taken out' ≡ taken w.out) × (out'.fail ≡ false → w.out.fail ≡ false)
    → Inv now es w
    → Inv now es (record w { out = out' })
restream-Inv {now} {es} w out' open_ same inv = record {
  missing = inv.missing;
  body = inv.body;
  headed = same.0 ∙ inv.headed;
  behind = ap (λ t. t ++ inv.missing) same.0 ∙ inv.behind;
  healthy = λ h. inv.healthy (same.1 h);
  drained = λ h. ground arith;
  events_count = inv.events_count;
  bytes_count = inv.bytes_count;
}

flush_stream-Inv :
    {now : ℕ} {es : List Event} (w : Writer)
    → w.closed ≡ false
    → Inv now es w
    → Inv now es (flush_stream w).1
unfolding flush_stream
flush_stream-Inv w open_ inv = restream-Inv w (Stream.flush w.out) open_ (flush_lem w.out) inv

-- What a buffer flush that succeeds leaves.
pub write_buffer_if_needed_ok :
    (w w' : Writer)
    → write_buffer_if_needed true w ≡ (ok tt, w')
    → (w'.buffer ≡ []) × (w'.closed ≡ w.closed)
write_buffer_if_needed_ok w w' e = go w.buffer refl
  where
    go : (buf : List ℕ) → w.buffer ≡ buf → (w'.buffer ≡ []) × (w'.closed ≡ w.closed)
    go [] d = ground (arith, write_buffer_if_needed_empty w d)
    go (b ∷ bs) d = ground (arith, write_buffer_if_needed_full w b bs d)

pub flush-Inv : {now : ℕ} {es : List Event} (w : Writer) → Inv now es w → Inv now es (flush w).1
unfolding flush
flush-Inv {now} {es} w inv = elim (Bool-cases w.closed) [
  | inl shut ↦ simp shut inv
  | inr open_ ↦ simp open_ (
      after_keeps (Inv now es) (write_buffer_if_needed true w) (λ _. flush_stream)
        (write_buffer_if_needed-Inv true w open_ inv)
        (λ a w' e inv'. flush_stream-Inv w' ((write_buffer_if_needed_ok w w' e).1 ∙ open_) inv'))
]

-- What a flush that succeeds leaves.
flush_stream_ok :
    (w w' : Writer)
    → flush_stream w ≡ (ok tt, w')
    → (w'.buffer ≡ w.buffer)
      × (w'.closed ≡ w.closed)
      × (w'.out.fail ≡ false)
      × (w'.out ≡ Stream.flush w.out)
unfolding flush_stream
flush_stream_ok w w' e = ground arith

pub flush_ok :
    (w w' : Writer)
    → w.closed ≡ false
    → flush w ≡ (ok tt, w')
    → (w'.buffer ≡ []) × (w'.closed ≡ false) × (w'.out.fail ≡ false) × (w'.out.pending ≡ [])
unfolding flush
flush_ok w w' open_ e =
    let h : after (write_buffer_if_needed true w) (λ _. flush_stream) ≡ (ok tt, w') =
      simp open_ at e in
    let (_, v, p, q) = after_eq_ok (write_buffer_if_needed true w) (λ _. flush_stream) h in
    let drained = write_buffer_if_needed_ok w v p in
    let flushed = flush_stream_ok v w' q in
    (
      flushed.0 ∙ drained.0,
      flushed.1 ∙ drained.1 ∙ open_,
      flushed.2,
      ap (λ o. o.pending) flushed.3
          ∙ flush_through v.out (ap (λ o. o.fail) (sym flushed.3) ∙ flushed.2),
    )

close_stream-Inv :
    {now : ℕ} {es : List Event} (w : Writer)
    → w.buffer ≡ []
    → w.closed ≡ false
    → Inv now es w
    → Inv now es (close_stream w).1
unfolding close_stream
close_stream-Inv {now} {es} w empty open_ inv = elim (Bool-cases (Stream.close w.out).fail) [
  | inl bad ↦ simp bad kept
  | inr good ↦ simp good (record {
    missing = kept.missing;
    body = kept.body;
    headed = kept.headed;
    behind = kept.behind;
    healthy = kept.healthy;
    drained = λ _. (empty, good, close_through w.out good);
    events_count = inv.events_count;
    bytes_count = inv.bytes_count;
  })
]
  where
    kept : Inv now es (record w { out = Stream.close w.out })
    kept = restream-Inv w (Stream.close w.out) open_ (close_lem w.out) inv

pub close-Inv : {now : ℕ} {es : List Event} (w : Writer) → Inv now es w → Inv now es (close w).1
unfolding close
close-Inv {now} {es} w inv = elim (Bool-cases w.closed) [
  | inl shut ↦ simp shut inv
  | inr open_ ↦ simp open_ (
      after_keeps (Inv now es) (flush w) (λ _. close_stream) (flush-Inv w inv)
        (λ a w' e inv'. let done = flush_ok w w' open_ e in close_stream-Inv w' done.0 done.1 inv'))
]

close_stream_ok : (w w' : Writer) → close_stream w ≡ (ok tt, w') → w'.closed ≡ true
unfolding close_stream
close_stream_ok w w' e = ground arith

-- A close that succeeds closes.
pub close_ok : (w w' : Writer) → close w ≡ (ok tt, w') → w'.closed ≡ true
unfolding close
close_ok w w' e = elim (Bool-cases w.closed) [
  | inl shut ↦ ground arith
  | inr open_ ↦
      let h : after (flush w) (λ _. close_stream) ≡ (ok tt, w') = simp open_ at e in
      let (_, v, p, q) = after_eq_ok (flush w) (λ _. close_stream) h in close_stream_ok v w' q
]
