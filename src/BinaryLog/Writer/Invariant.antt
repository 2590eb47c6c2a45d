-- ===== src/BinaryLog/Writer/Invariant.antt =====
-- The state of `BinaryLogWriter` (src/core/binary_log.cpp) across its operations, whatever the
-- device answers and whether or not the caller goes on after an exception.
use cpp_high_performance_bin.Base.{
  ℕ, ◌%◌, ◌^◌, Bool, true, false, if◌then◌else◌, Bool-cases, ◌≡◌, refl, sym, ap, ◌∙◌, inl, inr,
  arith, List, [], ◌∷◌, ◌++◌, length, append-nil, append_assoc,
}
use cpp_high_performance_bin.Errors.{ok, err, io_error, failed_write}
use cpp_high_performance_bin.Event.{Event}
use cpp_high_performance_bin.BinaryLog.Stream
use cpp_high_performance_bin.BinaryLog.Stream.{Ofstream, taken}
use cpp_high_performance_bin.BinaryLog.Stream.Laws.{Stored, write-Stored}
use cpp_high_performance_bin.BinaryLog.Format.{file_header, file_bytes}
use cpp_high_performance_bin.BinaryLog.Writer.{Writer, write_all, write_buffer_if_needed}

-- `es` are the events accepted so far, `now` the time in the file header.
pub record Inv (now : ℕ) (es : List Event) (w : Writer) : Type 0 where
  pub missing : List ℕ
  pub body : List ℕ
  pub headed : taken w.out ≡ file_header now ++ body
  pub behind : taken w.out ++ missing ≡ file_bytes now es
  pub healthy : w.out.fail ≡ false → missing ≡ w.buffer
  pub drained : w.closed ≡ true → (w.buffer ≡ []) × (w.out.fail ≡ false) × (w.out.pending ≡ [])
  pub events_count : w.stats.events_written ≡ length es % 2 ^ 64
  pub bytes_count : w.stats.bytes_written ≡ length (file_bytes now es) % 2 ^ 64

-- A flushed buffer is gone if the stream took it, and stays if the stream failed.
pub write_buffer_if_needed_empty :
    (w : Writer) → w.buffer ≡ [] → write_buffer_if_needed true w ≡ (ok tt, w)
unfolding write_buffer_if_needed
write_buffer_if_needed_empty w e = simp e

pub write_buffer_if_needed_full :
    (w : Writer) (b : ℕ) (bs : List ℕ)
    → w.buffer ≡ b ∷ bs
    → let out' = Stream.write w.out w.buffer in
      write_buffer_if_needed true w ≡ (
        if out'.fail
        then (err (io_error failed_write), record w { out = out' })
        else (ok tt, record w { out = out'; buffer = [] }))
unfolding write_buffer_if_needed write_all
write_buffer_if_needed_full w b bs e = simp e (ground arith)

module _ {now : ℕ} {es : List Event} where
  -- The buffer is handed to the stream; it is emptied if that went well.
  write_out-Inv :
      (w : Writer) (out' : Ofstream) (buffer' : List ℕ)
      → Stored w.out w.buffer out'
      → w.closed ≡ false
      → (out'.fail ≡ false → buffer' ≡ [])
      → Inv now es w
      → Inv now es (record w { out = out'; buffer = buffer' })
  write_out-Inv w out' buffer' st open_ cleared inv = elim (Bool-cases w.out.fail) [
    | inl e ↦ record {
      missing = inv.missing;
      body = inv.body ++ st.kept;
      headed = grown;
      behind = rw (st.content, (st.sticky e).1, append-nil) inv.behind;
      healthy = λ h. ground arith;
      drained = λ h. ground arith;
      events_count = inv.events_count;
      bytes_count = inv.bytes_count;
    }
    | inr e ↦ record {
      missing = st.lost;
      body = inv.body ++ st.kept;
      headed = grown;
      behind = rw (st.content, append_assoc, st.split, ← inv.healthy e) inv.behind;
      healthy = λ h. (st.whole h).1 ∙ sym (cleared h);
      drained = λ h. ground arith;
      events_count = inv.events_count;
      bytes_count = inv.bytes_count;
    }
  ]
    where
      grown : taken out' ≡ file_header now ++ (inv.body ++ st.kept)
      grown =
          st.content
          ∙ ap (λ t. t ++ st.kept) inv.headed
          ∙ append_assoc (file_header now) inv.body st.kept

  pub write_buffer_if_needed-Inv :
      (force : Bool) (w : Writer)
      → w.closed ≡ false
      → Inv now es w
      → Inv now es (write_buffer_if_needed force w).1
  write_buffer_if_needed-Inv false w open_ inv = unfold write_buffer_if_needed in inv
  write_buffer_if_needed-Inv true w open_ inv = go w.buffer refl
    where
      out' : Ofstream
      out' = Stream.write w.out w.buffer

      go : (buf : List ℕ) → w.buffer ≡ buf → Inv now es (write_buffer_if_needed true w).1
      go [] e = rw (write_buffer_if_needed_empty w e) inv
      go (b ∷ bs) e = rw (write_buffer_if_needed_full w b bs e) (elim (Bool-cases out'.fail) [
        | inl bad ↦ simp bad (
            write_out-Inv w out' w.buffer (write-Stored w.out w.buffer) open_ (λ h. ground arith)
              inv)
        | inr good ↦
            simp good (write_out-Inv w out' [] (write-Stored w.out w.buffer) open_ (λ _. refl) inv)
      ])
