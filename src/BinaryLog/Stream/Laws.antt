-- ===== src/BinaryLog/Stream/Laws.antt =====
-- What the file streams do with the bytes, whatever the device answers.
use cpp_high_performance_bin.Base.{
  ℕ, true, false, ◌≡◌, refl, sym, ap, ◌∙◌, Bool-cases, inl, inr, arith, List, [], ◌∷◌, ◌++◌, take,
  drop, take-append-drop, append-nil, append_assoc,
}
use cpp_high_performance_bin.BinaryLog.Stream.{
  Ofstream, Outcome, done, failed, taken, hand_over, store, sync, write, flush, close,
}

-- What a write leaves behind: the stream takes all the bytes, or it had failed and takes none.
pub record Stored (s : Ofstream) (bytes : List ℕ) (s' : Ofstream) : Type 0 where
  pub kept : List ℕ
  pub lost : List ℕ
  pub split : kept ++ lost ≡ bytes
  pub content : taken s' ≡ taken s ++ kept
  pub whole : s'.fail ≡ false → (s.fail ≡ false) × (lost ≡ [])
  pub sticky : s.fail ≡ true → (s'.fail ≡ true) × (kept ≡ [])

hand_over-taken :
    (k : ℕ) (content bytes : List ℕ) → (content ++ take k bytes) ++ drop k bytes ≡ content ++ bytes
hand_over-taken k content bytes =
    append_assoc content (take k bytes) (drop k bytes)
    ∙ ap (◌++◌ content) (take-append-drop k bytes)

store-taken :
    (s : Ofstream) (outcomes : List Outcome) (bytes : List ℕ)
    → taken (store s outcomes bytes) ≡ taken s ++ bytes
unfolding store hand_over
store-taken s [] bytes = sym (append_assoc s.content s.pending bytes)
store-taken s (done k ∷ later) bytes =
    hand_over-taken k s.content (s.pending ++ bytes) ∙ sym (append_assoc s.content s.pending bytes)
store-taken s (failed k ∷ later) bytes =
    hand_over-taken k s.content (s.pending ++ bytes) ∙ sym (append_assoc s.content s.pending bytes)

pub write-Stored : (s : Ofstream) (bytes : List ℕ) → Stored s bytes (write s bytes)
unfolding write
write-Stored s bytes = elim (Bool-cases s.fail) [
  | inl e ↦ simp e (record {
    kept = [];
    lost = bytes;
    split = refl;
    content = sym (append-nil (taken s));
    whole = λ h. ground arith;
    sticky = λ h. (h, refl);
  })
  | inr e ↦ simp e (record {
    kept = bytes;
    lost = [];
    split = append-nil bytes;
    content = store-taken s s.outcomes bytes;
    whole = λ h. (e, refl);
    sticky = λ h. ground arith;
  })
]

sync_lem :
    (s : Ofstream) (outcomes : List Outcome)
    → (taken (sync s outcomes) ≡ taken s)
      × ((sync s outcomes).fail ≡ false → (s.fail ≡ false) × ((sync s outcomes).pending ≡ []))
unfolding sync hand_over
sync_lem s [] = (append-nil _, λ h. (h, refl))
sync_lem s (done k ∷ later) = (append-nil _, λ h. (h, refl))
sync_lem s (failed k ∷ later) = (hand_over-taken k s.content s.pending, λ h. ground arith)

-- Flushing and closing take no bytes, and no failure is forgotten.
pub close_lem :
    (s : Ofstream) → (taken (close s) ≡ taken s) × ((close s).fail ≡ false → s.fail ≡ false)
unfolding close
close_lem s = ((sync_lem s s.outcomes).0, λ h. ground arith)

pub flush_lem :
    (s : Ofstream) → (taken (flush s) ≡ taken s) × ((flush s).fail ≡ false → s.fail ≡ false)
unfolding flush
flush_lem s = elim (Bool-cases s.fail) [
  | inl e ↦ simp e (refl, λ h. h)
  | inr e ↦ simp e ((sync_lem s s.outcomes).0, λ h. refl)
]

-- Where they succeed, everything is in the file.
pub close_through : (s : Ofstream) → (close s).fail ≡ false → (close s).pending ≡ []
unfolding close
close_through s h = ((sync_lem s s.outcomes).1 (ground arith)).1

pub flush_through : (s : Ofstream) → (flush s).fail ≡ false → (flush s).pending ≡ []
unfolding flush
flush_through s h = elim (Bool-cases s.fail) [
  | inl e ↦ absurd (ground arith)
  | inr e ↦ simp e (((sync_lem s s.outcomes).1 (simp e at h)).1)
]

-- A stream whose buffer is empty has everything in the file.
pub content_settled : (s : Ofstream) → s.pending ≡ [] → s.content ≡ taken s
content_settled s e = sym (append-nil s.content) ∙ ap (◌++◌ s.content) (sym e)
