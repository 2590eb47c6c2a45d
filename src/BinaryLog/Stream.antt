-- ===== src/BinaryLog/Stream.antt =====
-- The binary file streams as src/core/binary_log.cpp uses them.
-- An `std::ifstream` hands out the bytes of the file in order. After the last byte the device
-- either reports the end of the file (`eofbit`) or, if `broken`, a read error (`badbit`).
-- An `std::ofstream` has a buffer of its own, `pending`, between the program and the file, whose
-- bytes are `content`. A write puts its bytes behind the buffer and hands some of the first of them
-- to the file, a flush and a close hand over all. The next of `outcomes` says how this goes: it
-- succeeds or it fails, which sets `fail`, after some bytes. A write that meets no more outcomes
-- stays in the buffer, a flush or close succeeds.
pub mod Laws
use cpp_high_performance_bin.Base.{
  ℕ, Bool, true, false, not, ◌||◌, leb, if◌then◌else◌, List, [], ◌∷◌, ◌++◌, length, take, drop,
}

pub record Ifstream : Type 0 where
  pub rest : List ℕ
  pub broken : Bool
  pub eof : Bool
  pub fail : Bool

abbrev pub open_input : List ℕ → Ifstream
open_input bytes = record { rest = bytes; broken = false; eof = false; fail = false }

-- `in.read(p, n)` with `in.gcount()`: the bytes that arrive at `p`. A stream that has failed
-- before reads nothing; one that meets the end of the file fails as well.
unfoldable pub read : Ifstream → ℕ → List ℕ × Ifstream
read s n =
    if s.fail
    then ([], s)
    else if leb n (length s.rest)
    then (take n s.rest, record s { rest = drop n s.rest })
    else (s.rest, record s { rest = []; eof = not s.broken; fail = true })

-- `done k` and `failed k` hand over `k` bytes, or as many as there are; a flush or close that
-- succeeds hands over all.
pub data Outcome : Type 0 where
  done failed : ℕ → Outcome

pub record Ofstream : Type 0 where
  pub content : List ℕ
  pub pending : List ℕ
  pub fail : Bool
  pub outcomes : List Outcome

-- What the stream has taken: the file and what stands in the buffer.
abbrev pub taken : Ofstream → List ℕ
taken s = s.content ++ s.pending

-- The first `k` of the bytes behind the file go into it.
hand_over : ℕ → List ℕ → Ofstream → Ofstream
hand_over k bytes s = record s { content = s.content ++ take k bytes; pending = drop k bytes }

store : Ofstream → List Outcome → List ℕ → Ofstream
unfolding hand_over
store s [] bytes = record s { pending = s.pending ++ bytes }
store s (done k ∷ later) bytes = record (hand_over k (s.pending ++ bytes) s) { outcomes = later }
store s (failed k ∷ later) bytes = record (hand_over k (s.pending ++ bytes) s) {
  fail = true;
  outcomes = later;
}

sync : Ofstream → List Outcome → Ofstream
unfolding hand_over
sync s [] = record s { content = s.content ++ s.pending; pending = [] }
sync s (done k ∷ later) = record s {
  content = s.content ++ s.pending;
  pending = [];
  outcomes = later;
}
sync s (failed k ∷ later) = record (hand_over k s.pending s) { fail = true; outcomes = later }

-- `out.write(...)`: nothing happens on a stream that has failed.
unfoldable pub write : Ofstream → List ℕ → Ofstream
unfolding store
write s bytes = if s.fail then s else store s s.outcomes bytes

-- `out.flush()`
unfoldable pub flush : Ofstream → Ofstream
unfolding sync
flush s = if s.fail then s else sync s s.outcomes

-- `out.close()`: the file is closed also if the stream has failed, and the flag stays.
unfoldable pub close : Ofstream → Ofstream
unfolding sync
close s = record (sync s s.outcomes) { fail = s.fail || (sync s s.outcomes).fail }
