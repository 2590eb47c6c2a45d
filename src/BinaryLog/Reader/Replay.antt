-- ===== src/BinaryLog/Reader/Replay.antt =====
-- The loop `while (auto event = reader.next())` of the tools and tests: the events it sees, and
-- how it ends.
use cpp_high_performance_bin.Base.{
  ℕ, zero, suc, ◌<◌, ◌≡◌, refl, ap, ◌∙◌, false, arith, List, [], ◌∷◌, length, All, Option, none,
  some,
}
use cpp_high_performance_bin.Errors.{Error, Result, ok, err}
use cpp_high_performance_bin.Event.{Event}
use cpp_high_performance_bin.BinaryLog.Format.{records, IsStorable}
use cpp_high_performance_bin.BinaryLog.Reader.{Reader, note_timestamp, next}
use cpp_high_performance_bin.BinaryLog.Reader.Next.{rest_at, next-record_bytes, next_end}

-- `unfinished` says that the fuel was used up.
pub data Ending : Type 0 where
  finished unfinished : Ending
  thrown : Error → Ending

abbrev pub Replay : Type 0
Replay = List Event × Ending

abbrev pub prepend : Event → Replay → Replay
prepend e (es, ending) = (e ∷ es, ending)

unfoldable pub replay : ℕ → Reader → Replay
replay zero r = ([], unfinished)
replay (suc fuel) r = elim (next r).0 [
  | err e ↦ ([], thrown e)
  | ok none ↦ ([], finished)
  | ok (some event) ↦ prepend event (replay fuel (next r).1)
]

pub replay_event :
    (fuel : ℕ) (r r' : Reader) (e : Event)
    → next r ≡ (ok (some e), r')
    → replay (suc fuel) r ≡ prepend e (replay fuel r')
unfolding replay
replay_event fuel r r' e h =
    rw (h, replay) (ap (λ (t : Result (Option Event) × Reader). prepend e (replay fuel (t.1))) h)

pub replay_end :
    (fuel : ℕ) (r r' : Reader) → next r ≡ (ok none, r') → replay (suc fuel) r ≡ ([], finished)
unfolding replay
replay_end fuel r r' h = rw (h, replay) refl

pub replay_error :
    (fuel : ℕ) (r r' : Reader) (x : Error)
    → next r ≡ (err x, r')
    → replay (suc fuel) r ≡ ([], thrown x)
unfolding replay
replay_error fuel r r' x h = rw (h, replay) refl

-- Sound records are replayed in order, to the end.
pub replay-records :
    (es : List Event) (fuel : ℕ) (r : Reader)
    → All IsStorable es
    → length es < fuel
    → r.input.fail ≡ false
    → r.input.broken ≡ false
    → r.input.rest ≡ records es
    → replay fuel r ≡ (es, finished)
unfolding records
replay-records es zero r st enough good sound e = absurd (omega arith)
replay-records [] (suc fuel) r st enough good sound e =
    replay_end fuel r _ (next_end r good sound e)
replay-records (x ∷ es) (suc fuel) r st enough good sound e =
    replay_event fuel r (note_timestamp x.timestamp_ns (rest_at r (records es))) x
      (next-record_bytes x (records es) r st.0 good e)
    ∙ ap (prepend x) (
        replay-records es fuel (note_timestamp x.timestamp_ns (rest_at r (records es))) st.1
          (omega arith) (unfold note_timestamp in good) (unfold note_timestamp in sound)
          (unfold note_timestamp in refl))
