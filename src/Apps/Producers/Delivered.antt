-- ===== src/Apps/Producers/Delivered.antt =====
-- What apps/hpblr_record.cpp and apps/hpblr_bench.cpp leave behind when `recorder.stop()` has returned.
use cpp_high_performance_bin.Base.{
  ℕ, ◌+◌, ◌%◌, ◌≤◌, ◌<◌, ◌^◌, ◌≡◌, sym, ap, subst, ◌∙◌, ltb, leb, not, ◌&&◌, true, false,
  if◌then◌else◌, arith, List, [], length, get_or, All,
}
use cpp_high_performance_bin.Errors.{ok}
use cpp_high_performance_bin.Event.{Event}
use cpp_high_performance_bin.BinaryLog.Stream.{Ofstream, taken, open_input}
use cpp_high_performance_bin.BinaryLog.Format.{file_bytes}
use cpp_high_performance_bin.BinaryLog.Writer
use cpp_high_performance_bin.BinaryLog.Writer.{Writer, WriterOptions}
use cpp_high_performance_bin.BinaryLog.Reader
use cpp_high_performance_bin.BinaryLog.Reader.{Reader}
use cpp_high_performance_bin.BinaryLog.Reader.Replay.{finished, replay}
use cpp_high_performance_bin.AsyncRecorder.{stopped, joining, stats}
use cpp_high_performance_bin.AsyncRecorder.Invariant.{is_none}
use cpp_high_performance_bin.AsyncRecorder.Runs
use cpp_high_performance_bin.AsyncRecorder.Stops.{stop_complete}
use cpp_high_performance_bin.AsyncRecorder.Counting.{all_uncounted}
use cpp_high_performance_bin.AsyncRecorder.Counters.{stats_agree}
use cpp_high_performance_bin.AsyncRecorder.Delivery.{stop_replay}
use cpp_high_performance_bin.Apps.Producers.{Program, returned, State, Action, acts, start}
use cpp_high_performance_bin.Apps.Producers.Traces.{IsTimed, Trace, acts_trace}
use cpp_high_performance_bin.Apps.Producers.Weights.{times, given}
use cpp_high_performance_bin.Apps.Producers.Links.{all_settled, all_ended-get_or}
use cpp_high_performance_bin.Apps.Producers.Safe.{is_waiting}
use cpp_high_performance_bin.Apps.Producers.Reasons.{Exhausted}
use cpp_high_performance_bin.Apps.Producers.Bound.{handed_bound}
use cpp_high_performance_bin.Apps.Producers.Counted.{acts-Counts, start-Counts}
use cpp_high_performance_bin.Apps.Producers.Totals.{idle_calls, idle_places}
use cpp_high_performance_bin.Apps.Producers.Sound.{
  Sound, acts-Sound, start-Sound, none_pending, given_lem, acts-HasStopped,
}

-- What the reader of src/core/binary_log.cpp finds in the file of a recorder.
pub record Delivers (content : List ℕ) (fuel : ℕ) (es : List Event) : Type 0 where
  pub reader : Reader
  pub opened : Reader.construct (open_input content) ≡ (ok tt, reader)
  pub replayed : replay fuel reader ≡ (es, finished)

module _ {R : Type 0} (draw : R → ℕ × R) (seeded : ℕ → R) (program : Program)
    (producer_u32 : (p : ℕ) → (program.config p).producer_id < 2 ^ 32)
    (always : program.loops true ≡ true → program.loops false ≡ true) (out : Ofstream)
    (options : WriterOptions) (now : ℕ) (writer : Writer) (empty : taken out ≡ [])
    (made : Writer.construct out options now ≡ (ok tt, writer)) (clock : now < 2 ^ 64)
    (capacity producers : ℕ) (as_ : List Action) (timed : All IsTimed as_) where
  abbrev pub last : State R
  last = acts draw program as_ (start seeded program writer capacity producers)

  pub trace : Trace (start seeded program writer capacity producers) last
  trace =
      acts_trace draw program producer_u32 as_ (start seeded program writer capacity producers)
        timed (unfold start in omega arith)

  pub sound : last.handed < 2 ^ 64 → Sound program last
  sound small =
      acts-Sound draw program always as_ (start seeded program writer capacity producers) small
        (start-Sound seeded program writer capacity producers)

  pub world_same : last.world ≡ Runs.moves trace.ms (Runs.begin writer capacity)
  unfolding start
  world_same = trace.world

  pub stopped_at : last.main ≡ returned → (i : ℕ) × (get_or last.world.stops i joining ≡ stopped)
  unfolding start
  stopped_at =
      acts-HasStopped draw program as_ (start seeded program writer capacity producers) (λ e. cc e)

  -- The recorder has no error.
  pub calm : last.main ≡ returned → is_none last.world.recorder.writer_error ≡ true
  calm done =
      let (i, at) = stopped_at done in
      let seen =
        stop_complete out options now writer empty made capacity trace.ms i
          (ap (λ w. get_or w.stops i joining) (sym world_same) ∙ at) in
      ap (λ w. is_none w.recorder.writer_error) world_same ∙ ap is_none seen.1

  pub once :
      last.main ≡ returned
      → last.handed < 2 ^ 64
      → (n : ℕ)
      → times n last.world.accepted ≡ (if ltb n last.handed && not (program.over n) then 1 else 0)
  once done small n =
      let s = sound small in
      let left = s.safe.left (ap is_waiting done) in
      let tally = s.numbers.tallied n in
      let idle =
        none_pending n last.world.submissions
          (λ i. all_settled last.places last.world.submissions i left s.safe.linked) in
      let same : times n last.world.accepted ≡ given program.over last.handed n =
        omega (arith, tally.upper, tally.lower, idle, s.safe.taken (calm done)) in
      same ∙ given_lem program.over last.handed n

  pub delivers :
      (fuel : ℕ)
      → last.main ≡ returned
      → length last.world.accepted < fuel
      → Delivers last.world.recorder.writer.out.content fuel last.world.accepted
  delivers fuel done enough =
      let (i, at) = stopped_at done in
      subst (λ w. Delivers w.recorder.writer.out.content fuel w.accepted) (sym world_same)
        (let (r, opened, replayed) =
            stop_replay out options now writer empty made clock capacity trace.ms trace.typed i fuel
              (ap (λ w. get_or w.stops i joining) (sym world_same) ∙ at)
              (subst (λ w. length w.accepted < fuel) world_same enough) in
          record { reader = r; opened = opened; replayed = replayed })

  -- Let a program be started with a recorder whose writer was made on an empty file at a time
  -- below 2 ^ 64, let its producers' identifiers be within 32 bits, and let its loops go on without
  -- a stop request if they go on after one. Take any interleaving of the producers, the writer
  -- thread, a signal and `main`, with the clock below 2 ^ 64 and fewer than 2 ^ 64 sequence numbers
  -- taken. If `recorder.stop()` has returned in `main` without an exception, then the reader opens
  -- the file, the loop with fuel for more than the accepted events delivers them up to the end, and
  -- among them each sequence number that was taken and does not leave the loop occurs once, and no
  -- other number occurs.
  pub numbers_once :
      (fuel : ℕ)
      → last.main ≡ returned
      → last.handed < 2 ^ 64
      → length last.world.accepted < fuel
      → Delivers last.world.recorder.writer.out.content fuel last.world.accepted
        × ((n : ℕ)
            → times n last.world.accepted
              ≡ (if ltb n last.handed && not (program.over n) then 1 else 0))
  numbers_once fuel done small enough = (delivers fuel done enough, once done small)

  -- Where all loops would go on, one of the numbers was over.
  pub exhausted :
      last.main ≡ returned
      → last.handed < 2 ^ 64
      → program.loops last.stop_requested ≡ true
      → 0 < length last.places
      → Exhausted program.over last.handed
  exhausted done small goes some_ =
      let s = sound small in
      s.justified.reason 0 some_ (all_ended-get_or last.places 0 (s.safe.left (ap is_waiting done)))
        (calm done) goes

  -- What `stats` gives, and what the file holds.
  pub recorded :
      last.main ≡ returned
      → last.handed < 2 ^ 64
      → let s = stats last.world.recorder in
        (s.submitted ≡ length last.world.accepted % 2 ^ 64)
        × (s.written ≡ length last.world.accepted % 2 ^ 64)
        × (s.queue_depth ≡ 0)
        × (last.world.recorder.writer.out.content ≡ file_bytes now last.world.accepted)
  recorded done small =
      let (i, at) = stopped_at done in
      let at' = ap (λ w. get_or w.stops i joining) (sym world_same) ∙ at in
      let s = sound small in
      let idle = idle_calls last.world.submissions (λ j.
        all_settled last.places last.world.submissions j (s.safe.left (ap is_waiting done))
          s.safe.linked) in
      subst
        (λ w.
          ((stats w.recorder).submitted ≡ length w.accepted % 2 ^ 64)
          × ((stats w.recorder).written ≡ length w.accepted % 2 ^ 64)
          × ((stats w.recorder).queue_depth ≡ 0)
          × (w.recorder.writer.out.content ≡ file_bytes now w.accepted))
        (sym world_same)
        (let (a, b, c) =
            stats_agree out options now writer empty made capacity trace.ms i at'
              (ap (λ w. all_uncounted w.submissions) (sym world_same) ∙ idle) in
          (a, b, c, (stop_complete out options now writer empty made capacity trace.ms i at').2))

  -- The program's own counter, where it has one, and the refusals.
  pub counted :
      program.counts ≡ true
      → last.main ≡ returned
      → last.handed < 2 ^ 64
      → (last.generated ≡ (stats last.world.recorder).submitted)
        × ((stats last.world.recorder).rejected ≡ 0)
  unfolding stats
  counted counts done small =
      let s = sound small in
      let c =
        acts-Counts draw program counts as_ (start seeded program writer capacity producers)
          (start-Counts seeded program writer capacity producers) in
      let left = s.safe.left (ap is_waiting done) in
      let none_ = s.safe.taken (calm done) in
      (
        omega (arith, c.generated, c.submitted, c.small, c.fits, idle_places last.places left),
        omega (arith, c.rejected, none_),
      )

  -- All numbers below `events`, where the loops go on to the last one.
  pub complete :
      (events : ℕ)
      → ((n : ℕ) → program.over n ≡ leb events n)
      → 0 < producers
      → events + producers < 2 ^ 64
      → last.main ≡ returned
      → program.loops last.stop_requested ≡ true
      → (last.handed < 2 ^ 64)
        × ((n : ℕ) → times n last.world.accepted ≡ (if ltb n events then 1 else 0))
  complete events limit some_ fits done goes =
      let within = λ (n : ℕ) (h : program.over n ≡ false).
        let same = limit n in below_limit n (sym same ∙ h) in
      let (most, size) =
        handed_bound draw program events producers within seeded writer capacity as_ fits in
      let small : last.handed < 2 ^ 64 = omega (arith, most, fits) in
      let x = exhausted done small goes (omega (arith, size, some_)) in
      let reached = above_limit x.number (sym (limit x.number) ∙ x.over_) in
      (
        small,
        λ n.
            once done small n
            ∙ ap (λ b. if ltb n last.handed && not b then 1 else 0) (limit n)
            ∙ both n last.handed events (omega (arith, reached, x.taken)),
      )
    where
      below_limit : (n : ℕ) → leb events n ≡ false → n < events
      below_limit n h = ground arith

      above_limit : (n : ℕ) → leb events n ≡ true → events ≤ n
      above_limit n h = ground arith

      both :
          (n handed events : ℕ)
          → events < handed
          → ◌≡◌ {A = ℕ}
              (if ltb n handed && not (leb events n) then 1 else 0)
              (if ltb n events then 1 else 0)
      both n handed events h = ground arith
