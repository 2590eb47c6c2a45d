-- ===== src/Apps/Tool/Selected.antt =====
-- The loops of `dump`, `write_csv` and `write_json` (apps/hpblr_tool.cpp) print the events that a
-- list view of the filter and the limit selects.
use cpp_high_performance_bin.Base.{
  ℕ, zero, suc, ◌+◌, ◌^◌, ◌%◌, ◌<◌, ◌≡◌, refl, sym, ap, ◌∙◌, inl, inr, Bool, Bool-cases, true,
  false, not, leb, ◌==◌, if◌then◌else◌, arith, List, [], ◌∷◌, ◌++◌, length, take, Option, none,
  some, Text,
}
use cpp_high_performance_bin.Errors.{Result, ok, err}
use cpp_high_performance_bin.Event.{Event}
use cpp_high_performance_bin.Filter.{EventFilter, matches}
use cpp_high_performance_bin.BinaryLog.Reader.{Reader, next}
use cpp_high_performance_bin.BinaryLog.Reader.Replay.{
  Ending, finished, unfinished, thrown, Replay, replay, prepend, replay_error, replay_end,
  replay_event,
}
use cpp_high_performance_bin.Apps.Tool.Print.{Printed, print, reached, print_loop}
use cpp_high_performance_bin.Apps.Tool.Steps.{
  print_loop_error, print_loop_end, print_loop_skip, print_loop_last, print_loop_more,
}

-- The events that the filter lets through.
unfoldable pub select : EventFilter → List Event → List Event
select filter [] = []
select filter (e ∷ es) = elim (matches filter e) [
  | true ↦ e ∷ select filter es
  | false ↦ select filter es
]

-- No limit, or that many events at most.
unfoldable pub limited : ℕ → List Event → List Event
limited zero es = es
limited (suc n) es = take (suc n) es

-- The text of the events: the first is told from the others.
unfoldable pub lines : (Bool → Event → Text) → Bool → List Event → Text
lines line first [] = []
lines line first (e ∷ es) = line first e ++ lines line false es

-- A replay that ends early for its limit is finished.
unfoldable pub ends : ℕ → List Event → Ending → Ending
ends limit chosen ending = if reached limit (length chosen) then finished else ending

-- What the list view prints for a replay.
unfoldable pub shown : (Bool → Event → Text) → EventFilter → ℕ → Replay → Printed
shown line filter limit (es, ending) =
    (lines line true (limited limit (select filter es)), ends limit (select filter es) ending)

select_in :
    (filter : EventFilter) (e : Event) (es : List Event)
    → matches filter e ≡ true
    → select filter (e ∷ es) ≡ e ∷ select filter es
unfolding select
select_in filter e es h = rw (h, select) refl

select_out :
    (filter : EventFilter) (e : Event) (es : List Event)
    → matches filter e ≡ false
    → select filter (e ∷ es) ≡ select filter es
unfolding select
select_out filter e es h = rw (h, select) refl

-- Without a limit.
module _ (line : Bool → Event → Text) (filter : EventFilter) where
  abbrev all_shown : Bool → Replay → Printed
  all_shown first (es, ending) = (lines line first (select filter es), ending)

  unlimited_step :
      (fuel : ℕ) (first : Bool) (emitted : ℕ) (r r' : Reader) (got : Result (Option Event))
      → next r ≡ (got, r')
      → ((first : Bool) (emitted : ℕ)
          → print_loop line filter 0 fuel first emitted r' ≡ all_shown first (replay fuel r'))
      → print_loop line filter 0 (suc fuel) first emitted r ≡ all_shown first (replay (suc fuel) r)
  unfolding lines select
  unlimited_step fuel first emitted r r' (err x) h rest =
      print_loop_error line filter 0 fuel first emitted r r' x h
      ∙ ap (all_shown first) (sym (replay_error fuel r r' x h))
  unlimited_step fuel first emitted r r' (ok none) h rest =
      print_loop_end line filter 0 fuel first emitted r r' h
      ∙ ap (all_shown first) (sym (replay_end fuel r r' h))
  unlimited_step fuel first emitted r r' (ok (some e)) h rest =
      elim (Bool-cases (matches filter e)) [
        | inl in_ ↦
            print_loop_more line filter 0 fuel first emitted r r' e h in_ refl
            ∙ ap (print (line first e)) (rest false ((emitted + 1) % 2 ^ 64))
            ∙ ap (λ sel. (lines line first sel, (replay fuel r').1))
                (sym (select_in filter e (replay fuel r').0 in_))
            ∙ ap (all_shown first) (sym (replay_event fuel r r' e h))
        | inr out ↦
            print_loop_skip line filter 0 fuel first emitted r r' e h out
            ∙ rest first emitted
            ∙ ap (λ sel. (lines line first sel, (replay fuel r').1))
                (sym (select_out filter e (replay fuel r').0 out))
            ∙ ap (all_shown first) (sym (replay_event fuel r r' e h))
      ]

  print_loop_unlimited :
      (fuel : ℕ) (first : Bool) (emitted : ℕ) (r : Reader)
      → print_loop line filter 0 fuel first emitted r ≡ all_shown first (replay fuel r)
  print_loop_unlimited zero first emitted r = unfold print_loop replay select lines in refl
  print_loop_unlimited (suc fuel) first emitted r =
      unlimited_step fuel first emitted r (next r).1 (next r).0 refl
        (λ f n. print_loop_unlimited fuel f n (next r).1)

stop_at : ℕ → ℕ → Ending → Ending
stop_at room n ending = if leb room n then finished else ending

stop_at_none : (room : ℕ) (ending : Ending) → stop_at (suc room) 0 ending ≡ ending
unfolding stop_at
stop_at_none room ending =
    let none_fit : leb (suc room) 0 ≡ false = ground arith in rw none_fit refl

stop_at-suc :
    (room n : ℕ) (ending : Ending) → stop_at (suc room) (suc n) ending ≡ stop_at room n ending
unfolding stop_at
stop_at-suc room n ending =
    let same : leb (suc room) (suc n) ≡ leb room n = ground arith in rw same refl

stop_at-0 : (n : ℕ) (ending : Ending) → stop_at 0 n ending ≡ finished
unfolding stop_at
stop_at-0 n ending = let full : leb 0 n ≡ true = ground arith in rw full refl

-- Under a limit, with room for `suc room` events.
module _ (line : Bool → Event → Text) (filter : EventFilter) (limit : ℕ)
    (small : limit < 2 ^ 64) where
  abbrev first_shown : Bool → ℕ → Replay → Printed
  first_shown first room (es, ending) = (
    lines line first (take room (select filter es)),
    stop_at room (length (select filter es)) ending,
  )

  first_shown_in :
      (first : Bool) (room : ℕ) (e : Event) (seen : Replay)
      → matches filter e ≡ true
      → print (line first e) (first_shown false room seen)
        ≡ first_shown first (suc room) (prepend e seen)
  unfolding lines
  first_shown_in first room e (es, ending) in_ =
      rw (select_in filter e es in_, stop_at-suc room (length (select filter es)) ending) refl

  first_shown_out :
      (first : Bool) (room : ℕ) (e : Event) (seen : Replay)
      → matches filter e ≡ false
      → first_shown first room seen ≡ first_shown first room (prepend e seen)
  first_shown_out first room e (es, ending) out = rw (select_out filter e es out) refl

  first_shown_full : (first : Bool) (seen : Replay) → first_shown first 0 seen ≡ ([], finished)
  unfolding lines
  first_shown_full first (es, ending) = rw (stop_at-0 (length (select filter es)) ending) refl

  first_shown_none :
      (first : Bool) (room : ℕ) (ending : Ending)
      → ([], ending) ≡ first_shown first (suc room) ([], ending)
  unfolding lines select
  first_shown_none first room ending = rw (stop_at_none room ending) refl

  limited_step :
      (fuel : ℕ) (first : Bool) (emitted room : ℕ) (r r' : Reader) (got : Result (Option Event))
      → next r ≡ (got, r')
      → limit ≡ emitted + suc room
      → ((first : Bool) (emitted room : ℕ)
          → limit ≡ emitted + suc room
          → print_loop line filter limit fuel first emitted r'
            ≡ first_shown first (suc room) (replay fuel r'))
      → print_loop line filter limit (suc fuel) first emitted r
        ≡ first_shown first (suc room) (replay (suc fuel) r)
  limited_step fuel first emitted room r r' (err x) h split rest =
      print_loop_error line filter limit fuel first emitted r r' x h
      ∙ first_shown_none first room (thrown x)
      ∙ ap (first_shown first (suc room)) (sym (replay_error fuel r r' x h))
  limited_step fuel first emitted room r r' (ok none) h split rest =
      print_loop_end line filter limit fuel first emitted r r' h
      ∙ first_shown_none first room finished
      ∙ ap (first_shown first (suc room)) (sym (replay_end fuel r r' h))
  limited_step fuel first emitted room r r' (ok (some e)) h split rest =
      elim (Bool-cases (matches filter e)) [
        | inr out ↦
            print_loop_skip line filter limit fuel first emitted r r' e h out
            ∙ rest first emitted room split
            ∙ first_shown_out first (suc room) e (replay fuel r') out
            ∙ ap (first_shown first (suc room)) (sym (replay_event fuel r r' e h))
        | inl in_ ↦
            room_step room split in_
            ∙ first_shown_in first room e (replay fuel r') in_
            ∙ ap (first_shown first (suc room)) (sym (replay_event fuel r r' e h))
      ]
    where
      room_step :
          (room : ℕ)
          → limit ≡ emitted + suc room
          → matches filter e ≡ true
          → print_loop line filter limit (suc fuel) first emitted r
            ≡ print (line first e) (first_shown false room (replay fuel r'))
      room_step zero split in_ =
          let full : reached limit ((emitted + 1) % 2 ^ 64) ≡ true = ground arith in
          print_loop_last line filter limit fuel first emitted r r' e h in_ full
          ∙ ap (print (line first e)) (sym (first_shown_full false (replay fuel r')))
      room_step (suc room) split in_ =
          let space : reached limit ((emitted + 1) % 2 ^ 64) ≡ false = ground arith in
          print_loop_more line filter limit fuel first emitted r r' e h in_ space
          ∙ ap (print (line first e)) (rest false ((emitted + 1) % 2 ^ 64) room (omega arith))

  print_loop_limited :
      (fuel : ℕ) (first : Bool) (emitted room : ℕ) (r : Reader)
      → limit ≡ emitted + suc room
      → print_loop line filter limit fuel first emitted r
        ≡ first_shown first (suc room) (replay fuel r)
  unfolding print_loop replay
  print_loop_limited zero first emitted room r split = first_shown_none first room unfinished
  print_loop_limited (suc fuel) first emitted room r split =
      limited_step fuel first emitted room r (next r).1 (next r).0 refl split
        (λ f n k. print_loop_limited fuel f n k (next r).1)

-- For a limit of 64 bits, the loop prints the events that pass the filter, in order, without a
-- limit when it is 0, and at most that many otherwise; it ends as the replay of the reader ends,
-- or, if the limit is reached, without reading on.
pub print_loop_lem :
    (line : Bool → Event → Text) (filter : EventFilter) (limit fuel : ℕ) (r : Reader)
    → limit < 2 ^ 64
    → print_loop line filter limit fuel true 0 r ≡ shown line filter limit (replay fuel r)
unfolding shown limited ends stop_at
print_loop_lem line filter zero fuel r small = print_loop_unlimited line filter fuel true 0 r
print_loop_lem line filter (suc room) fuel r small =
    print_loop_limited line filter (suc room) small fuel true 0 room r (omega arith)
    ∙ (let given : not (suc room == 0) ≡ true = ground arith in rw given refl)
