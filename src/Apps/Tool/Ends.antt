-- ===== src/Apps/Tool/Ends.antt =====
-- `dump`, `write_csv` and `write_json` (apps/hpblr_tool.cpp) end on every file.
use cpp_high_performance_bin.Base.{
  ℕ, zero, suc, subst, ◌<◌, ◌^◌, ◌≡◌, ◌≢◌, refl, sym, ap, ◌∙◌, Bool, Bool-cases, Option-cases,
  Option, none, some, ◌∷◌, inl, inr, arith, List, [], length, Text, codes,
}
use cpp_high_performance_bin.Crc32.{IsBytes}
use cpp_high_performance_bin.Errors.{Result, ok, err}
use cpp_high_performance_bin.Event.{Event, severity_from_u16}
use cpp_high_performance_bin.Apps.Tool.Inspect.{
  Summary, no_events, count_event, severity_lines, report, inspect_loop, inspect,
}
use cpp_high_performance_bin.BinaryLog.Stream.{Ifstream}
use cpp_high_performance_bin.BinaryLog.Reader
use cpp_high_performance_bin.BinaryLog.Reader.{Reader, FileInfo, next}
use cpp_high_performance_bin.BinaryLog.Reader.Ends.{replay-ends, next-shorter, construct-IsBytes}
use cpp_high_performance_bin.BinaryLog.Reader.Replay.{Ending, finished, unfinished, thrown, replay}
use cpp_high_performance_bin.Apps.Tool.{CommonOptions}
use cpp_high_performance_bin.Apps.Tool.Print.{
  Printed, reached, print_events, reading, dump, write_csv, write_json, close_array, dump_line,
  csv_row, json_item, print, csv_header,
}
use cpp_high_performance_bin.Apps.Tool.Selected.{shown, ends, select, print_loop_lem}

ends-unfinished :
    (limit : ℕ) (chosen : List Event) (ending : Ending)
    → ending ≢ unfinished
    → ends limit chosen ending ≢ unfinished
unfolding ends
ends-unfinished limit chosen ending h = elim (Bool-cases (reached limit (length chosen))) [
  | inl full ↦ λ e. let e' = simp full at e in cc e'
  | inr space ↦ λ e. h (simp space at e)
]

print_events_end :
    (line : Bool → Event → Text) (opts : CommonOptions) (r : Reader)
    → opts.limit < 2 ^ 64
    → IsBytes r.input.rest
    → (print_events line opts r).1 ≢ unfinished
unfolding shown
print_events_end line opts r small bytes e =
    ends-unfinished opts.limit (select opts.filter (replay (suc (length r.input.rest)) r).0)
      (replay (suc (length r.input.rest)) r).1
      (replay-ends (suc (length r.input.rest)) r bytes (omega arith))
      (sym (
          ap (λ p. p.1)
            (print_loop_lem line opts.filter opts.limit (suc (length r.input.rest)) r small))
        ∙ e)

reading_ends :
    (body : Reader → Printed) (input : Ifstream)
    → IsBytes input.rest
    → ((r : Reader) → IsBytes r.input.rest → (body r).1 ≢ unfinished)
    → (reading input body).1 ≢ unfinished
reading_ends body input bytes ends_ =
    go (Reader.construct input).0 (Reader.construct input).1 (construct-IsBytes input bytes)
  where
    go :
        (got : Result (Unit {0})) (r : Reader)
        → IsBytes r.input.rest
        → (elim got as (λ x. Printed) [ err e ↦ ([], thrown e) | ok done ↦ body r ]).1 ≢ unfinished
    go (err x) r kept = λ e. cc e
    go (ok done) r kept = ends_ r kept

close_array_ends : (p : Printed) → p.1 ≢ unfinished → (close_array p).1 ≢ unfinished
unfolding close_array
close_array_ends (text, finished) h = h
close_array_ends (text, unfinished) h = h
close_array_ends (text, thrown e) h = h

severity_lines_end : (i : ℕ) (ns : List ℕ) → (severity_lines i ns).1 ≢ unfinished
unfolding severity_lines
severity_lines_end i [] = λ e. cc e
severity_lines_end i (n ∷ ns) = elim (Option-cases (severity_from_u16 i)) [
  | inl none_ ↦ rw (none_, severity_lines) (λ e. cc e)
  | inr (severity, found) ↦ rw (found, severity_lines) (severity_lines_end (suc i) ns)
]

report_ends : (name : Text) (info : FileInfo) (s : Summary) → (report name info s).1 ≢ unfinished
unfolding report
report_ends name info s = severity_lines_end 0 s.severities

inspect_step :
    (name : Text) (fuel : ℕ) (s : Summary) (r r' : Reader) (got : Result (Option Event))
    → IsBytes r.input.rest
    → length r.input.rest < suc fuel
    → next r ≡ (got, r')
    → ((s : Summary)
        → IsBytes r'.input.rest
        → length r'.input.rest < fuel
        → (inspect_loop name fuel s r').1 ≢ unfinished)
    → (inspect_loop name (suc fuel) s r).1 ≢ unfinished
unfolding inspect_loop
inspect_step name fuel s r r' (err x) bytes enough h later = rw (h, inspect_loop) (λ e. cc e)
inspect_step name fuel s r r' (ok none) bytes enough h later =
    rw (h, inspect_loop) (report_ends name (next r).1.info s)
inspect_step name fuel s r r' (ok (some event)) bytes enough h later =
    let (shorter, bytes') = next-shorter r r' event bytes h in
    rw (h, inspect_loop)
      (counted (count_event event s) (λ s'.
        subst (λ (t : Reader). (inspect_loop name fuel s' t).1 ≢ unfinished)
          (ap (λ (t : Result (Option Event) × Reader). t.1) (sym h))
          (later s' bytes' (omega arith))))
  where
    counted :
        (got : Result Summary)
        → ((s' : Summary) → (inspect_loop name fuel s' (next r).1).1 ≢ unfinished)
        → (elim got as (λ x. Printed) [
          | err e ↦ ([], thrown e)
          | ok s' ↦ inspect_loop name fuel s' (next r).1
        ]).1
          ≢ unfinished
    counted (err x) go_on = λ e. cc e
    counted (ok s') go_on = go_on s'

inspect_loop_ends :
    (name : Text) (fuel : ℕ) (s : Summary) (r : Reader)
    → IsBytes r.input.rest
    → length r.input.rest < fuel
    → (inspect_loop name fuel s r).1 ≢ unfinished
inspect_loop_ends name zero s r bytes enough = absurd (omega arith)
inspect_loop_ends name (suc fuel) s r bytes enough =
    inspect_step name fuel s r (next r).1 (next r).0 bytes enough refl
      (λ s'. inspect_loop_ends name fuel s' (next r).1)

-- Whatever bytes the input file holds, and for a limit below 2^64, the loops of `inspect`, `dump`,
-- `write_csv` and `write_json` end within the fuel of one step for each byte and one more.
pub commands_end :
    (opts : CommonOptions) (input : Ifstream)
    → opts.limit < 2 ^ 64
    → IsBytes input.rest
    → ((inspect opts input).1 ≢ unfinished)
      × ((dump opts input).1 ≢ unfinished)
      × ((write_csv opts input).1 ≢ unfinished)
      × ((write_json opts input).1 ≢ unfinished)
unfolding inspect dump write_csv write_json
commands_end opts input small bytes = (
  reading_ends (λ r. inspect_loop opts.input (suc (length r.input.rest)) no_events r) input bytes
      (λ r kept.
        inspect_loop_ends opts.input (suc (length r.input.rest)) no_events r kept (omega arith)),
  reading_ends (print_events (λ first. dump_line) opts) input bytes
      (λ r. print_events_end (λ first. dump_line) opts r small),
  reading_ends (λ r. print csv_header (print_events (λ first. csv_row) opts r)) input bytes
      (λ r. print_events_end (λ first. csv_row) opts r small),
  reading_ends (λ r. print (codes "[\n") (close_array (print_events json_item opts r))) input bytes
      (λ r kept.
        close_array_ends (print_events json_item opts r)
          (print_events_end json_item opts r small kept)),
)
