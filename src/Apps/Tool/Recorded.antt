-- ===== src/Apps/Tool/Recorded.antt =====
-- `dump`, `write_csv` and `write_json` (apps/hpblr_tool.cpp) on a file that `BinaryLogWriter` wrote.
use cpp_high_performance_bin.Base.{
  ℕ, suc, ◌^◌, ◌<◌, ◌≤◌, ◌≡◌, refl, ap, ◌∙◌, Bool, false, arith, List, [], ◌∷◌, ◌++◌, length,
  length-append, All, Text, codes,
}
use cpp_high_performance_bin.Errors.{Result, ok}
use cpp_high_performance_bin.Event.{Event}
use cpp_high_performance_bin.BinaryLog.Stream.{Ifstream, open_input, Ofstream, taken}
use cpp_high_performance_bin.BinaryLog.Format.{
  file_header, record_header, record_bytes, records, file_bytes, IsStorable,
}
use cpp_high_performance_bin.BinaryLog.Reader
use cpp_high_performance_bin.BinaryLog.Reader.{Reader, next}
use cpp_high_performance_bin.BinaryLog.Reader.Next.{length-record_header}
use cpp_high_performance_bin.BinaryLog.Reader.Open.{opened_at, construct-file_header}
use cpp_high_performance_bin.BinaryLog.Reader.Replay.{Replay, finished, replay-records}
use cpp_high_performance_bin.BinaryLog.RoundTrip.{IsTyped, accepted-IsStorable}
use cpp_high_performance_bin.BinaryLog.Writer
use cpp_high_performance_bin.BinaryLog.Writer.{Writer, WriterOptions}
use cpp_high_performance_bin.BinaryLog.Writer.Log.{Call, run, accepted, close-file_complete}
use cpp_high_performance_bin.Apps.Tool.{CommonOptions}
use cpp_high_performance_bin.Apps.Tool.Print.{
  Printed, print, print_events, reading, dump, dump_line, csv_header, csv_row, json_item,
  close_array, write_csv, write_json,
}
use cpp_high_performance_bin.Apps.Tool.Selected.{shown, print_loop_lem}
use cpp_high_performance_bin.Apps.Tool.Layouts.{
  dump_text, row_text, item_text, dump_line-dump_text, csv_row-row_text, json_item-item_text,
  shown_same, array_of, array_lem, shown-finished,
}

-- Every record has bytes.
pub length-records : (es : List Event) → length es ≤ length (records es)
unfolding records record_bytes
length-records [] = omega arith
length-records (e ∷ es) = omega (
  arith,
  length-records es,
  length-append (record_header e ++ e.payload) (records es),
  length-append (record_header e) e.payload,
  length-record_header e,
)

-- The events of a sound file, shown through the filter and the limit.
print_events-file :
    (line : Bool → Event → Text) (opts : CommonOptions) (now : ℕ) (es : List Event)
    (input : Ifstream)
    → opts.limit < 2 ^ 64
    → All IsStorable es
    → input.fail ≡ false
    → input.broken ≡ false
    → print_events line opts (opened_at input now (records es))
      ≡ shown line opts.filter opts.limit (es, finished)
print_events-file line opts now es input small storable good sound =
    print_loop_lem line opts.filter opts.limit (suc (length (records es)))
      (opened_at input now (records es)) small
    ∙ ap (shown line opts.filter opts.limit) (
        replay-records es (suc (length (records es))) (opened_at input now (records es)) storable
          (omega (arith, length-records es)) good sound refl)

reading_ok :
    (input : Ifstream) (r : Reader) (body : Reader → Printed)
    → Reader.construct input ≡ (ok tt, r)
    → reading input body ≡ body r
reading_ok input r body h = rw (h, reading) (ap (λ (t : Result (Unit {0}) × Reader). body t.1) h)

pub reading_file :
    (body : Reader → Printed) (now : ℕ) (es : List Event)
    → now < 2 ^ 64
    → reading (open_input (file_bytes now es)) body
      ≡ body (opened_at (open_input (file_bytes now es)) now (records es))
unfolding file_bytes
reading_file body now es clock = reading_ok (open_input (file_header now ++ records es)) _ body (
    construct-file_header now (records es) (open_input (file_header now ++ records es)) clock refl
      refl)

-- The three commands on the file of a writer.
module _ (opts : CommonOptions) (small : opts.limit < 2 ^ 64) (out : Ofstream)
    (options : WriterOptions) (now : ℕ) (w : Writer) (empty : taken out ≡ [])
    (made : Writer.construct out options now ≡ (ok tt, w)) (clock : now < 2 ^ 64) (cs : List Call)
    (typed : All IsTyped cs) where
  printed :
      (line : Bool → Event → Text) (body : Printed → Printed) {w' : Writer}
      → Writer.close (run cs w) ≡ (ok tt, w')
      → reading (open_input w'.out.content) (λ r. body (print_events line opts r))
        ≡ body (shown line opts.filter opts.limit (accepted cs w, finished))
  printed line body {w'} closed =
      ap (λ bytes. reading (open_input bytes) (λ r. body (print_events line opts r)))
        (close-file_complete out options now w empty made cs closed)
      ∙ reading_file (λ r. body (print_events line opts r)) now (accepted cs w) clock
      ∙ ap body (
          print_events-file line opts now (accepted cs w)
            (open_input (file_bytes now (accepted cs w))) small (accepted-IsStorable cs w typed)
            refl refl)

  pub write_csv-close :
      {w' : Writer}
      → Writer.close (run cs w) ≡ (ok tt, w')
      → write_csv opts (open_input w'.out.content)
        ≡ print csv_header
            (shown (λ first. csv_row) opts.filter opts.limit (accepted cs w, finished))
  unfolding write_csv
  write_csv-close closed = printed (λ first. csv_row) (print csv_header) closed

  -- Take a writer whose constructor returned on an empty file at a time below 2 ^ 64, any calls
  -- with events of the C++ type, a `close` that returns, and options whose limit is below 2 ^ 64.
  -- Of the events that `append` accepted, `dump`, `write_csv` and `write_json` print those that
  -- pass the filter, in order and as far as the limit allows, each once, and end without an
  -- exception: as lines of fields with their names, as rows of fields with commas between them
  -- behind a row of the names, and as an array of objects with all the fields.
  pub print-close :
      {w' : Writer}
      → Writer.close (run cs w) ≡ (ok tt, w')
      → (dump opts (open_input w'.out.content)
          ≡ shown (λ first. dump_text) opts.filter opts.limit (accepted cs w, finished))
        × (write_csv opts (open_input w'.out.content)
            ≡ print
                (codes
                  "sequence,timestamp_ns,timestamp_utc,producer_id,type,severity,payload_size,payload_hex\n")
                (shown (λ first. row_text) opts.filter opts.limit (accepted cs w, finished)))
        × (write_json opts (open_input w'.out.content)
            ≡ array_of (shown item_text opts.filter opts.limit (accepted cs w, finished)))
  unfolding dump write_json
  print-close closed =
      let read : Replay = (accepted cs w, finished) in
      (
        printed (λ first. dump_line) (λ p. p) closed
            ∙ shown_same (λ first. dump_line) (λ first. dump_text) opts read dump_line-dump_text,
        write_csv-close closed
            ∙ ap (print csv_header)
                (shown_same (λ first. csv_row) (λ first. row_text) opts read csv_row-row_text),
        printed json_item (λ p. print (codes "[\n") (close_array p)) closed
            ∙ array_lem (shown json_item opts.filter opts.limit read)
                (shown-finished json_item opts (accepted cs w))
            ∙ ap array_of (shown_same json_item item_text opts read json_item-item_text),
      )
