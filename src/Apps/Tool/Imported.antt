-- ===== src/Apps/Tool/Imported.antt =====
-- The rows that `write_csv` (apps/hpblr_tool.cpp) prints are read back as the events.
use cpp_high_performance_bin.Base.{
  ℕ, zero, suc, ◌^◌, ◌<◌, ◌≡◌, refl, ap, ap₂, ◌∙◌, ◌==◌, Bool-cases, inl, inr, All-take, Bool, true,
  false, arith, List, [], ◌∷◌, ◌++◌, append_assoc, length, drop, drop-append, All, All-append,
  Option, none, some, Text,
}
use cpp_high_performance_bin.Errors.{ok}
use cpp_high_performance_bin.Event.{Event}
use cpp_high_performance_bin.BinaryLog.Stream.{Ofstream, taken, open_input}
use cpp_high_performance_bin.BinaryLog.Format.{IsStorable}
use cpp_high_performance_bin.BinaryLog.RoundTrip.{IsTyped, accepted-IsStorable}
use cpp_high_performance_bin.BinaryLog.Writer
use cpp_high_performance_bin.BinaryLog.Writer.{Writer, WriterOptions}
use cpp_high_performance_bin.BinaryLog.Writer.Log.{Call, run, accepted}
use cpp_high_performance_bin.Filter.{EventFilter, matches}
use cpp_high_performance_bin.Apps.Tool.{CommonOptions}
use cpp_high_performance_bin.Apps.Tool.Print.{Printed, all_bytes, csv_header, csv_row, write_csv}
use cpp_high_performance_bin.Apps.Tool.Selected.{select, limited, lines, shown}
use cpp_high_performance_bin.Apps.Tool.Recorded.{write_csv-close}
use cpp_high_performance_bin.Apps.Tool.Csv.{
  split, read_row, IsNot, IsPlain, All-imply, split-append, plain_newline, decimal-IsPlain,
  severity_to_string-IsPlain, bytes_to_hex-IsPlain, format_unix_ns_utc-IsPlain,
}
use cpp_high_performance_bin.Apps.Tool.Rows.{row_text, read_row-row_text, csv_row-row_text}

abbrev combine : Option Event → Option (List Event) → Option (List Event)
combine (some e) (some es) = some (e ∷ es)
combine (some e) none = none
combine none es = none

-- Rows up to an empty one, which is what follows the end of the last line.
unfoldable pub read_lines : List Text → Option (List Event)
read_lines [] = none
read_lines ([] ∷ []) = some []
read_lines ((c ∷ cs) ∷ []) = none
read_lines (row ∷ next ∷ rest) = combine (read_row row) (read_lines (next ∷ rest))

-- The events of an exported file, behind the names of its columns.
unfoldable pub read_csv : Text → Option (List Event)
read_csv text = read_lines (split 10 (drop (length csv_header) text))

split_some :
    (separator : ℕ) (text : Text)
    → (piece : Text) × (pieces : List Text) × (split separator text ≡ piece ∷ pieces)
unfolding split
split_some separator [] = ([], [], refl)
split_some separator (c ∷ cs) = elim (Bool-cases (c == separator)) [
  | inl here ↦ ([], split separator cs, simp here)
  | inr other ↦
      let (piece, pieces, found) = split_some separator cs in
      (c ∷ piece, pieces, simp (other, found))
]

read_lines_more :
    (row : Text) (pieces : List Text) (piece : Text) (later : List Text)
    → pieces ≡ piece ∷ later
    → read_lines (row ∷ pieces) ≡ combine (read_row row) (read_lines pieces)
unfolding read_lines
read_lines_more row pieces piece later h = rw h (with_row row)
  where
    with_row :
        (row : Text)
        → read_lines (row ∷ piece ∷ later) ≡ combine (read_row row) (read_lines (piece ∷ later))
    with_row row = unfold read_lines in refl

comma_newline : IsNot 10 44
comma_newline = ground arith

row_text-IsNot : (e : Event) → All (IsNot 10) (row_text e)
unfolding row_text
row_text-IsNot e = joined _ _ (decimal-IsPlain e.sequence) (
    joined _ _ (decimal-IsPlain e.timestamp_ns) (
      joined _ _ (format_unix_ns_utc-IsPlain e.timestamp_ns) (
        joined _ _ (decimal-IsPlain e.producer_id) (
          joined _ _ (decimal-IsPlain e.type) (
            joined _ _ (severity_to_string-IsPlain e.severity) (
              joined _ _ (decimal-IsPlain (length e.payload))
                (All-imply plain_newline _ (bytes_to_hex-IsPlain e.payload all_bytes))))))))
  where
    joined : (a b : Text) → All IsPlain a → All (IsNot 10) b → All (IsNot 10) (a ++ 44 ∷ b)
    joined a b h k =
        All-append (IsNot 10) a (44 ∷ b) (All-imply plain_newline a h) (comma_newline, k)

read_lines-lines :
    (first : Bool) (es : List Event)
    → All IsStorable es
    → read_lines (split 10 (lines (λ first. csv_row) first es)) ≡ some es
unfolding lines
read_lines-lines first [] h = unfold split in unfold read_lines in refl
read_lines-lines first (e ∷ es) h =
    let later = lines (λ first. csv_row) false es in
    let (piece, pieces, found) = split_some 10 later in
    ap (λ row. read_lines (split 10 (row ++ later))) (csv_row-row_text e)
    ∙ ap (λ text. read_lines (split 10 text)) (append_assoc (row_text e) (10 ∷ []) later)
    ∙ ap read_lines (split-append 10 (row_text e) later (row_text-IsNot e))
    ∙ read_lines_more (row_text e) (split 10 later) piece pieces found
    ∙ ap₂ combine (read_row-row_text e h.0) (read_lines-lines false es h.1)

All-select :
    (P : Event → Type 0) (filter : EventFilter) (es : List Event)
    → All P es
    → All P (select filter es)
unfolding select
All-select P filter [] h = tt
All-select P filter (e ∷ es) h = elim (Bool-cases (matches filter e)) [
  | inl in_ ↦ rw (in_, select) (h.0, All-select P filter es h.1)
  | inr out ↦ rw (out, select) (All-select P filter es h.1)
]

All-limited : (P : Event → Type 0) (n : ℕ) (es : List Event) → All P es → All P (limited n es)
unfolding limited
All-limited P zero es h = h
All-limited P (suc n) es h = All-take P (suc n) es h

-- Take a writer whose constructor returned on an empty file at a time below 2 ^ 64, any calls with
-- events of the C++ type, a `close` that returns, and options whose limit is below 2 ^ 64. From the
-- text that `write_csv` prints for the file, the events that `append` accepted, that pass the filter
-- and as far as the limit allows, can be read back with all their fields, in order.
pub read_csv-write_csv :
    (opts : CommonOptions) (out : Ofstream) (options : WriterOptions) (now : ℕ) (w w' : Writer)
    (cs : List Call)
    → opts.limit < 2 ^ 64
    → taken out ≡ []
    → Writer.construct out options now ≡ (ok tt, w)
    → now < 2 ^ 64
    → All IsTyped cs
    → Writer.close (run cs w) ≡ (ok tt, w')
    → read_csv ((write_csv opts (open_input w'.out.content)).0)
      ≡ some (limited opts.limit (select opts.filter (accepted cs w)))
unfolding read_csv shown
read_csv-write_csv opts out options now w w' cs small empty made clock typed closed =
    let chosen = limited opts.limit (select opts.filter (accepted cs w)) in
    ap (λ (p : Printed). read_csv p.0)
      (write_csv-close opts small out options now w empty made clock cs typed closed)
    ∙ ap (λ text. read_lines (split 10 text))
        (drop-append csv_header (lines (λ first. csv_row) true chosen))
    ∙ read_lines-lines true chosen (
        All-limited IsStorable opts.limit (select opts.filter (accepted cs w))
          (All-select IsStorable opts.filter (accepted cs w) (accepted-IsStorable cs w typed)))
