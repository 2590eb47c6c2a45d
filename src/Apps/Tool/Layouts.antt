-- ===== src/Apps/Tool/Layouts.antt =====
-- What `dump`, `write_csv` and `write_json` (apps/hpblr_tool.cpp) print of an event, as labels with
-- values behind them.
use cpp_high_performance_bin.Base.{
  ◌≡◌, refl, ap, Bool, true, false, append_assoc, arith, List, [], ◌∷◌, ◌++◌, length, Text, codes,
}
use cpp_high_performance_bin.Event.{Event}
use cpp_high_performance_bin.BinaryLog.Reader.Replay.{Replay, finished, unfinished, thrown}
use cpp_high_performance_bin.Decimal.{decimal}
use cpp_high_performance_bin.Time.{format_unix_ns_utc}
use cpp_high_performance_bin.Event.Text.{severity_to_string}
use cpp_high_performance_bin.Event.Text.Hex.{bytes_to_hex}
use cpp_high_performance_bin.Apps.Spelling.{spelled}
use cpp_high_performance_bin.Apps.Tool.{CommonOptions}
use cpp_high_performance_bin.Apps.Tool.Print.{
  Printed, print, dump_line, csv_row, json_object, json_item, all_bytes, close_array,
}
use cpp_high_performance_bin.Apps.Tool.Selected.{shown, ends}

-- The line of an event in a dump, a row and an object.
abbrev pub dump_text : Event → Text
dump_text e = spelled (
    (codes "seq=", decimal e.sequence)
    ∷ (codes " ts_ns=", decimal e.timestamp_ns)
    ∷ (codes " utc=", format_unix_ns_utc e.timestamp_ns)
    ∷ (codes " producer=", decimal e.producer_id)
    ∷ (codes " type=", decimal e.type)
    ∷ (codes " severity=", severity_to_string e.severity)
    ∷ (codes " payload_size=", decimal (length e.payload))
    ∷ (codes " payload_hex=", bytes_to_hex e.payload 32)
    ∷ (codes "\n", [])
    ∷ [])

abbrev pub row_text : Event → Text
row_text e = spelled (
    ([], decimal e.sequence)
    ∷ (codes ",", decimal e.timestamp_ns)
    ∷ (codes ",", format_unix_ns_utc e.timestamp_ns)
    ∷ (codes ",", decimal e.producer_id)
    ∷ (codes ",", decimal e.type)
    ∷ (codes ",", severity_to_string e.severity)
    ∷ (codes ",", decimal (length e.payload))
    ∷ (codes ",", bytes_to_hex e.payload all_bytes)
    ∷ (codes "\n", [])
    ∷ [])

abbrev pub object_text : Event → Text
object_text e = spelled (
    (codes "  {\"sequence\":", decimal e.sequence)
    ∷ (codes ",\"timestamp_ns\":", decimal e.timestamp_ns)
    ∷ (codes ",\"timestamp_utc\":\"", format_unix_ns_utc e.timestamp_ns)
    ∷ (codes "\",\"producer_id\":", decimal e.producer_id)
    ∷ (codes ",\"type\":", decimal e.type)
    ∷ (codes ",\"severity\":\"", severity_to_string e.severity)
    ∷ (codes "\",\"payload_size\":", decimal (length e.payload))
    ∷ (codes ",\"payload_hex\":\"", bytes_to_hex e.payload all_bytes)
    ∷ (codes "\"}", [])
    ∷ [])

-- A comma and a new line stand between two objects.
abbrev pub item_text : Bool → Event → Text
item_text true e = object_text e
item_text false e = codes ",\n" ++ object_text e

dump_flat :
    (a b c d e f g h : Text)
    → codes "seq="
        ++ a
        ++ (codes " ts_ns=" ++ b)
        ++ (codes " utc=" ++ c)
        ++ (codes " producer=" ++ d)
        ++ (codes " type=" ++ e)
        ++ (codes " severity=" ++ f)
        ++ (codes " payload_size=" ++ g)
        ++ (codes " payload_hex=" ++ h)
        ++ codes "\n"
      ≡ spelled (
          (codes "seq=", a)
          ∷ (codes " ts_ns=", b)
          ∷ (codes " utc=", c)
          ∷ (codes " producer=", d)
          ∷ (codes " type=", e)
          ∷ (codes " severity=", f)
          ∷ (codes " payload_size=", g)
          ∷ (codes " payload_hex=", h)
          ∷ (codes "\n", [])
          ∷ [])
dump_flat a b c d e f g h = simp append_assoc

object_flat :
    (a b c d e f g h : Text)
    → codes "  {\"sequence\":"
        ++ a
        ++ (codes ",\"timestamp_ns\":" ++ b)
        ++ (codes ",\"timestamp_utc\":\"" ++ c ++ codes "\"")
        ++ (codes ",\"producer_id\":" ++ d)
        ++ (codes ",\"type\":" ++ e)
        ++ (codes ",\"severity\":\"" ++ f ++ codes "\"")
        ++ (codes ",\"payload_size\":" ++ g)
        ++ (codes ",\"payload_hex\":\"" ++ h ++ codes "\"}")
      ≡ spelled (
          (codes "  {\"sequence\":", a)
          ∷ (codes ",\"timestamp_ns\":", b)
          ∷ (codes ",\"timestamp_utc\":\"", c)
          ∷ (codes "\",\"producer_id\":", d)
          ∷ (codes ",\"type\":", e)
          ∷ (codes ",\"severity\":\"", f)
          ∷ (codes "\",\"payload_size\":", g)
          ∷ (codes ",\"payload_hex\":\"", h)
          ∷ (codes "\"}", [])
          ∷ [])
object_flat a b c d e f g h = simp append_assoc

pub dump_line-dump_text : (first : Bool) (e : Event) → dump_line e ≡ dump_text e
unfolding dump_line
dump_line-dump_text first e =
    dump_flat (decimal e.sequence) (decimal e.timestamp_ns) (format_unix_ns_utc e.timestamp_ns)
      (decimal e.producer_id) (decimal e.type) (severity_to_string e.severity)
      (decimal (length e.payload)) (bytes_to_hex e.payload 32)

pub csv_row-row_text : (first : Bool) (e : Event) → csv_row e ≡ row_text e
unfolding csv_row
csv_row-row_text first e = refl

json_object-object_text : (e : Event) → json_object e ≡ object_text e
unfolding json_object
json_object-object_text e =
    object_flat (decimal e.sequence) (decimal e.timestamp_ns) (format_unix_ns_utc e.timestamp_ns)
      (decimal e.producer_id) (decimal e.type) (severity_to_string e.severity)
      (decimal (length e.payload)) (bytes_to_hex e.payload all_bytes)

pub json_item-item_text : (first : Bool) (e : Event) → json_item first e ≡ item_text first e
unfolding json_item
json_item-item_text true e = json_object-object_text e
json_item-item_text false e = ap (◌++◌ (codes ",\n")) (json_object-object_text e)

-- What is printed depends on the texts of the lines only.
pub shown_same :
    (line line' : Bool → Event → Text) (opts : CommonOptions) (read : Replay)
    → ((first : Bool) (e : Event) → line first e ≡ line' first e)
    → shown line opts.filter opts.limit read ≡ shown line' opts.filter opts.limit read
shown_same line line' opts read same =
    ap (λ l. shown l opts.filter opts.limit read) (λ i first e. same first e i)

-- What `write_json` prints: an array, also of no objects.
abbrev pub array_of : Printed → Printed
array_of (objects, ending) = (codes "[\n" ++ (objects ++ codes "\n]\n"), ending)

pub array_lem : (p : Printed) → p.1 ≡ finished → print (codes "[\n") (close_array p) ≡ array_of p
unfolding close_array
array_lem (text, finished) h = refl
array_lem (text, unfinished) h = cc h
array_lem (text, thrown e) h = cc h

pub shown-finished :
    (line : Bool → Event → Text) (opts : CommonOptions) (es : List Event)
    → (shown line opts.filter opts.limit (es, finished)).1 ≡ finished
unfolding shown ends
shown-finished line opts es = ground arith
