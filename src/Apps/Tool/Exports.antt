-- ===== src/Apps/Tool/Exports.antt =====
-- The options that `export_events` of apps/hpblr_tool.cpp accepts, and an export into its own input.
use cpp_high_performance_bin.Base.{
  ◌≡◌, ◌≢◌, inl, inr, refl, ap, subst, ◌∙◌, Bool, true, not, ◌||◌, ==_refl, Bool-cases, is_empty,
  List, [], ◌∷◌, Option, none, some, Text, codes,
}
use cpp_high_performance_bin.Errors.{ok, err, ensure, file_format_error, short_file_header}
use cpp_high_performance_bin.Event.Text.{equals}
use cpp_high_performance_bin.Apps.Arguments.{require_value}
use cpp_high_performance_bin.BinaryLog.Stream.{Ifstream, open_input, read}
use cpp_high_performance_bin.BinaryLog.Reader
use cpp_high_performance_bin.BinaryLog.Reader.{read_into, read_file_header}
use cpp_high_performance_bin.BinaryLog.Reader.Replay.{thrown}
use cpp_high_performance_bin.Apps.Tool.{
  defaults, ExportOptions, parse_common_option, export_option, export_arguments, parse_export,
}
use cpp_high_performance_bin.Apps.Tool.Options.{IsTypedOptions, not_empty}
use cpp_high_performance_bin.Apps.Arguments.Inversion.{if_keeps, bind_ok, ok_inj, ensure_ok}
use cpp_high_performance_bin.Apps.Tool.Accepted.{
  given, defaults-IsTypedOptions, parse_common_option-IsTypedOptions,
}
use cpp_high_performance_bin.Apps.Tool.Print.{
  Printed, reading, print, print_events, csv_header, csv_row, json_item, close_array, write_csv,
  write_json,
}
use cpp_high_performance_bin.Apps.Tool.Main.{file, prints, write_format, truncated, export_to}

equals_refl : (t : Text) → equals t t ≡ true
unfolding equals
equals_refl [] = refl
equals_refl (c ∷ cs) = rw (==_refl c, equals_refl cs) refl

-- An empty file has no header.
empty_refused :
    Reader.construct (open_input [])
    ≡ (err (file_format_error short_file_header), (Reader.construct (open_input [])).1)
unfolding Reader.construct read_file_header read_into read
empty_refused = refl

reading_empty :
    (body : Reader.Reader → Printed)
    → reading (open_input []) body ≡ ([], thrown (file_format_error short_file_header))
reading_empty body = rw (empty_refused, reading) refl

write_format_empty :
    (files : Text → Ifstream) (opts : ExportOptions)
    → files opts.common.input ≡ open_input []
    → write_format files opts ≡ ([], thrown (file_format_error short_file_header))
unfolding write_format write_csv write_json
write_format_empty files opts e = elim (Bool-cases (equals opts.format (codes "csv"))) [
  | inl csv ↦ rw csv (
      ap (write_csv opts.common) e
      ∙ reading_empty (λ r. print csv_header (print_events (λ first. csv_row) opts.common r)))
  | inr json ↦ rw json (
      ap (write_json opts.common) e
      ∙ reading_empty
          (λ r. print (codes "[\n") (close_array (print_events json_item opts.common r))))
]

truncated_same :
    (output path : Text) (files : Text → Ifstream)
    → output ≡ path
    → truncated output files path ≡ open_input []
unfolding truncated
truncated_same output path files same =
    let e : equals path output ≡ true = ap (equals path) same ∙ equals_refl path in rw e refl

-- An export into the file that it reads, if this can be opened for writing, prints nothing and
-- throws the exception of a file without a header, whatever the file held: opening the output has
-- made it empty.
pub export_to_itself :
    (files : Text → Ifstream) (writable : Text → Bool) (opts : ExportOptions)
    → opts.output ≢ []
    → opts.output ≡ opts.common.input
    → writable opts.output ≡ true
    → export_to files writable opts
      ≡ prints (file opts.output) ([], thrown (file_format_error short_file_header))
unfolding export_to
export_to_itself files writable opts some_ same open_ =
    rw (not_empty opts.output some_, open_)
      (ap (prints (file opts.output)) (
        write_format_empty (truncated opts.output files) opts
          (truncated_same opts.output opts.common.input files same)))

-- The options that `export_events` accepts.
export_option-IsTypedOptions :
    (opts : ExportOptions) (arg : Text) (next : Option Text) (r : ExportOptions)
    → IsTypedOptions opts.common
    → export_option opts arg next ≡ ok r
    → IsTypedOptions r.common
unfolding export_option
export_option-IsTypedOptions opts arg next r typed =
    if_keeps (λ o. IsTypedOptions o.common) (equals arg (codes "--format")) _ _ r
      (λ h.
        let (text, _, stored) = bind_ok (require_value next (codes "--format")) _ r h in
        subst (λ o. IsTypedOptions o.common) (ok_inj stored) typed)
      (if_keeps (λ o. IsTypedOptions o.common) (equals arg (codes "--output")) _ _ r
        (λ h.
          let (text, _, stored) = bind_ok (require_value next (codes "--output")) _ r h in
          subst (λ o. IsTypedOptions o.common) (ok_inj stored) typed)
        (λ h.
          let (common, parsed, stored) = bind_ok (parse_common_option opts.common arg next) _ r h in
          subst (λ o. IsTypedOptions o.common) (ok_inj stored)
            (parse_common_option-IsTypedOptions opts.common arg next common typed parsed)))

export_arguments-IsTypedOptions :
    (opts : ExportOptions) (arguments : List Text) (r : ExportOptions)
    → IsTypedOptions opts.common
    → export_arguments opts arguments ≡ ok r
    → IsTypedOptions r.common
unfolding export_arguments
export_arguments-IsTypedOptions opts [] r typed h =
    subst (λ o. IsTypedOptions o.common) (ok_inj h) typed
export_arguments-IsTypedOptions opts (arg ∷ []) r typed h =
    export_option-IsTypedOptions opts arg none r typed h
export_arguments-IsTypedOptions opts (arg ∷ next ∷ rest) r typed h =
    let (opts', first, later) = bind_ok (export_option opts arg (some next)) _ r h in
    export_arguments-IsTypedOptions opts' rest r
      (export_option-IsTypedOptions opts arg (some next) opts' typed first) later

-- When `export_events` gets past its tests, there is an input file, the format is csv or json, and
-- the numbers of the options are within the types of the fields that hold them.
pub parse_export-IsTypedOptions :
    (arguments : List Text) (opts : ExportOptions)
    → parse_export arguments ≡ ok opts
    → (opts.common.input ≢ [])
      × ((equals opts.format (codes "csv") || equals opts.format (codes "json")) ≡ true)
      × IsTypedOptions opts.common
unfolding parse_export
parse_export-IsTypedOptions arguments opts h =
    let (found, parsed, h') =
      bind_ok (export_arguments (record { common = defaults; format = []; output = [] }) arguments)
        _ opts h in
    let (_, present, h2) = bind_ok (ensure (not (is_empty found.common.input)) _) _ opts h' in
    let (_, known, same) =
      bind_ok (ensure (equals found.format (codes "csv") || equals found.format (codes "json")) _) _
        opts h2 in
    subst
      (λ (o : ExportOptions).
        (o.common.input ≢ [])
        × ((equals o.format (codes "csv") || equals o.format (codes "json")) ≡ true)
        × IsTypedOptions o.common)
      (ok_inj same)
      (
        given found.common.input (ensure_ok _ _ present),
        ensure_ok _ _ known,
        export_arguments-IsTypedOptions (record { common = defaults; format = []; output = [] })
            arguments found defaults-IsTypedOptions parsed,
      )
