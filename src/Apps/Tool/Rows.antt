-- ===== src/Apps/Tool/Rows.antt =====
-- A row that `write_csv` (apps/hpblr_tool.cpp) prints is read back as its event.
use cpp_high_performance_bin.Base.{
  ◌≡◌, refl, ap, ◌∙◌, arith, [], ◌∷◌, ◌++◌, append_assoc, length, take_all, All, some, Text,
}
use cpp_high_performance_bin.Event.{Event}
use cpp_high_performance_bin.Event.Text.{
  severity_to_string, severity_from_string-severity_to_string,
}
use cpp_high_performance_bin.Event.Text.Hex.{bytes_to_hex, read_hex-bytes_to_hex}
use cpp_high_performance_bin.Decimal.{decimal}
use cpp_high_performance_bin.Time.{format_unix_ns_utc}
use cpp_high_performance_bin.BinaryLog.Format.{IsStorable}
use cpp_high_performance_bin.Apps.Arguments.{
  parse_u64-decimal, parse_u32-decimal, parse_u16-decimal,
}
use cpp_high_performance_bin.Apps.Tool.Print.{all_bytes, csv_row}
use cpp_high_performance_bin.Apps.Tool.Csv.{
  split, event_of, read_columns, read_row, IsPlain, All-imply, split-append, split_last,
  plain_comma, decimal-IsPlain, severity_to_string-IsPlain, bytes_to_hex-IsPlain,
  format_unix_ns_utc-IsPlain,
}

-- A row without the end of its line.
unfoldable pub row_text : Event → Text
row_text e =
    decimal e.sequence
    ++ 44
      ∷ (decimal e.timestamp_ns
          ++ 44
            ∷ (format_unix_ns_utc e.timestamp_ns
                ++ 44
                  ∷ (decimal e.producer_id
                      ++ 44
                        ∷ (decimal e.type
                            ++ 44
                              ∷ (severity_to_string e.severity
                                  ++ 44
                                    ∷ (decimal (length e.payload)
                                        ++ 44 ∷ bytes_to_hex e.payload all_bytes))))))

row_split :
    (a b c d e f g h : Text)
    → All IsPlain a
    → All IsPlain b
    → All IsPlain c
    → All IsPlain d
    → All IsPlain e
    → All IsPlain f
    → All IsPlain g
    → All IsPlain h
    → split 44 (a ++ 44 ∷ (b ++ 44 ∷ (c ++ 44 ∷ (d ++ 44 ∷ (e ++ 44 ∷ (f ++ 44 ∷ (g ++ 44 ∷ h)))))))
      ≡ a ∷ b ∷ c ∷ d ∷ e ∷ f ∷ g ∷ h ∷ []
row_split a b c d e f g h pa pb pc pd pe pf pg ph =
    split-append 44 a _ (All-imply plain_comma a pa)
    ∙ ap (◌∷◌ a) (
        split-append 44 b _ (All-imply plain_comma b pb)
        ∙ ap (◌∷◌ b) (
            split-append 44 c _ (All-imply plain_comma c pc)
            ∙ ap (◌∷◌ c) (
                split-append 44 d _ (All-imply plain_comma d pd)
                ∙ ap (◌∷◌ d) (
                    split-append 44 e _ (All-imply plain_comma e pe)
                    ∙ ap (◌∷◌ e) (
                        split-append 44 f _ (All-imply plain_comma f pf)
                        ∙ ap (◌∷◌ f) (
                            split-append 44 g _ (All-imply plain_comma g pg)
                            ∙ ap (◌∷◌ g) (split_last 44 h (All-imply plain_comma h ph))))))))

pub read_row-row_text : (e : Event) → IsStorable e → read_row (row_text e) ≡ some e
unfolding read_row row_text
read_row-row_text e s =
    ap read_columns (
      row_split (decimal e.sequence) (decimal e.timestamp_ns) (format_unix_ns_utc e.timestamp_ns)
        (decimal e.producer_id) (decimal e.type) (severity_to_string e.severity)
        (decimal (length e.payload)) (bytes_to_hex e.payload all_bytes) (decimal-IsPlain _)
        (decimal-IsPlain _) (format_unix_ns_utc-IsPlain _) (decimal-IsPlain _) (decimal-IsPlain _)
        (severity_to_string-IsPlain _) (decimal-IsPlain _) (bytes_to_hex-IsPlain _ _))
    ∙ columns
  where
    columns :
        read_columns (
          decimal e.sequence
          ∷ decimal e.timestamp_ns
          ∷ format_unix_ns_utc e.timestamp_ns
          ∷ decimal e.producer_id
          ∷ decimal e.type
          ∷ severity_to_string e.severity
          ∷ decimal (length e.payload)
          ∷ bytes_to_hex e.payload all_bytes
          ∷ [])
        ≡ some e
    columns =
        unfold read_columns in
        unfold event_of in
        rw
          (
            parse_u64-decimal e.sequence s.typed.sequence_u64,
            parse_u64-decimal e.timestamp_ns s.typed.timestamp_u64,
            parse_u32-decimal e.producer_id s.typed.producer_u32,
            parse_u16-decimal e.type s.typed.type_u16,
            severity_from_string-severity_to_string e.severity,
            read_hex-bytes_to_hex e.payload all_bytes s.typed.payload_bytes,
            take_all all_bytes e.payload (omega (arith, s.fits)),
          )
          refl

row_split_newline :
    (a b c d e f g h : Text)
    → a
        ++ (44 ∷ []
            ++ (b
                ++ (44 ∷ []
                    ++ (c
                        ++ (44 ∷ []
                            ++ (d
                                ++ (44 ∷ []
                                    ++ (e
                                        ++ (44 ∷ []
                                            ++ (f
                                                ++ (44 ∷ []
                                                    ++ (g ++ (44 ∷ [] ++ (h ++ 10 ∷ []))))))))))))))
      ≡ (a ++ 44 ∷ (b ++ 44 ∷ (c ++ 44 ∷ (d ++ 44 ∷ (e ++ 44 ∷ (f ++ 44 ∷ (g ++ 44 ∷ h)))))))
        ++ 10 ∷ []
row_split_newline a b c d e f g h = simp append_assoc

pub csv_row-row_text : (e : Event) → csv_row e ≡ row_text e ++ 10 ∷ []
unfolding csv_row row_text
csv_row-row_text e = row_split_newline (decimal e.sequence) _ _ _ _ _ _ _
