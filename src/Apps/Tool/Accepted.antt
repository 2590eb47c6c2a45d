-- ===== src/Apps/Tool/Accepted.antt =====
-- The options that `parse_common` and `export_events` of apps/hpblr_tool.cpp accept.
use mathlib.Core.List.{cons-ne-nil}
use cpp_high_performance_bin.Base.{
  ℕ, ◌<◌, ◌^◌, ◌≡◌, ◌≢◌, subst, true, not, arith, List, [], ◌∷◌, is_empty, Option, none, some, Text,
  codes,
}
use cpp_high_performance_bin.Errors.{ok, ensure}
use cpp_high_performance_bin.Event.Text.{equals, severity_from_string}
use cpp_high_performance_bin.Apps.Arguments.{
  parse_u64, parse_u32, parse_u16, require_value, checked, parse_u32-lt, parse_u16-lt,
}
use cpp_high_performance_bin.Apps.Arguments.Inversion.{
  if_keeps, bind_ok, ok_inj, err_ok, parse_u64-lt, number_keeps, ensure_ok,
}
use cpp_high_performance_bin.Apps.Tool.{
  CommonOptions, defaults, parse_common_option, parse_arguments, parse_common,
}
use cpp_high_performance_bin.Apps.Tool.Options.{IsTypedOptions}

some_lt : (bound : ℕ) {n m : ℕ} → some n ≡ some m → n < bound → m < bound
some_lt bound e h = subst (λ k. k < bound) (cc e) h

-- An option that is accepted leaves numbers that their types hold.
pub parse_common_option-IsTypedOptions :
    (opts : CommonOptions) (arg : Text) (next : Option Text) (r : CommonOptions)
    → IsTypedOptions opts
    → parse_common_option opts arg next ≡ ok r
    → IsTypedOptions r
unfolding parse_common_option
parse_common_option-IsTypedOptions opts arg next r typed =
    if_keeps IsTypedOptions (equals arg (codes "--input")) _ _ r
      (λ h.
        let (text, _, stored) = bind_ok (require_value next (codes "--input")) _ r h in
        subst IsTypedOptions (ok_inj stored) (record {
          producer_u32 = typed.producer_u32;
          type_u16 = typed.type_u16;
          from_u64 = typed.from_u64;
          to_u64 = typed.to_u64;
          limit_u64 = typed.limit_u64;
        }))
      (if_keeps IsTypedOptions (equals arg (codes "--producer")) _ _ r
        (number_keeps IsTypedOptions next (codes "--producer") parse_u32 _ r (λ text n h. record {
          producer_u32 = λ m e. some_lt (2 ^ 32) e (parse_u32-lt text n h);
          type_u16 = typed.type_u16;
          from_u64 = typed.from_u64;
          to_u64 = typed.to_u64;
          limit_u64 = typed.limit_u64;
        }))
        (if_keeps IsTypedOptions (equals arg (codes "--type")) _ _ r
          (number_keeps IsTypedOptions next (codes "--type") parse_u16 _ r (λ text n h. record {
            producer_u32 = typed.producer_u32;
            type_u16 = λ m e. some_lt (2 ^ 16) e (parse_u16-lt text n h);
            from_u64 = typed.from_u64;
            to_u64 = typed.to_u64;
            limit_u64 = typed.limit_u64;
          }))
          (if_keeps IsTypedOptions (equals arg (codes "--severity")) _ _ r
            (λ h.
              let (text, _, h') = bind_ok (require_value next (codes "--severity")) _ r h in
              let (severity, _, stored) =
                bind_ok (checked (severity_from_string text) (codes "--severity")) _ r h' in
              subst IsTypedOptions (ok_inj stored) (record {
                producer_u32 = typed.producer_u32;
                type_u16 = typed.type_u16;
                from_u64 = typed.from_u64;
                to_u64 = typed.to_u64;
                limit_u64 = typed.limit_u64;
              }))
            (if_keeps IsTypedOptions (equals arg (codes "--from-ns")) _ _ r
              (number_keeps IsTypedOptions next (codes "--from-ns") parse_u64 _ r (λ text n h.
                record {
                  producer_u32 = typed.producer_u32;
                  type_u16 = typed.type_u16;
                  from_u64 = λ m e. some_lt (2 ^ 64) e (parse_u64-lt text n h);
                  to_u64 = typed.to_u64;
                  limit_u64 = typed.limit_u64;
                }))
              (if_keeps IsTypedOptions (equals arg (codes "--to-ns")) _ _ r
                (number_keeps IsTypedOptions next (codes "--to-ns") parse_u64 _ r (λ text n h.
                  record {
                    producer_u32 = typed.producer_u32;
                    type_u16 = typed.type_u16;
                    from_u64 = typed.from_u64;
                    to_u64 = λ m e. some_lt (2 ^ 64) e (parse_u64-lt text n h);
                    limit_u64 = typed.limit_u64;
                  }))
                (if_keeps IsTypedOptions (equals arg (codes "--limit")) _ _ r
                  (number_keeps IsTypedOptions next (codes "--limit") parse_u64 _ r (λ text n h.
                    record {
                      producer_u32 = typed.producer_u32;
                      type_u16 = typed.type_u16;
                      from_u64 = typed.from_u64;
                      to_u64 = typed.to_u64;
                      limit_u64 = parse_u64-lt text n h;
                    }))
                  (λ h. absurd (err_ok h))))))))

parse_arguments-IsTypedOptions :
    (opts : CommonOptions) (arguments : List Text) (r : CommonOptions)
    → IsTypedOptions opts
    → parse_arguments opts arguments ≡ ok r
    → IsTypedOptions r
unfolding parse_arguments
parse_arguments-IsTypedOptions opts [] r typed h = subst IsTypedOptions (ok_inj h) typed
parse_arguments-IsTypedOptions opts (arg ∷ []) r typed h =
    parse_common_option-IsTypedOptions opts arg none r typed h
parse_arguments-IsTypedOptions opts (arg ∷ next ∷ rest) r typed h =
    let (opts', first, later) = bind_ok (parse_common_option opts arg (some next)) _ r h in
    parse_arguments-IsTypedOptions opts' rest r
      (parse_common_option-IsTypedOptions opts arg (some next) opts' typed first) later

pub defaults-IsTypedOptions : IsTypedOptions defaults
defaults-IsTypedOptions = record {
  producer_u32 = λ n e. cc e;
  type_u16 = λ n e. cc e;
  from_u64 = λ n e. cc e;
  to_u64 = λ n e. cc e;
  limit_u64 = omega arith;
}

pub given : (t : Text) → not (is_empty t) ≡ true → t ≢ []
given [] h = cc h
given (c ∷ cs) h = cons-ne-nil c cs

-- When `parse_common` accepts a command line, there is an input file, and the numbers of the
-- options are within the types of the fields that hold them.
pub parse_common-IsTypedOptions :
    (arguments : List Text) (opts : CommonOptions)
    → parse_common arguments ≡ ok opts
    → (opts.input ≢ []) × IsTypedOptions opts
unfolding parse_common
parse_common-IsTypedOptions arguments opts h =
    let (found, parsed, h') = bind_ok (parse_arguments defaults arguments) _ opts h in
    let (_, present, same) = bind_ok (ensure (not (is_empty found.input)) _) _ opts h' in
    subst (λ o. (o.input ≢ []) × IsTypedOptions o) (ok_inj same)
      (
        given found.input (ensure_ok _ _ present),
        parse_arguments-IsTypedOptions defaults arguments found defaults-IsTypedOptions parsed,
      )
