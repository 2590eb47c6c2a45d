-- ===== src/Apps/Tool/Options.antt =====
-- What the option loops of apps/hpblr_tool.cpp accept.
use cpp_high_performance_bin.Base.{
  ℕ, ◌<◌, ◌^◌, ◌≡◌, ◌≢◌, refl, ◌∙◌, false, List, [], ◌∷◌, ◌++◌, is_empty, Option, none, some, Text,
  codes,
}
use cpp_high_performance_bin.Errors.{ok}
use cpp_high_performance_bin.Event.{Severity}
use cpp_high_performance_bin.Event.Text.{
  severity_to_string, equals, severity_from_string-severity_to_string,
}
use cpp_high_performance_bin.Decimal.{decimal}
use cpp_high_performance_bin.Apps.Arguments.{
  require_value, checked, parse_u64-decimal, parse_u32-decimal, parse_u16-decimal,
}
use cpp_high_performance_bin.Apps.Tool.{
  CommonOptions, defaults, parse_common_option, parse_arguments, parse_common,
}

-- What the types of the fields guarantee.
pub record IsTypedOptions (opts : CommonOptions) : Type 0 where
  pub producer_u32 : (n : ℕ) → opts.filter.producer_id ≡ some n → n < 2 ^ 32
  pub type_u16 : (n : ℕ) → opts.filter.type ≡ some n → n < 2 ^ 16
  pub from_u64 : (n : ℕ) → opts.filter.from_timestamp_ns ≡ some n → n < 2 ^ 64
  pub to_u64 : (n : ℕ) → opts.filter.to_timestamp_ns ≡ some n → n < 2 ^ 64
  pub limit_u64 : opts.limit < 2 ^ 64

-- An optional criterion as it is written on a command line.
abbrev option_of : {A : Type 0} → Text → (A → Text) → Option A → List Text
option_of name show none = []
option_of name show (some a) = name ∷ show a ∷ []

-- A command line for the given options.
unfoldable pub arguments_of : CommonOptions → List Text
arguments_of opts =
    codes "--input"
    ∷ opts.input
    ∷ (option_of (codes "--producer") decimal opts.filter.producer_id
        ++ (option_of (codes "--type") decimal opts.filter.type
            ++ (option_of (codes "--severity") severity_to_string opts.filter.severity
                ++ (option_of (codes "--from-ns") decimal opts.filter.from_timestamp_ns
                    ++ (option_of (codes "--to-ns") decimal opts.filter.to_timestamp_ns
                        ++ (codes "--limit" ∷ decimal opts.limit ∷ []))))))

-- Options whose fields are given one by one.
abbrev options :
    Text → Option ℕ → Option ℕ → Option Severity → Option ℕ → Option ℕ → ℕ → CommonOptions
options input producer_id type severity from to limit = record {
  input = input;
  filter = record {
    producer_id = producer_id;
    type = type;
    severity = severity;
    from_timestamp_ns = from;
    to_timestamp_ns = to;
  };
  limit = limit;
}

pub not_empty : (t : Text) → t ≢ [] → is_empty t ≡ false
not_empty [] h = absurd (h refl)
not_empty (c ∷ cs) h = refl

module _ (input : Text) (rest : List Text) where
  producer_step :
      (o : Option ℕ)
      → ((n : ℕ) → o ≡ some n → n < 2 ^ 32)
      → parse_arguments
          (options input none none none none none 0)
          (option_of (codes "--producer") decimal o ++ rest)
        ≡ parse_arguments (options input o none none none none 0) rest
  unfolding parse_arguments parse_common_option equals require_value checked
  producer_step none fits = refl
  producer_step (some n) fits = rw (parse_u32-decimal n (fits n refl)) refl

  type_step :
      (p o : Option ℕ)
      → ((n : ℕ) → o ≡ some n → n < 2 ^ 16)
      → parse_arguments
          (options input p none none none none 0)
          (option_of (codes "--type") decimal o ++ rest)
        ≡ parse_arguments (options input p o none none none 0) rest
  unfolding parse_arguments parse_common_option equals require_value checked
  type_step p none fits = refl
  type_step p (some n) fits = rw (parse_u16-decimal n (fits n refl)) refl

  severity_step :
      (p t : Option ℕ) (o : Option Severity)
      → parse_arguments
          (options input p t none none none 0)
          (option_of (codes "--severity") severity_to_string o ++ rest)
        ≡ parse_arguments (options input p t o none none 0) rest
  unfolding parse_arguments parse_common_option equals require_value checked
  severity_step p t none = refl
  severity_step p t (some s) = rw (severity_from_string-severity_to_string s) refl

  from_step :
      (p t : Option ℕ) (s : Option Severity) (o : Option ℕ)
      → ((n : ℕ) → o ≡ some n → n < 2 ^ 64)
      → parse_arguments
          (options input p t s none none 0)
          (option_of (codes "--from-ns") decimal o ++ rest)
        ≡ parse_arguments (options input p t s o none 0) rest
  unfolding parse_arguments parse_common_option equals require_value checked
  from_step p t s none fits = refl
  from_step p t s (some n) fits = rw (parse_u64-decimal n (fits n refl)) refl

  to_step :
      (p t : Option ℕ) (s : Option Severity) (f o : Option ℕ)
      → ((n : ℕ) → o ≡ some n → n < 2 ^ 64)
      → parse_arguments
          (options input p t s f none 0)
          (option_of (codes "--to-ns") decimal o ++ rest)
        ≡ parse_arguments (options input p t s f o 0) rest
  unfolding parse_arguments parse_common_option equals require_value checked
  to_step p t s f none fits = refl
  to_step p t s f (some n) fits = rw (parse_u64-decimal n (fits n refl)) refl

limit_step :
    (input : Text) (p t : Option ℕ) (s : Option Severity) (f o : Option ℕ) (n : ℕ)
    → n < 2 ^ 64
    → parse_arguments (options input p t s f o 0) (codes "--limit" ∷ decimal n ∷ [])
      ≡ ok (options input p t s f o n)
unfolding parse_arguments parse_common_option equals require_value checked
limit_step input p t s f o n fits = rw (parse_u64-decimal n fits) refl

input_step :
    (input : Text) (rest : List Text)
    → parse_arguments defaults (codes "--input" ∷ input ∷ rest)
      ≡ parse_arguments (options input none none none none none 0) rest
unfolding parse_arguments parse_common_option equals require_value
input_step input rest = refl

arguments_read :
    (opts : CommonOptions)
    → IsTypedOptions opts
    → parse_arguments defaults (arguments_of opts) ≡ ok opts
unfolding arguments_of
arguments_read opts typed =
    let f = opts.filter in
    input_step opts.input _
    ∙ producer_step opts.input _ f.producer_id typed.producer_u32
    ∙ type_step opts.input _ f.producer_id f.type typed.type_u16
    ∙ severity_step opts.input _ f.producer_id f.type f.severity
    ∙ from_step opts.input _ f.producer_id f.type f.severity f.from_timestamp_ns typed.from_u64
    ∙ to_step opts.input _ f.producer_id f.type f.severity f.from_timestamp_ns f.to_timestamp_ns
        typed.to_u64
    ∙ limit_step opts.input f.producer_id f.type f.severity f.from_timestamp_ns f.to_timestamp_ns
        opts.limit typed.limit_u64

-- For options with an input whose numbers are within their types, `parse_common` reads a command
-- line that spells them back as these options.
pub parse_common-arguments_of :
    (opts : CommonOptions)
    → opts.input ≢ []
    → IsTypedOptions opts
    → parse_common (arguments_of opts) ≡ ok opts
unfolding parse_common
parse_common-arguments_of opts given typed =
    let present : is_empty opts.input ≡ false = not_empty opts.input given in
    rw (arguments_read opts typed, present) refl
