-- ===== src/Logger/Lines.antt =====
-- What a sequence of calls of `Logger::log` (src/core/logger.cpp) writes.
use cpp_high_performance_bin.Base.{
  ℕ, ◌≡◌, sym, ap, Bool, false, not, refl, ◌∙◌, true, Bool-cases, inl, inr, ltb, if◌then◌else◌,
  List, [], ◌∷◌, ◌++◌, append_assoc, append-nil, Text, codes,
}
use cpp_high_performance_bin.Time.{format_unix_ns_utc}
use cpp_high_performance_bin.Logger.{
  LogLevel, level_value, to_string, Logger, log_line, write_file, log,
}

-- The arguments of a call, with the time at which it makes its line.
pub record Call : Type 0 where
  pub now : ℕ
  pub level : LogLevel
  pub component : Text
  pub message : Text

unfoldable pub log_all : List Call → Logger → Logger
log_all [] l = l
log_all (c ∷ cs) l = log_all cs (log c.now c.level c.component c.message l)

-- Which levels a minimum lets through.
abbrev pub lets_through : LogLevel → LogLevel → Bool
lets_through LogLevel.debug level = true
lets_through LogLevel.info LogLevel.debug = false
lets_through LogLevel.info level = true
lets_through LogLevel.warning LogLevel.warning = true
lets_through LogLevel.warning LogLevel.error = true
lets_through LogLevel.warning level = false
lets_through LogLevel.error LogLevel.error = true
lets_through LogLevel.error level = false

abbrev name_of : LogLevel → Text
name_of LogLevel.debug = codes "DEBUG"
name_of LogLevel.info = codes "INFO"
name_of LogLevel.warning = codes "WARN"
name_of LogLevel.error = codes "ERROR"

-- The line of a call: time, level, component and message.
abbrev pub line_of : Call → Text
line_of c =
    format_unix_ns_utc c.now
    ++ (codes " ["
        ++ (name_of c.level
            ++ (codes "] [" ++ (c.component ++ (codes "] " ++ (c.message ++ codes "\n"))))))

-- The lines of the calls that the minimum lets through, in order.
unfoldable pub lines_from : LogLevel → List Call → Text
lines_from min_level [] = []
lines_from min_level (c ∷ cs) =
    let further = lines_from min_level cs in
    if lets_through min_level c.level then line_of c ++ further else further

level_cases :
    (min_level level : LogLevel)
    → ltb (level_value level) (level_value min_level) ≡ not (lets_through min_level level)
level_cases LogLevel.debug LogLevel.debug = refl
level_cases LogLevel.debug LogLevel.info = refl
level_cases LogLevel.debug LogLevel.warning = refl
level_cases LogLevel.debug LogLevel.error = refl
level_cases LogLevel.info LogLevel.debug = refl
level_cases LogLevel.info LogLevel.info = refl
level_cases LogLevel.info LogLevel.warning = refl
level_cases LogLevel.info LogLevel.error = refl
level_cases LogLevel.warning LogLevel.debug = refl
level_cases LogLevel.warning LogLevel.info = refl
level_cases LogLevel.warning LogLevel.warning = refl
level_cases LogLevel.warning LogLevel.error = refl
level_cases LogLevel.error LogLevel.debug = refl
level_cases LogLevel.error LogLevel.info = refl
level_cases LogLevel.error LogLevel.warning = refl
level_cases LogLevel.error LogLevel.error = refl

to_string-name_of : (level : LogLevel) → to_string level ≡ name_of level
unfolding to_string
to_string-name_of LogLevel.debug = refl
to_string-name_of LogLevel.info = refl
to_string-name_of LogLevel.warning = refl
to_string-name_of LogLevel.error = refl

line_flat :
    (time name component message end : Text)
    → (time ++ (codes " [" ++ (name ++ (codes "] [" ++ (component ++ (codes "] " ++ message))))))
        ++ end
      ≡ time
        ++ (codes " ["
            ++ (name ++ (codes "] [" ++ (component ++ (codes "] " ++ (message ++ end))))))
line_flat time name component message end = simp append_assoc

log_line-line_of :
    (c : Call) → log_line c.now c.level c.component c.message ++ codes "\n" ≡ line_of c
unfolding log_line
log_line-line_of c =
    ap
      (λ name.
        (format_unix_ns_utc c.now
          ++ (codes " [" ++ (name ++ (codes "] [" ++ (c.component ++ (codes "] " ++ c.message))))))
        ++ codes "\n")
      (to_string-name_of c.level)
    ∙ line_flat (format_unix_ns_utc c.now) (name_of c.level) c.component c.message (codes "\n")

-- A logger with an open file that is good.
abbrev pub logging : LogLevel → Text → Text → Logger
logging min_level file standard_error = record {
  min_level = min_level;
  is_open = true;
  good = true;
  file = file;
  standard_error = standard_error;
}

-- With a file open and good, each call whose level the minimum lets through (debug, info, warning
-- and error, in this order, from the minimum on) adds its line, with the time, the name of the level,
-- the component and the message, to the file and to the standard error output, and every other call
-- adds nothing.
pub log_all-logging :
    (cs : List Call) (min_level : LogLevel) (file standard_error : Text)
    → log_all cs (logging min_level file standard_error)
      ≡ logging min_level
          (file ++ lines_from min_level cs)
          (standard_error ++ lines_from min_level cs)
unfolding log_all lines_from log write_file
log_all-logging [] min_level file standard_error =
    λ i. logging min_level (sym (append-nil file) i) (sym (append-nil standard_error) i)
log_all-logging (c ∷ cs) min_level file standard_error =
    rw (level_cases min_level c.level) (elim (Bool-cases (lets_through min_level c.level)) [
      | inr low ↦ rw low (log_all-logging cs min_level file standard_error)
      | inl high ↦ rw high (
          rw (log_line-line_of c)
            (log_all-logging cs min_level (file ++ line_of c) (standard_error ++ line_of c))
          ∙ (λ i.
              logging min_level (append_assoc file (line_of c) (lines_from min_level cs) i)
                (append_assoc standard_error (line_of c) (lines_from min_level cs) i)))
    ])
