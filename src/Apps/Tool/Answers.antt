-- ===== src/Apps/Tool/Answers.antt =====
-- `main` of apps/hpblr_tool.cpp on a file that `BinaryLogWriter` wrote.
use cpp_high_performance_bin.Base.{
  ℕ, ◌^◌, ◌<◌, ◌≡◌, ◌≢◌, refl, ap, Bool, true, ◌∙◌, List, [], ◌∷◌, All, some, Text, codes,
}
use cpp_high_performance_bin.Errors.{ok}
use cpp_high_performance_bin.Event.{Event}
use cpp_high_performance_bin.BinaryLog.Stream.{Ifstream, open_input, Ofstream, taken}
use cpp_high_performance_bin.BinaryLog.Reader.Replay.{finished}
use cpp_high_performance_bin.BinaryLog.RoundTrip.{IsTyped}
use cpp_high_performance_bin.BinaryLog.Writer
use cpp_high_performance_bin.BinaryLog.Writer.{Writer, WriterOptions}
use cpp_high_performance_bin.BinaryLog.Writer.Log.{Call, run, accepted}
use cpp_high_performance_bin.Apps.Tool.{CommonOptions}
use cpp_high_performance_bin.Apps.Tool.Print.{Printed, dump}
use cpp_high_performance_bin.Apps.Tool.Inspect.{inspect}
use cpp_high_performance_bin.Apps.Tool.Selected.{shown, lines, limited, select}
use cpp_high_performance_bin.Apps.Tool.Options.{IsTypedOptions, arguments_of}
use cpp_high_performance_bin.Apps.Tool.Outcomes.{command-arguments_of}
use cpp_high_performance_bin.Apps.Tool.Recorded.{print-close}
use cpp_high_performance_bin.Apps.Tool.Layouts.{dump_text, shown-finished}
use cpp_high_performance_bin.Apps.Tool.Inspected.{inspect-close}
use cpp_high_performance_bin.Apps.Tool.Summed.{summed_up}
use cpp_high_performance_bin.Apps.Tool.Main.{standard, prints, command, exit_code}

-- A command that prints to the end lets `main` return 0.
exit_code-command :
    (files : Text → Ifstream) (writable : Text → Bool) (name : Text) (arguments : List Text)
    (text : Text)
    → command files writable (name ∷ arguments) ≡ some (prints standard (text, finished))
    → exit_code files writable (name ∷ arguments) ≡ 0
unfolding exit_code
exit_code-command files writable name arguments text same = rw (exit_code, same) refl

shown-lines :
    (opts : CommonOptions) (es : List Event)
    → shown (λ first. dump_text) opts.filter opts.limit (es, finished)
      ≡ (lines (λ first. dump_text) true (limited opts.limit (select opts.filter es)), finished)
unfolding shown
shown-lines opts es =
    ap {B = Printed}
      (λ ending.
        (lines (λ first. dump_text) true (limited opts.limit (select opts.filter es)), ending))
      (unfold shown in shown-finished (λ first. dump_text) opts es)

-- Take a writer whose constructor returned on an empty file at a time below 2 ^ 64, any calls with
-- events of the C++ type, and a `close` that returns; let the options be within their types and
-- name that file. Then `main`, called with `inspect` and the command line that spells the options,
-- prints the summary of the accepted events to the standard output, with `dump` the lines of those
-- that pass the filter, in order and as far as the limit allows, and in both cases it returns 0.
pub exit_code-arguments_of :
    (files : Text → Ifstream) (writable : Text → Bool) (opts : CommonOptions) (out : Ofstream)
    (options : WriterOptions) (now : ℕ) (w w' : Writer) (cs : List Call)
    → opts.input ≢ []
    → IsTypedOptions opts
    → opts.limit < 2 ^ 64
    → taken out ≡ []
    → Writer.construct out options now ≡ (ok tt, w)
    → now < 2 ^ 64
    → All IsTyped cs
    → Writer.close (run cs w) ≡ (ok tt, w')
    → files opts.input ≡ open_input w'.out.content
    → (command files writable (codes "inspect" ∷ arguments_of opts)
        ≡ some (prints standard (summed_up opts.input now (accepted cs w), finished)))
      × (exit_code files writable (codes "inspect" ∷ arguments_of opts) ≡ 0)
      × (command files writable (codes "dump" ∷ arguments_of opts)
          ≡ some (
              prints standard (
                lines
                    (λ first. dump_text)
                    true
                    (limited opts.limit (select opts.filter (accepted cs w))),
                finished,
              )))
      × (exit_code files writable (codes "dump" ∷ arguments_of opts) ≡ 0)
exit_code-arguments_of files writable opts out options now w w' cs some_ typed_options small empty
      made clock typed closed recorded =
    let (inspects, dumps) = command-arguments_of files writable opts some_ typed_options in
    let inspected =
      inspects
      ∙ ap (λ input. some (prints standard (inspect opts input))) recorded
      ∙ ap (λ p. some (prints standard p))
          (inspect-close opts out options now w w' cs empty made clock typed closed) in
    let dumped =
      dumps
      ∙ ap (λ input. some (prints standard (dump opts input))) recorded
      ∙ ap (λ p. some (prints standard p))
          ((print-close opts small out options now w empty made clock cs typed closed).0
            ∙ shown-lines opts (accepted cs w)) in
    (
      inspected,
      exit_code-command files writable (codes "inspect") (arguments_of opts) _ inspected,
      dumped,
      exit_code-command files writable (codes "dump") (arguments_of opts) _ dumped,
    )
