-- ===== src/Apps/Tool/Steps.antt =====
-- One round of the loops of `dump`, `write_csv` and `write_json` (apps/hpblr_tool.cpp).
use cpp_high_performance_bin.Base.{
  ℕ, suc, ◌+◌, ◌^◌, ◌%◌, ◌≡◌, refl, ap, Bool, true, false, [], ◌++◌, Option, none, some, Text,
}
use cpp_high_performance_bin.Errors.{Error, Result, ok, err}
use cpp_high_performance_bin.Event.{Event}
use cpp_high_performance_bin.Filter.{EventFilter, matches}
use cpp_high_performance_bin.BinaryLog.Reader.{Reader, next}
use cpp_high_performance_bin.BinaryLog.Reader.Replay.{finished, thrown}
use cpp_high_performance_bin.Apps.Tool.Print.{print, reached, print_loop}

module _ (line : Bool → Event → Text) (filter : EventFilter) (limit fuel : ℕ) (first : Bool)
    (emitted : ℕ) where
  pub print_loop_error :
      (r r' : Reader) (x : Error)
      → next r ≡ (err x, r')
      → print_loop line filter limit (suc fuel) first emitted r ≡ ([], thrown x)
  unfolding print_loop
  print_loop_error r r' x h = rw (h, print_loop) refl

  pub print_loop_end :
      (r r' : Reader)
      → next r ≡ (ok none, r')
      → print_loop line filter limit (suc fuel) first emitted r ≡ ([], finished)
  unfolding print_loop
  print_loop_end r r' h = rw (h, print_loop) refl

  pub print_loop_skip :
      (r r' : Reader) (e : Event)
      → next r ≡ (ok (some e), r')
      → matches filter e ≡ false
      → print_loop line filter limit (suc fuel) first emitted r
        ≡ print_loop line filter limit fuel first emitted r'
  unfolding print_loop
  print_loop_skip r r' e h out =
      rw (h, print_loop)
        (rw (out, print_loop)
          (ap
            (λ (t : Result (Option Event) × Reader).
              print_loop line filter limit fuel first emitted t.1)
            h))

  pub print_loop_last :
      (r r' : Reader) (e : Event)
      → next r ≡ (ok (some e), r')
      → matches filter e ≡ true
      → reached limit ((emitted + 1) % 2 ^ 64) ≡ true
      → print_loop line filter limit (suc fuel) first emitted r ≡ (line first e ++ [], finished)
  unfolding print_loop
  print_loop_last r r' e h in_ full =
      rw (h, print_loop) (rw (in_, print_loop) (rw (full, print_loop) refl))

  pub print_loop_more :
      (r r' : Reader) (e : Event)
      → next r ≡ (ok (some e), r')
      → matches filter e ≡ true
      → reached limit ((emitted + 1) % 2 ^ 64) ≡ false
      → print_loop line filter limit (suc fuel) first emitted r
        ≡ print (line first e) (print_loop line filter limit fuel false ((emitted + 1) % 2 ^ 64) r')
  unfolding print_loop
  print_loop_more r r' e h in_ space =
      rw (h, print_loop)
        (rw (in_, print_loop)
          (rw (space, print_loop)
            (ap
              (λ (t : Result (Option Event) × Reader).
                print (line first e)
                  (print_loop line filter limit fuel false ((emitted + 1) % 2 ^ 64) t.1))
              h)))
