-- ===== src/Apps/Spelling.antt =====
-- Texts that are labels with values behind them: what the programs of apps/ print is compared with.
use cpp_high_performance_bin.Base.{List, [], ◌∷◌, ◌++◌, Text}

-- Each label with its value, in order.
abbrev pub spelled : List (Text × Text) → Text
spelled [] = []
spelled ((label, value) ∷ rest) = label ++ (value ++ spelled rest)
