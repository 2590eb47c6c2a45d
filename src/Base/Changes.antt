-- ===== src/Base/Changes.antt =====
-- A changed byte of two byte strings one after the other stands in one of them.
use Prim.Native.Nat.{ℕ, zero, suc, ◌<◌}
use mathlib.Core.Path.{◌≡◌, refl, ap}
use mathlib.Core.Logic.{◌≢◌, ◌⊎◌, inl, inr}
use mathlib.Core.List.{List, [], ◌∷◌, ◌++◌}
use native.Mathlib.Omega.{arith}
use cpp_high_performance_bin.Base.Lists.{length, get_or, set}

pub record ChangedLeft (xs ys : List ℕ) (i v : ℕ) : Type 0 where
  pub below : i < length xs
  pub differs : v ≢ get_or xs i 0
  pub whole : set (xs ++ ys) i v ≡ set xs i v ++ ys

pub record ChangedRight (xs ys : List ℕ) (i v : ℕ) : Type 0 where
  pub offset : ℕ
  pub below : offset < length ys
  pub differs : v ≢ get_or ys offset 0
  pub whole : set (xs ++ ys) i v ≡ xs ++ set ys offset v

pub set-append_cases :
    (xs ys : List ℕ) (i v : ℕ)
    → i < length (xs ++ ys)
    → v ≢ get_or (xs ++ ys) i 0
    → ChangedLeft xs ys i v ⊎ ChangedRight xs ys i v
set-append_cases [] ys i v below differs =
    inr (record { offset = i; below = below; differs = differs; whole = refl })
set-append_cases (x ∷ xs) ys zero v below differs =
    inl (record { below = omega arith; differs = differs; whole = refl })
set-append_cases (x ∷ xs) ys (suc i) v below differs =
    elim (set-append_cases xs ys i v (omega arith) differs) [
      | inl c ↦ inl (record {
        below = omega (arith, c.below);
        differs = c.differs;
        whole = ap (◌∷◌ x) c.whole;
      })
      | inr c ↦ inr (record {
        offset = c.offset;
        below = c.below;
        differs = c.differs;
        whole = ap (◌∷◌ x) c.whole;
      })
    ]
