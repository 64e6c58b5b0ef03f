-- ===== src/Common/Float.antt =====
-- Python's `float`: the operations that the program uses, as an interface. What a theorem needs of
-- them it names as a hypothesis.
use mathlib.Core.Bool.{Bool}
use ai_dlc_test.Common.Int.{ℤ}

pub record Floats : Type 1 where
  pub Float : Type 0
  -- The literals: `decimal 13 1` is 1.3.
  pub decimal : ℤ → ℤ → Float
  -- neither NaN nor an infinity
  pub is_finite : Float → Bool
  -- `<`, `<=` and `==`, which are false at NaN
  pub lt : Float → Float → Bool
  pub le : Float → Float → Bool
  pub eq : Float → Float → Bool
  pub add : Float → Float → Float
  pub sub : Float → Float → Float
  pub mul : Float → Float → Float
  pub div : Float → Float → Float
  pub abs : Float → Float
  -- `float(n)`, and `round` and `math.ceil` at finite values
  pub of_int : ℤ → Float
  pub round : Float → ℤ
  pub ceil : Float → ℤ
