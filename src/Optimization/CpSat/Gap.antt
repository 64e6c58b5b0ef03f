-- ===== src/Optimization/CpSat/Gap.antt =====
-- `_optimality_gap` against the range that `AssignmentResult` asks for.
use ai_dlc_test.Common.{◌≡◌, true, arith}
use ai_dlc_test.Common.Int.{pos}
use ai_dlc_test.Common.Float.{Floats}
use ai_dlc_test.Optimization.CpSat.{optimality_gap}

module _ (fl : Floats) where
  open fl use {Float, decimal, lt, le, sub, div, abs}

  -- What IEEE comparison gives of 0.0 and 1.0: no more than this is used.
  pub record IsOrdered : Type 0 where
    pub lt→le : (a b : Float) → lt a b ≡ true → le a b ≡ true
    pub zero_le_zero : le (decimal (pos 0) (pos 0)) (decimal (pos 0) (pos 0)) ≡ true
    pub zero_le_one : le (decimal (pos 0) (pos 0)) (decimal (pos 1) (pos 0)) ≡ true
    pub one_le_one : le (decimal (pos 1) (pos 0)) (decimal (pos 1) (pos 0)) ≡ true

  abbrev zero_ : Float
  zero_ = decimal (pos 0) (pos 0)

  abbrev one : Float
  one = decimal (pos 1) (pos 0)

  -- Where the comparison of floats orders 0 and 1 and a smaller number is at most the greater, the
  -- optimality gap lies in [0, 1] for every objective and bound.
  pub optimality_gap_in_range :
      (ordered : IsOrdered) (objective bound : Float)
      → (le zero_ (optimality_gap fl objective bound) ≡ true)
        × (le (optimality_gap fl objective bound) one ≡ true)
  unfolding optimality_gap
  optimality_gap_in_range ordered objective bound =
      let g = div (abs (sub objective bound)) (abs objective) in
      ground (arith, ordered.lt→le zero_ g, ordered.lt→le g one, ordered.lt→le zero_ one)
