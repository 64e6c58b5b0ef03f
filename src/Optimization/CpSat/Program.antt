-- ===== src/Optimization/CpSat/Program.antt =====
-- The programs that src/optimization_engine/cp_sat_adapter.py builds, and the replies of CP-SAT.
use ai_dlc_test.Common.{ℕ, ◌≤◌, ◌≡◌, Bool, true, List, count_if}
use ai_dlc_test.Common.Int.{ℤ, pos, ◌+ℤ◌, ◌≤ℤ◌}
use ai_dlc_test.SharedKernel.Problem.{Pair}

-- The calls `cp.Add…` of the adapter. A slack variable is named by its requirement's index.
pub data CpConstraint : Type 0 where
  fixed : Pair → CpConstraint
  sum_equals : List Pair → ℤ → CpConstraint
  at_most_one : List Pair → CpConstraint
  slack_domain : ℕ → ℤ → CpConstraint
  sum_with_slack : List Pair → ℕ → ℤ → CpConstraint
  sum_at_least : List Pair → ℤ → CpConstraint
  sum_at_most : List Pair → ℤ → CpConstraint
  longest_domain : ℤ → CpConstraint
  longest_at_least : Pair → ℤ → CpConstraint

-- A term of the objective that is minimised.
pub data Term : Type 0 where
  assigned : ℤ → Pair → Term
  longest : ℤ → Term
  shortfall : ℤ → ℕ → Term

pub record CpProgram : Type 0 where
  pub variables : List Pair
  pub constraints : List CpConstraint
  pub objective : List Term

-- `solver.Value` of each variable: x_ij, the slacks and T_max.
pub record Values : Type 0 where
  pub x : Pair → Bool
  pub slack : ℕ → ℤ
  pub t_max : ℤ

pub data Reply (F : Type 0) : Type 0 where
  solution : (is_optimal : Bool) (values : Values) (objective bound : F) → Reply F
  no_solution : Reply F

-- What a constraint says of the values: the documented meaning of the call.
abbrev pub Holds : Values → CpConstraint → Type 0
Holds v (fixed pair) = v.x pair ≡ true
Holds v (sum_equals pairs n) = pos (count_if v.x pairs) ≡ n
Holds v (at_most_one pairs) = count_if v.x pairs ≤ 1
Holds v (slack_domain i n) = (pos 0 ≤ℤ v.slack i) × (v.slack i ≤ℤ n)
Holds v (sum_with_slack pairs i n) = n ≤ℤ pos (count_if v.x pairs) +ℤ v.slack i
Holds v (sum_at_least pairs n) = n ≤ℤ pos (count_if v.x pairs)
Holds v (sum_at_most pairs n) = pos (count_if v.x pairs) ≤ℤ n
Holds v (longest_domain n) = (pos 0 ≤ℤ v.t_max) × (v.t_max ≤ℤ n)
Holds v (longest_at_least pair n) = v.x pair ≡ true → n ≤ℤ v.t_max
