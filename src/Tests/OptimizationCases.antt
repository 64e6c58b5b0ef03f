-- ===== src/Tests/OptimizationCases.antt =====
-- src/optimization_engine at concrete inputs.
use ai_dlc_test.Common.{◌≡◌, refl, ◌↔◌, true, [], ◌∷◌, ok, arith, str_eq→ne}
use ai_dlc_test.Common.Int.{pos, leb_ℤ, ◌+ℤ◌, ◌*ℤ◌, ◌<ℤ◌}
use ai_dlc_test.Optimization.Validation.{check_assignments}
use ai_dlc_test.Optimization.Validation.Valid.{IsValid, check_assignments_iff}
use ai_dlc_test.Optimization.CpSat.{solve, optimality_gap}
use ai_dlc_test.Optimization.CpSat.Gap.{IsOrdered, optimality_gap_in_range}
use ai_dlc_test.Optimization.Diagnoser.{
  classify_after_relaxed_infeasible, total_shortage, classify_iff,
}
use ai_dlc_test.Optimization.Scaling.{total_headcount}
use ai_dlc_test.Optimization.Model.{same_pair}
use ai_dlc_test.Optimization.Service.{optimize, result}
use ai_dlc_test.Optimization.Solved.Counted.{HasKeys}
use ai_dlc_test.Optimization.Solved.Reported.{IsFeasible, optimize-IsFeasible}
use ai_dlc_test.Tests.Samples.{whole, problem, placed, reported_result}
use ai_dlc_test.Tests.Solver.{only_offered, only_offered-IsSound}

solved_at_once :
    optimize whole (solve whole only_offered) (pos 1) problem 0 ≡ ok (result reported_result)
unfolding optimize solve only_offered same_pair ◌+ℤ◌ ◌*ℤ◌
solved_at_once = refl

problem-HasKeys : HasKeys problem
problem-HasKeys = record {
  staff = ground (arith, str_eq→ne "s1" "s2" refl);
  facilities = ground arith;
}

optimize-IsFeasible_example : IsFeasible whole problem reported_result
optimize-IsFeasible_example =
    optimize-IsFeasible whole problem only_offered only_offered-IsSound problem-HasKeys (pos 1) 0
      reported_result solved_at_once

check_assignments_iff_example :
    (check_assignments problem (placed ∷ []) true true ≡ [])
    ↔ IsValid problem (placed ∷ []) true true
check_assignments_iff_example = check_assignments_iff problem (placed ∷ []) true true

classify_iff_example :
    ((classify_after_relaxed_infeasible problem).cause ≡ total_shortage)
    ↔ (pos 2 <ℤ total_headcount problem.facilities)
classify_iff_example = classify_iff problem

whole-IsOrdered : IsOrdered whole
whole-IsOrdered = record {
  lt→le = λ a b h. ground arith;
  zero_le_zero = refl;
  zero_le_one = refl;
  one_le_one = refl;
}

optimality_gap_in_range_example :
    (leb_ℤ (pos 0) (optimality_gap whole (pos 4) (pos 3)) ≡ true)
    × (leb_ℤ (optimality_gap whole (pos 4) (pos 3)) (pos 1) ≡ true)
optimality_gap_in_range_example = optimality_gap_in_range whole whole-IsOrdered (pos 4) (pos 3)
