-- ===== src/Optimization/Diagnoser.antt =====
-- src/optimization_engine/diagnoser.py: why a problem has no solution.
use ai_dlc_test.Common.{
  ◌+◌, ◌≡◌, ◌↔◌, String, some, none, Option, List, [], ◌∷◌, map, length, arith, if◌then◌else◌,
}
use ai_dlc_test.Common.Int.{ℤ, pos, ◌<ℤ◌, ltb_ℤ, max_ℤ, neg_part, pos_part, sub_ℕ}
use ai_dlc_test.SharedKernel.Entities.{Facility}
use ai_dlc_test.SharedKernel.Problem.{AssignmentProblem, ConstraintId, c1, c2, c5}
use ai_dlc_test.Optimization.Scaling.{total_headcount}

pub data InfeasibilityCause : Type 0 where
  total_shortage c3_demoted hard_constraint : InfeasibilityCause

pub record InfeasibilityDiagnosis : Type 0 where
  pub cause : InfeasibilityCause
  pub shortage_count : Option ℤ
  pub affected_facilities : List String
  pub blocking_constraints : List ConstraintId

module _ {F : Type 0} (problem : AssignmentProblem F) where
  -- `total_shortage`: `max(0, required - available)`
  unfoldable pub shortage_of : ℤ
  unfolding total_headcount max_ℤ
  shortage_of =
      let required = total_headcount problem.facilities in
      max_ℤ (pos 0) (sub_ℕ (pos_part required) (neg_part required + length problem.available_staff))

  unfoldable pub classify_after_relaxed_infeasible : InfeasibilityDiagnosis
  unfolding shortage_of
  classify_after_relaxed_infeasible =
      let shortage = shortage_of in
      if ltb_ℤ (pos 0) shortage
      then record {
        cause = total_shortage;
        shortage_count = some shortage;
        affected_facilities = map (λ (f : Facility). f.id) problem.facilities;
        blocking_constraints = [];
      }
      else record {
        cause = hard_constraint;
        shortage_count = none;
        affected_facilities = [];
        blocking_constraints = c1 ∷ c2 ∷ c5 ∷ [];
      }

  -- The diagnosis after the relaxed solve is a total shortage exactly when the facilities need more
  -- people than are available.
  pub classify_iff :
      (classify_after_relaxed_infeasible.cause ≡ total_shortage)
      ↔ (pos (length problem.available_staff) <ℤ total_headcount problem.facilities)
  unfolding classify_after_relaxed_infeasible
  classify_iff = (λ h. ground arith, λ h. ground arith)
