-- ===== src/Optimization/Service.antt =====
-- src/optimization_engine/service.py and result_mapper.py: the staged solve.
use ai_dlc_test.Common.{
  ℕ, Bool, true, false, String, some, none, Option, List, [], ◌∷◌, Result, ok, err, ◌>>=◌, ◌>>◌,
  if◌then◌else◌,
}
use ai_dlc_test.Common.Int.{ℤ}
use ai_dlc_test.Common.Float.{Floats}
use ai_dlc_test.SharedKernel.Exceptions.{DomainError, pinned_assignment_infeasible}
use ai_dlc_test.SharedKernel.Problem.{
  AssignmentProblem, AssignmentResult, ConstraintViolation, ConstraintId, c1, c2, c3, c4, c5,
  result_post_init,
}
use ai_dlc_test.Optimization.Validation.{check_assignments}
use ai_dlc_test.Optimization.Model.{MilpModel, SolveOutcome}
use ai_dlc_test.Optimization.Scaling.{normalised_objective}
use ai_dlc_test.Optimization.Builder.{build_model}
use ai_dlc_test.Optimization.Diagnoser.{InfeasibilityDiagnosis, classify_after_relaxed_infeasible}

-- What `optimize` can raise: a domain error, or the KeyError of a pair without metrics.
pub data OptimizeError : Type 0 where
  domain : DomainError → OptimizeError
  key_error : OptimizeError

pub data Outcome (F : Type 0) : Type 0 where
  result : AssignmentResult F → Outcome F
  diagnosis : InfeasibilityDiagnosis → Outcome F

abbrev constraint_name : ConstraintId → String
constraint_name c1 = "C1"
constraint_name c2 = "C2"
constraint_name c3 = "C3"
constraint_name c4 = "C4"
constraint_name c5 = "C5"

abbrev pub lifted : {A : Type 0} → Result DomainError A → Result OptimizeError A
lifted (ok a) = ok a
lifted (err e) = err (domain e)

abbrev pub pins_refused : List ConstraintViolation → Result OptimizeError (Unit {0})
pins_refused [] = ok tt
pins_refused (first ∷ rest) = err (
    domain (record {
      class = pinned_assignment_infeasible;
      violated_rule = constraint_name first.constraint_id;
      staff_id = first.staff_id;
      event_id = none;
      facility_id = first.facility_id;
    }))

-- `_validate_pins`. Of no pins the check finds nothing, so the early return changes nothing but time.
unfoldable pub validate_pins : {F : Type 0} → AssignmentProblem F → Result OptimizeError (Unit {0})
unfolding check_assignments
validate_pins problem = elim problem.pinned_assignments [
  | [] ↦ ok tt
  | p ∷ ps ↦ pins_refused (check_assignments problem (p ∷ ps) false false)
]

module _ (fl : Floats) where
  open fl use {Float}

  -- A solver behind the port: the model, the time limit, the seed and the number of workers.
  abbrev pub SolverPort : Type 0
  SolverPort = MilpModel → ℤ → ℤ → ℤ → SolveOutcome Float

  abbrev constructed : AssignmentResult Float → Result DomainError (AssignmentResult Float)
  constructed r = result_post_init fl r >> ok r

  abbrev result_for :
      AssignmentProblem Float
      → SolveOutcome Float
      → ℕ
      → Option Float
      → Result OptimizeError (AssignmentResult Float)
  result_for problem outcome computed_at none = err key_error
  result_for problem outcome computed_at (some objective) = lifted (
      constructed (record {
        event_id = problem.event.id;
        assignments = outcome.assignments;
        objective_value = objective;
        optimality_gap = outcome.optimality_gap;
        solver_status = outcome.status;
        computed_at = computed_at;
        violations = outcome.c3_violations;
      }))

  unfoldable pub to_assignment_result :
      AssignmentProblem Float
      → SolveOutcome Float
      → ℕ
      → Result OptimizeError (AssignmentResult Float)
  unfolding normalised_objective result_post_init
  to_assignment_result problem outcome computed_at =
      result_for problem outcome computed_at (normalised_objective fl problem outcome.assignments)

  module _ (solver : SolverPort) (num_workers : ℤ) where
    -- One staged solve: the model is built and handed to the solver.
    unfoldable pub solve_stage :
        AssignmentProblem Float → Bool → Bool → Result OptimizeError (SolveOutcome Float)
    unfolding build_model
    solve_stage problem demote_c3 include_c3 = do
      model ← lifted (build_model fl problem demote_c3 include_c3)
      ok (
          solver model problem.parameters.time_limit_seconds problem.parameters.random_seed
            num_workers)

    abbrev reported :
        AssignmentProblem Float → ℕ → SolveOutcome Float → Result OptimizeError (Outcome Float)
    reported problem computed_at outcome = do
      r ← to_assignment_result problem outcome computed_at
      ok (result r)

    -- The last stage: the qualification rule is known to be the only obstacle, and is demoted.
    unfoldable pub demoted_stage :
        AssignmentProblem Float → ℕ → Result OptimizeError (Outcome Float)
    unfolding solve_stage to_assignment_result classify_after_relaxed_infeasible
    demoted_stage problem computed_at = do
      demoted ← solve_stage problem true true
      if demoted.feasible
          then reported problem computed_at demoted
          else ok (diagnosis (classify_after_relaxed_infeasible problem))

    unfoldable pub relaxed_stage :
        AssignmentProblem Float → ℕ → Result OptimizeError (Outcome Float)
    unfolding solve_stage demoted_stage classify_after_relaxed_infeasible
    relaxed_stage problem computed_at = do
      relaxed ← solve_stage problem false false
      if relaxed.feasible
          then demoted_stage problem computed_at
          else ok (diagnosis (classify_after_relaxed_infeasible problem))

    unfoldable pub optimize : AssignmentProblem Float → ℕ → Result OptimizeError (Outcome Float)
    unfolding validate_pins solve_stage relaxed_stage to_assignment_result
    optimize problem computed_at = do
      validate_pins problem
      outcome ← solve_stage problem false true
      if outcome.feasible
          then reported problem computed_at outcome
          else relaxed_stage problem computed_at
