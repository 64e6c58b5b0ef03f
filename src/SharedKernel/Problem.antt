-- ===== src/SharedKernel/Problem.antt =====
-- src/shared_kernel/problem.py: the assignment problem and its result.
pub mod ResultRules
use ai_dlc_test.Common.{
  ℕ, Bool, true, false, not, ◌&&◌, ◌||◌, String, some, none, Option, List, [], ◌∷◌, map, Result, ok,
  err, ◌>>=◌, ◌>>◌, raise_if, first_repeat, find_first, str_eq,
}
use ai_dlc_test.Common.Int.{ℤ, pos}
use ai_dlc_test.Common.Float.{Floats}
use ai_dlc_test.SharedKernel.Exceptions.{
  DomainError, ErrorClass, invalid_objective_value, non_demotable_constraint_violation,
  duplicate_assignment,
}
use ai_dlc_test.SharedKernel.Enums.{SolverStatus}
use ai_dlc_test.SharedKernel.Entities.{
  Event, Facility, Staff, Assignment, AvailabilityDeclaration, Requirement,
}
use ai_dlc_test.SharedKernel.Values.{TravelMetrics, OptimizationParameters}

pub data ConstraintId : Type 0 where
  c1 c2 c3 c4 c5 : ConstraintId

-- The text of a violation, by its template and the values in it.
pub data Detail : Type 0 where
  not_available foreign_facility two_facilities qualification_shortfall : Detail
  exceeds_headcount below_headcount : (count : ℕ) (headcount : ℤ) → Detail
  exceeds_cap : (count : ℕ) (cap : ℤ) → Detail
  lacks : (matching : ℕ) (required : ℤ) → Requirement → Detail

pub record ConstraintViolation : Type 0 where
  pub constraint_id : ConstraintId
  pub detail : Detail
  pub facility_id : Option String
  pub staff_id : Option String

-- A staff member and a facility.
abbrev pub Pair : Type 0
Pair = String × String

-- `travel_matrix` is the dictionary's entries, in order.
pub record AssignmentProblem (F : Type 0) : Type 0 where
  pub event : Event
  pub facilities : List Facility
  pub available_staff : List Staff
  pub travel_matrix : List (Pair × TravelMetrics F)
  pub parameters : OptimizationParameters F
  pub pinned_assignments : List Assignment

pub record AssignmentResult (F : Type 0) : Type 0 where
  pub event_id : String
  pub assignments : List Assignment
  pub objective_value : F
  pub optimality_gap : F
  pub solver_status : SolverStatus
  pub computed_at : ℕ
  pub violations : List ConstraintViolation

pub record HistoricalRecord : Type 0 where
  pub event_id : String
  pub actual_assignments : List Assignment
  pub availability_declarations : List AvailabilityDeclaration

-- `DEMOTABLE_CONSTRAINTS`
unfoldable pub demotable : ConstraintId → Bool
demotable c3 = true
demotable _ = false

module _ (fl : Floats) where
  open fl use {Float, decimal, is_finite, lt, le}

  abbrev refused : ErrorClass → AssignmentResult Float → Option String → Option String → DomainError
  refused class r staff facility = record {
    class = class;
    violated_rule = "BR-07";
    staff_id = staff;
    event_id = some r.event_id;
    facility_id = facility;
  }

  abbrev no_hard_violation :
      AssignmentResult Float → Option ConstraintViolation → Result DomainError (Unit {0})
  no_hard_violation r none = ok tt
  no_hard_violation r (some v) =
      err (refused non_demotable_constraint_violation r v.staff_id v.facility_id)

  abbrev no_duplicate : AssignmentResult Float → Option String → Result DomainError (Unit {0})
  no_duplicate r none = ok tt
  no_duplicate r (some staff) = err (refused duplicate_assignment r (some staff) none)

  -- `AssignmentResult.__post_init__`
  unfoldable pub result_post_init : AssignmentResult Float → Result DomainError (Unit {0})
  unfolding find_first first_repeat demotable
  result_post_init r = do
    raise_if (not (is_finite r.objective_value)) (refused invalid_objective_value r none none)
    raise_if (lt r.objective_value (decimal (pos 0) (pos 0)))
        (refused invalid_objective_value r none none)
    raise_if
        (not (
          le (decimal (pos 0) (pos 0)) r.optimality_gap
          && le r.optimality_gap (decimal (pos 1) (pos 0))))
        (refused invalid_objective_value r none none)
    no_hard_violation r (find_first (λ v. not (demotable v.constraint_id)) r.violations)
    no_duplicate r (first_repeat str_eq [] (map (λ a. a.staff_id) r.assignments))
