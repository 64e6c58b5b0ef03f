-- ===== src/Optimization/Model.antt =====
-- src/optimization_engine/model.py: the integer program and a solver's raw result. A dictionary is
-- the list of its writes, of which the last for a key counts.
use ai_dlc_test.Common.{
  Bool, ◌&&◌, String, some, none, Option, List, [], ◌∷◌, str_eq, if◌then◌else◌,
}
use ai_dlc_test.Common.Int.{ℤ}
use ai_dlc_test.SharedKernel.Enums.{SolverStatus}
use ai_dlc_test.SharedKernel.Entities.{Assignment}
use ai_dlc_test.SharedKernel.Problem.{Pair, ConstraintViolation}

pub record C3Requirement : Type 0 where
  pub facility_id : String
  pub eligible_staff : List String
  pub required_count : ℤ

pub record MilpModel : Type 0 where
  pub event_id : String
  pub staff_ids : List String
  pub facility_ids : List String
  pub pairs : List Pair
  pub objective_coeff : List (Pair × ℤ)
  pub tmax_coeff : ℤ
  pub travel_seconds : List (Pair × ℤ)
  pub max_travel_seconds : ℤ
  pub capacity : List (String × ℤ)
  pub c3_requirements : List C3Requirement
  pub department_members : List (String × List String)
  pub department_cap : ℤ
  pub pinned : List Pair
  pub big_m : ℤ
  pub demote_c3 : Bool

pub record SolveOutcome (F : Type 0) : Type 0 where
  pub feasible : Bool
  pub assignments : List Assignment
  pub objective_value : F
  pub optimality_gap : F
  pub status : SolverStatus
  pub c3_violations : List ConstraintViolation

-- `==` of two pairs of identifiers
unfoldable pub same_pair : Pair → Pair → Bool
same_pair (a, b) (c, d) = str_eq a c && str_eq b d

-- `entries.get(key)`
unfoldable pub pair_get {ℓ} : {V : Type ℓ} → List (Pair × V) → Pair → Option V
unfolding same_pair
pair_get [] key = none
pair_get ((k, v) ∷ entries) key = elim (pair_get entries key) [
  | some w ↦ some w
  | none ↦ if same_pair k key then some v else none
]
