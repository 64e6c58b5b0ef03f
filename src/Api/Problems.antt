-- ===== src/Api/Problems.antt =====
-- src/api_orchestration/problem_builder.py: the assignment problem of an event, from the stored data.
pub mod Keyed
use ai_dlc_test.Common.{
  Bool, true, ◌&&◌, String, List, [], ◌∷◌, ◌++◌, map, Option, none, some, Result, ok, err, ◌>>=◌,
  concat_map, dict_get, str_eq, if◌then◌else◌,
}
use ai_dlc_test.Common.Float.{Floats}
use ai_dlc_test.SharedKernel.Exceptions.{DomainError}
use ai_dlc_test.SharedKernel.Values.{TravelMetrics, OptimizationParameters}
use ai_dlc_test.SharedKernel.CostModel.{TravelParameters}
use ai_dlc_test.SharedKernel.Entities.{
  Assignment, AvailabilityDeclaration, Event, Facility, SchoolDistrict, Staff,
}
use ai_dlc_test.SharedKernel.Problem.{AssignmentProblem, Pair}
use ai_dlc_test.Distance.{Trigonometry, compute_travel_metrics}
use ai_dlc_test.Jobs.Queue.{ReoptimizationMode, full, incremental}
use ai_dlc_test.DataManagement.Rows.{Raised}
use ai_dlc_test.DataManagement.Repositories.{
  Tables, get_event, find_all_facilities, find_all_staff, find_all_school_districts,
  effective_declarations,
}

-- `ProblemBuildError`, and what the calls raise.
pub data BuildError : Type 0 where
  problem_build_error : BuildError
  repository_error : Raised → BuildError
  district_key_error : BuildError
  travel_error : DomainError → BuildError

abbrev pub read : {A : Type 0} → Result Raised A → Result BuildError A
read (ok a) = ok a
read (err raised) = err (repository_error raised)

abbrev pub found_event : Option Event → Result BuildError Event
found_event none = err problem_build_error
found_event (some event) = ok event

abbrev pub member_of : Option Staff → List Staff
member_of none = []
member_of (some member) = member ∷ []

-- `d.is_available and d.staff_id in all_staff`, and the staff member
abbrev pub available_member : List Staff → AvailabilityDeclaration → List Staff
available_member all_staff d =
    if d.is_available then member_of (dict_get (λ (s : Staff). s.id) all_staff d.staff_id) else []

unfoldable pub available_of : List Staff → List AvailabilityDeclaration → List Staff
unfolding concat_map dict_get
available_of all_staff declarations = concat_map (available_member all_staff) declarations

abbrev pinned_copy : Assignment → Assignment
pinned_copy a = record a { is_pinned = true }

-- The previous assignments, pinned, for an incremental run.
unfoldable pub pins_of : ReoptimizationMode → List Assignment → List Assignment
pins_of full previous = []
pins_of incremental previous = map pinned_copy previous

-- `matrix[key] = metrics`
unfoldable pub put_metrics :
    {F : Type 0}
    → Pair
    → TravelMetrics F
    → List (Pair × TravelMetrics F)
    → List (Pair × TravelMetrics F)
put_metrics key metrics [] = (key, metrics) ∷ []
put_metrics key metrics ((k, m) ∷ matrix) =
    let rest = put_metrics key metrics matrix in
    if str_eq k.0 key.0 && str_eq k.1 key.1 then (k, metrics) ∷ matrix else (k, m) ∷ rest

module _ (fl : Floats) (math : Trigonometry fl.Float) where
  open fl use {Float}

  -- `districts[id]`
  unfoldable pub district_at :
      List (SchoolDistrict Float) → String → Result BuildError (SchoolDistrict Float)
  unfolding dict_get
  district_at districts id = elim (dict_get (λ (d : SchoolDistrict Float). d.id) districts id) [
    | none ↦ err district_key_error
    | some district ↦ ok district
  ]

  abbrev metrics_of :
      Result DomainError (TravelMetrics Float) → Result BuildError (TravelMetrics Float)
  metrics_of (ok metrics) = ok metrics
  metrics_of (err e) = err (travel_error e)

  -- The inner loop, over the facilities.
  unfoldable pub travel_row :
      List (SchoolDistrict Float)
      → TravelParameters Float
      → Staff
      → List Facility
      → List (Pair × TravelMetrics Float)
      → Result BuildError (List (Pair × TravelMetrics Float))
  unfolding district_at compute_travel_metrics put_metrics
  travel_row districts travel member [] matrix = ok matrix
  travel_row districts travel member (facility ∷ facilities) matrix = do
    home ← district_at districts member.residence_district_id
    place ← district_at districts facility.district_id
    metrics ← metrics_of (compute_travel_metrics fl math home place travel)
    travel_row districts travel member facilities
        (put_metrics (member.id, facility.id) metrics matrix)

  -- The outer loop, over the staff.
  unfoldable pub travel_matrix_of :
      List (SchoolDistrict Float)
      → TravelParameters Float
      → List Staff
      → List Facility
      → List (Pair × TravelMetrics Float)
      → Result BuildError (List (Pair × TravelMetrics Float))
  unfolding travel_row
  travel_matrix_of districts travel [] facilities matrix = ok matrix
  travel_matrix_of districts travel (member ∷ members) facilities matrix = do
    extended ← travel_row districts travel member facilities matrix
    travel_matrix_of districts travel members facilities extended

  unfoldable pub build_problem :
      Tables Float
      → String
      → OptimizationParameters Float
      → TravelParameters Float
      → ReoptimizationMode
      → List Assignment
      → Result BuildError (AssignmentProblem Float)
  build_problem t event_id parameters travel mode previous = do
    stored ← read (get_event t event_id)
    event ← found_event stored
    facilities ← read (find_all_facilities t)
    all_staff ← read (find_all_staff t)
    districts ← read (find_all_school_districts fl t)
    declarations ← read (effective_declarations t event_id)
    matrix ← travel_matrix_of districts travel (available_of all_staff declarations) facilities []
    ok (record {
      event = event;
      facilities = facilities;
      available_staff = available_of all_staff declarations;
      travel_matrix = matrix;
      parameters = parameters;
      pinned_assignments = pins_of mode previous;
    })
