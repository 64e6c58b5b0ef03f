-- ===== src/Optimization/Builder.antt =====
-- src/optimization_engine/builder.py: the assignment problem as an integer program.
use ai_dlc_test.Common.{
  Bool, String, some, none, Option, List, [], ◌∷◌, map, select, str_eq, length, concat_map,
  counter_keys, find_first, Result, ok, err, if◌then◌else◌,
}
use ai_dlc_test.Common.Float.{Floats}
use ai_dlc_test.SharedKernel.Exceptions.{DomainError, model_construction}
use ai_dlc_test.SharedKernel.Entities.{Staff, Facility, Assignment, QualificationRequirement}
use ai_dlc_test.SharedKernel.Values.{TravelMetrics}
use ai_dlc_test.SharedKernel.Problem.{AssignmentProblem, Pair}
use ai_dlc_test.Optimization.Validation.{is_eligible, is_none}
use ai_dlc_test.Optimization.Model.{C3Requirement, MilpModel, pair_get}
use ai_dlc_test.Optimization.Scaling.{
  compute_normalisation, pair_objective_coeff, tmax_coeff, big_m,
}

-- `_c3_requirement`. A `frozenset` holds each identifier once.
unfoldable pub c3_requirement : List Staff → Facility → QualificationRequirement → C3Requirement
unfolding counter_keys select is_eligible
c3_requirement staff f r = record {
  facility_id = f.id;
  eligible_staff =
      counter_keys (map (λ (s : Staff). s.id) (select (λ s. is_eligible s r.requirement) staff));
  required_count = r.required_count;
}

unfoldable pub c3_requirements_of : List Staff → List Facility → List C3Requirement
unfolding c3_requirement concat_map
c3_requirements_of staff facilities =
    concat_map (λ (f : Facility). map (c3_requirement staff f) f.qualification_requirements)
      facilities

-- The keys of the nested loops, in their order.
unfoldable pub pairs_of : List Staff → List Facility → List Pair
unfolding concat_map
pairs_of staff facilities =
    concat_map (λ (s : Staff). map (λ (f : Facility). (s.id, f.id)) facilities) staff

-- `department_members`: the members of each department, in the order of the staff.
unfoldable pub members_of : List Staff → String → List String
unfolding select
members_of staff department =
    map (λ (s : Staff). s.id) (select (λ (s : Staff). str_eq s.department_id department) staff)

unfoldable pub department_members_of : List Staff → List (String × List String)
unfolding members_of counter_keys
department_members_of staff =
    map (λ department. (department, members_of staff department))
      (counter_keys (map (λ (s : Staff). s.department_id) staff))

module _ (fl : Floats) where
  open fl use {Float}

  -- The coefficient of each pair; `none` stands for no pair here, since the keys were checked.
  abbrev entries_for :
      {V : Type 0}
      → List (Pair × TravelMetrics Float)
      → (TravelMetrics Float → V)
      → Pair
      → List (Pair × V)
  entries_for matrix value key = elim (pair_get matrix key) [
    | none ↦ []
    | some m ↦ (key, value m) ∷ []
  ]

  abbrev pub missing_entry : Pair → DomainError
  missing_entry key = record {
    class = model_construction;
    violated_rule = "ModelBuilder";
    staff_id = some key.0;
    event_id = none;
    facility_id = some key.1;
  }

  abbrev pub model_or_error : Option Pair → MilpModel → Result DomainError MilpModel
  model_or_error none model = ok model
  model_or_error (some key) model = err (missing_entry key)

  -- The model of a problem whose matrix has every entry.
  unfoldable pub model_of : AssignmentProblem Float → Bool → Bool → MilpModel
  unfolding pairs_of concat_map compute_normalisation pair_objective_coeff tmax_coeff pair_get
      c3_requirements_of department_members_of big_m
  model_of problem demote_c3 include_c3 =
      let staff = problem.available_staff in
      let facilities = problem.facilities in
      let norm = compute_normalisation fl problem in
      let pairs = pairs_of staff facilities in
      record {
        event_id = problem.event.id;
        staff_ids = map (λ (s : Staff). s.id) staff;
        facility_ids = map (λ (f : Facility). f.id) facilities;
        pairs = pairs;
        objective_coeff =
            concat_map (entries_for problem.travel_matrix (pair_objective_coeff fl problem norm))
              pairs;
        tmax_coeff = tmax_coeff fl problem norm;
        travel_seconds =
            concat_map
              (entries_for problem.travel_matrix (λ (m : TravelMetrics Float). m.time_seconds))
              pairs;
        max_travel_seconds = norm.max_travel_seconds;
        capacity = map (λ (f : Facility). (f.id, f.required_headcount)) facilities;
        c3_requirements = if include_c3 then c3_requirements_of staff facilities else [];
        department_members = department_members_of staff;
        department_cap = problem.parameters.department_cap_limit;
        pinned = map (λ (a : Assignment). (a.staff_id, a.facility_id)) problem.pinned_assignments;
        big_m = big_m fl problem (length pairs);
        demote_c3 = demote_c3;
      }

  unfoldable pub build_model : AssignmentProblem Float → Bool → Bool → Result DomainError MilpModel
  unfolding model_of find_first pairs_of pair_get
  build_model problem demote_c3 include_c3 =
      model_or_error
        (find_first (λ key. is_none (pair_get problem.travel_matrix key))
          (pairs_of problem.available_staff problem.facilities))
        (model_of problem demote_c3 include_c3)
