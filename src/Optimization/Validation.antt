-- ===== src/Optimization/Validation.antt =====
-- src/optimization_engine/validation.py: the check of a given set of assignments against the five hard constraints.
pub mod Valid
use ai_dlc_test.Common.{
  ℕ, Bool, true, false, not, ◌&&◌, String, some, none, Option, List, [], ◌∷◌, ◌++◌, map, length,
  select, any, count_if, str_eq, dict_get, counter_keys, concat_map, if◌then◌else◌, ltb,
}
use ai_dlc_test.Common.Int.{ℤ, pos, ltb_ℤ}
use ai_dlc_test.SharedKernel.Entities.{
  Staff, Facility, Assignment, Requirement, qualification, position, job_type, same_requirement,
  QualificationRequirement,
}
use ai_dlc_test.SharedKernel.Problem.{
  AssignmentProblem, ConstraintViolation, ConstraintId, c1, c2, c3, c4, c5, Detail, not_available,
  foreign_facility, two_facilities, exceeds_headcount, below_headcount, exceeds_cap, lacks,
}

-- `_is_eligible`, which builder.py repeats word for word.
unfoldable pub is_eligible : Staff → Requirement → Bool
unfolding any same_requirement
is_eligible s (qualification q) =
    any (λ held. same_requirement (qualification held) (qualification q)) s.qualifications
is_eligible s (position p) = same_requirement (position s.position) (position p)
is_eligible s (job_type j) = same_requirement (job_type s.job_type) (job_type j)

abbrev pub violation : ConstraintId → Detail → Option String → Option String → ConstraintViolation
violation id detail facility staff = record {
  constraint_id = id;
  detail = detail;
  facility_id = facility;
  staff_id = staff;
}

-- `if test: violations.append(v)`
abbrev pub report : Bool → ConstraintViolation → List ConstraintViolation
report true v = v ∷ []
report false v = []

abbrev pub is_none : {A : Type 0} → Option A → Bool
is_none none = true
is_none (some _) = false

-- The department of an assignment's staff member, if that member is available.
abbrev pub departments_of : Option Staff → List String
departments_of none = []
departments_of (some s) = s.department_id ∷ []

abbrev pub here_if : Bool → Option Staff → List Staff
here_if true (some s) = s ∷ []
here_if _ _ = []

module _ {F : Type 0} (problem : AssignmentProblem F) (assignments : List Assignment) where
  -- `available.get(staff_id)`
  unfoldable pub available : String → Option Staff
  unfolding dict_get
  available staff_id = dict_get (λ s. s.id) problem.available_staff staff_id

  -- Availability, and the facilities of other events.
  unfoldable pub unavailable_violation : Assignment → List ConstraintViolation
  unfolding available dict_get
  unavailable_violation a =
      report (is_none (available a.staff_id)) (violation c4 not_available none (some a.staff_id))
      ++ report (is_none (dict_get (λ (f : Facility). f.id) problem.facilities a.facility_id))
          (violation c1 foreign_facility (some a.facility_id) none)

  unfoldable pub unavailable_violations : List ConstraintViolation
  unfolding unavailable_violation concat_map
  unavailable_violations = concat_map unavailable_violation assignments

  -- `per_staff[staff_id]`
  unfoldable pub per_staff : String → ℕ
  unfolding count_if
  per_staff staff_id = count_if (λ (a : Assignment). str_eq a.staff_id staff_id) assignments

  -- One facility each.
  unfoldable pub duplicate_violation : String → List ConstraintViolation
  unfolding per_staff
  duplicate_violation staff_id =
      report (ltb 1 (per_staff staff_id)) (violation c2 two_facilities none (some staff_id))

  unfoldable pub duplicate_violations : List ConstraintViolation
  unfolding duplicate_violation concat_map counter_keys
  duplicate_violations =
      concat_map duplicate_violation
        (counter_keys (map (λ (a : Assignment). a.staff_id) assignments))

  -- `per_facility[facility_id]`
  unfoldable pub per_facility : String → ℕ
  unfolding count_if
  per_facility facility_id =
      count_if (λ (a : Assignment). str_eq a.facility_id facility_id) assignments

  -- The headcount of one facility
  unfoldable pub headcount_violations_of : Bool → Facility → List ConstraintViolation
  unfolding per_facility
  headcount_violations_of require_exact_capacity f =
      let count = per_facility f.id in
      if ltb_ℤ f.required_headcount (pos count)
      then violation c1 (exceeds_headcount count f.required_headcount) (some f.id) none ∷ []
      else report (require_exact_capacity && ltb_ℤ (pos count) f.required_headcount)
          (violation c1 (below_headcount count f.required_headcount) (some f.id) none)

  unfoldable pub headcount_violations : Bool → List ConstraintViolation
  unfolding headcount_violations_of concat_map
  headcount_violations require_exact_capacity =
      concat_map (headcount_violations_of require_exact_capacity) problem.facilities

  -- `available[a.staff_id].department_id for a in assignments if a.staff_id in available`
  unfoldable pub assigned_departments : List String
  unfolding available concat_map
  assigned_departments =
      concat_map (λ (a : Assignment). departments_of (available a.staff_id)) assignments

  -- `per_department[department_id]`
  unfoldable pub per_department : String → ℕ
  unfolding assigned_departments count_if
  per_department department_id = count_if (λ d. str_eq d department_id) assigned_departments

  -- The department cap.
  unfoldable pub department_violation : String → List ConstraintViolation
  unfolding per_department
  department_violation department_id =
      let count = per_department department_id in
      let cap = problem.parameters.department_cap_limit in
      report (ltb_ℤ cap (pos count)) (violation c5 (exceeds_cap count cap) none none)

  unfoldable pub department_violations : List ConstraintViolation
  unfolding department_violation concat_map counter_keys
  department_violations = concat_map department_violation (counter_keys assigned_departments)

  -- The available staff members assigned to a facility.
  unfoldable pub assigned_to : String → List Staff
  unfolding available concat_map
  assigned_to facility_id =
      concat_map
        (λ (a : Assignment). here_if (str_eq a.facility_id facility_id) (available a.staff_id))
        assignments

  unfoldable pub matching_count : String → Requirement → ℕ
  unfolding assigned_to is_eligible count_if
  matching_count facility_id requirement =
      count_if (λ s. is_eligible s requirement) (assigned_to facility_id)

  -- The qualification rule of one requirement.
  unfoldable pub qualification_violation :
      Facility → QualificationRequirement → List ConstraintViolation
  unfolding matching_count
  qualification_violation f r =
      let matching = matching_count f.id r.requirement in
      report (ltb_ℤ (pos matching) r.required_count)
        (violation c3 (lacks matching r.required_count r.requirement) (some f.id) none)

  unfoldable pub qualification_violations_of : Facility → List ConstraintViolation
  unfolding qualification_violation concat_map
  qualification_violations_of f =
      concat_map (qualification_violation f) f.qualification_requirements

  unfoldable pub qualification_violations : List ConstraintViolation
  unfolding qualification_violations_of concat_map
  qualification_violations = concat_map qualification_violations_of problem.facilities

  unfoldable pub check_assignments : Bool → Bool → List ConstraintViolation
  unfolding unavailable_violations duplicate_violations headcount_violations department_violations
      qualification_violations
  check_assignments require_exact_capacity check_qualifications =
      unavailable_violations
      ++ (duplicate_violations
          ++ (headcount_violations require_exact_capacity
              ++ (department_violations
                  ++ (if check_qualifications then qualification_violations else []))))

  unfoldable pub validate_assignments : List ConstraintViolation
  unfolding check_assignments
  validate_assignments = check_assignments true true
