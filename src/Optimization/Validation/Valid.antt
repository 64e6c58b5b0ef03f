-- ===== src/Optimization/Validation/Valid.antt =====
-- What an empty answer of `check_assignments` means: every hard constraint holds.
pub mod Constraints
mod Known
mod Staffed
use ai_dlc_test.Common.{
  ◌≤◌, ◌≡◌, refl, ◌↔◌, Bool, true, false, String, some, none, Option, List, [], map, In, dict_get,
  dict_get_sound, dict_get-some, counter_keys, counter_keys_sound, counter_keys_complete,
  concat_map-nil_iff, append-nil_iff, if◌then◌else◌, In-map, In-map_inv, In-concat_map,
  In-concat_map_inv, arith, inl, inr,
}
use ai_dlc_test.Common.Int.{pos, ◌≤ℤ◌}
use ai_dlc_test.SharedKernel.Entities.{Staff, Facility, Assignment, QualificationRequirement}
use ai_dlc_test.SharedKernel.Problem.{AssignmentProblem, ConstraintViolation}
use ai_dlc_test.Optimization.Validation.{
  report, is_none, available, unavailable_violations, per_staff, duplicate_violations, per_facility,
  headcount_violations_of, headcount_violations, departments_of, assigned_departments,
  per_department, department_violations, unavailable_violation, duplicate_violation,
  department_violation, qualification_violation, qualification_violations_of, matching_count,
  qualification_violations, check_assignments,
}
use ai_dlc_test.Optimization.Validation.Valid.Constraints.{
  IsAvailable, OneFacilityEach, IsStaffed, IsCapped, IsQualified,
}
use ai_dlc_test.Optimization.Validation.Valid.Known.{unavailable_iff, duplicate_iff}
use ai_dlc_test.Optimization.Validation.Valid.Staffed.{
  headcount_iff, department_iff, qualification_iff,
}

module _ {F : Type 0} (problem : AssignmentProblem F) (assignments : List Assignment) where
  -- Every hard constraint, as the two flags ask for it.
  pub record IsValid (exact qualifications : Bool) : Type 0 where
    pub available : IsAvailable problem assignments
    pub one_facility : OneFacilityEach problem assignments
    pub staffed : IsStaffed problem assignments exact
    pub capped : IsCapped problem assignments
    pub qualified : qualifications ≡ true → IsQualified problem assignments

  asked :
      (b : Bool) (vs : List ConstraintViolation)
      → ((if b then vs else []) ≡ []) ↔ (b ≡ true → vs ≡ [])
  asked true vs = (λ h _. h, λ h. h refl)
  asked false vs = (λ h e. cc, λ h. refl)

  -- check_assignments answers with no violation exactly when the assignments satisfy the hard
  -- constraints, with the headcount an equality and the qualifications included as the two flags
  -- ask.
  pub check_assignments_iff :
      (exact qualifications : Bool)
      → (check_assignments problem assignments exact qualifications ≡ [])
        ↔ IsValid exact qualifications
  unfolding check_assignments
  check_assignments_iff exact qualifications = (
    λ h.
        let (a, h1) = (append-nil_iff (unavailable_violations problem assignments) _).0 h in
        let (b, h2) = (append-nil_iff (duplicate_violations problem assignments) _).0 h1 in
        let (c, h3) = (append-nil_iff (headcount_violations problem assignments exact) _).0 h2 in
        let (d, e) = (append-nil_iff (department_violations problem assignments) _).0 h3 in
        record {
          available = (unavailable_iff problem assignments).0 a;
          one_facility = (duplicate_iff problem assignments).0 b;
          staffed = (headcount_iff problem assignments exact).0 c;
          capped = (department_iff problem assignments).0 d;
          qualified =
              λ q. (qualification_iff problem assignments).0 ((asked qualifications _).0 e q);
        },
    λ v. (append-nil_iff (unavailable_violations problem assignments) _).1 (
      (unavailable_iff problem assignments).1 v.available,
      (append-nil_iff (duplicate_violations problem assignments) _).1 (
        (duplicate_iff problem assignments).1 v.one_facility,
        (append-nil_iff (headcount_violations problem assignments exact) _).1 (
          (headcount_iff problem assignments exact).1 v.staffed,
          (append-nil_iff (department_violations problem assignments) _).1 (
            (department_iff problem assignments).1 v.capped,
            (asked qualifications _).1
                (λ q. (qualification_iff problem assignments).1 (v.qualified q)),
          ),
        ),
      ),
    ),
  )
