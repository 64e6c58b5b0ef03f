-- ===== src/Optimization/Validation/Valid/Constraints.antt =====
-- The five hard constraints, said of a set of assignments without the code that counts violations.
use ai_dlc_test.Common.{◌≤◌, ◌≡◌, Bool, true, some, List, In}
use ai_dlc_test.Common.Int.{pos, ◌≤ℤ◌}
use ai_dlc_test.SharedKernel.Entities.{Staff, Facility, Assignment, QualificationRequirement}
use ai_dlc_test.SharedKernel.Problem.{AssignmentProblem}
use ai_dlc_test.Optimization.Validation.{
  available, per_staff, per_facility, per_department, matching_count,
}

module _ {F : Type 0} (problem : AssignmentProblem F) (assignments : List Assignment) where
  -- Availability, and no facility of another event.
  pub record IsAvailable : Type 0 where
    pub staff :
        (a : Assignment)
        → In a assignments
        → (s : Staff) × In s problem.available_staff × (s.id ≡ a.staff_id)
    pub facility :
        (a : Assignment)
        → In a assignments
        → (f : Facility) × In f problem.facilities × (f.id ≡ a.facility_id)

  -- One facility each.
  abbrev pub OneFacilityEach : Type 0
  OneFacilityEach =
      (a : Assignment) → In a assignments → per_staff problem assignments a.staff_id ≤ 1

  -- The headcount: never above the headcount, and at it where the set is complete.
  abbrev pub IsStaffed : Bool → Type 0
  IsStaffed exact =
      (f : Facility)
      → In f problem.facilities
      → (pos (per_facility problem assignments f.id) ≤ℤ f.required_headcount)
        × (exact ≡ true → f.required_headcount ≤ℤ pos (per_facility problem assignments f.id))

  -- The department cap, for the department of everyone who is assigned.
  abbrev pub IsCapped : Type 0
  IsCapped =
      (a : Assignment) (s : Staff)
      → In a assignments
      → available problem assignments a.staff_id ≡ some s
      → pos (per_department problem assignments s.department_id)
        ≤ℤ problem.parameters.department_cap_limit

  -- The qualification rule.
  abbrev pub IsQualified : Type 0
  IsQualified =
      (f : Facility) (r : QualificationRequirement)
      → In f problem.facilities
      → In r f.qualification_requirements
      → r.required_count ≤ℤ pos (matching_count problem assignments f.id r.requirement)
