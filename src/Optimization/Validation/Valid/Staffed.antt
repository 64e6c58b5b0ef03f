-- ===== src/Optimization/Validation/Valid/Staffed.antt =====
-- The checks of headcount, department cap and qualifications: how many are assigned.
use ai_dlc_test.Common.{
  ◌≡◌, refl, ◌↔◌, Bool, true, false, String, some, none, Option, List, [], In, counter_keys,
  counter_keys_sound, counter_keys_complete, concat_map-nil_iff, In-concat_map, In-concat_map_inv,
  arith, inl, inr,
}
use ai_dlc_test.Common.Int.{pos, ◌≤ℤ◌}
use ai_dlc_test.SharedKernel.Entities.{Staff, Facility, Assignment, QualificationRequirement}
use ai_dlc_test.SharedKernel.Problem.{AssignmentProblem}
use ai_dlc_test.Optimization.Validation.{
  available, per_facility, headcount_violations_of, headcount_violations, departments_of,
  assigned_departments, per_department, department_violations, department_violation,
  qualification_violation, qualification_violations_of, matching_count, qualification_violations,
}
use ai_dlc_test.Optimization.Validation.Valid.Constraints.{IsStaffed, IsCapped, IsQualified}

member_assigned :
    (d : String) (o : Option Staff)
    → In d (departments_of o)
    → (s : Staff) × (o ≡ some s) × (d ≡ s.department_id)
member_assigned d none m = absurd m
member_assigned d (some s) (inl e) = (s, refl, e)
member_assigned d (some s) (inr m) = absurd m

module _ {F : Type 0} (problem : AssignmentProblem F) (assignments : List Assignment) where
  headcount_line :
      (exact : Bool) (f : Facility)
      → (headcount_violations_of problem assignments exact f ≡ []) ↔ (
          (pos (per_facility problem assignments f.id) ≤ℤ f.required_headcount)
          × (exact ≡ true → f.required_headcount ≤ℤ pos (per_facility problem assignments f.id)))
  unfolding headcount_violations_of
  headcount_line true f = (λ h. (ground arith, λ _. ground arith), λ h. ground (arith, h.1 refl))
  headcount_line false f = (λ h. (ground arith, λ e. cc), λ h. ground arith)

  pub headcount_iff :
      (exact : Bool)
      → (headcount_violations problem assignments exact ≡ []) ↔ IsStaffed problem assignments exact
  unfolding headcount_violations
  headcount_iff exact =
      let loop =
        concat_map-nil_iff (headcount_violations_of problem assignments exact) problem.facilities in
      (
        λ h f m. (headcount_line exact f).0 (loop.0 h f m),
        λ v. loop.1 (λ f m. (headcount_line exact f).1 (v f m)),
      )

  abbrev department_of : Assignment → List String
  department_of a = departments_of (available problem assignments a.staff_id)

  assigned_department :
      (a : Assignment) (s : Staff)
      → In a assignments
      → available problem assignments a.staff_id ≡ some s
      → In s.department_id (assigned_departments problem assignments)
  unfolding assigned_departments
  assigned_department a s m e =
      In-concat_map department_of assignments a s.department_id m (rw e (inl refl))

  department_assigned :
      (d : String)
      → In d (assigned_departments problem assignments)
      → (a : Assignment) × (s : Staff) × In a assignments
        × (available problem assignments a.staff_id ≡ some s)
        × (d ≡ s.department_id)
  unfolding assigned_departments
  department_assigned d m =
      let (a, n, k) = In-concat_map_inv department_of assignments d m in
      let (s, e, q) = member_assigned d (available problem assignments a.staff_id) k in
      (a, s, n, e, q)

  department_line :
      (d : String)
      → (department_violation problem assignments d ≡ [])
        ↔ (pos (per_department problem assignments d) ≤ℤ problem.parameters.department_cap_limit)
  unfolding department_violation
  department_line d = (λ h. ground arith, λ h. ground arith)

  pub department_iff :
      (department_violations problem assignments ≡ []) ↔ IsCapped problem assignments
  unfolding department_violations
  department_iff =
      let ds = assigned_departments problem assignments in
      let loop = concat_map-nil_iff (department_violation problem assignments) (counter_keys ds) in
      (
        λ h a s m e. (department_line s.department_id).0 (
            loop.0 h s.department_id
              (counter_keys_complete ds s.department_id (assigned_department a s m e))),
        λ v. loop.1 λ d m.
            let (a, s, n, e, q) = department_assigned d (counter_keys_sound ds d m) in
            (department_line d).1 (rw q (v a s n e)),
      )

  qualification_line :
      (f : Facility) (r : QualificationRequirement)
      → (qualification_violation problem assignments f r ≡ [])
        ↔ (r.required_count ≤ℤ pos (matching_count problem assignments f.id r.requirement))
  unfolding qualification_violation
  qualification_line f r = (λ h. ground arith, λ h. ground arith)

  pub qualification_iff :
      (qualification_violations problem assignments ≡ []) ↔ IsQualified problem assignments
  unfolding qualification_violations
  qualification_iff =
      let facilities =
        concat_map-nil_iff (qualification_violations_of problem assignments) problem.facilities in
      let loop = λ (f : Facility).
        concat_map-nil_iff (qualification_violation problem assignments f)
          f.qualification_requirements in
      (
        λ h f r m n. (qualification_line f r).0 ((loop f).0 (facilities.0 h f m) r n),
        λ v. facilities.1 (λ f m. (loop f).1 (λ r n. (qualification_line f r).1 (v f r m n))),
      )
