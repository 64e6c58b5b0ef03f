-- ===== src/Optimization/Solved/Feasible.antt =====
-- A solution of the program, checked by validation.py, has no violation.
use ai_dlc_test.Common.{
  ◌≡◌, sym, ◌∙◌, ap, Bool, true, false, String, List, [], In, In-map, In-append_left,
  In-append_right, arith, if◌then◌else◌,
}
use ai_dlc_test.Common.Int.{pos}
use ai_dlc_test.Common.Float.{Floats}
use ai_dlc_test.SharedKernel.Entities.{Staff, Facility, Assignment}
use ai_dlc_test.SharedKernel.Problem.{AssignmentProblem}
use ai_dlc_test.Optimization.Validation.{per_facility, check_assignments, validate_assignments}
use ai_dlc_test.Optimization.Validation.Valid.Constraints.{
  IsAvailable, OneFacilityEach, IsStaffed, IsQualified,
}
use ai_dlc_test.Optimization.Validation.Valid.{IsValid, check_assignments_iff}
use ai_dlc_test.Optimization.Model.{MilpModel}
use ai_dlc_test.Optimization.Builder.{model_of}
use ai_dlc_test.Optimization.CpSat.{
  Values, Holds, CpConstraint, sum_equals, at_most_one, chosen, program_of, facility_terms,
  staff_terms, capacity_of, pin_constraints, headcount_constraints, staff_constraints,
  qualification_constraints, department_constraints, shortfalls,
}
use ai_dlc_test.Optimization.Solved.Counted.{
  HasKeys, model, solved, solved-origin, pair-origin, pairs-model, per_facility-solved,
  per_staff-solved, capacity-headcount,
}
use ai_dlc_test.Optimization.Solved.Departments.{solved-IsCapped}
use ai_dlc_test.Optimization.Solved.Qualifications.{solved-IsQualified, reported-terms}

-- The values satisfy every constraint of the program.
abbrev pub IsSolution : MilpModel → Values → Type 0
IsSolution m v = (c : CpConstraint) → In c (program_of m).constraints → Holds v c

module _ (m : MilpModel) (v : Values) (s : IsSolution m v) where
  headcount : (c : CpConstraint) → In c (headcount_constraints m) → Holds v c
  unfolding program_of
  headcount c n = s c (In-append_right c (pin_constraints m) _ (In-append_left c _ _ n))

  staffing : (c : CpConstraint) → In c (staff_constraints m) → Holds v c
  unfolding program_of
  staffing c n = s c (
      In-append_right c (pin_constraints m) _
        (In-append_right c (headcount_constraints m) _ (In-append_left c _ _ n)))

  qualification_ :
      (c : CpConstraint) → In c (qualification_constraints m 0 m.c3_requirements) → Holds v c
  unfolding program_of
  qualification_ c n = s c (
      In-append_right c (pin_constraints m) _ (
        In-append_right c (headcount_constraints m) _
          (In-append_right c (staff_constraints m) _ (In-append_left c _ _ n))))

  department : (c : CpConstraint) → In c (department_constraints m) → Holds v c
  unfolding program_of
  department c n = s c (
      In-append_right c (pin_constraints m) _ (
        In-append_right c (headcount_constraints m) _ (
          In-append_right c (staff_constraints m) _ (
            In-append_right c (qualification_constraints m 0 m.c3_requirements) _
              (In-append_left c _ _ n)))))

module _ (fl : Floats) (problem : AssignmentProblem fl.Float) (demote_c3 include_c3 : Bool)
    (v : Values) (keys : HasKeys problem) where
  abbrev m : MilpModel
  m = model fl problem demote_c3 include_c3 v

  abbrev as_solved : List Assignment
  as_solved = solved fl problem demote_c3 include_c3 v

  solved-IsAvailable : IsAvailable problem as_solved
  solved-IsAvailable = record {
    staff = λ a n.
        let (p, k, x, q, r) = solved-origin fl problem demote_c3 include_c3 v a n in
        let (s, f, l, o, e) =
          pair-origin problem.available_staff problem.facilities p
            (rw (pairs-model fl problem demote_c3 include_c3 v) at k) in
        (s, l, sym (q ∙ ap (λ (z : String × String). z.0) e));
    facility = λ a n.
        let (p, k, x, q, r) = solved-origin fl problem demote_c3 include_c3 v a n in
        let (s, f, l, o, e) =
          pair-origin problem.available_staff problem.facilities p
            (rw (pairs-model fl problem demote_c3 include_c3 v) at k) in
        (f, o, sym (r ∙ ap (λ (z : String × String). z.1) e));
  }

  one_facility-In :
      (t : Staff)
      → In t problem.available_staff
      → In (at_most_one (staff_terms m t.id)) (staff_constraints m)
  unfolding staff_constraints model_of
  one_facility-In t n =
      In-map (λ (id : String). at_most_one (staff_terms m id)) m.staff_ids t.id
        (In-map (λ (t : Staff). t.id) problem.available_staff t n)

  headcount-In :
      (f : Facility)
      → In f problem.facilities
      → In (sum_equals (facility_terms m f.id) (capacity_of m f.id)) (headcount_constraints m)
  unfolding headcount_constraints model_of
  headcount-In f n =
      In-map (λ (id : String). sum_equals (facility_terms m id) (capacity_of m id)) m.facility_ids
        f.id (In-map (λ (f : Facility). f.id) problem.facilities f n)

  module _ (s : IsSolution m v) where
    solved-OneFacilityEach : OneFacilityEach problem as_solved
    solved-OneFacilityEach a n =
        let (t, l, e) = solved-IsAvailable.staff a n in
        rw (per_staff-solved fl problem demote_c3 include_c3 v a.staff_id, ← e)
          (staffing m v s (at_most_one (staff_terms m t.id)) (one_facility-In t l))

    solved-IsStaffed : IsStaffed problem as_solved true
    solved-IsStaffed f n =
        let exact : pos (per_facility problem as_solved f.id) ≡ f.required_headcount =
          ap pos (per_facility-solved fl problem demote_c3 include_c3 v f.id)
          ∙ headcount m v s _ (headcount-In f n)
          ∙ capacity-headcount fl problem demote_c3 include_c3 v keys f n in
        (rw (← exact) (omega arith), λ _. rw (← exact) (omega arith))

    hard-IsValid :
        (qualifications : Bool)
        → (qualifications ≡ true → IsQualified problem as_solved)
        → IsValid problem as_solved true qualifications
    hard-IsValid qualifications qualified = record {
      available = solved-IsAvailable;
      one_facility = solved-OneFacilityEach;
      staffed = solved-IsStaffed;
      capped = solved-IsCapped fl problem demote_c3 include_c3 v keys (department m v s);
      qualified = qualified;
    }

    -- Whatever the stage, a solution meets the other four constraints exactly as the check reads them.
    pub solution-check_assignments : check_assignments problem as_solved true false ≡ []
    solution-check_assignments =
        (check_assignments_iff problem as_solved true false).1 (hard-IsValid false (λ e. cc e))

module _ (fl : Floats) (problem : AssignmentProblem fl.Float) (demote_c3 : Bool) (v : Values)
    (keys : HasKeys problem) where
  -- A solution of a stage with the qualification rule that reports no shortfall passes the whole check.
  pub solution-validate_assignments :
      IsSolution (model_of fl problem demote_c3 true) v
      → (if demote_c3
          then shortfalls
              (model_of fl problem demote_c3 true)
              v
              0
              (model_of fl problem demote_c3 true).c3_requirements
          else [])
        ≡ []
      → validate_assignments problem (chosen (model_of fl problem demote_c3 true) v) ≡ []
  unfolding validate_assignments
  solution-validate_assignments s clean =
      let m = model_of fl problem demote_c3 true in
      (check_assignments_iff problem (chosen m v) true true).1 (
        hard-IsValid fl problem demote_c3 true v keys s true (λ _.
          solved-IsQualified fl problem demote_c3 v keys
            (reported-terms m v (qualification_ m v s) (demoted clean))))
    where
      demoted :
          (if demote_c3
              then shortfalls
                  (model_of fl problem demote_c3 true)
                  v
                  0
                  (model_of fl problem demote_c3 true).c3_requirements
              else [])
            ≡ []
          → (if (model_of fl problem demote_c3 true).demote_c3
              then shortfalls
                  (model_of fl problem demote_c3 true)
                  v
                  0
                  (model_of fl problem demote_c3 true).c3_requirements
              else [])
            ≡ []
      demoted c = unfold model_of in c
