-- ===== src/Optimization/Validation/Valid/Known.antt =====
-- The checks of availability and of one facility each: who is assigned, and how often.
use ai_dlc_test.Common.{
  ◌≤◌, ◌≡◌, refl, ◌↔◌, Bool, true, false, String, some, none, Option, List, [], map, In, dict_get,
  dict_get_sound, dict_get-some, counter_keys, counter_keys_sound, counter_keys_complete,
  concat_map-nil_iff, append-nil_iff, In-map, In-map_inv, arith,
}
use ai_dlc_test.SharedKernel.Entities.{Staff, Facility, Assignment}
use ai_dlc_test.SharedKernel.Problem.{AssignmentProblem, ConstraintViolation}
use ai_dlc_test.Optimization.Validation.{
  report, is_none, available, unavailable_violations, per_staff, duplicate_violations,
  unavailable_violation, duplicate_violation,
}
use ai_dlc_test.Optimization.Validation.Valid.Constraints.{IsAvailable, OneFacilityEach}

report-nil_iff : (b : Bool) (v : ConstraintViolation) → (report b v ≡ []) ↔ (b ≡ false)
report-nil_iff true v = (λ h. cc, λ h. cc)
report-nil_iff false v = (λ h. refl, λ h. refl)

is_none-false : {A : Type 0} (o : Option A) → is_none o ≡ false → (x : A) × (o ≡ some x)
is_none-false none h = cc
is_none-false (some x) h = (x, refl)

module _ {F : Type 0} (problem : AssignmentProblem F) (assignments : List Assignment) where
  abbrev facility_of : String → Option Facility
  facility_of id = dict_get (λ (f : Facility). f.id) problem.facilities id

  abbrev staff_of : String → Option Staff
  staff_of id = dict_get (λ (s : Staff). s.id) problem.available_staff id

  available_lem : (id : String) → available problem assignments id ≡ staff_of id
  unfolding available
  available_lem id = refl

  unavailable_line :
      (a : Assignment)
      → (unavailable_violation problem assignments a ≡ []) ↔ (
          (is_none (available problem assignments a.staff_id) ≡ false)
          × (is_none (facility_of a.facility_id) ≡ false))
  unfolding unavailable_violation
  unavailable_line a =
      (λ h. ground (arith, append-nil_iff (report _ _) (report _ _)), λ h. ground arith)

  staff_known :
      (a : Assignment)
      → is_none (available problem assignments a.staff_id) ≡ false
      → (s : Staff) × In s problem.available_staff × (s.id ≡ a.staff_id)
  staff_known a h =
      let (s, e) = is_none-false (staff_of a.staff_id) (rw available_lem at h) in
      let (m, q) = dict_get_sound (λ (s : Staff). s.id) problem.available_staff a.staff_id s e in
      (s, m, q)

  facility_known :
      (a : Assignment)
      → is_none (facility_of a.facility_id) ≡ false
      → (f : Facility) × In f problem.facilities × (f.id ≡ a.facility_id)
  facility_known a h =
      let (f, e) = is_none-false (facility_of a.facility_id) h in
      let (m, q) = dict_get_sound (λ (f : Facility). f.id) problem.facilities a.facility_id f e in
      (f, m, q)

  staff_found :
      IsAvailable problem assignments
      → (a : Assignment) → In a assignments
      → is_none (available problem assignments a.staff_id) ≡ false
  staff_found v a m =
      let (s, n, e) = v.staff a m in
      let (s', q) = dict_get-some (λ (s : Staff). s.id) problem.available_staff s n in
      rw available_lem (rw (← e, q))

  facility_found :
      IsAvailable problem assignments
      → (a : Assignment) → In a assignments
      → is_none (facility_of a.facility_id) ≡ false
  facility_found v a m =
      let (f, n, e) = v.facility a m in
      let (f', q) = dict_get-some (λ (f : Facility). f.id) problem.facilities f n in rw (← e, q)

  pub unavailable_iff :
      (unavailable_violations problem assignments ≡ []) ↔ IsAvailable problem assignments
  unfolding unavailable_violations
  unavailable_iff =
      let loop = concat_map-nil_iff (unavailable_violation problem assignments) assignments in
      (
        λ h. record {
          staff = λ a m. staff_known a ((unavailable_line a).0 (loop.0 h a m)).0;
          facility = λ a m. facility_known a ((unavailable_line a).0 (loop.0 h a m)).1;
        },
        λ v. loop.1 (λ a m. (unavailable_line a).1 (staff_found v a m, facility_found v a m)),
      )

  duplicate_line :
      (id : String)
      → (duplicate_violation problem assignments id ≡ []) ↔ (per_staff problem assignments id ≤ 1)
  unfolding duplicate_violation
  duplicate_line id = (λ h. ground arith, λ h. ground arith)

  pub duplicate_iff :
      (duplicate_violations problem assignments ≡ []) ↔ OneFacilityEach problem assignments
  unfolding duplicate_violations
  duplicate_iff =
      let ids = map (λ (a : Assignment). a.staff_id) assignments in
      let loop = concat_map-nil_iff (duplicate_violation problem assignments) (counter_keys ids) in
      (
        λ h a m. (duplicate_line a.staff_id).0 (
            loop.0 h a.staff_id (
              counter_keys_complete ids a.staff_id
                (In-map (λ (a : Assignment). a.staff_id) assignments a m))),
        λ v. loop.1 λ id m.
            let (a, n, e) =
              In-map_inv (λ (a : Assignment). a.staff_id) assignments id
                (counter_keys_sound ids id m) in
            (duplicate_line id).1 (rw e (v a n)),
      )
