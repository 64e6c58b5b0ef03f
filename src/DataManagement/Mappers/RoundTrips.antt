-- ===== src/DataManagement/Mappers/RoundTrips.antt =====
-- An entity that was constructed is read back from its row unchanged.
use ai_dlc_test.Common.{◌≡◌, refl, some, none, ok, Option, String, Bool, ℕ}
use ai_dlc_test.Common.Int.{ℤ}
use ai_dlc_test.Common.Float.{Floats}
use ai_dlc_test.SharedKernel.Enums.{ReasonCategory}
use ai_dlc_test.SharedKernel.Values.{coordinates_post_init}
use ai_dlc_test.SharedKernel.Entities.{
  Department, SchoolDistrict, Staff, staff_post_init, Facility, QualificationRequirement, Event,
  AvailabilityDeclaration,
}
use ai_dlc_test.SharedKernel.Entities.FacilityRules.{facility_post_init}
use ai_dlc_test.SharedKernel.Entities.DeclarationRules.{declaration_post_init}
use ai_dlc_test.DataManagement.Names.{
  by_name-job_type, by_name-position, by_name-event_type, by_name-event_status,
  by_name-reason_category, requirement_from_name-requirement_name,
}
use ai_dlc_test.DataManagement.Mappers.{
  department_to_row, row_to_department, staff_to_row, row_to_staff, facility_to_row,
  row_to_facility, requirement_row, row_to_qualification_requirement, event_to_row, row_to_event,
  declaration_to_row, row_to_declaration, school_district_to_row, row_to_school_district,
}

module _ (F : Type 0) where
  by_cap :
      (id name : String) (cap : Option ℤ)
      → (let d : Department = record { id = id; name = name; concurrent_assignment_cap = cap } in
          row_to_department (department_to_row {F = F} d) ≡ ok d)
  unfolding row_to_department department_to_row
  by_cap id name none = refl
  by_cap id name (some n) = refl

  pub row_to_department-department_to_row :
      (d : Department) → row_to_department (department_to_row {F = F} d) ≡ ok d
  row_to_department-department_to_row d = by_cap d.id d.name d.concurrent_assignment_cap

  pub row_to_staff-staff_to_row :
      (s : Staff)
      → staff_post_init s ≡ ok tt
      → row_to_staff (staff_to_row {F = F} s) s.qualifications ≡ ok s
  unfolding row_to_staff staff_to_row
  row_to_staff-staff_to_row s valid =
      rw (by_name-job_type s.job_type, by_name-position s.position, valid)

  pub row_to_facility-facility_to_row :
      (f : Facility)
      → facility_post_init f ≡ ok tt
      → row_to_facility (facility_to_row {F = F} f) f.qualification_requirements ≡ ok f
  unfolding row_to_facility facility_to_row
  row_to_facility-facility_to_row f valid = rw valid

  pub row_to_qualification_requirement-requirement_row :
      (facility_id : String) (req : QualificationRequirement)
      → row_to_qualification_requirement (requirement_row {F = F} facility_id req) ≡ ok req
  unfolding row_to_qualification_requirement
  row_to_qualification_requirement-requirement_row facility_id req =
      rw (requirement_from_name-requirement_name req.requirement)

  pub row_to_event-event_to_row : (e : Event) → row_to_event (event_to_row {F = F} e) ≡ ok e
  unfolding row_to_event event_to_row
  row_to_event-event_to_row e = rw (by_name-event_type e.type, by_name-event_status e.status)

  by_answer :
      (staff_id event_id : String) (a : Bool) (at : ℕ) (r : Option ReasonCategory)
      (n : Option String)
      → (let d : AvailabilityDeclaration = record {
        staff_id = staff_id;
        event_id = event_id;
        is_available = a;
        declared_at = at;
        reason_category = r;
        other_reason_note = n;
      } in
          declaration_post_init d ≡ ok tt
          → row_to_declaration (declaration_to_row {F = F} d event_id) ≡ ok d)
  unfolding row_to_declaration declaration_to_row
  by_answer staff_id event_id a at none none valid = rw valid
  by_answer staff_id event_id a at none (some n) valid = rw valid
  by_answer staff_id event_id a at (some r) none valid = rw (by_name-reason_category r, valid)
  by_answer staff_id event_id a at (some r) (some n) valid = rw (by_name-reason_category r, valid)

  -- A declaration that was constructed is read back from its row unchanged.
  pub row_to_declaration-declaration_to_row :
      (d : AvailabilityDeclaration)
      → declaration_post_init d ≡ ok tt
      → row_to_declaration (declaration_to_row {F = F} d d.event_id) ≡ ok d
  row_to_declaration-declaration_to_row d valid =
      by_answer d.staff_id d.event_id d.is_available d.declared_at d.reason_category
        d.other_reason_note valid

pub row_to_school_district-school_district_to_row :
    (fl : Floats) (d : SchoolDistrict fl.Float)
    → coordinates_post_init fl d.representative_point ≡ ok tt
    → row_to_school_district fl (school_district_to_row fl d) ≡ ok d
unfolding row_to_school_district school_district_to_row
row_to_school_district-school_district_to_row fl d valid = rw valid
