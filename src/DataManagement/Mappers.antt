-- ===== src/DataManagement/Mappers.antt =====
-- src/data_management/mappers.py: an entity as a row of its table, and back. The way back runs the
-- construction checks again and reports every failure as corrupt data.
pub mod RoundTrips
pub mod Checked
use ai_dlc_test.Common.{
  ◌≡◌, String, List, [], ◌∷◌, map, Option, none, some, Result, ok, err, ◌>>=◌, ◌>>◌,
}
use ai_dlc_test.Common.Float.{Floats}
use ai_dlc_test.SharedKernel.Enums.{
  Qualification, ReasonCategory, job_types, positions, event_types, event_statuses,
  reason_categories,
}
use ai_dlc_test.SharedKernel.Values.{Coordinates, coordinates_post_init}
use ai_dlc_test.SharedKernel.Entities.{
  Department, SchoolDistrict, Staff, staff_post_init, Facility, QualificationRequirement, Event,
  AvailabilityDeclaration,
}
use ai_dlc_test.SharedKernel.Entities.FacilityRules.{facility_post_init}
use ai_dlc_test.SharedKernel.Entities.DeclarationRules.{declaration_post_init}
use ai_dlc_test.DataManagement.Rows.{
  Raised, Cell, null, text, integer, floating, boolean, day, naive_datetime, Row, column, as_str,
  as_int, as_bool, as_date, as_utc_datetime, as_float, optional, safe_id, guarded, constructed,
}
use ai_dlc_test.DataManagement.Names.{
  name, by_name, job_type_names, position_names, qualification_names, event_type_names,
  event_status_names, reason_category_names, requirement_name, requirement_from_name,
}

module _ {F : Type 0} where
  -- `_as_str(mapping[key])`
  abbrev pub text_at : Row F → String → Result Raised String
  text_at row key = column row key >>= λ cell. as_str cell

  abbrev optional_cell : {A : Type 0} → (A → Cell F) → Option A → Cell F
  optional_cell write none = null
  optional_cell write (some a) = write a

  unfoldable pub department_to_row : Department → Row F
  department_to_row d =
      ("id", text d.id)
      ∷ ("name", text d.name)
      ∷ ("concurrent_assignment_cap", optional_cell integer d.concurrent_assignment_cap)
      ∷ []

  unfoldable pub row_to_department : Row F → Result Raised Department
  unfolding column as_str as_int safe_id
  row_to_department row = guarded "department" (safe_id row "id") do
    cap_raw ← column row "concurrent_assignment_cap"
    cap ← optional as_int cap_raw
    id ← text_at row "id"
    name ← text_at row "name"
    ok (record { id = id; name = name; concurrent_assignment_cap = cap })

  unfoldable pub staff_to_row : Staff → Row F
  unfolding name
  staff_to_row s =
      ("id", text s.id)
      ∷ ("name", text s.name)
      ∷ ("department_id", text s.department_id)
      ∷ ("job_type", text (name s.job_type))
      ∷ ("position", text (name s.position))
      ∷ ("residence_district_id", text s.residence_district_id)
      ∷ []

  unfoldable pub staff_qualification_rows : Staff → List (Row F)
  unfolding name
  staff_qualification_rows s =
      map (λ (q : Qualification). ("staff_id", text s.id) ∷ ("qualification", text (name q)) ∷ [])
        s.qualifications

  unfoldable pub row_to_staff : Row F → List Qualification → Result Raised Staff
  unfolding column as_str safe_id by_name staff_post_init
  row_to_staff row qualifications = guarded "staff" (safe_id row "id") do
    id ← text_at row "id"
    full_name ← text_at row "name"
    department_id ← text_at row "department_id"
    job_type_name ← text_at row "job_type"
    job_type ← by_name job_type_name
    position_name ← text_at row "position"
    position ← by_name position_name
    district_id ← text_at row "residence_district_id"
    let member : Staff = record {
      id = id;
      name = full_name;
      department_id = department_id;
      job_type = job_type;
      position = position;
      residence_district_id = district_id;
      qualifications = qualifications;
    } in
        constructed (staff_post_init member) member

  unfoldable pub facility_to_row : Facility → Row F
  facility_to_row f =
      ("id", text f.id)
      ∷ ("name", text f.name)
      ∷ ("district_id", text f.district_id)
      ∷ ("required_headcount", integer f.required_headcount)
      ∷ []

  abbrev pub requirement_row : String → QualificationRequirement → Row F
  requirement_row facility_id req =
      ("facility_id", text facility_id)
      ∷ ("requirement", text (requirement_name req.requirement))
      ∷ ("required_count", integer req.required_count)
      ∷ []

  unfoldable pub facility_requirement_rows : Facility → List (Row F)
  unfolding requirement_name
  facility_requirement_rows f = map (requirement_row f.id) f.qualification_requirements

  unfoldable pub row_to_facility : Row F → List QualificationRequirement → Result Raised Facility
  unfolding column as_str as_int safe_id facility_post_init
  row_to_facility row requirements = guarded "facility" (safe_id row "id") do
    id ← text_at row "id"
    name ← text_at row "name"
    district_id ← text_at row "district_id"
    headcount ← column row "required_headcount" >>= λ cell. as_int cell
    let facility : Facility = record {
      id = id;
      name = name;
      district_id = district_id;
      required_headcount = headcount;
      qualification_requirements = requirements;
    } in
        constructed (facility_post_init facility) facility

  -- This one mapper lets its exceptions through.
  unfoldable pub row_to_qualification_requirement : Row F → Result Raised QualificationRequirement
  unfolding column as_str as_int requirement_from_name
  row_to_qualification_requirement row = do
    identifier ← text_at row "requirement"
    requirement ← requirement_from_name identifier
    count ← column row "required_count" >>= λ cell. as_int cell
    ok (record { requirement = requirement; required_count = count })

  unfoldable pub event_to_row : Event → Row F
  unfolding name
  event_to_row e =
      ("id", text e.id)
      ∷ ("type", text (name e.type))
      ∷ ("name", text e.name)
      ∷ ("scheduled_date", day e.scheduled_date)
      ∷ ("status", text (name e.status))
      ∷ []

  unfoldable pub row_to_event : Row F → Result Raised Event
  unfolding column as_str as_date safe_id by_name
  row_to_event row = guarded "event" (safe_id row "id") do
    id ← text_at row "id"
    type_name ← text_at row "type"
    type ← by_name type_name
    name ← text_at row "name"
    scheduled_date ← column row "scheduled_date" >>= λ cell. as_date cell
    status_name ← text_at row "status"
    status ← by_name status_name
    ok (record {
      id = id;
      type = type;
      name = name;
      scheduled_date = scheduled_date;
      status = status;
    })

  unfoldable pub declaration_to_row : AvailabilityDeclaration → String → Row F
  unfolding name
  declaration_to_row d event_id =
      ("staff_id", text d.staff_id)
      ∷ ("event_id", text event_id)
      ∷ ("is_available", boolean d.is_available)
      ∷ ("reason_category", optional_cell (λ (r : ReasonCategory). text (name r)) d.reason_category)
      ∷ ("other_reason_note", optional_cell text d.other_reason_note)
      ∷ ("declared_at", naive_datetime d.declared_at)
      ∷ []

  abbrev pub as_reason : Cell F → Result Raised ReasonCategory
  as_reason cell = as_str cell >>= λ s. by_name s

  unfoldable pub row_to_declaration : Row F → Result Raised AvailabilityDeclaration
  unfolding column as_str as_bool as_utc_datetime safe_id by_name declaration_post_init
  row_to_declaration row = guarded "availability_declaration" (safe_id row "staff_id") do
    reason_raw ← column row "reason_category"
    reason ← optional as_reason reason_raw
    note_raw ← column row "other_reason_note"
    note ← optional as_str note_raw
    staff_id ← text_at row "staff_id"
    event_id ← text_at row "event_id"
    is_available ← column row "is_available" >>= λ cell. as_bool cell
    declared_at ← column row "declared_at" >>= λ cell. as_utc_datetime cell
    let declaration : AvailabilityDeclaration = record {
      staff_id = staff_id;
      event_id = event_id;
      is_available = is_available;
      declared_at = declared_at;
      reason_category = reason;
      other_reason_note = note;
    } in
        constructed (declaration_post_init declaration) declaration

module _ (fl : Floats) where
  open fl use {Float}

  unfoldable pub school_district_to_row : SchoolDistrict Float → Row Float
  school_district_to_row d =
      ("id", text d.id)
      ∷ ("name", text d.name)
      ∷ ("latitude", floating d.representative_point.latitude)
      ∷ ("longitude", floating d.representative_point.longitude)
      ∷ []

  abbrev located : Coordinates Float → Result Raised (Coordinates Float)
  located point = constructed (coordinates_post_init fl point) point

  unfoldable pub row_to_school_district : Row Float → Result Raised (SchoolDistrict Float)
  unfolding column as_str as_float safe_id coordinates_post_init
  row_to_school_district row = guarded "school_district" (safe_id row "id") do
    id ← text_at row "id"
    name ← text_at row "name"
    latitude ← column row "latitude" >>= λ cell. as_float fl cell
    longitude ← column row "longitude" >>= λ cell. as_float fl cell
    representative_point ← located (record { latitude = latitude; longitude = longitude })
    ok (record { id = id; name = name; representative_point = representative_point })
