-- ===== src/DataManagement/Repositories/Reads.antt =====
-- The queries of src/data_management/repositories.py.
use ai_dlc_test.Common.{
  ℕ, ltb, Bool, ◌&&◌, String, List, [], ◌∷◌, ◌++◌, Option, some, none, Result, ok, ◌>>=◌, each, any,
  select, find_first, str_eq, if◌then◌else◌, length, get_or, setdefault_then,
}
use ai_dlc_test.Common.Int.{ℤ, pos, ◌+ℤ◌}
use ai_dlc_test.Common.Float.{Floats}
use ai_dlc_test.SharedKernel.Enums.{Qualification, qualifications}
use ai_dlc_test.SharedKernel.Entities.{
  Event, SchoolDistrict, Staff, Facility, QualificationRequirement, AvailabilityDeclaration,
}
use ai_dlc_test.DataManagement.Rows.{
  Raised, Cell, text, integer, naive_datetime, Row, column, as_str,
}
use ai_dlc_test.DataManagement.Names.{by_name, qualification_names}
use ai_dlc_test.DataManagement.Mappers.{
  row_to_event, row_to_school_district, row_to_staff, row_to_facility,
  row_to_qualification_requirement, row_to_declaration,
}
use ai_dlc_test.DataManagement.Repositories.Store.{Tables, same_result, same_key, same_cell}

-- `set.add`
unfoldable pub add_qualification : Qualification → List Qualification → List Qualification
unfolding any
add_qualification q held =
    if any (λ h. str_eq (qualifications.japanese h) (qualifications.japanese q)) held
    then held
    else held ++ q ∷ []

module _ {F : Type 0} where
  unfoldable pub all_staff_count : Tables F → ℕ
  all_staff_count t = length t.staff

  unfoldable pub facility_count : Tables F → ℕ
  facility_count t = length t.facilities

  abbrev int_or_zero : Result Raised (Cell F) → ℤ
  int_or_zero (ok (integer n)) = n
  int_or_zero _ = pos 0

  -- SUM(required_headcount), 0 of no rows. The column is not null.
  unfoldable pub sum_headcount : List (Row F) → ℤ
  unfolding column
  sum_headcount [] = pos 0
  sum_headcount (row ∷ rows) = int_or_zero (column row "required_headcount") +ℤ sum_headcount rows

  unfoldable pub total_required_headcount : Tables F → ℤ
  unfolding sum_headcount
  total_required_headcount t = sum_headcount t.facilities

  -- `str(row[key])`, of a column that is declared as text and not null.
  abbrev pub str_at : Row F → String → Result Raised String
  str_at row key = column row key >>= λ cell. as_str cell

  -- The loop of `_qualifications_by_staff`, from the dictionary so far.
  unfoldable pub qualifications_by_staff :
      List (String × List Qualification)
      → List (Row F)
      → Result Raised (List (String × List Qualification))
  unfolding column as_str by_name setdefault_then add_qualification
  qualifications_by_staff dict [] = ok dict
  qualifications_by_staff dict (row ∷ rows) = do
    staff_id ← str_at row "staff_id"
    name ← str_at row "qualification"
    qualification ← by_name name
    qualifications_by_staff (setdefault_then [] (add_qualification qualification) staff_id dict)
        rows

  unfoldable pub find_all_staff : Tables F → Result Raised (List Staff)
  unfolding qualifications_by_staff each get_or row_to_staff
  find_all_staff t = do
    quals ← qualifications_by_staff [] t.staff_qualifications
    each (λ row. str_at row "id" >>= λ id. row_to_staff row (get_or [] quals id)) t.staff

  abbrev row_of : String → Row F → Bool
  row_of id row = same_result (column row "id") (ok (text id))

  abbrev staff_with : List (Row F) → String → Option (Row F) → Result Raised (Option Staff)
  staff_with quals id none = ok none
  staff_with quals id (some row) = do
    held ←
        each (λ r. str_at r "qualification" >>= λ name. by_name name)
          (select (λ r. same_result (column r "staff_id") (ok (text id))) quals)
    member ← row_to_staff row held
    ok (some member)

  unfoldable pub get_staff : Tables F → String → Result Raised (Option Staff)
  unfolding find_first select each column same_cell as_str by_name row_to_staff
  get_staff t id = staff_with t.staff_qualifications id (find_first (row_of id) t.staff)

  abbrev event_in : Option (Row F) → Result Raised (Option Event)
  event_in none = ok none
  event_in (some row) = row_to_event row >>= λ event. ok (some event)

  unfoldable pub get_event : Tables F → String → Result Raised (Option Event)
  unfolding find_first column same_cell row_to_event
  get_event t id = event_in (find_first (row_of id) t.events)

  -- The first loop of `find_all_facilities`, from the dictionary so far.
  unfoldable pub requirements_by_facility :
      List (String × List QualificationRequirement)
      → List (Row F)
      → Result Raised (List (String × List QualificationRequirement))
  unfolding column as_str setdefault_then row_to_qualification_requirement
  requirements_by_facility dict [] = ok dict
  requirements_by_facility dict (row ∷ rows) = do
    facility_id ← str_at row "facility_id"
    req ← row_to_qualification_requirement row
    requirements_by_facility (setdefault_then [] (λ reqs. reqs ++ req ∷ []) facility_id dict) rows

  unfoldable pub find_all_facilities : Tables F → Result Raised (List Facility)
  unfolding requirements_by_facility each get_or row_to_facility
  find_all_facilities t = do
    reqs ← requirements_by_facility [] t.facility_qualification_requirements
    each (λ row. str_at row "id" >>= λ id. row_to_facility row (get_or [] reqs id)) t.facilities

  abbrev instant_of : Result Raised (Cell F) → ℕ
  instant_of (ok (naive_datetime t)) = t
  instant_of _ = 0

  -- MAX(declared_at) of some rows
  unfoldable pub latest_instant : List (Row F) → ℕ
  unfolding column
  latest_instant [] = 0
  latest_instant (row ∷ rows) =
      let later = latest_instant rows in
      let here = instant_of (column row "declared_at") in if ltb later here then here else later

  -- The WHERE clause, with the correlated subquery: the row is of the event, and no row of its staff
  -- member and event is later.
  unfoldable pub is_effective : List (Row F) → String → Row F → Bool
  unfolding column same_cell select latest_instant
  is_effective table event_id outer =
      same_result (column outer "event_id") (ok (text event_id))
      && same_result (column outer "declared_at") (
          ok (
            naive_datetime (
              latest_instant
                (select (λ inner. same_key ("staff_id" ∷ "event_id" ∷ []) inner outer) table))))

  unfoldable pub effective_declarations :
      Tables F → String → Result Raised (List AvailabilityDeclaration)
  unfolding select is_effective each row_to_declaration
  effective_declarations t event_id =
      let table = t.availability_declarations in
      each row_to_declaration (select (is_effective table event_id) table)

module _ (fl : Floats) where
  open fl use {Float}

  unfoldable pub find_all_school_districts :
      Tables Float → Result Raised (List (SchoolDistrict Float))
  unfolding each row_to_school_district
  find_all_school_districts t = each (row_to_school_district fl) t.school_districts
