-- ===== src/DataManagement/Repositories/Writes.antt =====
-- The INSERTs of src/data_management/repositories.py. A refused one is refused as a whole: the
-- transaction of the caller rolls back.
use ai_dlc_test.Common.{ℕ, String, List, [], ◌∷◌, map, Result, ok, ◌>>=◌, length, concat_map}
use ai_dlc_test.Common.Float.{Floats}
use ai_dlc_test.SharedKernel.Enums.{qualifications}
use ai_dlc_test.SharedKernel.Entities.{
  Department, SchoolDistrict, Staff, Facility, AvailabilityDeclaration,
}
use ai_dlc_test.Security.Store.{StoreError}
use ai_dlc_test.DataManagement.Names.{qualification_names}
use ai_dlc_test.DataManagement.Mappers.{
  department_to_row, school_district_to_row, staff_to_row, staff_qualification_rows,
  facility_to_row, facility_requirement_rows, declaration_to_row,
}
use ai_dlc_test.DataManagement.Repositories.Store.{Tables, insert_rows}

module _ {F : Type 0} where
  unfoldable pub insert_departments : List Department → Tables F → Result StoreError (Tables F × ℕ)
  unfolding insert_rows department_to_row
  insert_departments ds t = do
    table ← insert_rows ("id" ∷ []) [] t.departments (map department_to_row ds)
    ok (record t { departments = table }, length ds)

  unfoldable pub insert_staff : List Staff → Tables F → Result StoreError (Tables F × ℕ)
  unfolding insert_rows staff_to_row staff_qualification_rows concat_map
  insert_staff ms t = do
    table ←
        insert_rows ("id" ∷ [])
          (("department_id", t.departments) ∷ ("residence_district_id", t.school_districts) ∷ [])
          t.staff (map staff_to_row ms)
    quals ←
        insert_rows ("staff_id" ∷ "qualification" ∷ []) (("staff_id", table) ∷ [])
          t.staff_qualifications (concat_map staff_qualification_rows ms)
    ok (record t { staff = table; staff_qualifications = quals }, length ms)

  unfoldable pub insert_facilities : List Facility → Tables F → Result StoreError (Tables F × ℕ)
  unfolding insert_rows facility_to_row facility_requirement_rows concat_map
  insert_facilities fs t = do
    table ←
        insert_rows ("id" ∷ []) (("district_id", t.school_districts) ∷ []) t.facilities
          (map facility_to_row fs)
    reqs ←
        insert_rows ("facility_id" ∷ "requirement" ∷ []) (("facility_id", table) ∷ [])
          t.facility_qualification_requirements (concat_map facility_requirement_rows fs)
    ok (record t { facilities = table; facility_qualification_requirements = reqs }, length fs)

  unfoldable pub insert_declarations :
      String → List AvailabilityDeclaration → Tables F → Result StoreError (Tables F × ℕ)
  unfolding insert_rows declaration_to_row
  insert_declarations event_id ds t = do
    table ←
        insert_rows ("staff_id" ∷ "event_id" ∷ "declared_at" ∷ [])
          (("staff_id", t.staff) ∷ ("event_id", t.events) ∷ []) t.availability_declarations
          (map (λ (d : AvailabilityDeclaration). declaration_to_row d event_id) ds)
    ok (record t { availability_declarations = table }, length ds)

module _ (fl : Floats) where
  open fl use {Float}

  unfoldable pub insert_school_districts :
      List (SchoolDistrict Float) → Tables Float → Result StoreError (Tables Float × ℕ)
  unfolding insert_rows school_district_to_row
  insert_school_districts ds t = do
    table ← insert_rows ("id" ∷ []) [] t.school_districts (map (school_district_to_row fl) ds)
    ok (record t { school_districts = table }, length ds)
