-- ===== src/Tests/RowsCases.antt =====
-- The rows of the database, and the services over them, at concrete inputs.
use ai_dlc_test.Common.{◌≡◌, refl, ◌⊎◌, ◌↔◌, inl, inr, In, List, any, [], ◌∷◌, map, some, ok, err}
use ai_dlc_test.Common.Int.{ℤ}
use ai_dlc_test.SharedKernel.Entities.{AvailabilityDeclaration, Facility, Staff}
use ai_dlc_test.SharedKernel.Entities.FacilityRules.{
  IsStaffable, facility_post_init, total_required,
}
use ai_dlc_test.SharedKernel.Entities.DeclarationRules.{declaration_post_init}
use ai_dlc_test.SharedKernel.Availability.{effective_declaration_for}
use ai_dlc_test.Distance.{haversine_distance_km}
use ai_dlc_test.DataManagement.Rows.{Row, text, data_integrity_error, safe_id}
use ai_dlc_test.DataManagement.Mappers.{
  row_to_facility, row_to_declaration, declaration_to_row, school_district_to_row,
}
use ai_dlc_test.DataManagement.Mappers.Checked.{row_to_facility-IsStaffable}
use ai_dlc_test.DataManagement.Mappers.RoundTrips.{row_to_declaration-declaration_to_row}
use ai_dlc_test.DataManagement.Repositories.{
  Tables, insert_facilities, find_all_facilities, effective_declarations, total_required_headcount,
}
use ai_dlc_test.DataManagement.Repositories.Masters.{find_all_facilities-insert_facilities}
use ai_dlc_test.DataManagement.Repositories.Effective.{History, effective_declarations_iff}
use ai_dlc_test.DataManagement.Availability.{sufficiency_status}
use ai_dlc_test.DataManagement.Availability.Sufficient.{status_of, sufficiency_status-status_of}
use ai_dlc_test.DataManagement.Distances.{recompute, get_distance}
use ai_dlc_test.DataManagement.Distances.Recomputed.{get_distance-recompute}
use ai_dlc_test.Tests.Samples.{whole, school, withdrawn}
use ai_dlc_test.Tests.Masters.{
  flat_earth, north, south, history, members, masters, history-All, history-IsUnique,
  members-Distinct, districts-Distinct, history-known,
}

abbrev nameless : Row ℤ
nameless = ("id", text "f9") ∷ []

row_to_facility-IsStaffable_example :
    ((f : Facility) × (row_to_facility nameless [] ≡ ok f) × IsStaffable f)
    ⊎ (row_to_facility nameless []
        ≡ err (
            data_integrity_error
              (record { entity = "facility"; entity_id = safe_id nameless "id" })))
row_to_facility-IsStaffable_example = row_to_facility-IsStaffable nameless []

withdrawn-constructed : declaration_post_init withdrawn ≡ ok tt
unfolding declaration_post_init
withdrawn-constructed = refl

row_to_declaration-declaration_to_row_example :
    row_to_declaration (declaration_to_row {F = ℤ} withdrawn "e1") ≡ ok withdrawn
row_to_declaration-declaration_to_row_example =
    row_to_declaration-declaration_to_row ℤ withdrawn withdrawn-constructed

abbrev unbuilt : Tables ℤ
unbuilt = record masters { facilities = []; facility_qualification_requirements = [] }

school-constructed : facility_post_init school ≡ ok tt
unfolding facility_post_init any total_required
school-constructed = refl

imported : insert_facilities (school ∷ []) unbuilt ≡ ok (masters, 1)
unfolding insert_facilities school_district_to_row
imported = refl

find_all_facilities-insert_facilities_example : find_all_facilities masters ≡ ok (school ∷ [])
find_all_facilities-insert_facilities_example =
    find_all_facilities-insert_facilities (school ∷ []) unbuilt masters 1 (school-constructed, tt)
      refl refl imported

effective_declarations_iff_example :
    (ds : History) × (effective_declarations masters "e1" ≡ ok ds)
    × ((d : AvailabilityDeclaration)
        → In d ds ↔ (effective_declaration_for d.staff_id "e1" history ≡ ok (some d)))
effective_declarations_iff_example =
    effective_declarations_iff masters "e1" history refl history-All history-IsUnique

sufficiency_status-status_of_example :
    sufficiency_status masters "e1"
    ≡ ok (
        status_of "e1" history
          (map (λ (m : Staff). m.id) members)
          (total_required_headcount masters))
sufficiency_status-status_of_example =
    sufficiency_status-status_of masters "e1" history members refl refl history-All history-IsUnique
      members-Distinct history-known

get_distance-recompute_example :
    (after : List (Row ℤ)) × (recompute whole flat_earth (north ∷ south ∷ []) [] ≡ ok after)
    × (get_distance whole after "r2" "r1" ≡ get_distance whole after "r1" "r2")
    × ((get_distance whole after "r2" "r1"
          ≡ ok (
              some (
                haversine_distance_km whole flat_earth south.representative_point
                  north.representative_point)))
        ⊎ (get_distance whole after "r2" "r1"
            ≡ ok (
                some (
                  haversine_distance_km whole flat_earth north.representative_point
                    south.representative_point))))
get_distance-recompute_example =
    get_distance-recompute whole flat_earth (north ∷ south ∷ []) [] south north districts-Distinct
      (inr (inl refl)) (inl refl)
