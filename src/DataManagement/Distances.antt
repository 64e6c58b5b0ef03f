-- ===== src/DataManagement/Distances.antt =====
-- `SqlDistanceCache` of src/data_management/repositories.py, over the rows of `distance_cache`.
pub mod Recomputed
use ai_dlc_test.Common.{
  Bool, true, ◌&&◌, String, List, [], ◌∷◌, map, Option, none, some, Result, ok, err, select, str_le,
  if◌then◌else◌, ◌>>=◌,
}
use ai_dlc_test.Common.Int.{ℤ}
use ai_dlc_test.Common.Float.{Floats}
use ai_dlc_test.Security.Store.{StoreError, integrity_error}
use ai_dlc_test.SharedKernel.Entities.{SchoolDistrict}
use ai_dlc_test.Distance.{
  DistanceCacheEntry, Trigonometry, canonical_key, compute_district_distance_matrix,
}
use ai_dlc_test.DataManagement.Rows.{
  Cell, Row, Raised, text, integer, floating, column, as_str, as_float, safe_id, guarded,
}
use ai_dlc_test.DataManagement.Repositories.{same_result, insert_rows}

module _ (fl : Floats) where
  open fl use {Float}

  -- `distance_entry_to_row`
  unfoldable pub distance_entry_to_row : DistanceCacheEntry Float → Row Float
  distance_entry_to_row e =
      ("district_a", text e.district_a)
      ∷ ("district_b", text e.district_b)
      ∷ ("great_circle_km", floating e.great_circle_km)
      ∷ []

  -- `row_to_distance_entry`
  unfoldable pub row_to_distance_entry : Row Float → Result Raised (DistanceCacheEntry Float)
  unfolding column as_str as_float safe_id
  row_to_distance_entry row = guarded "distance_cache" (safe_id row "district_a") do
    a ← column row "district_a" >>= λ cell. as_str cell
    b ← column row "district_b" >>= λ cell. as_str cell
    km ← column row "great_circle_km" >>= λ cell. as_float fl cell
    ok (record { district_a = a; district_b = b; great_circle_km = km })

  -- What `scalar_one_or_none` raises where it finds several rows.
  pub data LookupError : Type 0 where
    multiple_results_found : LookupError

  abbrev km_of : Result Raised (Cell Float) → Option Float
  km_of (ok (integer n)) = some (fl.of_int n)
  km_of (ok (floating km)) = some km
  km_of _ = none

  abbrev pub scalar_of : List (Row Float) → Result LookupError (Option Float)
  scalar_of [] = ok none
  scalar_of (row ∷ []) = ok (km_of (column row "great_circle_km"))
  scalar_of (row ∷ other ∷ rows) = err multiple_results_found

  abbrev pub is_pair : String → String → Row Float → Bool
  is_pair a b row =
      same_result (column row "district_a") (ok (text a))
      && same_result (column row "district_b") (ok (text b))

  unfoldable pub get_distance :
      List (Row Float) → String → String → Result LookupError (Option Float)
  unfolding canonical_key select column
  get_distance table district_a district_b =
      let (a, b) = canonical_key district_a district_b in scalar_of (select (is_pair a b) table)

  -- CHECK (district_a <= district_b), of entries
  unfoldable pub all_canonical : List (DistanceCacheEntry Float) → Bool
  all_canonical [] = true
  all_canonical (e ∷ es) = str_le e.district_a e.district_b && all_canonical es

  unfoldable pub put_distances :
      List (DistanceCacheEntry Float) → List (Row Float) → Result StoreError (List (Row Float))
  unfolding all_canonical insert_rows distance_entry_to_row
  put_distances entries table =
      let written =
        insert_rows ("district_a" ∷ "district_b" ∷ []) [] table
          (map distance_entry_to_row entries) in
      if all_canonical entries then written else err integrity_error

  unfoldable pub invalidate_all : List (Row Float) → List (Row Float)
  invalidate_all table = []

  -- The recomputation, when the districts change: the end of `MasterDataService.import_school_districts`.
  unfoldable pub recompute :
      Trigonometry Float
      → List (SchoolDistrict Float)
      → List (Row Float)
      → Result StoreError (List (Row Float))
  unfolding compute_district_distance_matrix put_distances invalidate_all
  recompute math districts table =
      put_distances (compute_district_distance_matrix fl math districts) (invalidate_all table)
