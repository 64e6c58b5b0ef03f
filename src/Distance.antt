-- ===== src/Distance.antt =====
-- src/distance_cost: distance, travel time and cost between districts, and the matrix that is cached.
-- The functions of Python's `math` module are parameters.
pub mod Keys
pub mod Matrix
use ai_dlc_test.Common.{
  String, List, [], ◌∷◌, ◌++◌, map, Result, ok, err, ◌>>=◌, if◌then◌else◌, str_eq, str_le,
}
use ai_dlc_test.Common.Int.{ℤ, pos}
use ai_dlc_test.Common.Float.{Floats}
use ai_dlc_test.SharedKernel.Exceptions.{DomainError}
use ai_dlc_test.SharedKernel.Values.{Coordinates, TravelMetrics}
use ai_dlc_test.SharedKernel.CostModel.{TravelParameters, cost_for}
use ai_dlc_test.SharedKernel.Entities.{SchoolDistrict}

-- `canonical_key`
unfoldable pub canonical_key : String → String → String × String
canonical_key x y = if str_le x y then (x, y) else (y, x)

pub record DistanceCacheEntry (F : Type 0) : Type 0 where
  pub district_a : String
  pub district_b : String
  pub great_circle_km : F

-- What the calculator uses of `math`, with the square.
pub record Trigonometry (F : Type 0) : Type 0 where
  pub radians : F → F
  pub sin : F → F
  pub cos : F → F
  pub asin : F → F
  pub sqrt : F → F
  pub square : F → F

module _ (fl : Floats) (math : Trigonometry fl.Float) where
  open fl use {Float, decimal, lt, add, sub, mul, div, ceil}
  open math use {radians, sin, cos, asin, sqrt, square}

  abbrev whole_number : ℤ → Float
  whole_number n = decimal n (pos 0)

  -- `min(1.0, h)`
  abbrev clamped : Float → Float
  clamped h = if lt h (whole_number (pos 1)) then h else whole_number (pos 1)

  -- `EARTH_RADIUS_KM`
  unfoldable pub earth_radius_km : Float
  earth_radius_km = decimal (pos 63710088) (pos 4)

  unfoldable pub haversine_distance_km : Coordinates Float → Coordinates Float → Float
  unfolding earth_radius_km
  haversine_distance_km a b =
      let two = whole_number (pos 2) in
      let lat1 = radians a.latitude in
      let lat2 = radians b.latitude in
      let dlat = sub lat2 lat1 in
      let dlon = radians (sub b.longitude a.longitude) in
      let h =
        add (square (sin (div dlat two)))
          (mul (mul (cos lat1) (cos lat2)) (square (sin (div dlon two)))) in
      mul earth_radius_km (mul two (asin (sqrt (clamped h))))

  unfoldable pub actual_travel_distance_km : Float → Float → Float
  actual_travel_distance_km great_circle_km detour_factor = mul great_circle_km detour_factor

  -- At a finite quotient.
  unfoldable pub travel_time_seconds : Float → Float → ℤ
  travel_time_seconds distance_km average_speed_kmh =
      ceil (mul (div distance_km average_speed_kmh) (whole_number (pos 3600)))

  unfoldable pub travel_cost_yen : Float → TravelParameters Float → Result DomainError Float
  unfolding cost_for
  travel_cost_yen distance_km params = cost_for fl params.cost_model distance_km

  abbrev same_district : TravelParameters Float → TravelMetrics Float
  same_district params = record {
    distance_km = whole_number (pos 0);
    time_seconds = params.same_district_fixed_seconds;
    cost_yen = whole_number (pos 0);
  }

  abbrev travelled : Float → TravelParameters Float → Result DomainError (TravelMetrics Float)
  travelled distance params = do
    cost ← travel_cost_yen distance params
    ok (record {
      distance_km = distance;
      time_seconds = travel_time_seconds distance params.average_speed_kmh;
      cost_yen = cost;
    })

  unfoldable pub compute_travel_metrics :
      SchoolDistrict Float
      → SchoolDistrict Float
      → TravelParameters Float
      → Result DomainError (TravelMetrics Float)
  unfolding haversine_distance_km actual_travel_distance_km travel_time_seconds travel_cost_yen
  compute_travel_metrics from_district to_district params =
      if str_eq from_district.id to_district.id
      then ok (same_district params)
      else travelled
          (actual_travel_distance_km
            (haversine_distance_km from_district.representative_point
              to_district.representative_point)
            params.detour_factor)
          params

  -- The entry of a pair
  unfoldable pub cached : SchoolDistrict Float → SchoolDistrict Float → DistanceCacheEntry Float
  unfolding canonical_key haversine_distance_km
  cached first second =
      let (a, b) = canonical_key first.id second.id in
      record {
        district_a = a;
        district_b = b;
        great_circle_km =
            haversine_distance_km first.representative_point second.representative_point;
      }

  unfoldable pub compute_district_distance_matrix :
      List (SchoolDistrict Float) → List (DistanceCacheEntry Float)
  unfolding cached
  compute_district_distance_matrix [] = []
  compute_district_distance_matrix (first ∷ rest) =
      map (cached first) (first ∷ rest) ++ compute_district_distance_matrix rest
