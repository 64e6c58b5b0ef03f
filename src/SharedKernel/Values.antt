-- ===== src/SharedKernel/Values.antt =====
-- src/shared_kernel/value_objects.py: coordinates, travel metrics, weights and parameters, with what
-- their construction checks. The cost model stands in a module of its own.
use ai_dlc_test.Common.{Bool, not, ◌&&◌, ◌||◌, Result, ◌>>◌, raise_if}
use ai_dlc_test.Common.Int.{ℤ, pos, negsuc, leb_ℤ}
use ai_dlc_test.Common.Float.{Floats}
use ai_dlc_test.SharedKernel.Exceptions.{
  DomainError, error, invalid_coordinates, negative_weight, all_weights_zero,
  invalid_travel_parameters,
}

pub record Coordinates (F : Type 0) : Type 0 where
  pub latitude : F
  pub longitude : F

pub record TravelMetrics (F : Type 0) : Type 0 where
  pub distance_km : F
  pub time_seconds : ℤ
  pub cost_yen : F

pub record ObjectiveWeights (F : Type 0) : Type 0 where
  pub travel_time : F
  pub travel_cost : F
  pub inequity : F

pub record OptimizationParameters (F : Type 0) : Type 0 where
  pub weights : ObjectiveWeights F
  pub time_limit_seconds : ℤ
  pub department_cap_limit : ℤ
  pub allow_c3_demotion : Bool
  pub random_seed : ℤ

-- `OptimizationParameters.__post_init__`
unfoldable pub parameters_post_init :
    {F : Type 0} → OptimizationParameters F → Result DomainError (Unit {0})
parameters_post_init p = do
  raise_if (leb_ℤ p.time_limit_seconds (pos 0)) (error invalid_travel_parameters "BR-04")
  raise_if (leb_ℤ p.department_cap_limit (pos 0)) (error invalid_travel_parameters "BR-04")

module _ (fl : Floats) where
  open fl use {Float, decimal, is_finite, lt, le, eq}

  abbrev integral : ℤ → Float
  integral n = decimal n (pos 0)

  -- `Coordinates.__post_init__`
  unfoldable pub coordinates_post_init : Coordinates Float → Result DomainError (Unit {0})
  coordinates_post_init c = do
    raise_if (not (is_finite c.latitude)) (error invalid_coordinates "BR-01")
    raise_if (not (is_finite c.longitude)) (error invalid_coordinates "BR-01")
    raise_if (not (le (integral (negsuc 89)) c.latitude && le c.latitude (integral (pos 90))))
        (error invalid_coordinates "BR-01")
    raise_if (not (le (integral (negsuc 179)) c.longitude && le c.longitude (integral (pos 180))))
        (error invalid_coordinates "BR-01")

  -- `ObjectiveWeights.__post_init__`
  unfoldable pub weights_post_init : ObjectiveWeights Float → Result DomainError (Unit {0})
  weights_post_init w = do
    raise_if
        (lt w.travel_time (integral (pos 0))
          || (lt w.travel_cost (integral (pos 0)) || lt w.inequity (integral (pos 0))))
        (error negative_weight "BR-02")
    raise_if
        (eq w.travel_time (integral (pos 0))
          && (eq w.travel_cost (integral (pos 0)) && eq w.inequity (integral (pos 0))))
        (error all_weights_zero "BR-02")
