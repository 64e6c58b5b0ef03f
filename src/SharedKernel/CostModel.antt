-- ===== src/SharedKernel/CostModel.antt =====
-- src/shared_kernel/value_objects.py: the cost by bands of distance, the travel parameters, and what
-- their construction checks.
pub mod Total
use ai_dlc_test.Common.{
  ℕ, suc, Bool, true, false, not, ◌&&◌, ◌||◌, ◌==◌, List, [], ◌∷◌, Option, some, none, Result, ok,
  err, ◌>>◌, raise_if, if◌then◌else◌, length, count_if, str_eq,
}
use ai_dlc_test.Common.Int.{ℤ, pos, ltb_ℤ}
use ai_dlc_test.Common.Float.{Floats}
use ai_dlc_test.SharedKernel.Exceptions.{
  DomainError, error, invalid_cost_model, invalid_travel_parameters,
}

pub data CostRule : Type 0 where
  flat per_km : CostRule

pub record CostBand (F : Type 0) : Type 0 where
  pub upper_bound_km : Option F
  pub rule : CostRule
  pub amount_yen : F

pub record TravelParameters (F : Type 0) : Type 0 where
  pub detour_factor : F
  pub average_speed_kmh : F
  pub same_district_fixed_seconds : ℤ
  pub cost_model : List (CostBand F)

abbrev pub is_unbounded : {F : Type 0} → Option F → Bool
is_unbounded none = true
is_unbounded (some _) = false

-- `len(unbounded)`
unfoldable pub unbounded_count : {F : Type 0} → List (CostBand F) → ℕ
unbounded_count [] = 0
unbounded_count (b ∷ bs) =
    let rest = unbounded_count bs in if is_unbounded b.upper_bound_km then suc rest else rest

-- `unbounded[0] == len(bands) - 1`, of bands that have exactly one unbounded one.
unfoldable pub last_is_unbounded : {F : Type 0} → List (CostBand F) → Bool
last_is_unbounded [] = false
last_is_unbounded (b ∷ []) = is_unbounded b.upper_bound_km
last_is_unbounded (b ∷ c ∷ bs) = last_is_unbounded (c ∷ bs)

module _ (fl : Floats) where
  open fl use {Float, decimal, is_finite, lt, le, sub, mul}

  abbrev zero_ : Float
  zero_ = decimal (pos 0) (pos 0)

  abbrev check_bound : Option Float → Result DomainError (Unit {0})
  check_bound none = ok tt
  check_bound (some bound) =
      raise_if (not (is_finite bound)) (error invalid_cost_model "BR-D01")
      >> raise_if (le bound zero_) (error invalid_cost_model "BR-D01")

  -- `CostBand.__post_init__`
  unfoldable pub band_post_init : CostBand Float → Result DomainError (Unit {0})
  band_post_init b = do
    check_bound b.upper_bound_km
    raise_if (lt b.amount_yen zero_) (error invalid_cost_model "BR-D01")

  -- `CostBand.cost_at`
  unfoldable pub cost_at : CostBand Float → Float → Float
  cost_at b distance_km = elim b.rule [
    | flat ↦ b.amount_yen
    | per_km ↦ mul distance_km b.amount_yen
  ]

  abbrev decreases : Option Float → Option Float → Bool
  decreases (some lower) (some upper) = le upper lower
  decreases _ _ = false

  -- The pairs of neighbours in `self.bands[:-1]`: the last band is unbounded when this runs, and a
  -- pair with an unbounded band never decreases.
  unfoldable pub bounds_decrease : List (CostBand Float) → Bool
  bounds_decrease [] = false
  bounds_decrease (b ∷ []) = false
  bounds_decrease (b ∷ c ∷ bs) =
      decreases b.upper_bound_km c.upper_bound_km || bounds_decrease (c ∷ bs)

  abbrev drops_at : CostBand Float → CostBand Float → Option Float → Bool
  drops_at lower upper none = false
  drops_at lower upper (some boundary) =
      lt (decimal (pos 1) (pos 6)) (sub (cost_at lower boundary) (cost_at upper boundary))

  -- `_validate_monotonic`: the cost drops by more than the tolerance at a boundary.
  unfoldable pub cost_drops : List (CostBand Float) → Bool
  unfolding cost_at
  cost_drops [] = false
  cost_drops (b ∷ []) = false
  cost_drops (b ∷ c ∷ bs) = drops_at b c b.upper_bound_km || cost_drops (c ∷ bs)

  -- `CostModel.__post_init__`
  unfoldable pub cost_model_post_init : List (CostBand Float) → Result DomainError (Unit {0})
  unfolding unbounded_count last_is_unbounded bounds_decrease cost_drops
  cost_model_post_init bands = do
    raise_if (length bands == 0) (error invalid_cost_model "BR-D02")
    raise_if (not (unbounded_count bands == 1)) (error invalid_cost_model "BR-D02")
    raise_if (not (last_is_unbounded bands)) (error invalid_cost_model "BR-D02")
    raise_if (bounds_decrease bands) (error invalid_cost_model "BR-D02")
    raise_if (cost_drops bands) (error invalid_cost_model "BR-D04")

  abbrev covers : Option Float → Float → Bool
  covers none distance_km = true
  covers (some bound) distance_km = lt distance_km bound

  -- `CostModel.cost_for`
  unfoldable pub cost_for : List (CostBand Float) → Float → Result DomainError Float
  unfolding cost_at
  cost_for [] distance_km = err (error invalid_cost_model "BR-D02")
  cost_for (b ∷ bs) distance_km =
      let rest = cost_for bs distance_km in
      if covers b.upper_bound_km distance_km then ok (cost_at b distance_km) else rest

  -- `TravelParameters.__post_init__`
  unfoldable pub travel_parameters_post_init :
      TravelParameters Float → Result DomainError (Unit {0})
  travel_parameters_post_init p = do
    raise_if (lt p.detour_factor (decimal (pos 1) (pos 0)))
        (error invalid_travel_parameters "BR-D03")
    raise_if (le p.average_speed_kmh zero_) (error invalid_travel_parameters "BR-D03")
    raise_if (ltb_ℤ p.same_district_fixed_seconds (pos 0))
        (error invalid_travel_parameters "BR-D03")
