-- ===== src/SharedKernel/CostModel/Total.antt =====
-- A cost model that was constructed has a cost for every distance.
use ai_dlc_test.Common.{
  ◌≡◌, refl, true, false, List, [], ◌∷◌, ◌++◌, Option, some, none, ok, arith, Bool-cases, inl, inr,
  In,
}
use ai_dlc_test.Common.Float.{Floats}
use ai_dlc_test.SharedKernel.CostModel.{
  CostBand, is_unbounded, last_is_unbounded, cost_at, covers, cost_for, cost_model_post_init,
}

module _ (fl : Floats) where
  open fl use {Float}

  unbounded-covers : (o : Option Float) (d : Float) → is_unbounded o ≡ true → covers fl o d ≡ true
  unbounded-covers none d h = refl
  unbounded-covers (some b) d h = cc

  -- The band that is charged: it covers the distance, and no band before it does.
  pub record IsCharged (bands : List (CostBand Float)) (d : Float) : Type 0 where
    pub before : List (CostBand Float)
    pub band : CostBand Float
    pub after : List (CostBand Float)
    pub splits : bands ≡ before ++ band ∷ after
    pub passed : (b : CostBand Float) → In b before → covers fl b.upper_bound_km d ≡ false
    pub covered : covers fl band.upper_bound_km d ≡ true
    pub charged : cost_for fl bands d ≡ ok (cost_at fl band d)

  IsCharged-later :
      (b : CostBand Float) (bands : List (CostBand Float)) (d : Float)
      → covers fl b.upper_bound_km d ≡ false
      → IsCharged bands d
      → IsCharged (b ∷ bands) d
  unfolding cost_for
  IsCharged-later b bands d miss later = record {
    before = b ∷ later.before;
    band = later.band;
    after = later.after;
    splits = cc later.splits;
    passed = λ c m. elim m [ inl e ↦ rw e miss | inr n ↦ later.passed c n ];
    covered = later.covered;
    charged = rw miss later.charged;
  }

  IsCharged-now :
      (b : CostBand Float) (bands : List (CostBand Float)) (d : Float)
      → covers fl b.upper_bound_km d ≡ true
      → IsCharged (b ∷ bands) d
  unfolding cost_for
  IsCharged-now b bands d hit = record {
    before = [];
    band = b;
    after = bands;
    splits = refl;
    passed = λ c m. absurd m;
    covered = hit;
    charged = rw hit;
  }

  total :
      (bands : List (CostBand Float)) (d : Float)
      → last_is_unbounded bands ≡ true
      → IsCharged bands d
  unfolding last_is_unbounded
  total [] d h = cc
  total (b ∷ []) d h = IsCharged-now b [] d (unbounded-covers b.upper_bound_km d h)
  total (b ∷ c ∷ bs) d h = elim (Bool-cases (covers fl b.upper_bound_km d)) [
    | inl hit ↦ IsCharged-now b (c ∷ bs) d hit
    | inr miss ↦ IsCharged-later b (c ∷ bs) d miss (total (c ∷ bs) d h)
  ]

  last-post_init :
      (bands : List (CostBand Float))
      → cost_model_post_init fl bands ≡ ok tt
      → last_is_unbounded bands ≡ true
  unfolding cost_model_post_init
  last-post_init bands h = ground arith

  -- Of a cost model that was constructed, cost_for returns for every distance what the first band
  -- that covers the distance charges.
  pub cost_for-IsCharged :
      (bands : List (CostBand Float)) (distance_km : Float)
      → cost_model_post_init fl bands ≡ ok tt
      → IsCharged bands distance_km
  cost_for-IsCharged bands distance_km h = total bands distance_km (last-post_init bands h)
