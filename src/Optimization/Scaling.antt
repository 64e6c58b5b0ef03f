-- ===== src/Optimization/Scaling.antt =====
-- src/optimization_engine/scaling.py: normalisation, integer coefficients and the big-M penalty.
use ai_dlc_test.Common.{ℕ, some, none, Option, List, [], ◌∷◌, map, if◌then◌else◌}
use ai_dlc_test.Common.Int.{ℤ, pos, ◌+ℤ◌, ◌*ℤ◌, max_ℤ}
use ai_dlc_test.Common.Float.{Floats}
use ai_dlc_test.SharedKernel.Entities.{Facility, Assignment}
use ai_dlc_test.SharedKernel.Values.{TravelMetrics}
use ai_dlc_test.SharedKernel.Problem.{AssignmentProblem, Pair}
use ai_dlc_test.Optimization.Model.{pair_get}

-- `SCALE`
abbrev pub scale : ℤ
scale = pos 1000000

pub record Normalisation (F : Type 0) : Type 0 where
  pub n_time : F
  pub n_cost : F
  pub n_time_single : F
  pub max_travel_seconds : ℤ

-- `sum(f.required_headcount for f in facilities)`
unfoldable pub total_headcount : List Facility → ℤ
unfolding ◌+ℤ◌
total_headcount [] = pos 0
total_headcount (f ∷ fs) = f.required_headcount +ℤ total_headcount fs

-- `max(times, default=0)`
unfoldable pub max_time : List ℤ → ℤ
unfolding max_ℤ
max_time [] = pos 0
max_time (t ∷ []) = t
max_time (t ∷ u ∷ ts) = max_ℤ t (max_time (u ∷ ts))

module _ (fl : Floats) where
  open fl use {Float, decimal, lt, add, mul, div, of_int, round, ceil}

  -- Python's `max(a, b)`
  unfoldable pub max_float : Float → Float → Float
  max_float a b = if lt a b then b else a

  -- `max(costs, default=0.0)`: the running maximum is replaced by what is greater.
  unfoldable pub max_cost : Float → List Float → Float
  unfolding max_float
  max_cost best [] = best
  max_cost best (c ∷ cs) = max_cost (max_float best c) cs

  unfoldable pub max_cost_or_zero : List Float → Float
  unfolding max_cost
  max_cost_or_zero [] = decimal (pos 0) (pos 0)
  max_cost_or_zero (c ∷ cs) = max_cost c cs

  unfoldable pub compute_normalisation : AssignmentProblem Float → Normalisation Float
  unfolding max_time max_cost_or_zero total_headcount max_ℤ ◌*ℤ◌
  compute_normalisation problem =
      let metrics = map (λ (entry : Pair × TravelMetrics Float). entry.1) problem.travel_matrix in
      let max_t = max_time (map (λ (m : TravelMetrics Float). m.time_seconds) metrics) in
      let max_c = max_cost_or_zero (map (λ (m : TravelMetrics Float). m.cost_yen) metrics) in
      let total_required = max_ℤ (total_headcount problem.facilities) (pos 1) in
      record {
        n_time = of_int (total_required *ℤ max_ℤ max_t (pos 1));
        n_cost = mul (of_int total_required) (max_float max_c (decimal (pos 1) (pos 0)));
        n_time_single = of_int (max_ℤ max_t (pos 1));
        max_travel_seconds = max_t;
      }

  -- `pair_objective_coeff` of the pair's metrics
  unfoldable pub pair_objective_coeff :
      AssignmentProblem Float → Normalisation Float → TravelMetrics Float → ℤ
  pair_objective_coeff problem norm metrics =
      let weights = problem.parameters.weights in
      round (
        mul (of_int scale) (
          add (mul weights.travel_time (div (of_int metrics.time_seconds) norm.n_time))
            (mul weights.travel_cost (div metrics.cost_yen norm.n_cost))))

  unfoldable pub tmax_coeff : AssignmentProblem Float → Normalisation Float → ℤ
  tmax_coeff problem norm =
      round (div (mul (of_int scale) problem.parameters.weights.inequity) norm.n_time_single)

  unfoldable pub big_m : AssignmentProblem Float → ℕ → ℤ
  unfolding ◌+ℤ◌
  big_m problem pair_count =
      let weights = problem.parameters.weights in
      let weight_sum = add (add weights.travel_time weights.travel_cost) weights.inequity in
      ceil (mul (of_int scale) weight_sum) +ℤ pos pair_count +ℤ pos 2

  -- The sums of the loop of `normalised_objective`: seconds, yen and the longest time.
  pub record Totals : Type 0 where
    pub sum_t : ℤ
    pub sum_c : Float
    pub max_t : ℤ

  abbrev pub add_metrics : Totals → TravelMetrics Float → Totals
  add_metrics t m = record {
    sum_t = t.sum_t +ℤ m.time_seconds;
    sum_c = add t.sum_c m.cost_yen;
    max_t = max_ℤ t.max_t m.time_seconds;
  }

  -- `none` is the KeyError of a pair that the matrix lacks.
  unfoldable pub totals_of : AssignmentProblem Float → Totals → List Assignment → Option Totals
  unfolding pair_get max_ℤ ◌+ℤ◌
  totals_of problem t [] = some t
  totals_of problem t (a ∷ assignments) =
      elim (pair_get problem.travel_matrix (a.staff_id, a.facility_id)) [
        | none ↦ none
        | some m ↦ totals_of problem (add_metrics t m) assignments
      ]

  unfoldable pub normalised_objective : AssignmentProblem Float → List Assignment → Option Float
  unfolding compute_normalisation totals_of
  normalised_objective problem assignments =
      let norm = compute_normalisation problem in
      let weights = problem.parameters.weights in
      let start : Totals = record {
        sum_t = pos 0;
        sum_c = decimal (pos 0) (pos 0);
        max_t = pos 0;
      } in
      elim (totals_of problem start assignments) [
        | none ↦ none
        | some t ↦ some (
            add
              (add (mul weights.travel_time (div (of_int t.sum_t) norm.n_time))
                (mul weights.travel_cost (div t.sum_c norm.n_cost)))
              (mul weights.inequity (div (of_int t.max_t) norm.n_time_single)))
      ]
