-- ===== src/Optimization/CpSat.antt =====
-- src/optimization_engine/cp_sat_adapter.py: the program that is handed to CP-SAT, and the reading of
-- its reply. OR-Tools itself is a parameter: a function from programs to replies.
pub mod Gap
mod Program
use ai_dlc_test.Common.{
  ℕ, suc, ◌≤◌, ◌≡◌, Bool, true, false, ◌&&◌, String, some, none, Option, List, [], ◌∷◌, ◌++◌, map,
  select, any, str_eq, count_if, concat_map, dict_get, In, if◌then◌else◌,
}
use ai_dlc_test.Common.Int.{ℤ, pos, ◌+ℤ◌, ◌≤ℤ◌, ltb_ℤ}
use ai_dlc_test.Common.Float.{Floats}
use ai_dlc_test.SharedKernel.Enums.{SolverStatus, optimal, time_limit_reached, cancelled}
use ai_dlc_test.SharedKernel.Entities.{Assignment}
use ai_dlc_test.SharedKernel.Problem.{Pair, ConstraintViolation, c3, qualification_shortfall}
use ai_dlc_test.Optimization.Validation.{violation}
use ai_dlc_test.Optimization.Model.{MilpModel, C3Requirement, SolveOutcome, same_pair, pair_get}
unfoldable pub use Program.*

-- `pair in x`
unfoldable pub is_variable : List Pair → Pair → Bool
unfolding any same_pair
is_variable pairs pair = any (same_pair pair) pairs

module _ (fl : Floats) where
  open fl use {Float, decimal, lt, eq, sub, div, abs}

  -- `_optimality_gap`: `min(1.0, max(0.0, gap))` of the relative distance to the bound
  unfoldable pub optimality_gap : Float → Float → Float
  optimality_gap objective bound =
      let zero_ = decimal (pos 0) (pos 0) in
      let one = decimal (pos 1) (pos 0) in
      let gap = div (abs (sub objective bound)) (abs objective) in
      let above = if lt zero_ gap then gap else zero_ in
      if eq objective zero_ then zero_ else if lt above one then above else one

module _ (model : MilpModel) where
  -- Pinned assignments fixed to 1.
  unfoldable pub pin_constraints : List CpConstraint
  unfolding select is_variable
  pin_constraints = map fixed (select (is_variable model.pairs) model.pinned)

  unfoldable pub facility_terms : String → List Pair
  unfolding select
  facility_terms facility_id = select (λ (p : Pair). str_eq p.1 facility_id) model.pairs

  -- `model.capacity[facility_id]`, which has an entry for every facility of the model.
  abbrev entry_or_zero : Option (String × ℤ) → ℤ
  entry_or_zero none = pos 0
  entry_or_zero (some e) = e.1

  unfoldable pub capacity_of : String → ℤ
  unfolding dict_get
  capacity_of facility_id =
      entry_or_zero (dict_get (λ (e : String × ℤ). e.0) model.capacity facility_id)

  -- The headcounts.
  unfoldable pub headcount_constraints : List CpConstraint
  unfolding facility_terms capacity_of
  headcount_constraints =
      map (λ id. sum_equals (facility_terms id) (capacity_of id)) model.facility_ids

  unfoldable pub staff_terms : String → List Pair
  unfolding select
  staff_terms staff_id = select (λ (p : Pair). str_eq p.0 staff_id) model.pairs

  -- One facility each.
  unfoldable pub staff_constraints : List CpConstraint
  unfolding staff_terms
  staff_constraints = map (λ id. at_most_one (staff_terms id)) model.staff_ids

  -- `for staff_id in req.eligible_staff if (staff_id, req.facility_id) in x`
  unfoldable pub eligible_terms : C3Requirement → List Pair
  unfolding select is_variable
  eligible_terms r =
      select (is_variable model.pairs) (map (λ id. (id, r.facility_id)) r.eligible_staff)

  unfoldable pub qualification_constraint : ℕ → C3Requirement → List CpConstraint
  unfolding eligible_terms
  qualification_constraint index r =
      if model.demote_c3
      then slack_domain index r.required_count
        ∷ sum_with_slack (eligible_terms r) index r.required_count
        ∷ []
      else sum_at_least (eligible_terms r) r.required_count ∷ []

  -- The qualification rule, from `enumerate(model.c3_requirements)`
  unfoldable pub qualification_constraints : ℕ → List C3Requirement → List CpConstraint
  unfolding qualification_constraint
  qualification_constraints index [] = []
  qualification_constraints index (r ∷ rs) =
      qualification_constraint index r ++ qualification_constraints (suc index) rs

  unfoldable pub member_terms : List String → List Pair
  unfolding select any
  member_terms members = select (λ (p : Pair). any (λ id. str_eq p.0 id) members) model.pairs

  abbrev pub cap_unless_empty : List Pair → ℤ → List CpConstraint
  cap_unless_empty [] cap = []
  cap_unless_empty (p ∷ ps) cap = sum_at_most (p ∷ ps) cap ∷ []

  -- The department cap.
  unfoldable pub department_constraints : List CpConstraint
  unfolding member_terms concat_map
  department_constraints =
      concat_map
        (λ (d : String × List String). cap_unless_empty (member_terms d.1) model.department_cap)
        model.department_members

  -- The coefficient or the seconds of a pair; every pair has them.
  abbrev value_or_zero : Option ℤ → ℤ
  value_or_zero none = pos 0
  value_or_zero (some n) = n

  -- `model.tmax_coeff > 0 and model.max_travel_seconds > 0`
  unfoldable pub has_longest : Bool
  has_longest = ltb_ℤ (pos 0) model.tmax_coeff && ltb_ℤ (pos 0) model.max_travel_seconds

  unfoldable pub longest_constraints : List CpConstraint
  unfolding has_longest pair_get
  longest_constraints =
      if has_longest
      then longest_domain model.max_travel_seconds
        ∷ map (λ p. longest_at_least p (value_or_zero (pair_get model.travel_seconds p)))
            model.pairs
      else []

  -- A penalty for each slack variable, from index 0 on.
  unfoldable pub penalties : ℕ → List C3Requirement → List Term
  penalties index [] = []
  penalties index (r ∷ rs) = shortfall model.big_m index ∷ penalties (suc index) rs

  unfoldable pub objective_terms : List Term
  unfolding has_longest pair_get penalties
  objective_terms =
      map (λ p. assigned (value_or_zero (pair_get model.objective_coeff p)) p) model.pairs
      ++ ((if has_longest then longest model.tmax_coeff ∷ [] else [])
          ++ (if model.demote_c3 then penalties 0 model.c3_requirements else []))

  unfoldable pub program_of : CpProgram
  unfolding pin_constraints headcount_constraints staff_constraints qualification_constraints
      department_constraints longest_constraints objective_terms
  program_of = record {
    variables = model.pairs;
    constraints =
        pin_constraints
        ++ (headcount_constraints
            ++ (staff_constraints
                ++ (qualification_constraints 0 model.c3_requirements
                    ++ (department_constraints ++ longest_constraints))));
    objective = objective_terms;
  }

  abbrev pub assignment_for : Pair → Assignment
  assignment_for p = record {
    event_id = model.event_id;
    staff_id = p.0;
    facility_id = p.1;
    is_pinned = any (same_pair p) model.pinned;
  }

  -- The pairs whose variable is 1.
  unfoldable pub chosen : Values → List Assignment
  unfolding select any same_pair
  chosen v = map assignment_for (select v.x model.pairs)

  -- A violation for each slack above 0.
  unfoldable pub shortfalls : Values → ℕ → List C3Requirement → List ConstraintViolation
  shortfalls v index [] = []
  shortfalls v index (r ∷ rs) =
      let rest = shortfalls v (suc index) rs in
      if ltb_ℤ (pos 0) (v.slack index)
      then violation c3 qualification_shortfall (some r.facility_id) none ∷ rest
      else rest

  module _ (fl : Floats) where
    open fl use {Float, decimal}

    unfoldable pub outcome_of : Reply Float → SolveOutcome Float
    unfolding chosen shortfalls optimality_gap
    outcome_of no_solution = record {
      feasible = false;
      assignments = [];
      objective_value = decimal (pos 0) (pos 0);
      optimality_gap = decimal (pos 1) (pos 0);
      status = cancelled;
      c3_violations = [];
    }
    outcome_of (solution is_optimal v objective bound) = record {
      feasible = true;
      assignments = chosen v;
      objective_value = objective;
      optimality_gap =
          if is_optimal then decimal (pos 0) (pos 0) else optimality_gap fl objective bound;
      status = if is_optimal then optimal else time_limit_reached;
      c3_violations = if model.demote_c3 then shortfalls v 0 model.c3_requirements else [];
    }

-- CP-SAT, called with the time limit, the seed and the number of workers.
abbrev pub Solver : Type 0 → Type 0
Solver F = CpProgram → ℤ → ℤ → ℤ → Reply F

-- The documented guarantee: the values of a reported solution satisfy every constraint.
pub record IsSound {F : Type 0} (solver : Solver F) : Type 0 where
  pub holds :
      (program : CpProgram) (limit seed workers : ℤ) (is_optimal : Bool) (v : Values)
      (objective bound : F) (c : CpConstraint)
      → solver program limit seed workers ≡ solution is_optimal v objective bound
      → In c program.constraints
      → Holds v c

-- `CpSatAdapter.solve`
unfoldable pub solve :
    (fl : Floats) → Solver fl.Float → MilpModel → ℤ → ℤ → ℤ → SolveOutcome fl.Float
unfolding program_of outcome_of
solve fl solver model limit seed workers =
    outcome_of model fl (solver (program_of model) limit seed workers)
