-- ===== src/Optimization/Solved/Reported.antt =====
-- `OptimizationService.optimize` with the CP-SAT adapter: what its results are worth.
use ai_dlc_test.Common.{
  ℕ, ◌≡◌, refl, ap, ◌∙◌, subst, Bool, true, false, some, none, Option, [], Result, ok, err, ◌>>=◌,
  >>=-eq-ok, inl, inr, arith, if◌then◌else◌, ok-injective, Option-cases, Result-cases,
}
use ai_dlc_test.Common.Int.{ℤ}
use ai_dlc_test.SharedKernel.Exceptions.{DomainError}
use ai_dlc_test.Common.Float.{Floats}
use ai_dlc_test.SharedKernel.Problem.{AssignmentProblem, AssignmentResult, Pair}
use ai_dlc_test.Optimization.Validation.{check_assignments, validate_assignments}
use ai_dlc_test.Optimization.Model.{MilpModel, SolveOutcome}
use ai_dlc_test.Optimization.Scaling.{normalised_objective}
use ai_dlc_test.Optimization.Builder.{model_of, build_model, model_or_error}
use ai_dlc_test.Optimization.CpSat.{
  Solver, IsSound, Reply, solution, no_solution, solve, outcome_of, program_of, shortfalls,
}
use ai_dlc_test.Optimization.Service.{
  lifted, Outcome, result, OptimizeError, to_assignment_result, solve_stage, demoted_stage,
  relaxed_stage, optimize, validate_pins,
}
use ai_dlc_test.Optimization.Solved.Counted.{HasKeys}
use ai_dlc_test.Optimization.Solved.Feasible.{
  IsSolution, solution-check_assignments, solution-validate_assignments,
}

lifted-ok : {A : Type 0} (m : Result DomainError A) (a : A) → lifted m ≡ ok a → m ≡ ok a
lifted-ok (ok b) a h = ap ok (ok-injective h)
lifted-ok (err e) a h = cc

returned : (fl : Floats) (o : Option Pair) (m n : MilpModel) → model_or_error fl o m ≡ ok n → m ≡ n
returned fl none m n h = ok-injective h
returned fl (some key) m n h = cc

build_model-ok :
    (fl : Floats) (problem : AssignmentProblem fl.Float) (demote_c3 include_c3 : Bool)
    (m : MilpModel)
    → build_model fl problem demote_c3 include_c3 ≡ ok m
    → model_of fl problem demote_c3 include_c3 ≡ m
unfolding build_model
build_model-ok fl problem demote_c3 include_c3 m h =
    returned fl _ (model_of fl problem demote_c3 include_c3) m h

module _ (fl : Floats) (problem : AssignmentProblem fl.Float) where
  -- The headcounts, one facility each, availability and the department cap hold of the assignments,
  -- and the qualification rule too if no violation is reported.
  pub record IsFeasible (r : AssignmentResult fl.Float) : Type 0 where
    pub hard : check_assignments problem r.assignments true false ≡ []
    pub whole : r.violations ≡ [] → validate_assignments problem r.assignments ≡ []

  -- The same of an outcome of the solver.
  record IsGood (o : SolveOutcome fl.Float) : Type 0 where
    hard : check_assignments problem o.assignments true false ≡ []
    whole : o.c3_violations ≡ [] → validate_assignments problem o.assignments ≡ []

  mapped :
      (o : SolveOutcome fl.Float) (t : ℕ) (r : AssignmentResult fl.Float)
      → to_assignment_result fl problem o t ≡ ok r
      → (r.assignments ≡ o.assignments) × (r.violations ≡ o.c3_violations)
  unfolding to_assignment_result
  mapped o t r h = elim (Option-cases (normalised_objective fl problem o.assignments)) [
    | inl n ↦ ground arith
    | inr (x, s) ↦ ground arith
  ]

  IsGood-IsFeasible :
      (o : SolveOutcome fl.Float) (t : ℕ) (r : AssignmentResult fl.Float)
      → IsGood o
      → to_assignment_result fl problem o t ≡ ok r
      → IsFeasible r
  IsGood-IsFeasible o t r good h =
      let (a, v) = mapped o t r h in
      record { hard = rw a good.hard; whole = λ clean. rw a (good.whole (rw v at clean)) }

  module _ (solver : Solver fl.Float) (sound : IsSound solver) (keys : HasKeys problem) where
    reply-IsGood :
        (demote_c3 : Bool) (limit seed workers : ℤ) (reply : Reply fl.Float)
        → solver (program_of (model_of fl problem demote_c3 true)) limit seed workers ≡ reply
        → (outcome_of (model_of fl problem demote_c3 true) fl reply).feasible ≡ true
        → IsGood (outcome_of (model_of fl problem demote_c3 true) fl reply)
    unfolding outcome_of
    reply-IsGood demote_c3 limit seed workers no_solution e f = cc
    reply-IsGood demote_c3 limit seed workers (solution is_optimal v objective bound) e f =
        let s : IsSolution (model_of fl problem demote_c3 true) v =
          λ c n. sound.holds _ limit seed workers is_optimal v objective bound c e n in
        record {
          hard = solution-check_assignments fl problem demote_c3 true v keys s;
          whole =
              λ clean. solution-validate_assignments fl problem demote_c3 v keys s (demotion clean);
        }
      where
        demotion :
            (if (model_of fl problem demote_c3 true).demote_c3
                then shortfalls
                    (model_of fl problem demote_c3 true)
                    v
                    0
                    (model_of fl problem demote_c3 true).c3_requirements
                else [])
              ≡ []
            → (if demote_c3
                then shortfalls
                    (model_of fl problem demote_c3 true)
                    v
                    0
                    (model_of fl problem demote_c3 true).c3_requirements
                else [])
              ≡ []
        demotion c = unfold model_of in c

    abbrev limit : ℤ
    limit = problem.parameters.time_limit_seconds

    abbrev seed : ℤ
    seed = problem.parameters.random_seed

    abbrev stage : ℤ → Bool → Result OptimizeError (SolveOutcome fl.Float)
    stage workers demote_c3 = solve_stage fl (solve fl solver) workers problem demote_c3 true

    stage-IsGood :
        (workers : ℤ) (demote_c3 : Bool) (o : SolveOutcome fl.Float)
        → stage workers demote_c3 ≡ ok o
        → o.feasible ≡ true
        → IsGood o
    unfolding solve_stage solve
    stage-IsGood workers demote_c3 o h f =
        let (m, built, e) =
          >>=-eq-ok (lifted (build_model fl problem demote_c3 true))
            (λ m. ok (solve fl solver m limit seed workers)) h in
        let same = build_model-ok fl problem demote_c3 true m (lifted-ok _ m built) in
        let q = ap (λ n. solve fl solver n limit seed workers) same ∙ ok-injective e in
        rw (← q) (reply-IsGood demote_c3 limit seed workers _ refl (rw (← q) at f))

    abbrev OnResult : Result OptimizeError (Outcome fl.Float) → Type 0
    OnResult (ok (result r)) = IsFeasible r
    OnResult _ = Unit

    reported-OnResult :
        (o : SolveOutcome fl.Float) (t : ℕ)
        → IsGood o
        → OnResult (to_assignment_result fl problem o t >>= λ r. ok (result r))
    reported-OnResult o t good = elim (Result-cases (to_assignment_result fl problem o t)) [
      | inl (r, e) ↦ rw e (IsGood-IsFeasible o t r good e)
      | inr (x, e) ↦ rw e tt
    ]

    then_OnResult :
        {A : Type 0} (m : Result OptimizeError A) (k : A → Result OptimizeError (Outcome fl.Float))
        → ((a : A) → m ≡ ok a → OnResult (k a))
        → OnResult (m >>= k)
    then_OnResult (ok a) k h = h a refl
    then_OnResult (err e) k h = tt

    if_OnResult :
        (b : Bool) (x y : Result OptimizeError (Outcome fl.Float))
        → (b ≡ true → OnResult x)
        → OnResult y
        → OnResult (if b then x else y)
    if_OnResult true x y hx hy = hx refl
    if_OnResult false x y hx hy = hy

    demoted-OnResult :
        (workers : ℤ) (t : ℕ) → OnResult (demoted_stage fl (solve fl solver) workers problem t)
    unfolding demoted_stage
    demoted-OnResult workers t = then_OnResult (stage workers true) _ (λ o e.
        if_OnResult o.feasible _ _ (λ f. reported-OnResult o t (stage-IsGood workers true o e f))
          tt)

    relaxed-OnResult :
        (workers : ℤ) (t : ℕ) → OnResult (relaxed_stage fl (solve fl solver) workers problem t)
    unfolding relaxed_stage
    relaxed-OnResult workers t =
        then_OnResult (solve_stage fl (solve fl solver) workers problem false false) _
          (λ o e. if_OnResult o.feasible _ _ (λ f. demoted-OnResult workers t) tt)

    optimize-OnResult :
        (workers : ℤ) (t : ℕ) → OnResult (optimize fl (solve fl solver) workers problem t)
    unfolding optimize
    optimize-OnResult workers t = then_OnResult (validate_pins problem) _ (λ _ _.
        then_OnResult (stage workers false) _ (λ o e.
          if_OnResult o.feasible _ _ (λ f. reported-OnResult o t (stage-IsGood workers false o e f))
            (relaxed-OnResult workers t)))

    -- Where the solver keeps the constraints of the program that it is given, and the identifiers
    -- of the problem are keys, every result that optimize returns, whatever the stage, passes the
    -- check of headcounts, of one facility each, of availability and of the department cap, and the
    -- whole check if it reports no violation.
    pub optimize-IsFeasible :
        (workers : ℤ) (t : ℕ) (r : AssignmentResult fl.Float)
        → optimize fl (solve fl solver) workers problem t ≡ ok (result r)
        → IsFeasible r
    optimize-IsFeasible workers t r h = subst OnResult h (optimize-OnResult workers t)
