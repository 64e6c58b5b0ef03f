-- ===== src/SharedKernel/Problem/ResultRules.antt =====
-- What a constructed `AssignmentResult` guarantees (BR-07).
use ai_dlc_test.Common.{
  ◌≡◌, ◌↔◌, true, false, not, String, none, Option, [], map, ok, find_first, find_first-none_iff,
  first_repeat, first_repeat-none_iff, Distinct, In, str_eq, arith, eq_iff,
}
use ai_dlc_test.Common.Int.{pos}
use ai_dlc_test.Common.Float.{Floats}
use ai_dlc_test.SharedKernel.Problem.{
  AssignmentResult, ConstraintViolation, ConstraintId, c3, demotable, result_post_init,
}

module _ (fl : Floats) where
  open fl use {Float, decimal, is_finite, lt, le}

  -- BR-07: a finite objective that is not negative, a gap in [0, 1], no violation but of the qualification rule, and
  -- nobody assigned twice.
  pub record IsReportable (r : AssignmentResult Float) : Type 0 where
    pub finite : is_finite r.objective_value ≡ true
    pub nonnegative : lt r.objective_value (decimal (pos 0) (pos 0)) ≡ false
    pub gap_above : le (decimal (pos 0) (pos 0)) r.optimality_gap ≡ true
    pub gap_below : le r.optimality_gap (decimal (pos 1) (pos 0)) ≡ true
    pub only_c3 : (v : ConstraintViolation) → In v r.violations → v.constraint_id ≡ c3
    pub one_place : Distinct (map (λ a. a.staff_id) r.assignments)

  demotable-c3 : (c : ConstraintId) → not (demotable c) ≡ false → c ≡ c3
  unfolding demotable
  demotable-c3 c h = ground arith

  c3-demotable : (c : ConstraintId) → c ≡ c3 → not (demotable c) ≡ false
  unfolding demotable
  c3-demotable c h = ground arith

  module _ (r : AssignmentResult Float) where
    abbrev hard : Option ConstraintViolation
    hard = find_first (λ v. not (demotable v.constraint_id)) r.violations

    abbrev twice : Option String
    twice = first_repeat str_eq [] (map (λ a. a.staff_id) r.assignments)

    parts :
        result_post_init fl r ≡ ok tt
        → (is_finite r.objective_value ≡ true)
          × (lt r.objective_value (decimal (pos 0) (pos 0)) ≡ false)
          × (le (decimal (pos 0) (pos 0)) r.optimality_gap ≡ true)
          × (le r.optimality_gap (decimal (pos 1) (pos 0)) ≡ true)
          × (hard ≡ none)
          × (twice ≡ none)
    unfolding result_post_init
    parts h = ground arith

    accepts :
        is_finite r.objective_value ≡ true
        → lt r.objective_value (decimal (pos 0) (pos 0)) ≡ false
        → le (decimal (pos 0) (pos 0)) r.optimality_gap ≡ true
        → le r.optimality_gap (decimal (pos 1) (pos 0)) ≡ true
        → hard ≡ none
        → twice ≡ none
        → result_post_init fl r ≡ ok tt
    unfolding result_post_init
    accepts a b c d e g = ground arith

    -- A result is constructed exactly when its objective is finite and not negative, its gap lies
    -- in [0, 1], it reports violations of the qualification rule only and assigns nobody twice.
    pub result_post_init_iff : (result_post_init fl r ≡ ok tt) ↔ IsReportable r
    result_post_init_iff = (
      λ h.
          let (a, b, c, d, e, g) = parts h in
          record {
            finite = a;
            nonnegative = b;
            gap_above = c;
            gap_below = d;
            only_c3 =
                λ v m. demotable-c3 v.constraint_id ((find_first-none_iff _ r.violations).0 e v m);
            one_place = (first_repeat-none_iff str_eq eq_iff _).0 g;
          },
      λ s.
          accepts s.finite s.nonnegative s.gap_above s.gap_below
            ((find_first-none_iff _ r.violations).1
              (λ v m. c3-demotable v.constraint_id (s.only_c3 v m)))
            ((first_repeat-none_iff str_eq eq_iff _).1 s.one_place),
    )
