-- ===== src/Tests/Solver.antt =====
-- A solver that offers one set of values, and only where it satisfies the program.
use ai_dlc_test.Common.{
  ◌≡◌, Bool, true, false, not, ◌&&◌, ◌||◌, ◌==◌, leb, List, [], ◌∷◌, count_if, In, arith, inl, inr,
  if◌then◌else◌, subst,
}
use ai_dlc_test.Common.Int.{ℤ, pos, leb_ℤ, ◌+ℤ◌}
use ai_dlc_test.Optimization.Model.{same_pair}
use ai_dlc_test.Optimization.CpSat.{
  Values, CpConstraint, fixed, sum_equals, at_most_one, slack_domain, sum_with_slack, sum_at_least,
  sum_at_most, longest_at_least, longest_domain, Holds, Solver, IsSound, solution, no_solution,
}

equal : ℤ → ℤ → Bool
equal a b = leb_ℤ a b && leb_ℤ b a

unfoldable pub met : Values → CpConstraint → Bool
unfolding count_if ◌+ℤ◌
met v (fixed pair) = v.x pair
met v (sum_equals pairs (pos n)) = count_if v.x pairs == n
met v (sum_equals pairs n) = false
met v (at_most_one pairs) = leb (count_if v.x pairs) 1
met v (slack_domain i n) = leb_ℤ (pos 0) (v.slack i) && leb_ℤ (v.slack i) n
met v (sum_with_slack pairs i n) = leb_ℤ n (pos (count_if v.x pairs) +ℤ v.slack i)
met v (sum_at_least pairs n) = leb_ℤ n (pos (count_if v.x pairs))
met v (sum_at_most pairs n) = leb_ℤ (pos (count_if v.x pairs)) n
met v (longest_domain n) = leb_ℤ (pos 0) v.t_max && leb_ℤ v.t_max n
met v (longest_at_least pair n) = not (v.x pair) || leb_ℤ n v.t_max

met-Holds : (v : Values) (c : CpConstraint) → met v c ≡ true → Holds v c
unfolding met
met-Holds v (fixed pair) h = h
met-Holds v (sum_equals pairs (pos n)) h = ground arith
met-Holds v (sum_equals pairs n) h = cc
met-Holds v (at_most_one pairs) h = ground arith
met-Holds v (slack_domain i n) h = ground arith
met-Holds v (sum_with_slack pairs i n) h = ground arith
met-Holds v (sum_at_least pairs n) h = ground arith
met-Holds v (sum_at_most pairs n) h = ground arith
met-Holds v (longest_domain n) h = ground arith
met-Holds v (longest_at_least pair n) h = λ x. ground arith

unfoldable pub all_met : Values → List CpConstraint → Bool
unfolding met
all_met v [] = true
all_met v (c ∷ cs) = met v c && all_met v cs

all_met-Holds :
    (v : Values) (cs : List CpConstraint) (c : CpConstraint)
    → all_met v cs ≡ true
    → In c cs
    → Holds v c
unfolding all_met
all_met-Holds v [] c h m = absurd m
all_met-Holds v (d ∷ ds) c h (inl e) = rw e (met-Holds v d (ground arith))
all_met-Holds v (d ∷ ds) c h (inr m) = all_met-Holds v ds c (ground arith) m

-- The first pair of the sample is chosen.
abbrev pub offered : Values
offered = record { x = same_pair ("s1", "f1"); slack = λ _. pos 0; t_max = pos 60 }

unfoldable pub only_offered : Solver ℤ
unfolding all_met
only_offered program limit seed workers =
    if all_met offered program.constraints
    then solution true offered (pos 0) (pos 0)
    else no_solution

offers :
    (cs : List CpConstraint) (is_optimal : Bool) (v : Values) (objective bound : ℤ)
    → (if all_met offered cs then solution true offered (pos 0) (pos 0) else no_solution)
      ≡ solution is_optimal v objective bound
    → (all_met offered cs ≡ true) × (offered ≡ v)
offers cs is_optimal v objective bound h = ground arith

pub only_offered-IsSound : IsSound only_offered
unfolding only_offered all_met
only_offered-IsSound = record {
  holds = λ program limit seed workers is_optimal v objective bound c e m.
      let (all, q) = offers program.constraints is_optimal v objective bound e in
      subst (λ (w : Values). Holds w c) q (all_met-Holds offered program.constraints c all m);
}
