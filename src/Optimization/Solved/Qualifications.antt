-- ===== src/Optimization/Solved/Qualifications.antt =====
-- The qualification rule: the people who meet a requirement, counted by the check and bounded by the program.
use ai_dlc_test.Common.{
  ℕ, suc, ◌≡◌, refl, ◌∙◌, ap, Bool, true, false, String, some, none, Option, List, [], ◌∷◌, map,
  select, select_sound, select_complete, In, In-append_right, any-true, Distinct, Distinct-select,
  Distinct-map, In-map, In-map_inv, In-concat_map, count_if, count_if-concat_map, count_if-subset,
  str_eq, str_eq→eq, str_eq_refl, if◌then◌else◌, counter_keys, counter_keys_sound,
  counter_keys-Distinct, arith, inl, inr, Bool-cases,
}
use ai_dlc_test.Common.Int.{pos, ◌≤ℤ◌, +ℤ_parts, ltb_ℤ→ge}
use ai_dlc_test.Common.Float.{Floats}
use ai_dlc_test.SharedKernel.Entities.{
  Staff, Facility, Assignment, Requirement, QualificationRequirement,
}
use ai_dlc_test.SharedKernel.Problem.{AssignmentProblem, ConstraintViolation, Pair}
use ai_dlc_test.Optimization.Validation.{
  available, is_eligible, here_if, assigned_to, matching_count,
}
use ai_dlc_test.Optimization.Validation.Valid.Constraints.{IsQualified}
use ai_dlc_test.Optimization.Model.{MilpModel, C3Requirement, same_pair}
use ai_dlc_test.Optimization.Builder.{c3_requirement, c3_requirements_of, model_of}
use ai_dlc_test.Optimization.CpSat.{
  Values, Holds, CpConstraint, sum_at_least, assignment_for, is_variable, eligible_terms,
  qualification_constraint, qualification_constraints, shortfalls, sum_with_slack,
}
use ai_dlc_test.Optimization.Solved.Counted.{HasKeys, model, solved, count-solved, available_self}

same_pair→eq : (p q : Pair) → same_pair p q ≡ true → p ≡ q
unfolding same_pair
same_pair→eq (a, b) (c, d) h = ground (arith, str_eq→eq a c, str_eq→eq b d)

variable-In : (pairs : List Pair) (p : Pair) → is_variable pairs p ≡ true → In p pairs
unfolding is_variable
variable-In pairs p h = let (q, m, e) = any-true (same_pair p) pairs h in rw (same_pair→eq p q e) m

abbrev qualifies : Requirement → Bool → Option Staff → Bool
qualifies r false o = false
qualifies r true none = false
qualifies r true (some s) = is_eligible s r

count-here_if :
    (r : Requirement) (b : Bool) (o : Option Staff)
    → count_if (λ s. is_eligible s r) (here_if b o) ≡ (if qualifies r b o then 1 else 0)
unfolding count_if
count-here_if r false o = refl
count-here_if r true none = refl
count-here_if r true (some s) = ground arith

module _ (fl : Floats) (problem : AssignmentProblem fl.Float) (demote_c3 : Bool) (v : Values)
    (keys : HasKeys problem) where
  abbrev m : MilpModel
  m = model fl problem demote_c3 true v

  abbrev as_solved : List Assignment
  as_solved = solved fl problem demote_c3 true v

  abbrev suits : String → Requirement → Assignment → Bool
  suits id r a = qualifies r (str_eq a.facility_id id) (available problem as_solved a.staff_id)

  matching-solved :
      (id : String) (r : Requirement)
      → matching_count problem as_solved id r
        ≡ count_if v.x (select (λ p. suits id r (assignment_for m p)) m.pairs)
  unfolding matching_count assigned_to
  matching-solved id r =
      count_if-concat_map (λ s. is_eligible s r)
        (λ (a : Assignment).
          here_if (str_eq a.facility_id id) (available problem as_solved a.staff_id))
        (suits id r)
        (λ a. count-here_if r (str_eq a.facility_id id) (available problem as_solved a.staff_id))
        as_solved
      ∙ count-solved fl problem demote_c3 true v (suits id r)

  module _ (f : Facility) (r : QualificationRequirement) where
    abbrev req : C3Requirement
    req = c3_requirement problem.available_staff f r

    abbrev eligible : List Staff
    eligible = select (λ s. is_eligible s r.requirement) problem.available_staff

    terms-Distinct : Distinct (eligible_terms m req)
    unfolding eligible_terms c3_requirement
    terms-Distinct = Distinct-select (is_variable m.pairs) _ (
        Distinct-map (λ (id : String). (id, f.id)) (λ x y e. ap (λ (p : Pair). p.0) e) _
          (counter_keys-Distinct (map (λ (s : Staff). s.id) eligible)))

    term-suits :
        (p : Pair)
        → In p (eligible_terms m req)
        → In p (select (λ q. suits f.id r.requirement (assignment_for m q)) m.pairs)
    unfolding eligible_terms c3_requirement
    term-suits p n =
        let (k, b) = select_sound (is_variable m.pairs) p _ n in
        let (id, l, e) =
          In-map_inv (λ (id : String). (id, f.id))
            (counter_keys (map (λ (s : Staff). s.id) eligible)) p k in
        let (s, o, q) = In-map_inv (λ (s : Staff). s.id) eligible id (counter_keys_sound _ id l) in
        let (member, good) =
          select_sound (λ s. is_eligible s r.requirement) s problem.available_staff o in
        let here : p ≡ (s.id, f.id) = e ∙ ap (λ (i : String). (i, f.id)) q in
        select_complete _ p m.pairs (variable-In m.pairs p b) (
          rw here
            (rw (str_eq_refl f.id, available_self fl problem demote_c3 true v keys s member) good))

    requirement-In :
        In f problem.facilities → In r f.qualification_requirements → In req m.c3_requirements
    unfolding model_of c3_requirements_of
    requirement-In n k =
        In-concat_map
          (λ (g : Facility).
            map (c3_requirement problem.available_staff g) g.qualification_requirements)
          problem.facilities f req n
          (In-map (c3_requirement problem.available_staff f) f.qualification_requirements r k)

  -- Each requirement is met by the variables of those who are eligible.
  abbrev pub MeetsTerms : Type 0
  MeetsTerms =
      (q : C3Requirement)
      → In q m.c3_requirements
      → q.required_count ≤ℤ pos (count_if v.x (eligible_terms m q))

  pub solved-IsQualified : MeetsTerms → IsQualified problem as_solved
  unfolding c3_requirement
  solved-IsQualified meets f r n k =
      let bound = meets (req f r) (requirement-In f r n k) in
      let more =
        count_if-subset v.x (eligible_terms m (req f r))
          (select (λ p. suits f.id r.requirement (assignment_for m p)) m.pairs) (terms-Distinct f r)
          (term-suits f r) in
      rw (matching-solved f.id r.requirement) (omega (arith, bound, more))

when_true :
    (b : Bool) (vs : List ConstraintViolation) → b ≡ true → (if b then vs else []) ≡ [] → vs ≡ []
when_true b vs t h = rw t at h

module _ (m : MilpModel) (v : Values) where
  -- Without demotion each requirement is a constraint.
  hard-terms :
      (i : ℕ) (rs : List C3Requirement)
      → m.demote_c3 ≡ false
      → ((c : CpConstraint) → In c (qualification_constraints m i rs) → Holds v c)
      → (q : C3Requirement) → In q rs
      → q.required_count ≤ℤ pos (count_if v.x (eligible_terms m q))
  unfolding qualification_constraints qualification_constraint
  hard-terms i [] hard holds q n = absurd n
  hard-terms i (t ∷ ts) hard holds q (inl e) =
      rw e (holds (sum_at_least (eligible_terms m t) t.required_count) (rw hard (inl refl)))
  hard-terms i (t ∷ ts) hard holds q (inr n) =
      hard-terms (suc i) ts hard
        (λ c k. holds c (In-append_right c (qualification_constraint m i t) _ k)) q n

  -- With demotion and no shortfall each slack is 0.
  soft-terms :
      (i : ℕ) (rs : List C3Requirement)
      → m.demote_c3 ≡ true
      → ((c : CpConstraint) → In c (qualification_constraints m i rs) → Holds v c)
      → shortfalls m v i rs ≡ []
      → (q : C3Requirement) → In q rs
      → q.required_count ≤ℤ pos (count_if v.x (eligible_terms m q))
  unfolding qualification_constraints qualification_constraint shortfalls
  soft-terms i [] soft holds none_short q n = absurd n
  soft-terms i (t ∷ ts) soft holds none_short q (inl e) = rw e (
      omega (
        arith,
        holds (sum_with_slack (eligible_terms m t) i t.required_count) (rw soft (inr (inl refl))),
        +ℤ_parts (pos (count_if v.x (eligible_terms m t))) (v.slack i),
        no_slack,
      ))
    where
      no_slack : v.slack i ≤ℤ pos 0
      no_slack = ltb_ℤ→ge (pos 0) (v.slack i) (ground arith)
  soft-terms i (t ∷ ts) soft holds none_short q (inr n) =
      soft-terms (suc i) ts soft
        (λ c k. holds c (In-append_right c (qualification_constraint m i t) _ k)) (ground arith) q n

  -- What a solution's reported violations say of the requirements: none reported, all met.
  pub reported-terms :
      ((c : CpConstraint) → In c (qualification_constraints m 0 m.c3_requirements) → Holds v c)
      → (if m.demote_c3 then shortfalls m v 0 m.c3_requirements else []) ≡ []
      → (q : C3Requirement) → In q m.c3_requirements
      → q.required_count ≤ℤ pos (count_if v.x (eligible_terms m q))
  reported-terms holds clean = elim (Bool-cases m.demote_c3) [
    | inl soft ↦
        soft-terms 0 m.c3_requirements soft holds
          (when_true m.demote_c3 (shortfalls m v 0 m.c3_requirements) soft clean)
    | inr hard ↦ hard-terms 0 m.c3_requirements hard holds
  ]
