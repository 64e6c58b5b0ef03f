-- ===== src/Optimization/Solved/Departments.antt =====
-- The department cap: the members of a department, counted by the check and bounded by the program.
use ai_dlc_test.Common.{
  ◌≡◌, refl, sym, ◌∙◌, ap, Bool, true, false, String, some, none, Option, List, [], ◌∷◌, map,
  select, select_sound, select_complete, In, any, any-true, any-intro, Bool-eq, Distinct-unique,
  In-map, In-map_inv, In-concat_map, count_if, count_if-concat_map, select-congr, inl, str_eq,
  str_eq→eq, str_eq_refl, if◌then◌else◌, counter_keys, counter_keys_complete, arith,
}
use ai_dlc_test.Common.Int.{ℤ}
use ai_dlc_test.Common.Float.{Floats}
use ai_dlc_test.SharedKernel.Entities.{Staff, Facility, Assignment}
use ai_dlc_test.SharedKernel.Problem.{AssignmentProblem, Pair}
use ai_dlc_test.Optimization.Validation.{
  available, departments_of, assigned_departments, per_department,
}
use ai_dlc_test.Optimization.Validation.Valid.Constraints.{IsCapped}
use ai_dlc_test.Optimization.Model.{MilpModel}
use ai_dlc_test.Optimization.Builder.{members_of, department_members_of, model_of}
use ai_dlc_test.Optimization.CpSat.{
  Values, Holds, CpConstraint, sum_at_most, assignment_for, member_terms, department_constraints,
  cap_unless_empty,
}
use ai_dlc_test.Optimization.Solved.Counted.{
  HasKeys, model, solved, solved-origin, available-In, pair-origin, pairs-model, count-solved,
  available_self,
}

abbrev works_in : String → Option Staff → Bool
works_in d none = false
works_in d (some s) = str_eq s.department_id d

count-departments_of :
    (d : String) (o : Option Staff)
    → count_if (λ e. str_eq e d) (departments_of o) ≡ (if works_in d o then 1 else 0)
unfolding count_if
count-departments_of d none = refl
count-departments_of d (some s) = ground arith

module _ (fl : Floats) (problem : AssignmentProblem fl.Float) (demote_c3 include_c3 : Bool)
    (v : Values) (keys : HasKeys problem) where
  abbrev m : MilpModel
  m = model fl problem demote_c3 include_c3 v

  abbrev as_solved : List Assignment
  as_solved = solved fl problem demote_c3 include_c3 v

  abbrev employer : String → Assignment → Bool
  employer d a = works_in d (available problem as_solved a.staff_id)

  -- The pair's staff member works in the department exactly when the program lists them there.
  employer-members :
      (d : String) (p : Pair)
      → In p m.pairs
      → employer d (assignment_for m p)
        ≡ any (λ id. str_eq p.0 id) (members_of problem.available_staff d)
  unfolding members_of
  employer-members d p n = Bool-eq _ _ to from
    where
      origin :
          (s : Staff) × (f : Facility) × In s problem.available_staff
          × In f problem.facilities
          × (p ≡ (s.id, f.id))
      origin =
          pair-origin problem.available_staff problem.facilities p
            (rw (pairs-model fl problem demote_c3 include_c3 v) at n)

      found : available problem as_solved p.0 ≡ some origin.0
      found = rw origin.4 (available_self fl problem demote_c3 include_c3 v keys origin.0 origin.2)

      to :
          employer d (assignment_for m p) ≡ true
          → any (λ id. str_eq p.0 id) (members_of problem.available_staff d) ≡ true
      to h =
          let here : str_eq origin.0.department_id d ≡ true = rw found at h in
          any-intro (λ id. str_eq p.0 id) (members_of problem.available_staff d) origin.0.id
            (In-map (λ (s : Staff). s.id) _ origin.0
              (select_complete (λ (s : Staff). str_eq s.department_id d) origin.0
                problem.available_staff origin.2 here))
            (rw origin.4 (str_eq_refl origin.0.id))

      from :
          any (λ id. str_eq p.0 id) (members_of problem.available_staff d) ≡ true
          → employer d (assignment_for m p) ≡ true
      from h =
          let (id, k, e) =
            any-true (λ id. str_eq p.0 id) (members_of problem.available_staff d) h in
          let (t, l, q) =
            In-map_inv (λ (s : Staff). s.id)
              (select (λ (s : Staff). str_eq s.department_id d) problem.available_staff) id k in
          let (o, here) =
            select_sound (λ (s : Staff). str_eq s.department_id d) t problem.available_staff l in
          let same : t ≡ origin.0 =
            Distinct-unique (λ (s : Staff). s.id) problem.available_staff keys.staff t origin.0 o
              origin.2 (sym q ∙ sym (str_eq→eq p.0 id e) ∙ ap (λ (r : Pair). r.0) origin.4) in
          rw found (rw same at here)

  per_department-solved :
      (d : String)
      → per_department problem as_solved d
        ≡ count_if v.x (member_terms m (members_of problem.available_staff d))
  unfolding per_department assigned_departments member_terms
  per_department-solved d =
      count_if-concat_map (λ e. str_eq e d)
        (λ (a : Assignment). departments_of (available problem as_solved a.staff_id)) (employer d)
        (λ a. count-departments_of d (available problem as_solved a.staff_id)) as_solved
      ∙ count-solved fl problem demote_c3 include_c3 v (employer d)
      ∙ ap (count_if v.x) (select-congr _ _ m.pairs (employer-members d))

  capped_terms :
      (terms : List Pair) (cap : ℤ) (p : Pair)
      → In p terms
      → In (sum_at_most terms cap) (cap_unless_empty m terms cap)
  capped_terms [] cap p n = absurd n
  capped_terms (q ∷ qs) cap p n = inl refl

  -- The members of a department, in the dictionary of the model.
  listed :
      (d : String)
      → In d (map (λ (s : Staff). s.department_id) problem.available_staff)
      → In (d, members_of problem.available_staff d) m.department_members
  unfolding model_of department_members_of
  listed d n =
      let keys_ = map (λ (s : Staff). s.department_id) problem.available_staff in
      In-map (λ (e : String). (e, members_of problem.available_staff e)) (counter_keys keys_) d
        (counter_keys_complete keys_ d n)

  abbrev terms_of : String → List Pair
  terms_of d = member_terms m (members_of problem.available_staff d)

  capped :
      (d : String) (p : Pair)
      → In d (map (λ (s : Staff). s.department_id) problem.available_staff)
      → In p (terms_of d)
      → In
          (sum_at_most (terms_of d) problem.parameters.department_cap_limit)
          (department_constraints m)
  unfolding department_constraints model_of
  capped d p n k =
      let cap = problem.parameters.department_cap_limit in
      In-concat_map
        (λ (e : String × List String). cap_unless_empty m (member_terms m e.1) m.department_cap)
        m.department_members (d, members_of problem.available_staff d)
        (sum_at_most (terms_of d) cap) (listed d n) (capped_terms (terms_of d) cap p k)

  -- An assigned pair is among the terms of the department that its staff member works in.
  term_of :
      (p : Pair) (s : Staff)
      → In p m.pairs
      → available problem as_solved p.0 ≡ some s
      → In p (terms_of s.department_id)
  unfolding member_terms
  term_of p s n e =
      select_complete _ p m.pairs n
        (sym (employer-members s.department_id p n) ∙ rw e (str_eq_refl s.department_id))

  pub solved-IsCapped :
      ((c : CpConstraint) → In c (department_constraints m) → Holds v c)
      → IsCapped problem as_solved
  solved-IsCapped holds a s n e =
      let (p, k, x, q, r) = solved-origin fl problem demote_c3 include_c3 v a n in
      let (member, id) = available-In fl problem demote_c3 include_c3 v keys a.staff_id s e in
      let term = term_of p s k (rw (← q) e) in
      let dept = In-map (λ (t : Staff). t.department_id) problem.available_staff s member in
      rw (per_department-solved s.department_id) (
        holds (sum_at_most (terms_of s.department_id) problem.parameters.department_cap_limit)
          (capped s.department_id p dept term))
