-- ===== src/Optimization/Solved/Counted.antt =====
-- The counters of the check, read off the variables of the program.
use ai_dlc_test.Common.{
  ◌≡◌, refl, sym, ◌∙◌, ap, Bool, true, String, some, List, map, select, select_sound, In, Distinct,
  Distinct-unique, In-map, In-map_inv, In-concat_map_inv, count_if, count_if-select, count_if-map,
  str_eq, dict_get_sound, dict_get-some,
}
use ai_dlc_test.Common.Int.{ℤ}
use ai_dlc_test.Common.Float.{Floats}
use ai_dlc_test.SharedKernel.Entities.{Staff, Facility, Assignment}
use ai_dlc_test.SharedKernel.Problem.{AssignmentProblem, Pair}
use ai_dlc_test.Optimization.Validation.{available, per_facility, per_staff}
use ai_dlc_test.Optimization.Model.{MilpModel}
use ai_dlc_test.Optimization.Builder.{model_of, pairs_of}
use ai_dlc_test.Optimization.CpSat.{
  Values, chosen, assignment_for, facility_terms, staff_terms, capacity_of,
}

-- Identifiers are primary keys.
pub record HasKeys {F : Type 0} (problem : AssignmentProblem F) : Type 0 where
  pub staff : Distinct (map (λ (s : Staff). s.id) problem.available_staff)
  pub facilities : Distinct (map (λ (f : Facility). f.id) problem.facilities)

pub pair-origin :
    (staff : List Staff) (facilities : List Facility) (p : Pair)
    → In p (pairs_of staff facilities)
    → (s : Staff) × (f : Facility) × In s staff × In f facilities × (p ≡ (s.id, f.id))
unfolding pairs_of
pair-origin staff facilities p m =
    let (s, n, k) =
      In-concat_map_inv (λ (s : Staff). map (λ (f : Facility). (s.id, f.id)) facilities) staff p
        m in
    let (f, l, e) = In-map_inv (λ (f : Facility). (s.id, f.id)) facilities p k in (s, f, n, l, e)

module _ (fl : Floats) (problem : AssignmentProblem fl.Float) (demote_c3 include_c3 : Bool)
    (v : Values) where
  abbrev pub model : MilpModel
  model = model_of fl problem demote_c3 include_c3

  abbrev pub solved : List Assignment
  solved = chosen model v

  pub pairs-model : model.pairs ≡ pairs_of problem.available_staff problem.facilities
  unfolding model_of
  pairs-model = refl

  -- An assignment of the solution is a pair of the program whose variable is 1.
  pub solved-origin :
      (a : Assignment)
      → In a solved
      → (p : Pair) × In p model.pairs × (v.x p ≡ true) × (a.staff_id ≡ p.0) × (a.facility_id ≡ p.1)
  unfolding chosen
  solved-origin a m =
      let (p, n, e) = In-map_inv (assignment_for model) (select v.x model.pairs) a m in
      let (k, x) = select_sound v.x p model.pairs n in
      (p, k, x, ap (λ (b : Assignment). b.staff_id) e, ap (λ (b : Assignment). b.facility_id) e)

  -- Counting the assignments of a solution is counting its variables.
  pub count-solved :
      (t : Assignment → Bool)
      → count_if t solved ≡ count_if v.x (select (λ p. t (assignment_for model p)) model.pairs)
  unfolding chosen
  count-solved t =
      count_if-map t (assignment_for model) (select v.x model.pairs)
      ∙ count_if-select (λ p. t (assignment_for model p)) v.x model.pairs

  pub per_facility-solved :
      (id : String) → per_facility problem solved id ≡ count_if v.x (facility_terms model id)
  unfolding per_facility facility_terms
  per_facility-solved id = count-solved (λ a. str_eq a.facility_id id)

  pub per_staff-solved :
      (id : String) → per_staff problem solved id ≡ count_if v.x (staff_terms model id)
  unfolding per_staff staff_terms
  per_staff-solved id = count-solved (λ a. str_eq a.staff_id id)

  module _ (keys : HasKeys problem) where
    -- The capacity of a facility is its headcount.
    pub capacity-headcount :
        (f : Facility) → In f problem.facilities → capacity_of model f.id ≡ f.required_headcount
    unfolding capacity_of model_of
    capacity-headcount f m =
        let entry : Facility → String × ℤ = λ g. (g.id, g.required_headcount) in
        let entries = map entry problem.facilities in
        let key = λ (e : String × ℤ). e.0 in
        let (e, found) =
          dict_get-some key entries (entry f) (In-map entry problem.facilities f m) in
        let (n, q) = dict_get_sound key entries f.id e found in
        let (g, k, r) = In-map_inv entry problem.facilities e n in
        let same : g ≡ f =
          Distinct-unique (λ (h : Facility). h.id) problem.facilities keys.facilities g f k m
            (ap key (sym r) ∙ q) in
        rw found (ap (λ (d : String × ℤ). d.1) r ∙ ap (λ (h : Facility). h.required_headcount) same)

    -- Everyone who is available is found under their identifier.
    pub available_self :
        (s : Staff) → In s problem.available_staff → available problem solved s.id ≡ some s
    unfolding available
    available_self s m =
        let key = λ (t : Staff). t.id in
        let (t, found) = dict_get-some key problem.available_staff s m in
        let (n, q) = dict_get_sound key problem.available_staff s.id t found in
        found ∙ ap some (Distinct-unique key problem.available_staff keys.staff t s n m q)

    pub available-In :
        (id : String) (s : Staff)
        → available problem solved id ≡ some s
        → In s problem.available_staff × (s.id ≡ id)
    unfolding available
    available-In id s e = dict_get_sound (λ (t : Staff). t.id) problem.available_staff id s e
