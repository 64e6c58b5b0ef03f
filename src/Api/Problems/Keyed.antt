-- ===== src/Api/Problems/Keyed.antt =====
-- The identifiers of a problem that was built are keys, where those of the tables are.
mod Declared
mod Placed
use Declared.{effective-Distinct, available-Distinct}
use Placed.{read_facility, facilities-Distinct}
use ai_dlc_test.Common.{
  ◌≡◌, refl, sym, ap, ◌∙◌, subst, Bool, true, false, String, List, [], ◌∷◌, ◌++◌, map, Option, none,
  some, Result, ok, err, ◌>>=◌, >>=-eq-ok, ok-injective, each, select, select_sound,
  select_complete, if◌then◌else◌, In, All, In-map, In-map_inv, In-concat_map_inv, Distinct,
  Bool-cases, inl, inr, concat_map, dict_get, dict_get_sound, get_or, str_eq_refl, arith,
}
use ai_dlc_test.Common.Float.{Floats}
use ai_dlc_test.SharedKernel.Values.{OptimizationParameters}
use ai_dlc_test.SharedKernel.CostModel.{TravelParameters}
use ai_dlc_test.SharedKernel.Entities.{
  Assignment, AvailabilityDeclaration, Facility, Staff, QualificationRequirement,
}
use ai_dlc_test.SharedKernel.Entities.DeclarationRules.{declaration_post_init}
use ai_dlc_test.SharedKernel.Availability.{matches}
use ai_dlc_test.SharedKernel.Problem.{AssignmentProblem}
use ai_dlc_test.Distance.{Trigonometry}
use ai_dlc_test.Jobs.Queue.{ReoptimizationMode}
use ai_dlc_test.Optimization.Solved.Counted.{HasKeys}
use ai_dlc_test.DataManagement.Rows.{
  Row, Raised, Cell, null, text, integer, floating, boolean, day, naive_datetime, aware_datetime,
  column, as_str,
}
use ai_dlc_test.DataManagement.Mappers.{row_to_facility}
use ai_dlc_test.DataManagement.Repositories.{
  Tables, same_cell, same_key, get_event, find_all_facilities, find_all_staff,
  find_all_school_districts, effective_declarations, requirements_by_facility, str_at,
}
use ai_dlc_test.DataManagement.Mappers.Checked.{row_to_facility-id}
use ai_dlc_test.DataManagement.Repositories.Masters.{IsKeyed}
use ai_dlc_test.DataManagement.Repositories.Effective.{
  History, IsUnique, passes, passes_iff, answer, row, matches_iff,
}
use ai_dlc_test.Api.Problems.{
  read, found_event, member_of, available_member, available_of, pins_of, travel_matrix_of,
  build_problem,
}

read-ok : {A : Type 0} (r : Result _ A) (a : A) → read r ≡ ok a → r ≡ ok a
read-ok (ok b) a h = ap (λ x. ok x) (ok-injective h)
read-ok (err e) a h = cc h

gathered :
    {F : Type 0} (t : Tables F) (fs : List Facility)
    → find_all_facilities t ≡ ok fs
    → (dict : List (String × List QualificationRequirement)) × (each
          (read_facility (get_or [] dict))
          t.facilities
        ≡ ok fs)
unfolding find_all_facilities read_facility
gathered t fs h =
    let (dict, _, k) =
      >>=-eq-ok (requirements_by_facility [] t.facility_qualification_requirements) _ h in
    (dict, k)

module _ (fl : Floats) (math : Trigonometry fl.Float) (t : Tables fl.Float) (event_id : String)
    (parameters : OptimizationParameters fl.Float) (travel : TravelParameters fl.Float)
    (mode : ReoptimizationMode) (previous : List Assignment) (problem : AssignmentProblem fl.Float)
    (built : build_problem fl math t event_id parameters travel mode previous ≡ ok problem) where
  -- A problem has the facilities of the table, the available among those who declared, and the pins of
  -- its mode.
  parts :
      (reqs : String → List QualificationRequirement) × (staff : List Staff) × (ds : List
        AvailabilityDeclaration)
      × (each (read_facility reqs) t.facilities ≡ ok problem.facilities)
      × (effective_declarations t event_id ≡ ok ds)
      × (available_of staff ds ≡ problem.available_staff)
      × (problem.pinned_assignments ≡ pins_of mode previous)
  unfolding build_problem
  parts =
      let (stored, _, h1) = >>=-eq-ok (read (get_event t event_id)) _ built in
      let (event, _, h2) = >>=-eq-ok (found_event stored) _ h1 in
      let (facilities, e3, h3) = >>=-eq-ok (read (find_all_facilities t)) _ h2 in
      let (staff, _, h4) = >>=-eq-ok (read (find_all_staff t)) _ h3 in
      let (districts, _, h5) = >>=-eq-ok (read (find_all_school_districts fl t)) _ h4 in
      let (ds, e6, h6) = >>=-eq-ok (read (effective_declarations t event_id)) _ h5 in
      let (matrix, _, h7) =
        >>=-eq-ok (travel_matrix_of fl math districts travel (available_of staff ds) facilities [])
          _ h6 in
      let q = ok-injective h7 in
      let (dict, found) = gathered t facilities (read-ok (find_all_facilities t) facilities e3) in
      (
        get_or [] dict,
        staff,
        ds,
        found ∙ ap (λ (p : AssignmentProblem fl.Float). ok p.facilities) q,
        read-ok (effective_declarations t event_id) ds e6,
        ap (λ (p : AssignmentProblem fl.Float). p.available_staff) q,
        ap (λ (p : AssignmentProblem fl.Float). p.pinned_assignments) (sym q),
      )

  pub pins-built : problem.pinned_assignments ≡ pins_of mode previous
  pins-built = let (_, _, _, _, _, _, pins) = parts in pins

  -- A problem that is built from a table of facilities with its primary key, and from declarations that
  -- were constructed, none two of one staff member for one event at one instant, has keys.
  pub build_problem-HasKeys :
      (history : History)
      → IsKeyed ("id" ∷ []) t.facilities
      → t.availability_declarations ≡ map (row fl.Float) history
      → All (λ d. declaration_post_init d ≡ ok tt) history
      → IsUnique history
      → HasKeys problem
  build_problem-HasKeys history keyed stored valid u =
      let (reqs, staff, ds, facilities, effective, available, _) = parts in
      let answered = answer fl.Float history event_id t valid stored in
      let same : select (passes event_id history) history ≡ ds =
        ok-injective (sym answered ∙ effective) in
      let distinct =
        subst (λ l. Distinct (map (λ d. d.staff_id) l)) same
          (effective-Distinct event_id history history u (λ d m. m)) in
      record {
        staff =
            subst (λ l. Distinct (map (λ (s : Staff). s.id) l)) available
              (available-Distinct staff ds distinct);
        facilities = facilities-Distinct reqs t.facilities problem.facilities keyed facilities;
      }
