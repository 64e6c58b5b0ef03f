-- ===== src/DataManagement/Repositories/Effective.antt =====
-- The query for the effective declarations against `effective_declaration_for` of the domain.
mod Unique
mod Queried
pub use Unique.{History, IsUnique, matches_iff, unique_at, unique_same}
pub use Queried.{IsEffective, rivals, passes, passes_iff, row, answer}
use ai_dlc_test.Common.{
  ℕ, ◌≤◌, ◌==◌, ltb, ==_iff, ◌≡◌, refl, sym, ap, ◌∙◌, subst, ◌↔◌, Bool, true, ◌&&◌, String, List,
  [], ◌∷◌, map, Option, some, Result, ok, each, In, All, select, select_sound, select_complete,
  select-congr, select-map, count_if, Bool-cases, inl, inr, str_eq, str_eq→eq, str_eq_refl, arith,
  if◌then◌else◌,
}
use ai_dlc_test.SharedKernel.Exceptions.{DomainError}
use ai_dlc_test.SharedKernel.Entities.{AvailabilityDeclaration}
use ai_dlc_test.SharedKernel.Entities.DeclarationRules.{declaration_post_init}
use ai_dlc_test.SharedKernel.Availability.{matches, effective_declaration_for}
use ai_dlc_test.SharedKernel.Availability.InForce.{
  InForce, undeclared, declared, undecided, effective_declaration_for-InForce, matching,
}
use ai_dlc_test.DataManagement.Rows.{Row, column}
use ai_dlc_test.DataManagement.Mappers.{declaration_to_row, row_to_declaration}
use ai_dlc_test.DataManagement.Mappers.RoundTrips.{row_to_declaration-declaration_to_row}
use ai_dlc_test.DataManagement.Repositories.Store.{Tables, same_key, same_cell}
use ai_dlc_test.DataManagement.Repositories.Reads.{
  latest_instant, is_effective, effective_declarations,
}

module _ (event_id staff_id : String) (history : History) (u : IsUnique history) where
  force_of :
      (r : Result DomainError (Option AvailabilityDeclaration)) (d : AvailabilityDeclaration)
      → InForce staff_id event_id history r
      → In d history
      → d.staff_id ≡ staff_id
      → IsEffective event_id history d
      → r ≡ ok (some d)
  force_of r d (undeclared none_matching) m s (e, all) =
      cc (none_matching d m, (matches_iff staff_id event_id d).1 (s, e))
  force_of r d (declared c n y top once) m s (e, all) =
      let c_rival : In c (rivals d history) =
        select_complete (matches d.staff_id d.event_id) c history n (rw (s, e) y) in
      let d_matching : In d (matching staff_id event_id history) =
        select_complete (matches staff_id event_id) d history m
          ((matches_iff staff_id event_id d).1 (s, e)) in
      let same : c.declared_at ≡ d.declared_at = omega (arith, all c c_rival, top d d_matching) in
      ap (λ x. ok (some x)) (unique_same history u c d n m (rw (s, e) y) same)
  force_of r d (undecided t top many) m s (e, all) =
      absurd (omega (arith, many, unique_at staff_id event_id t history u))

  pub from_force :
      (r : Result DomainError (Option AvailabilityDeclaration)) (d : AvailabilityDeclaration)
      → InForce staff_id event_id history r
      → r ≡ ok (some d)
      → In d history × (d.staff_id ≡ staff_id) × IsEffective event_id history d
  from_force r d (undeclared none_matching) h = cc h
  from_force r d (undecided t top many) h = cc h
  from_force r d (declared c n y top once) h =
      let q : c ≡ d = cc in
      let (s, e) = (matches_iff staff_id event_id c).0 y in
      subst (λ x. In x history × (x.staff_id ≡ staff_id) × IsEffective event_id history x) q
        (n, s, (e, λ x m. top x (rw (s, e) at m)))

module _ {F : Type 0} where
  -- Where the table holds declarations that were constructed, none two of one staff member for one
  -- event at one instant, the query for an event answers, and a declaration stands in its answer
  -- exactly where the domain has it in force for its staff member and that event.
  pub effective_declarations_iff :
      (t : Tables F) (event_id : String) (history : History)
      → t.availability_declarations ≡ map (row F) history
      → All (λ d. declaration_post_init d ≡ ok tt) history
      → IsUnique history
      → (ds : History) × (effective_declarations t event_id ≡ ok ds)
        × ((d : AvailabilityDeclaration)
            → In d ds ↔ (effective_declaration_for d.staff_id event_id history ≡ ok (some d)))
  effective_declarations_iff t event_id history stored valid u = (
    select (passes event_id history) history,
    answer F history event_id t valid stored,
    λ d. (
      λ m.
          let (n, p) = select_sound (passes event_id history) d history m in
          force_of event_id d.staff_id history u _ d
            (effective_declaration_for-InForce d.staff_id event_id history) n refl
            ((passes_iff event_id history d n).0 p),
      λ h.
          let (n, _, e) =
            from_force event_id d.staff_id history u _ d
              (effective_declaration_for-InForce d.staff_id event_id history) h in
          select_complete (passes event_id history) d history n
            ((passes_iff event_id history d n).1 e),
    ),
  )
