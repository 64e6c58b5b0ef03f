-- ===== src/SharedKernel/Availability.antt =====
-- src/shared_kernel/availability.py: which declaration is in force.
pub mod InForce
use ai_dlc_test.Common.{
  ℕ, Bool, ◌&&◌, String, some, none, Option, List, [], ◌∷◌, select, Result, ok, err, str_eq,
  if◌then◌else◌, ltb, leb, ◌==◌, length,
}
use ai_dlc_test.SharedKernel.Exceptions.{DomainError, ambiguous_declaration}
use ai_dlc_test.SharedKernel.Entities.{AvailabilityDeclaration}

abbrev pub ambiguous : String → String → DomainError
ambiguous staff_id event_id = record {
  class = ambiguous_declaration;
  violated_rule = "effective_declaration_for";
  staff_id = some staff_id;
  event_id = some event_id;
  facility_id = none;
}

-- `d.staff_id == staff_id and d.event_id == event_id`
unfoldable pub matches : String → String → AvailabilityDeclaration → Bool
matches staff_id event_id d = str_eq d.staff_id staff_id && str_eq d.event_id event_id

-- `max(d.declared_at for d in ...)` of a non-empty list: its head and its tail.
unfoldable pub latest_at : AvailabilityDeclaration → List AvailabilityDeclaration → ℕ
latest_at d [] = d.declared_at
latest_at d (x ∷ xs) =
    let later = latest_at x xs in if ltb later d.declared_at then d.declared_at else later

-- `candidates[0]`, unless there is more than one. There is always one: the maximum is taken.
unfoldable pub sole :
    DomainError → List AvailabilityDeclaration → Result DomainError (Option AvailabilityDeclaration)
sole e [] = ok none
sole e (d ∷ []) = ok (some d)
sole e (d ∷ d' ∷ ds) = err e

unfoldable pub in_force :
    DomainError → List AvailabilityDeclaration → Result DomainError (Option AvailabilityDeclaration)
unfolding select latest_at sole
in_force e [] = ok none
in_force e (d ∷ ds) =
    let latest = latest_at d ds in sole e (select (λ x. x.declared_at == latest) (d ∷ ds))

unfoldable pub effective_declaration_for :
    String
    → String
    → List AvailabilityDeclaration
    → Result DomainError (Option AvailabilityDeclaration)
unfolding matches select in_force
effective_declaration_for staff_id event_id history =
    in_force (ambiguous staff_id event_id) (select (matches staff_id event_id) history)
