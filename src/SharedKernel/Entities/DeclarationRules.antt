-- ===== src/SharedKernel/Entities/DeclarationRules.antt =====
-- `AvailabilityDeclaration.__post_init__` (BR-05).
use ai_dlc_test.Common.{
  ◌≡◌, refl, ◌≢◌, ◌↔◌, Bool, true, false, not, ◌&&◌, String, some, none, Option, arith, Result, ok,
  ◌>>◌, raise_if, str_eq, eq_iff,
}
use ai_dlc_test.SharedKernel.Enums.{ReasonCategory, leave, other}
use ai_dlc_test.SharedKernel.Exceptions.{DomainError, inconsistent_declaration}
use ai_dlc_test.SharedKernel.Entities.Records.{AvailabilityDeclaration}

abbrev inconsistent : AvailabilityDeclaration → DomainError
inconsistent d = record {
  class = inconsistent_declaration;
  violated_rule = "BR-05";
  staff_id = some d.staff_id;
  event_id = some d.event_id;
  facility_id = none;
}

abbrev is_some : {A : Type 0} → Option A → Bool
is_some none = false
is_some (some _) = true

-- `self.reason_category is ReasonCategory.OTHER`
abbrev is_other : Option ReasonCategory → Bool
is_other none = false
is_other (some other) = true
is_other (some _) = false

-- `bool(self.other_reason_note)`
abbrev has_text : Option String → Bool
has_text none = false
has_text (some note) = not (str_eq note "")

check_answer :
    DomainError → Bool → Option ReasonCategory → Option String → Result DomainError (Unit {0})
check_answer e is_available reason note = do
  raise_if (is_available && is_some reason) e
  raise_if (not is_available && not (is_some reason)) e
  raise_if (is_other reason && not (has_text note)) e
  raise_if (not (is_other reason) && is_some note) e

unfoldable pub declaration_post_init : AvailabilityDeclaration → Result DomainError (Unit {0})
unfolding check_answer
declaration_post_init d =
    check_answer (inconsistent d) d.is_available d.reason_category d.other_reason_note

-- BR-05 by cases of the answer: what a declaration may carry.
pub data IsConsistent : Bool → Option ReasonCategory → Option String → Type 0 where
  available : IsConsistent true none none
  unavailable : (r : ReasonCategory) → r ≢ other → IsConsistent false (some r) none
  explained : (note : String) → note ≢ "" → IsConsistent false (some other) (some note)

module _ (e : DomainError) where
  accepted :
      (a : Bool) (r : Option ReasonCategory) (n : Option String)
      → check_answer e a r n ≡ ok tt
      → IsConsistent a r n
  unfolding check_answer
  accepted true none none h = available
  accepted true none (some n) h = cc
  accepted true (some r) n h = cc
  accepted false none n h = cc
  accepted false (some other) none h = cc
  accepted false (some other) (some n) h = explained n (λ q. ground (arith, eq_iff n ""))
  accepted false (some leave) none h = unavailable leave (λ q. cc)
  accepted false (some leave) (some n) h = cc
  accepted false (some r) none h = unavailable r (λ q. cc)
  accepted false (some r) (some n) h = cc

  accepts :
      {a : Bool} {r : Option ReasonCategory} {n : Option String}
      → IsConsistent a r n
      → check_answer e a r n ≡ ok tt
  unfolding check_answer
  accepts available = refl
  accepts (unavailable other q) = absurd (q refl)
  accepts (unavailable _ q) = refl
  accepts (explained note q) = ground (arith, eq_iff note "")

-- A declaration is constructed exactly when its reason and note agree with its answer: none with
-- yes, a reason with no, a note that is not empty with the reason other and no note with any other.
pub declaration_post_init_iff :
    (d : AvailabilityDeclaration)
    → (declaration_post_init d ≡ ok tt)
      ↔ IsConsistent d.is_available d.reason_category d.other_reason_note
unfolding declaration_post_init
declaration_post_init_iff d = (
  accepted (inconsistent d) d.is_available d.reason_category d.other_reason_note,
  accepts (inconsistent d),
)
