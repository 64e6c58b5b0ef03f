-- ===== src/SharedKernel/Entities/Records.antt =====
-- The entities of entities.py as records. A date is its ordinal, and an aware datetime the
-- microseconds of its instant since 1970. A `frozenset` is the list of its members.
use ai_dlc_test.Common.{
  ℕ, ◌≡◌, refl, ◌↔◌, Bool, true, String, List, ◌++◌, map, Option, some, str_eq, str_eq→eq,
  str_eq_refl, find_first, Result, raise_if,
}
use ai_dlc_test.Common.Int.{ℤ}
use ai_dlc_test.SharedKernel.Enums.{
  JobType, job_types, Position, positions, Qualification, qualifications, EventType, EventStatus,
  ReasonCategory, clerical, technical, nursery_teacher, public_health_nurse, manager, general,
  disaster_prevention_specialist, emergency_lifesaving_technician,
}
use ai_dlc_test.SharedKernel.Exceptions.{DomainError, error, inconsistent_declaration}
use ai_dlc_test.SharedKernel.Values.{Coordinates}

-- `Qualification | Position | JobType`
pub data Requirement : Type 0 where
  qualification : Qualification → Requirement
  position : Position → Requirement
  job_type : JobType → Requirement

unfoldable pub requirement_label : Requirement → String
requirement_label (qualification q) = qualifications.japanese q
requirement_label (position p) = positions.japanese p
requirement_label (job_type j) = job_types.japanese j

-- The members are texts, so `==` and `in` compare their labels.
unfoldable pub same_requirement : Requirement → Requirement → Bool
unfolding requirement_label
same_requirement r s = str_eq (requirement_label r) (requirement_label s)

-- `candidates` of `_requirement_from_japanese`
abbrev candidates : List Requirement
candidates =
    map qualification qualifications.members
    ++ (map position positions.members ++ map job_type job_types.members)

-- `_requirement_from_japanese`: all three enumerations are searched; `none` is its ValueError.
unfoldable pub requirement_from_japanese : String → Option Requirement
unfolding requirement_label find_first
requirement_from_japanese label = find_first (λ m. str_eq (requirement_label m) label) candidates

-- Every requirement is found by its label, whichever of the three enumerations it belongs to.
pub requirement_from_japanese-requirement_label :
    (r : Requirement) → requirement_from_japanese (requirement_label r) ≡ some r
unfolding requirement_from_japanese
requirement_from_japanese-requirement_label (qualification disaster_prevention_specialist) = refl
requirement_from_japanese-requirement_label (qualification emergency_lifesaving_technician) = refl
requirement_from_japanese-requirement_label (position manager) = refl
requirement_from_japanese-requirement_label (position general) = refl
requirement_from_japanese-requirement_label (job_type clerical) = refl
requirement_from_japanese-requirement_label (job_type technical) = refl
requirement_from_japanese-requirement_label (job_type nursery_teacher) = refl
requirement_from_japanese-requirement_label (job_type public_health_nurse) = refl

requirement_label-injective :
    (r s : Requirement) → requirement_label r ≡ requirement_label s → r ≡ s
requirement_label-injective r s h =
    cc
      (requirement_from_japanese-requirement_label r, requirement_from_japanese-requirement_label s)

pub same_requirement_iff : (r s : Requirement) → (same_requirement r s ≡ true) ↔ (r ≡ s)
unfolding same_requirement
same_requirement_iff r s = (
  λ h. requirement_label-injective r s (str_eq→eq _ _ h),
  λ e. rw e (str_eq_refl (requirement_label s)),
)

pub record Department : Type 0 where
  pub id : String
  pub name : String
  pub concurrent_assignment_cap : Option ℤ

pub record SchoolDistrict (F : Type 0) : Type 0 where
  pub id : String
  pub name : String
  pub representative_point : Coordinates F

pub record Staff : Type 0 where
  pub id : String
  pub name : String
  pub department_id : String
  pub job_type : JobType
  pub position : Position
  pub residence_district_id : String
  pub qualifications : List Qualification

-- `Staff.__post_init__`
unfoldable pub staff_post_init : Staff → Result DomainError (Unit {0})
staff_post_init s = raise_if (str_eq s.name "") (error inconsistent_declaration "BR-06")

pub record QualificationRequirement : Type 0 where
  pub requirement : Requirement
  pub required_count : ℤ

pub record Facility : Type 0 where
  pub id : String
  pub name : String
  pub district_id : String
  pub required_headcount : ℤ
  pub qualification_requirements : List QualificationRequirement

pub record Event : Type 0 where
  pub id : String
  pub type : EventType
  pub name : String
  pub scheduled_date : ℕ
  pub status : EventStatus

pub record AvailabilityDeclaration : Type 0 where
  pub staff_id : String
  pub event_id : String
  pub is_available : Bool
  pub declared_at : ℕ
  pub reason_category : Option ReasonCategory
  pub other_reason_note : Option String

pub record Assignment : Type 0 where
  pub event_id : String
  pub staff_id : String
  pub facility_id : String
  pub is_pinned : Bool
