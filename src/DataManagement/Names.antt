-- ===== src/DataManagement/Names.antt =====
-- The identifiers of the members of src/shared_kernel/enums.py, by which the database keeps them, and
-- the lookup `Enum[name]`.
use ai_dlc_test.Common.{
  ◌≡◌, refl, String, Option, none, some, Result, ok, err, str_eq, find_first, ◌++◌, map, List,
}
use ai_dlc_test.SharedKernel.Enums.{
  JapaneseEnum, JobType, job_types, clerical, technical, nursery_teacher, public_health_nurse,
  Position, positions, manager, general, Qualification, qualifications,
  disaster_prevention_specialist, emergency_lifesaving_technician, EventType, event_types,
  disaster_shelter_support, election_administration, other_event, EventStatus, event_statuses,
  draft, collecting_declarations, optimized, confirmed, ReasonCategory, reason_categories, leave,
  child_or_elder_care, health_consideration, other,
}
use ai_dlc_test.SharedKernel.Entities.{Requirement, qualification, position, job_type}
use ai_dlc_test.DataManagement.Rows.{Raised, key_error, value_error}

-- `member.name`
pub record Named (A : Type 0) : Type 0 where
  pub name : A → String

abbrev job_type_name : JobType → String
job_type_name clerical = "CLERICAL"
job_type_name technical = "TECHNICAL"
job_type_name nursery_teacher = "NURSERY_TEACHER"
job_type_name public_health_nurse = "PUBLIC_HEALTH_NURSE"

abbrev position_name : Position → String
position_name manager = "MANAGER"
position_name general = "GENERAL"

abbrev qualification_name : Qualification → String
qualification_name disaster_prevention_specialist = "DISASTER_PREVENTION_SPECIALIST"
qualification_name emergency_lifesaving_technician = "EMERGENCY_LIFESAVING_TECHNICIAN"

abbrev event_type_name : EventType → String
event_type_name disaster_shelter_support = "DISASTER_SHELTER_SUPPORT"
event_type_name election_administration = "ELECTION_ADMINISTRATION"
event_type_name other_event = "OTHER"

abbrev event_status_name : EventStatus → String
event_status_name draft = "DRAFT"
event_status_name collecting_declarations = "COLLECTING_DECLARATIONS"
event_status_name optimized = "OPTIMIZED"
event_status_name confirmed = "CONFIRMED"

abbrev reason_category_name : ReasonCategory → String
reason_category_name leave = "LEAVE"
reason_category_name child_or_elder_care = "CHILD_OR_ELDER_CARE"
reason_category_name health_consideration = "HEALTH_CONSIDERATION"
reason_category_name other = "OTHER"

instance abbrev pub job_type_names : Named JobType
job_type_names = record { name = job_type_name }

instance abbrev pub position_names : Named Position
position_names = record { name = position_name }

instance abbrev pub qualification_names : Named Qualification
qualification_names = record { name = qualification_name }

instance abbrev pub event_type_names : Named EventType
event_type_names = record { name = event_type_name }

instance abbrev pub event_status_names : Named EventStatus
event_status_names = record { name = event_status_name }

instance abbrev pub reason_category_names : Named ReasonCategory
reason_category_names = record { name = reason_category_name }

abbrev or_raise : {A : Type 0} → Raised → Option A → Result Raised A
or_raise raised none = err raised
or_raise raised (some a) = ok a

unfoldable pub name : {A : Type 0} ⦃n : Named A⦄ → A → String
name ⦃n⦄ member = n.name member

module _ {A : Type 0} ⦃e : JapaneseEnum A⦄ ⦃n : Named A⦄ where
  -- `A[name]`
  unfoldable pub by_name : String → Result Raised A
  unfolding find_first
  by_name s = or_raise key_error (find_first (λ m. str_eq (n.name m) s) e.members)

unfoldable pub requirement_name : Requirement → String
requirement_name (qualification q) = qualification_name q
requirement_name (position p) = position_name p
requirement_name (job_type j) = job_type_name j

-- The members of the three enumerations, in the order in which the lookup tries them.
abbrev requirements : List Requirement
requirements =
    map qualification qualifications.members
    ++ (map position positions.members ++ map job_type job_types.members)

unfoldable pub requirement_from_name : String → Result Raised Requirement
unfolding requirement_name find_first
requirement_from_name s =
    or_raise value_error (find_first (λ m. str_eq (requirement_name m) s) requirements)

-- Every member is found under its identifier.
pub by_name-job_type : (j : JobType) → by_name (name j) ≡ ok j
unfolding by_name name
by_name-job_type clerical = refl
by_name-job_type technical = refl
by_name-job_type nursery_teacher = refl
by_name-job_type public_health_nurse = refl

pub by_name-position : (p : Position) → by_name (name p) ≡ ok p
unfolding by_name name
by_name-position manager = refl
by_name-position general = refl

pub by_name-qualification : (q : Qualification) → by_name (name q) ≡ ok q
unfolding by_name name
by_name-qualification disaster_prevention_specialist = refl
by_name-qualification emergency_lifesaving_technician = refl

pub by_name-event_type : (t : EventType) → by_name (name t) ≡ ok t
unfolding by_name name
by_name-event_type disaster_shelter_support = refl
by_name-event_type election_administration = refl
by_name-event_type other_event = refl

pub by_name-event_status : (s : EventStatus) → by_name (name s) ≡ ok s
unfolding by_name name
by_name-event_status draft = refl
by_name-event_status collecting_declarations = refl
by_name-event_status optimized = refl
by_name-event_status confirmed = refl

pub by_name-reason_category : (r : ReasonCategory) → by_name (name r) ≡ ok r
unfolding by_name name
by_name-reason_category leave = refl
by_name-reason_category child_or_elder_care = refl
by_name-reason_category health_consideration = refl
by_name-reason_category other = refl

pub requirement_from_name-requirement_name :
    (r : Requirement) → requirement_from_name (requirement_name r) ≡ ok r
unfolding requirement_from_name
requirement_from_name-requirement_name (qualification disaster_prevention_specialist) = refl
requirement_from_name-requirement_name (qualification emergency_lifesaving_technician) = refl
requirement_from_name-requirement_name (position manager) = refl
requirement_from_name-requirement_name (position general) = refl
requirement_from_name-requirement_name (job_type clerical) = refl
requirement_from_name-requirement_name (job_type technical) = refl
requirement_from_name-requirement_name (job_type nursery_teacher) = refl
requirement_from_name-requirement_name (job_type public_health_nurse) = refl
