-- ===== src/SharedKernel/Enums/Labels.antt =====
-- `to_japanese` and `from_japanese`: the two directions of the conversion table.
use ai_dlc_test.Common.{
  String, ◌≡◌, refl, ◌↔◌, ◌⊎◌, Option, none, some, arith, Result, ok, err, str_eq, str_eq→eq, inl,
  inr, find_first, find_first-true, Option-cases,
}
use ai_dlc_test.SharedKernel.Exceptions.{DomainError, error, unknown_enum_value}
use ai_dlc_test.SharedKernel.Enums.Members.{
  JapaneseEnum, JobType, clerical, technical, nursery_teacher, public_health_nurse, job_types,
  Position, manager, general, positions, Qualification, disaster_prevention_specialist,
  emergency_lifesaving_technician, qualifications, ReasonCategory, leave, child_or_elder_care,
  health_consideration, other, reason_categories, EventStatus, EventType, event_types,
  event_statuses, disaster_shelter_support, election_administration, other_event, draft,
  collecting_declarations, optimized, confirmed,
}

module _ {A : Type 0} ⦃e : JapaneseEnum A⦄ where
  unfoldable pub to_japanese : A → String
  to_japanese member = e.japanese member

  unfoldable pub member_for : String → Option A
  member_for label = find_first (λ m. str_eq (e.japanese m) label) e.members

  unfoldable pub or_unknown : Option A → Result DomainError A
  or_unknown none = err (error unknown_enum_value "LC-03")
  or_unknown (some member) = ok member

  unfoldable pub from_japanese : String → Result DomainError A
  unfolding member_for or_unknown
  from_japanese label = or_unknown (member_for label)

  from_japanese_sound :
      (label : String) (a : A) → from_japanese label ≡ ok a → to_japanese a ≡ label
  unfolding from_japanese to_japanese
  from_japanese_sound label a h =
      str_eq→eq _ _ (find_first-true (λ m. str_eq (e.japanese m) label) e.members a (ground arith))

-- The iteration finds every member by its label.
abbrev IsLabelled : (A : Type 0) ⦃e : JapaneseEnum A⦄ → Type 0
IsLabelled A ⦃e⦄ = (a : A) → from_japanese (to_japanese a) ≡ ok a

-- `from_japanese` answers a member exactly for its label, and otherwise raises.
abbrev pub IsRead : (A : Type 0) ⦃e : JapaneseEnum A⦄ → Type 0
IsRead A ⦃e⦄ =
    (label : String)
    → ((a : A) → (from_japanese label ≡ ok a) ↔ (to_japanese a ≡ label))
      × (((a : A) × (from_japanese label ≡ ok a))
          ⊎ (from_japanese {A = A} label ≡ err (error unknown_enum_value "LC-03")))

module _ {A : Type 0} ⦃e : JapaneseEnum A⦄ where
  answered :
      (label : String)
      → ((a : A) × (from_japanese label ≡ ok a))
        ⊎ (from_japanese {A = A} label ≡ err (error unknown_enum_value "LC-03"))
  unfolding from_japanese
  answered label = elim (Option-cases (member_for ⦃e = e⦄ label)) [
    | inl n ↦ inr (rw n)
    | inr (a, s) ↦ inl (a, rw s refl)
  ]

  IsLabelled-IsRead : IsLabelled A → IsRead A
  IsLabelled-IsRead all label =
      (λ a. (from_japanese_sound label a, λ q. rw (← q) (all a)), answered label)

JobType-IsLabelled : IsLabelled JobType
unfolding from_japanese to_japanese find_first
JobType-IsLabelled clerical = refl
JobType-IsLabelled technical = refl
JobType-IsLabelled nursery_teacher = refl
JobType-IsLabelled public_health_nurse = refl

Position-IsLabelled : IsLabelled Position
unfolding from_japanese to_japanese find_first
Position-IsLabelled manager = refl
Position-IsLabelled general = refl

Qualification-IsLabelled : IsLabelled Qualification
unfolding from_japanese to_japanese find_first
Qualification-IsLabelled disaster_prevention_specialist = refl
Qualification-IsLabelled emergency_lifesaving_technician = refl

EventType-IsLabelled : IsLabelled EventType
unfolding from_japanese to_japanese find_first
EventType-IsLabelled disaster_shelter_support = refl
EventType-IsLabelled election_administration = refl
EventType-IsLabelled other_event = refl

EventStatus-IsLabelled : IsLabelled EventStatus
unfolding from_japanese to_japanese find_first
EventStatus-IsLabelled draft = refl
EventStatus-IsLabelled collecting_declarations = refl
EventStatus-IsLabelled optimized = refl
EventStatus-IsLabelled confirmed = refl

ReasonCategory-IsLabelled : IsLabelled ReasonCategory
unfolding from_japanese to_japanese find_first
ReasonCategory-IsLabelled leave = refl
ReasonCategory-IsLabelled child_or_elder_care = refl
ReasonCategory-IsLabelled health_consideration = refl
ReasonCategory-IsLabelled other = refl

-- For each of the six enumerations of the conversion table, from_japanese answers a member exactly
-- for the label of that member, and for a text that it answers with no member it raises the error
-- of an unknown value.
pub from_japanese-IsRead :
    IsRead JobType
    × IsRead Position
    × IsRead Qualification
    × IsRead EventType
    × IsRead EventStatus
    × IsRead ReasonCategory
from_japanese-IsRead = (
  IsLabelled-IsRead JobType-IsLabelled,
  IsLabelled-IsRead Position-IsLabelled,
  IsLabelled-IsRead Qualification-IsLabelled,
  IsLabelled-IsRead EventType-IsLabelled,
  IsLabelled-IsRead EventStatus-IsLabelled,
  IsLabelled-IsRead ReasonCategory-IsLabelled,
)
