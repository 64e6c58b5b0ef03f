-- ===== src/SharedKernel/Enums/Members.antt =====
-- The enumerations of enums.py, the label of each member, and the table of event transitions.
use ai_dlc_test.Common.{Bool, true, false, String, List, [], ◌∷◌, any}

pub data JobType : Type 0 where
  clerical technical nursery_teacher public_health_nurse : JobType

pub data Position : Type 0 where
  manager general : Position

pub data Qualification : Type 0 where
  disaster_prevention_specialist emergency_lifesaving_technician : Qualification

pub data EventType : Type 0 where
  disaster_shelter_support election_administration other_event : EventType

pub data EventStatus : Type 0 where
  draft collecting_declarations optimized confirmed : EventStatus

pub data ReasonCategory : Type 0 where
  leave child_or_elder_care health_consideration other : ReasonCategory

pub data SolverStatus : Type 0 where
  optimal time_limit_reached cancelled : SolverStatus

-- `_JapaneseEnum`: the members in the order of their declaration, and the label of each.
pub record JapaneseEnum (A : Type 0) : Type 0 where
  pub members : List A
  pub japanese : A → String

abbrev job_type_label : JobType → String
job_type_label clerical = "事務職"
job_type_label technical = "技術職"
job_type_label nursery_teacher = "保育士"
job_type_label public_health_nurse = "保健師"

instance abbrev pub job_types : JapaneseEnum JobType
job_types = record {
  members = clerical ∷ technical ∷ nursery_teacher ∷ public_health_nurse ∷ [];
  japanese = job_type_label;
}

abbrev position_label : Position → String
position_label manager = "管理職"
position_label general = "一般職"

instance abbrev pub positions : JapaneseEnum Position
positions = record { members = manager ∷ general ∷ []; japanese = position_label }

abbrev qualification_label : Qualification → String
qualification_label disaster_prevention_specialist = "防災士"
qualification_label emergency_lifesaving_technician = "救急救命士"

instance abbrev pub qualifications : JapaneseEnum Qualification
qualifications = record {
  members = disaster_prevention_specialist ∷ emergency_lifesaving_technician ∷ [];
  japanese = qualification_label;
}

abbrev event_type_label : EventType → String
event_type_label disaster_shelter_support = "災害時避難所応援"
event_type_label election_administration = "選挙事務"
event_type_label other_event = "その他"

instance abbrev pub event_types : JapaneseEnum EventType
event_types = record {
  members = disaster_shelter_support ∷ election_administration ∷ other_event ∷ [];
  japanese = event_type_label;
}

abbrev event_status_label : EventStatus → String
event_status_label draft = "準備中"
event_status_label collecting_declarations = "申告受付中"
event_status_label optimized = "割当計算済"
event_status_label confirmed = "確定"

instance abbrev pub event_statuses : JapaneseEnum EventStatus
event_statuses = record {
  members = draft ∷ collecting_declarations ∷ optimized ∷ confirmed ∷ [];
  japanese = event_status_label;
}

abbrev reason_category_label : ReasonCategory → String
reason_category_label leave = "休暇"
reason_category_label child_or_elder_care = "育児・介護"
reason_category_label health_consideration = "健康上の配慮"
reason_category_label other = "その他"

instance abbrev pub reason_categories : JapaneseEnum ReasonCategory
reason_categories = record {
  members = leave ∷ child_or_elder_care ∷ health_consideration ∷ other ∷ [];
  japanese = reason_category_label;
}

-- `is` between two statuses.
unfoldable pub same_status : EventStatus → EventStatus → Bool
same_status draft draft = true
same_status collecting_declarations collecting_declarations = true
same_status optimized optimized = true
same_status confirmed confirmed = true
same_status _ _ = false

-- `ALLOWED_EVENT_TRANSITIONS`
unfoldable pub allowed_event_transitions : EventStatus → List EventStatus
allowed_event_transitions draft = collecting_declarations ∷ []
allowed_event_transitions collecting_declarations = optimized ∷ []
allowed_event_transitions optimized = collecting_declarations ∷ confirmed ∷ []
allowed_event_transitions confirmed = []

-- `DELETABLE_EVENT_STATUSES`
unfoldable pub deletable_event_statuses : List EventStatus
deletable_event_statuses = draft ∷ collecting_declarations ∷ optimized ∷ []

-- `status in statuses`
unfoldable pub status_in : EventStatus → List EventStatus → Bool
unfolding any same_status
status_in status statuses = any (same_status status) statuses
