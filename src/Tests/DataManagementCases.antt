-- ===== src/Tests/DataManagementCases.antt =====
-- The event service at concrete inputs.
use ai_dlc_test.Common.{◌≡◌, refl, ◌⊎◌, ◌≢◌, [], ◌∷◌, some, none, ok, err}
use ai_dlc_test.SharedKernel.Enums.{optimized, confirmed}
use ai_dlc_test.DataManagement.Events.{Tables, get_event, transition, delete_event, refused}
use ai_dlc_test.DataManagement.Events.Lawful.{IsMoved, transition-IsMoved, delete_event-get_event}
use ai_dlc_test.SharedKernel.Entities.{Event}
use ai_dlc_test.Tests.Samples.{school, shelter_support}

abbrev computed : Event
computed = record shelter_support { status = optimized }

abbrev collecting : Tables
collecting = record {
  facilities = school ∷ [];
  events = shelter_support ∷ [];
  declarations = [];
  assignments = [];
}

abbrev optimized_tables : Tables
optimized_tables = record collecting { events = computed ∷ [] }

marked : transition collecting "e1" optimized ≡ ok (optimized_tables, computed)
unfolding transition
marked = refl

transition-IsMoved_example : IsMoved collecting "e1" optimized optimized_tables computed
transition-IsMoved_example =
    transition-IsMoved collecting "e1" optimized optimized_tables computed marked

present : get_event collecting "e1" ≡ some shelter_support
unfolding get_event
present = refl

delete_event-get_event_example :
    ((shelter_support.status ≡ confirmed)
      × (delete_event collecting "e1" ≡ err (refused "BR-DM10" "e1")))
    ⊎ ((shelter_support.status ≢ confirmed)
        × (after : Tables) × (delete_event collecting "e1" ≡ ok after)
        × (get_event after "e1" ≡ none))
delete_event-get_event_example = delete_event-get_event collecting "e1" shelter_support present
