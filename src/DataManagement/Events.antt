-- ===== src/DataManagement/Events.antt =====
-- `EventService` of src/data_management/services.py, over the tables that it reads and writes. A row of
-- `events` is the event that the mappers make of it; of the tables that a deletion cascades to, the
-- declarations and the assignments are here.
pub mod Lawful
use ai_dlc_test.Common.{
  ℕ, Bool, true, false, not, ◌&&◌, String, List, [], ◌∷◌, ◌++◌, Option, some, none, Result, ok, err,
  ◌>>=◌, ◌>>◌, raise_if, any, select, find_first, length, str_eq, if◌then◌else◌, ltb,
}
use ai_dlc_test.SharedKernel.Enums.{
  EventStatus, draft, collecting_declarations, confirmed, same_status,
}
use ai_dlc_test.SharedKernel.Exceptions.{DomainError, invalid_state_transition}
use ai_dlc_test.SharedKernel.Entities.{Event, Facility, AvailabilityDeclaration, Assignment}
use ai_dlc_test.SharedKernel.Entities.Lifecycle.{transition_to}
use ai_dlc_test.Security.Store.{StoreError, integrity_error}

pub record Tables : Type 0 where
  pub facilities : List Facility
  pub events : List Event
  pub declarations : List AvailabilityDeclaration
  pub assignments : List Assignment

abbrev pub event_of : String → Event → Bool
event_of id e = str_eq e.id id

-- `repositories.get_event`
unfoldable pub get_event : Tables → String → Option Event
unfolding find_first
get_event t id = find_first (event_of id) t.events

-- `repositories.insert_event`, with the primary key of the table
unfoldable pub create_event : Event → Tables → Result StoreError Tables
unfolding any
create_event e t =
    if any (event_of e.id) t.events
    then err integrity_error
    else ok (record t { events = t.events ++ e ∷ [] })

-- `repositories.update_event_status`
unfoldable pub update_event_status : String → EventStatus → List Event → List Event
update_event_status id status [] = []
update_event_status id status (e ∷ es) =
    let rest = update_event_status id status es in
    if event_of id e then record e { status = status } ∷ rest else e ∷ rest

-- `repositories.delete_event`, and its cascade
unfoldable pub remove_event : String → Tables → Tables
unfolding select
remove_event id t = record {
  facilities = t.facilities;
  events = select (λ e. not (event_of id e)) t.events;
  declarations =
      select (λ (d : AvailabilityDeclaration). not (str_eq d.event_id id)) t.declarations;
  assignments = select (λ (a : Assignment). not (str_eq a.event_id id)) t.assignments;
}

abbrev pub refused : String → String → DomainError
refused rule id = record {
  class = invalid_state_transition;
  violated_rule = rule;
  staff_id = none;
  event_id = some id;
  facility_id = none;
}

-- No facility is registered, and declarations would be collected.
abbrev pub starts_empty : Tables → Event → EventStatus → Bool
starts_empty t e target =
    same_status e.status draft
    && (same_status target collecting_declarations && ltb (length t.facilities) 1)

abbrev pub moved : Tables → String → EventStatus → Event → Result DomainError (Tables × Event)
moved t id target e = do
  raise_if (starts_empty t e target) (refused "BR-DM09" id)
  updated ← transition_to e target
  ok (record t { events = update_event_status id updated.status t.events }, updated)

abbrev pub transition_of :
    Tables → String → EventStatus → Option Event → Result DomainError (Tables × Event)
transition_of t id target none = err (refused "BR-DM09" id)
transition_of t id target (some e) = moved t id target e

-- `EventService.transition`
unfoldable pub transition : Tables → String → EventStatus → Result DomainError (Tables × Event)
unfolding get_event update_event_status transition_to same_status
transition t id target = transition_of t id target (get_event t id)

abbrev pub deletion_of : Tables → String → Option Event → Result DomainError Tables
deletion_of t id none = ok t
deletion_of t id (some e) =
    if same_status e.status confirmed then err (refused "BR-DM10" id) else ok (remove_event id t)

-- `EventService.delete_event`
unfoldable pub delete_event : Tables → String → Result DomainError Tables
unfolding get_event remove_event same_status
delete_event t id = deletion_of t id (get_event t id)
