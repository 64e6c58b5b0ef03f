-- ===== src/DataManagement/Events/Lawful.antt =====
-- What the service does to the events that are stored.
use ai_dlc_test.Common.{
  ◌≡◌, refl, ◌≢◌, ◌⊎◌, sym, ap, ◌∙◌, true, false, not, String, List, [], ◌∷◌, some, none, ok, err,
  >>=-eq-ok, ok-injective, arith, Bool-cases, Option-cases, inl, inr, find_first, select, str_eq→eq,
  ne→str_eq,
}
use ai_dlc_test.SharedKernel.Enums.{EventStatus, confirmed, same_status}
use ai_dlc_test.SharedKernel.Entities.{Event}
use ai_dlc_test.SharedKernel.Entities.Lifecycle.{transition_to, transition_to_iff, Step}
use ai_dlc_test.DataManagement.Events.{
  Tables, event_of, get_event, update_event_status, remove_event, transition, moved, starts_empty,
  delete_event, refused,
}

stored :
    (id : String) (status : EventStatus) (es : List Event) (e : Event)
    → find_first (event_of id) es ≡ some e
    → find_first (event_of id) (update_event_status id status es)
      ≡ some (record e { status = status })
unfolding find_first update_event_status
stored id status [] e h = cc
stored id status (x ∷ es) e h = elim (Bool-cases (event_of id x)) [
  | inl hit ↦ rw (hit, hit) (ground arith)
  | inr miss ↦ rw (miss, miss) (stored id status es e (rw miss at h))
]

others :
    (id other : String) (status : EventStatus) (es : List Event)
    → id ≢ other
    → find_first (event_of other) (update_event_status id status es)
      ≡ find_first (event_of other) es
unfolding find_first update_event_status
others id other status [] n = refl
others id other status (x ∷ es) n = elim (Bool-cases (event_of id x)) [
  | inl hit ↦
      let same = str_eq→eq x.id id hit in
      rw (hit, same, ne→str_eq id other n) (others id other status es n)
  | inr miss ↦ rw (miss, others id other status es n)
]

-- What a transition that succeeded says of the event before and of the tables after.
pub record IsMoved (t : Tables) (id : String) (target : EventStatus) (after : Tables)
    (updated : Event) : Type 0 where
  pub before : Event
  pub was_stored : get_event t id ≡ some before
  pub step : Step before.status target
  pub staffed : starts_empty t before target ≡ false
  pub answer : updated ≡ record before { status = target }
  pub is_stored : get_event after id ≡ some updated
  pub others_kept : (other : String) → id ≢ other → get_event after other ≡ get_event t other

moved-IsMoved :
    (t : Tables) (id : String) (target : EventStatus) (e : Event) (after : Tables) (updated : Event)
    → get_event t id ≡ some e
    → moved t id target e ≡ ok (after, updated)
    → IsMoved t id target after updated
unfolding get_event
moved-IsMoved t id target e after updated g h = elim (Bool-cases (starts_empty t e target)) [
  | inl empty ↦ absurd (ground arith)
  | inr ready ↦
      let (u, taken, q) = >>=-eq-ok (transition_to e target) _ (rw ready at h) in
      let pair = ok-injective q in
      let step = (transition_to_iff e target).1 u taken in
      let new : u ≡ record e { status = target } =
        ok-injective (sym taken ∙ (transition_to_iff e target).0 step) in
      let answer : updated ≡ record e { status = target } =
        sym (ap (λ (p : Tables × Event). p.1) pair) ∙ new in
      let rows : after.events ≡ update_event_status id target t.events =
        sym (ap (λ (p : Tables × Event). p.0.events) pair)
        ∙ ap (λ (x : Event). update_event_status id x.status t.events) new in
      record {
        before = e;
        was_stored = g;
        step = step;
        staffed = ready;
        answer = answer;
        is_stored = rw (rows, answer) (stored id target t.events e g);
        others_kept = λ other n. rw rows (others id other target t.events n);
      }
]

-- A transition of a stored event that succeeds is a step of the lifecycle, does not start an event
-- with no facility registered, stores the event with the new status and leaves every other event as
-- it was.
pub transition-IsMoved :
    (t : Tables) (id : String) (target : EventStatus) (after : Tables) (updated : Event)
    → transition t id target ≡ ok (after, updated)
    → IsMoved t id target after updated
unfolding transition
transition-IsMoved t id target after updated h = elim (Option-cases (get_event t id)) [
  | inl n ↦ absurd (ground arith)
  | inr (e, g) ↦ moved-IsMoved t id target e after updated g (rw g at h)
]

gone :
    (id : String) (es : List Event)
    → find_first (event_of id) (select (λ e. not (event_of id e)) es) ≡ none
unfolding find_first select
gone id [] = refl
gone id (e ∷ es) = ground (arith, gone id es)

-- The deletion of a stored event is refused where it is confirmed, and otherwise succeeds and
-- leaves nothing to be found under its identifier.
pub delete_event-get_event :
    (t : Tables) (id : String) (e : Event)
    → get_event t id ≡ some e
    → ((e.status ≡ confirmed) × (delete_event t id ≡ err (refused "BR-DM10" id)))
      ⊎ ((e.status ≢ confirmed)
          × (after : Tables) × (delete_event t id ≡ ok after)
          × (get_event after id ≡ none))
unfolding delete_event same_status
delete_event-get_event t id e g = elim (Bool-cases (same_status e.status confirmed)) [
  | inl c ↦ inl (is_confirmed e.status c, rw (g, c))
  | inr o ↦ inr (λ q. cc (rw q at o), remove_event id t, rw (g, o), gone id t.events)
]
  where
    is_confirmed : (s : EventStatus) → same_status s confirmed ≡ true → s ≡ confirmed
    is_confirmed confirmed c = refl
    is_confirmed _ c = ground arith

-- A transition of a stored event along a step of the lifecycle succeeds, unless it starts the event
-- with no facility registered, and answers the event with the new status.
transition-Step :
    (t : Tables) (id : String) (target : EventStatus) (e : Event)
    → get_event t id ≡ some e
    → Step e.status target
    → starts_empty t e target ≡ false
    → (after : Tables) × (transition t id target ≡ ok (after, record e { status = target }))
unfolding transition
transition-Step t id target e g step ready = (
  record t { events = update_event_status id target t.events },
  rw (g, ready, (transition_to_iff e target).0 step),
)
