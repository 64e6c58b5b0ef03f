-- ===== src/SharedKernel/Entities/Lifecycle.antt =====
-- `Event.transition_to` and the four named transitions.
use ai_dlc_test.Common.{
  ◌≡◌, refl, ◌≢◌, ◌⊎◌, inl, inr, true, some, none, List, [], ◌∷◌, ◌++◌, arith, Result, ok, err, sym,
  ◌∙◌, >>=-eq-ok, ok-injective, ◌>>=◌, if◌then◌else◌,
}
use ai_dlc_test.SharedKernel.Enums.{
  EventStatus, draft, collecting_declarations, optimized, confirmed, status_in,
  allowed_event_transitions,
}
use ai_dlc_test.SharedKernel.Exceptions.{DomainError, invalid_state_transition}
use ai_dlc_test.SharedKernel.Entities.Records.{Event}

abbrev refused : Event → DomainError
refused e = record {
  class = invalid_state_transition;
  violated_rule = "EventStatus";
  staff_id = none;
  event_id = some e.id;
  facility_id = none;
}

unfoldable pub transition_to : Event → EventStatus → Result DomainError Event
unfolding status_in allowed_event_transitions
transition_to e target =
    if status_in target (allowed_event_transitions e.status)
    then ok (record e { status = target })
    else err (refused e)

unfoldable pub start_collecting_declarations : Event → Result DomainError Event
start_collecting_declarations e = transition_to e collecting_declarations

unfoldable pub mark_optimized : Event → Result DomainError Event
mark_optimized e = transition_to e optimized

unfoldable pub reopen_declarations : Event → Result DomainError Event
reopen_declarations e = transition_to e collecting_declarations

unfoldable pub confirm : Event → Result DomainError Event
confirm e = transition_to e confirmed

-- The lifecycle, as an inductive relation.
pub data Step : EventStatus → EventStatus → Type 0 where
  start : Step draft collecting_declarations
  optimize : Step collecting_declarations optimized
  reopen : Step optimized collecting_declarations
  finish : Step optimized confirmed

step : (s t : EventStatus) → status_in t (allowed_event_transitions s) ≡ true → Step s t
unfolding status_in allowed_event_transitions
step draft collecting_declarations h = start
step collecting_declarations optimized h = optimize
step optimized collecting_declarations h = reopen
step optimized confirmed h = finish
step _ _ h = absurd (ground arith)

allowed : {s t : EventStatus} → Step s t → status_in t (allowed_event_transitions s) ≡ true
unfolding status_in allowed_event_transitions
allowed start = refl
allowed optimize = refl
allowed reopen = refl
allowed finish = refl

-- transition_to succeeds exactly along a step of the lifecycle, and then changes nothing but the
-- status.
pub transition_to_iff :
    (e : Event) (target : EventStatus)
    → (Step e.status target → transition_to e target ≡ ok (record e { status = target }))
      × ((e' : Event) → transition_to e target ≡ ok e' → Step e.status target)
unfolding transition_to
transition_to_iff e target = (λ s. rw (allowed s), λ e' h. step e.status target (ground arith))

-- A sequence of transitions, each on the event that the one before returned.
unfoldable pub transitions : Event → List EventStatus → Result DomainError Event
transitions e [] = ok e
transitions e (target ∷ targets) = transition_to e target >>= λ e'. transitions e' targets

-- A confirmed event makes no further transition.
confirmed_is_terminal :
    (e e' : Event) (targets : List EventStatus)
    → e.status ≡ confirmed
    → transitions e targets ≡ ok e'
    → targets ≡ []
unfolding transitions transition_to
confirmed_is_terminal e e' [] s h = refl
confirmed_is_terminal e e' (t ∷ ts) s h = ground arith

step_into_confirmed : {s : EventStatus} → Step s confirmed → s ≡ optimized
step_into_confirmed finish = refl

is_confirmed : (s : EventStatus) → (s ≡ confirmed) ⊎ (s ≢ confirmed)
is_confirmed confirmed = inl refl
is_confirmed draft = inr (λ e. cc e)
is_confirmed _ = inr (λ e. cc e)

transitions-cons :
    (e e' : Event) (t : EventStatus) (ts : List EventStatus)
    → transitions e (t ∷ ts) ≡ ok e'
    → Step e.status t × (transitions (record e { status = t }) ts ≡ ok e')
unfolding transitions
transitions-cons e e' t ts h =
    let (e1, first, rest) = >>=-eq-ok (transition_to e t) (λ x. transitions x ts) h in
    let s : Step e.status t = (transition_to_iff e t).1 e1 first in
    (s, rw (ok-injective (sym ((transition_to_iff e t).0 s) ∙ first)) rest)

-- When a sequence of transitions takes an event that was not confirmed to confirmed, its last two
-- statuses are optimized and confirmed.
pub transitions-confirmed :
    (e e' : Event) (targets : List EventStatus)
    → e.status ≢ confirmed
    → transitions e targets ≡ ok e'
    → e'.status ≡ confirmed
    → (before : List EventStatus) × (e.status ∷ targets ≡ before ++ optimized ∷ confirmed ∷ [])
unfolding transitions
transitions-confirmed e e' [] open_ h c = absurd (open_ (ground arith))
transitions-confirmed e e' (t ∷ ts) open_ h c =
    split (is_confirmed t) (transitions-cons e e' t ts h)
      (λ n q. transitions-confirmed (record e { status = t }) e' ts n q c)
  where
    split :
        (t ≡ confirmed) ⊎ (t ≢ confirmed)
        → Step e.status t × (transitions (record e { status = t }) ts ≡ ok e')
        → (t ≢ confirmed
            → transitions (record e { status = t }) ts ≡ ok e'
            → (before : List EventStatus) × (t ∷ ts ≡ before ++ optimized ∷ confirmed ∷ []))
        → (before : List EventStatus) × (e.status ∷ t ∷ ts ≡ before ++ optimized ∷ confirmed ∷ [])
    split (inl q) (s, rest) ih = (
      [],
      cc (
        step_into_confirmed (rw q at s),
        confirmed_is_terminal (record e { status = t }) e' ts q rest,
      ),
    )
    split (inr n) (s, rest) ih = let (before, q) = ih n rest in (e.status ∷ before, cc)
