-- ===== src/Jobs/Results/Repeated.antt =====
-- Saving over what an earlier run saved.
use ai_dlc_test.Common.{
  ℕ, ◌≡◌, ◌≢◌, refl, sym, ◌∙◌, ap, true, false, not, String, List, [], ◌∷◌, ◌++◌, Result, ok, err,
  ◌>>=◌, >>=-eq-ok, ok-injective, any-intro, select, In, In-append_left, str_eq_refl, str_eq→eq,
  ne→str_eq, Bool-cases, arith, inl, inr,
}
use mathlib.Core.List.{Perm, append-nil, append_assoc}
use ai_dlc_test.SharedKernel.Entities.{Assignment}
use ai_dlc_test.SharedKernel.Problem.{AssignmentResult}
use ai_dlc_test.Security.Store.{StoreError, integrity_error}
use ai_dlc_test.Jobs.Results.{
  Tables, same_place, is_of, insert_assignments, insert_result, save_assignment_result,
  load_assignments, save_assignments,
}

module _ {F : Type 0} (tables : Tables F) where
  clashes :
      (new old : Assignment) (as_ rows : List Assignment)
      → In new as_
      → In old rows
      → old.event_id ≡ new.event_id
      → old.staff_id ≡ new.staff_id
      → insert_assignments tables as_ rows ≡ err integrity_error
  unfolding insert_assignments
  clashes new old [] rows m n e s = absurd m
  clashes new old (a ∷ as_) rows (inl q) n e s =
      let hit : same_place a old ≡ true =
        rw (← q, e, s, str_eq_refl new.event_id, str_eq_refl new.staff_id) in
      rw (any-intro (same_place a) rows old n hit)
  clashes new old (a ∷ as_) rows (inr m) n e s =
      ground
        (arith, clashes new old as_ (rows ++ a ∷ []) m (In-append_left old rows (a ∷ []) n) e s)

  only_integrity :
      {A B : Type 0} (r : Result StoreError A)
      → ◌≡◌ {A = Result StoreError B} (r >>= λ _. err integrity_error) (err integrity_error)
  only_integrity (ok a) = refl
  only_integrity (err integrity_error) = refl

  -- Saving a result is refused by the database where one of its people already has an assignment to
  -- the same event.
  pub save_assignment_result-repeated :
      (result : AssignmentResult F) (result_id : String) (created_at : ℕ) (old new : Assignment)
      → In old tables.assignments
      → In new result.assignments
      → old.event_id ≡ new.event_id
      → old.staff_id ≡ new.staff_id
      → save_assignment_result tables result result_id created_at ≡ err integrity_error
  unfolding save_assignment_result
  save_assignment_result-repeated result result_id created_at old new n m e s =
      let failed = clashes new old result.assignments tables.assignments m n e s in
      rw failed (only_integrity (insert_result tables _))

  inserted :
      (as_ rows all : List Assignment)
      → insert_assignments tables as_ rows ≡ ok all
      → all ≡ rows ++ as_
  unfolding insert_assignments
  inserted [] rows all h = rw append-nil (sym (ok-injective h))
  inserted (a ∷ as_) rows all h =
      let rest : insert_assignments tables as_ (rows ++ a ∷ []) ≡ ok all = ground arith in
      inserted as_ (rows ++ a ∷ []) all rest ∙ append_assoc rows (a ∷ []) as_

  kept :
      (event_id : String) (as_ : List Assignment)
      → ((a : Assignment) → In a as_ → a.event_id ≡ event_id)
      → select (is_of event_id) as_ ≡ as_
  unfolding select
  kept event_id [] h = refl
  kept event_id (a ∷ as_) h =
      let hit : is_of event_id a ≡ true = rw (h a (inl refl)) (str_eq_refl event_id) in
      rw (hit, kept event_id as_ (λ b m. h b (inr m)))

  replaced :
      (event_id : String) (old as_ : List Assignment)
      → select (is_of event_id) (select (λ a. not (is_of event_id a)) old ++ as_)
        ≡ select (is_of event_id) as_
  unfolding select
  replaced event_id [] as_ = refl
  replaced event_id (a ∷ old) as_ = ground (arith, replaced event_id old as_)

  none_of :
      (event_id other : String) (as_ : List Assignment)
      → ((a : Assignment) → In a as_ → a.event_id ≡ event_id)
      → event_id ≢ other
      → select (is_of other) as_ ≡ []
  unfolding select
  none_of event_id other [] h d = refl
  none_of event_id other (a ∷ as_) h d =
      let miss : is_of other a ≡ false = rw (h a (inl refl)) (ne→str_eq event_id other d) in
      rw (miss, none_of event_id other as_ (λ b m. h b (inr m)) d)

  untouched :
      (event_id other : String) (old as_ : List Assignment)
      → event_id ≢ other
      → select (is_of other) as_ ≡ []
      → select (is_of other) (select (λ a. not (is_of event_id a)) old ++ as_)
        ≡ select (is_of other) old
  unfolding select
  untouched event_id other [] as_ d h = h
  untouched event_id other (a ∷ old) as_ d h = elim (Bool-cases (is_of event_id a)) [
    | inl t ↦
        let q : a.event_id ≡ event_id = str_eq→eq _ _ t in
        let miss : is_of other a ≡ false = rw q (ne→str_eq event_id other d) in
        rw (t, miss) (untouched event_id other old as_ d h)
    | inr f ↦ elim (Bool-cases (is_of other a)) [
      | inl t ↦ rw (f, t) (ap (◌∷◌ a) (untouched event_id other old as_ d h))
      | inr g ↦ rw (f, g) (untouched event_id other old as_ d h)
    ]
  ]

  -- Where the database hands out the rows that match in an order of its own, assignments to one
  -- event that save_assignments stored are what load_assignments reads, up to their order and
  -- whatever the event had before, and the assignments to any other event are read as before.
  pub load-save_assignments :
      (hand_out : List Assignment → List Assignment)
      → ((rows : List Assignment) → Perm (hand_out rows) rows)
      → (event_id other : String) (assignments : List Assignment) (after : Tables F)
      → ((a : Assignment) → In a assignments → a.event_id ≡ event_id)
      → event_id ≢ other
      → save_assignments tables event_id assignments ≡ ok after
      → Perm (load_assignments after hand_out event_id) assignments
        × (load_assignments after hand_out other ≡ load_assignments tables hand_out other)
  unfolding save_assignments load_assignments
  load-save_assignments hand_out rearranges event_id other assignments after own d h =
      let old = select (λ a. not (is_of event_id a)) tables.assignments in
      let (rows, e, q) = >>=-eq-ok (insert_assignments tables assignments old) _ h in
      let stored : after.assignments ≡ old ++ assignments =
        ap (λ (t : Tables F). t.assignments) (sym (ok-injective q))
        ∙ inserted assignments old rows e in
      let own_rows : select (is_of event_id) (old ++ assignments) ≡ assignments =
        replaced event_id tables.assignments assignments ∙ kept event_id assignments own in
      let others : select (is_of other) (old ++ assignments)
          ≡ select (is_of other) tables.assignments =
        untouched event_id other tables.assignments assignments d
          (none_of event_id other assignments own d) in
      (rw (stored, own_rows) (rearranges assignments), rw (stored, others) refl)
