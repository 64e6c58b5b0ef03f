-- ===== src/SharedKernel/Availability/InForce.antt =====
-- The three outcomes of `effective_declaration_for`, told apart by the history alone.
use ai_dlc_test.Common.{
  ℕ, ◌≤◌, ◌<◌, ◌≡◌, refl, inl, inr, Bool, true, false, String, some, none, Option, List, [], ◌∷◌,
  select, select_sound, select_complete, In, Result, ok, err, arith, Bool-cases, ==_iff, ◌==◌,
  count_if, length-select, ltb, sym, ◌∙◌, ap,
}
use ai_dlc_test.SharedKernel.Exceptions.{DomainError}
use ai_dlc_test.SharedKernel.Entities.{AvailabilityDeclaration}
use ai_dlc_test.SharedKernel.Availability.{
  ambiguous, matches, latest_at, sole, in_force, effective_declaration_for,
}

abbrev at : ℕ → AvailabilityDeclaration → Bool
at t d = d.declared_at == t

latest_at-ge :
    (d : AvailabilityDeclaration) (ds : List AvailabilityDeclaration) (x : AvailabilityDeclaration)
    → In x (d ∷ ds)
    → x.declared_at ≤ latest_at d ds
unfolding latest_at
latest_at-ge d [] x (inl e) = ground arith
latest_at-ge d [] x (inr m) = absurd m
latest_at-ge d (y ∷ ys) x (inl e) = ground arith
latest_at-ge d (y ∷ ys) x (inr m) = ground (arith, latest_at-ge y ys x m)

latest_at-In :
    (d : AvailabilityDeclaration) (ds : List AvailabilityDeclaration)
    → (x : AvailabilityDeclaration) × In x (d ∷ ds) × (x.declared_at ≡ latest_at d ds)
unfolding latest_at
latest_at-In d [] = (d, inl refl, refl)
latest_at-In d (y ∷ ys) = elim (Bool-cases (ltb (latest_at y ys) d.declared_at)) [
  | inl e ↦ (d, inl refl, rw e)
  | inr e ↦ let (x, m, q) = latest_at-In y ys in (x, inr m, rw e q)
]

module _ (staff_id event_id : String) (history : List AvailabilityDeclaration) where
  -- The declarations of the staff member for the event.
  abbrev pub matching : List AvailabilityDeclaration
  matching = select (matches staff_id event_id) history

  -- Every one of them was declared at `t` or before.
  abbrev pub IsLatest : ℕ → Type 0
  IsLatest t = (x : AvailabilityDeclaration) → In x matching → x.declared_at ≤ t

  abbrev pub declared_at_time : ℕ → ℕ
  declared_at_time t = count_if (λ x. x.declared_at == t) matching

  -- The three outcomes: no declaration, exactly one at the latest time, or several there.
  pub data InForce : Result DomainError (Option AvailabilityDeclaration) → Type 0 where
    undeclared :
        ((x : AvailabilityDeclaration) → In x history → matches staff_id event_id x ≡ false)
        → InForce (ok none)
    declared :
        (d : AvailabilityDeclaration)
        → In d history
        → matches staff_id event_id d ≡ true
        → IsLatest d.declared_at
        → declared_at_time d.declared_at ≡ 1
        → InForce (ok (some d))
    undecided :
        (t : ℕ) → IsLatest t → 1 < declared_at_time t → InForce (err (ambiguous staff_id event_id))

  none-matching : matching ≡ [] → InForce (ok none)
  none-matching e = undeclared λ x m. elim (Bool-cases (matches staff_id event_id x)) [
    | inl t ↦ absurd (rw e at (select_complete (matches staff_id event_id) x history m t))
    | inr f ↦ f
  ]

  module _ (t : ℕ) (latest : IsLatest t) (x : AvailabilityDeclaration) (member : In x matching)
      (reached : x.declared_at ≡ t) where
    decide_by :
        (cs : List AvailabilityDeclaration)
        → select (at t) matching ≡ cs
        → InForce (sole (ambiguous staff_id event_id) cs)
    unfolding sole
    decide_by [] e =
        absurd
          (rw e at (select_complete (at t) x matching member ((==_iff x.declared_at t).1 reached)))
    decide_by (c ∷ []) e =
        let (m, hit) = select_sound (at t) c matching (rw e (inl refl)) in
        let (m', hit') = select_sound (matches staff_id event_id) c history m in
        let q : c.declared_at ≡ t = (==_iff c.declared_at t).0 hit in
        declared c m' hit' (λ y n. omega (arith, latest y n))
          (rw q (sym (length-select (at t) matching) ∙ rw e))
    decide_by (c ∷ c' ∷ cs) e =
        undecided t latest (rw (← (length-select (at t) matching), e) (omega arith))

  decide_all :
      (ms : List AvailabilityDeclaration)
      → matching ≡ ms
      → InForce (in_force (ambiguous staff_id event_id) ms)
  unfolding in_force
  decide_all [] e = none-matching e
  decide_all (d ∷ ds) e =
      let (x, m, q) = latest_at-In d ds in
      let t = latest_at d ds in
      decide_by t (λ y n. latest_at-ge d ds y (rw e at n)) x (rw e m) q (select (at t) (d ∷ ds))
        (ap (select (at t)) e)

  -- The declaration in force is none where nobody declared, the one declaration at the latest time
  -- where there is only one, and refused as ambiguous where several are at the latest time.
  pub effective_declaration_for-InForce :
      InForce (effective_declaration_for staff_id event_id history)
  unfolding effective_declaration_for
  effective_declaration_for-InForce = decide_all matching refl
