-- ===== src/DataManagement/Repositories/Effective/Unique.antt =====
-- Histories that keep the unique constraint of the declarations.
use ai_dlc_test.Common.{
  ℕ, ◌≤◌, ◌==◌, ==_iff, ◌≡◌, refl, sym, ◌∙◌, subst, ◌↔◌, true, String, List, [], ◌∷◌, In, select,
  count_if, Bool-cases, inl, inr, str_eq, str_eq→eq, str_eq_refl, arith,
}
use ai_dlc_test.SharedKernel.Entities.{AvailabilityDeclaration}
use ai_dlc_test.SharedKernel.Availability.{matches}

abbrev pub History : Type 0
History = List AvailabilityDeclaration

-- What the unique constraint of the table says: no staff member declared twice for one event at one
-- instant.
abbrev pub IsUnique : History → Type 0
IsUnique [] = Unit
IsUnique (d ∷ ds) =
    ((x : AvailabilityDeclaration)
      → In x ds
      → matches d.staff_id d.event_id x ≡ true
      → x.declared_at ≡ d.declared_at
      → ⊥)
    × IsUnique ds

pub matches_iff :
    (staff_id event_id : String) (d : AvailabilityDeclaration)
    → (matches staff_id event_id d ≡ true) ↔ ((d.staff_id ≡ staff_id) × (d.event_id ≡ event_id))
unfolding matches
matches_iff staff_id event_id d = (
  λ h.
      let (a, b) : (str_eq d.staff_id staff_id ≡ true) × (str_eq d.event_id event_id ≡ true) =
        ground arith in
      (str_eq→eq d.staff_id staff_id a, str_eq→eq d.event_id event_id b),
  λ (a, b). rw (a, b, str_eq_refl staff_id, str_eq_refl event_id) refl,
)

pub matches_self : (d : AvailabilityDeclaration) → matches d.staff_id d.event_id d ≡ true
matches_self d = (matches_iff d.staff_id d.event_id d).1 (refl, refl)

none_at :
    (staff_id event_id : String) (t : ℕ) (history : History)
    → ((x : AvailabilityDeclaration)
        → In x history
        → matches staff_id event_id x ≡ true
        → x.declared_at ≡ t
        → ⊥)
    → count_if (λ x. x.declared_at == t) (select (matches staff_id event_id) history) ≡ 0
unfolding select count_if
none_at staff_id event_id t [] h = refl
none_at staff_id event_id t (d ∷ ds) h = elim (Bool-cases (matches staff_id event_id d)) [
  | inr f ↦ rw f (none_at staff_id event_id t ds (λ x m. h x (inr m)))
  | inl y ↦ elim (Bool-cases (d.declared_at == t)) [
    | inl s ↦ absurd (h d (inl refl) y ((==_iff d.declared_at t).0 s))
    | inr n ↦ rw (y, n) (omega (arith, none_at staff_id event_id t ds (λ x m. h x (inr m))))
  ]
]

pub unique_at :
    (staff_id event_id : String) (t : ℕ) (history : History)
    → IsUnique history
    → count_if (λ x. x.declared_at == t) (select (matches staff_id event_id) history) ≤ 1
unfolding select count_if
unique_at staff_id event_id t [] u = omega arith
unique_at staff_id event_id t (d ∷ ds) u = elim (Bool-cases (matches staff_id event_id d)) [
  | inr f ↦ rw f (unique_at staff_id event_id t ds u.1)
  | inl y ↦ elim (Bool-cases (d.declared_at == t)) [
    | inr n ↦ rw (y, n) (omega (arith, unique_at staff_id event_id t ds u.1))
    | inl s ↦
        let (p, q) = (matches_iff staff_id event_id d).0 y in
        let none_left =
          none_at staff_id event_id t ds
            (λ x m e r. u.0 x m (rw (p, q) e) (r ∙ sym ((==_iff d.declared_at t).0 s))) in
        rw (y, s) (omega (arith, none_left))
  ]
]

matches_sym :
    (c d : AvailabilityDeclaration)
    → matches d.staff_id d.event_id c ≡ true
    → matches c.staff_id c.event_id d ≡ true
matches_sym c d h =
    let (p, q) = (matches_iff d.staff_id d.event_id c).0 h in
    (matches_iff c.staff_id c.event_id d).1 (sym p, sym q)

pub unique_same :
    (history : History)
    → IsUnique history
    → (c d : AvailabilityDeclaration) → In c history
    → In d history
    → matches d.staff_id d.event_id c ≡ true
    → c.declared_at ≡ d.declared_at
    → c ≡ d
unique_same [] u c d m n e q = absurd m
unique_same (h ∷ hs) u c d (inl a) (inl b) e q = a ∙ sym b
unique_same (h ∷ hs) u c d (inl a) (inr n) e q = absurd (
    u.0 d n (subst (λ x. matches x.staff_id x.event_id d ≡ true) a (matches_sym c d e))
      (subst (λ x. d.declared_at ≡ x.declared_at) a (sym q)))
unique_same (h ∷ hs) u c d (inr m) (inl b) e q = absurd (
    u.0 c m (subst (λ x. matches x.staff_id x.event_id c ≡ true) b e)
      (subst (λ x. c.declared_at ≡ x.declared_at) b q))
unique_same (h ∷ hs) u c d (inr m) (inr n) e q = unique_same hs u.1 c d m n e q
