-- ===== src/Api/Problems/Keyed/Declared.antt =====
-- The available staff of a problem are distinct.
use ai_dlc_test.Common.{
  ◌≡◌, refl, sym, ap, ◌∙◌, subst, Bool, true, false, String, List, [], ◌∷◌, ◌++◌, map, Option, none,
  some, select, select_sound, select_complete, if◌then◌else◌, In, In-map, In-map_inv,
  In-concat_map_inv, Distinct, Bool-cases, inl, inr, concat_map, dict_get, dict_get_sound, arith,
}
use ai_dlc_test.SharedKernel.Entities.{AvailabilityDeclaration, Staff}
use ai_dlc_test.SharedKernel.Availability.{matches}
use ai_dlc_test.DataManagement.Repositories.Effective.{
  History, IsUnique, passes, passes_iff, matches_iff,
}
use ai_dlc_test.Api.Problems.{member_of, available_member, available_of}

-- Of the effective declarations, one for each staff member.
pub effective-Distinct :
    (event_id : String) (history rest : History)
    → IsUnique rest
    → ((d : AvailabilityDeclaration) → In d rest → In d history)
    → Distinct (map (λ d. d.staff_id) (select (passes event_id history) rest))
unfolding select
effective-Distinct event_id history [] u inside = tt
effective-Distinct event_id history (d ∷ ds) u inside =
    elim (Bool-cases (passes event_id history d)) [
      | inr f ↦ rw f (effective-Distinct event_id history ds u.1 (λ x m. inside x (inr m)))
      | inl t ↦ rw t (alone t, effective-Distinct event_id history ds u.1 (λ x m. inside x (inr m)))
    ]
  where
    alone :
        passes event_id history d ≡ true
        → ¬ In d.staff_id (map (λ x. x.staff_id) (select (passes event_id history) ds))
    alone t k =
        let (x, n, e) =
          In-map_inv (λ x. x.staff_id) (select (passes event_id history) ds) d.staff_id k in
        let (m, t') = select_sound (passes event_id history) x ds n in
        let (a, all) = (passes_iff event_id history d (inside d (inl refl))).0 t in
        let (b, all') = (passes_iff event_id history x (inside x (inr m))).0 t' in
        let there : matches d.staff_id d.event_id x ≡ true =
          (matches_iff d.staff_id d.event_id x).1 (sym e, b ∙ sym a) in
        let back : matches x.staff_id x.event_id d ≡ true =
          (matches_iff x.staff_id x.event_id d).1 (e, a ∙ sym b) in
        let up =
          all x
            (select_complete (matches d.staff_id d.event_id) x history (inside x (inr m)) there) in
        let down =
          all' d (
            select_complete (matches x.staff_id x.event_id) d history (inside d (inl refl)) back) in
        u.0 x m there (omega (arith, up, down))

-- A member of the available staff declared.
member-declared :
    (staff : List Staff) (d : AvailabilityDeclaration) (s : Staff)
    → In s (available_member staff d)
    → s.id ≡ d.staff_id
member-declared staff d s m = elim (Bool-cases d.is_available) [
  | inr f ↦ absurd (
      subst
        (λ b. In s (if b then member_of (dict_get (λ (x : Staff). x.id) staff d.staff_id) else []))
        f m)
  | inl t ↦ by_entry (dict_get (λ (x : Staff). x.id) staff d.staff_id) refl (
      subst
        (λ b. In s (if b then member_of (dict_get (λ (x : Staff). x.id) staff d.staff_id) else []))
        t m)
]
  where
    by_entry :
        (o : Option Staff)
        → dict_get (λ (x : Staff). x.id) staff d.staff_id ≡ o
        → In s (member_of o)
        → s.id ≡ d.staff_id
    by_entry none e k = absurd k
    by_entry (some x) e (inl q) =
        ap (λ (z : Staff). z.id) q ∙ (dict_get_sound (λ (x : Staff). x.id) staff d.staff_id x e).1
    by_entry (some x) e (inr k) = absurd k

available-declared :
    (staff : List Staff) (ds : List AvailabilityDeclaration) (id : String)
    → In id (map (λ (s : Staff). s.id) (available_of staff ds))
    → In id (map (λ d. d.staff_id) ds)
unfolding available_of
available-declared staff ds id m =
    let (s, n, e) = In-map_inv (λ (s : Staff). s.id) (available_of staff ds) id m in
    let (d, k, l) = In-concat_map_inv (available_member staff) ds s n in
    subst (λ z. In z (map (λ d. d.staff_id) ds)) (sym (e ∙ member-declared staff d s l))
      (In-map (λ d. d.staff_id) ds d k)

-- At most one member.
abbrev IsShort : List Staff → Type 0
IsShort [] = Unit
IsShort (s ∷ []) = Unit
IsShort (s ∷ r ∷ ms) = ⊥

single : (staff : List Staff) (d : AvailabilityDeclaration) → IsShort (available_member staff d)
single staff d = by_answer d.is_available (dict_get (λ (x : Staff). x.id) staff d.staff_id)
  where
    by_answer : (b : Bool) (o : Option Staff) → IsShort (if b then member_of o else [])
    by_answer false o = tt
    by_answer true none = tt
    by_answer true (some x) = tt

pub available-Distinct :
    (staff : List Staff) (ds : List AvailabilityDeclaration)
    → Distinct (map (λ d. d.staff_id) ds)
    → Distinct (map (λ (s : Staff). s.id) (available_of staff ds))
unfolding available_of concat_map
available-Distinct staff [] distinct = tt
available-Distinct staff (d ∷ ds) distinct =
    by_member (available_member staff d) (single staff d) (λ s m. member-declared staff d s m)
      (available-Distinct staff ds distinct.1)
  where
    by_member :
        (ms : List Staff)
        → IsShort ms
        → ((s : Staff) → In s ms → s.id ≡ d.staff_id)
        → Distinct (map (λ (s : Staff). s.id) (available_of staff ds))
        → Distinct (map (λ (s : Staff). s.id) (ms ++ available_of staff ds))
    by_member [] short own rest = rest
    by_member (s ∷ []) short own rest = (
      λ m. distinct.0 (
          available-declared staff ds d.staff_id (
            subst (λ z. In z (map (λ (s : Staff). s.id) (available_of staff ds))) (own s (inl refl))
              m)),
      rest,
    )
    by_member (s ∷ r ∷ ms) short own rest = absurd short
