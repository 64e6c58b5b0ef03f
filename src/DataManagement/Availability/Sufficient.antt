-- ===== src/DataManagement/Availability/Sufficient.antt =====
-- The counts of a sufficiency status against the declarations in force.
use ai_dlc_test.Common.{
  ℕ, suc, ◌+◌, ◌≡◌, refl, sym, ap, ◌∙◌, subst, ◌↔◌, ◌⊎◌, Bool, true, false, not, String, List, [],
  ◌∷◌, map, Option, none, some, Result, ok, err, In, All, select, select_sound, select_complete,
  length, length-select, count_if, count_if-subset, Distinct, Distinct-select, counter_keys,
  counter_keys-Distinct, counter_keys_sound, counter_keys_complete, In-map, In-map_inv, Bool-cases,
  inl, inr, arith,
}
use ai_dlc_test.Common.Int.{ℤ, pos, max_ℤ}
use ai_dlc_test.SharedKernel.Exceptions.{DomainError}
use ai_dlc_test.SharedKernel.Entities.{AvailabilityDeclaration, Staff}
use ai_dlc_test.SharedKernel.Entities.DeclarationRules.{declaration_post_init}
use ai_dlc_test.SharedKernel.Availability.{effective_declaration_for}
use ai_dlc_test.SharedKernel.Availability.InForce.{
  InForce, undeclared, declared, undecided, effective_declaration_for-InForce,
}
use ai_dlc_test.DataManagement.Mappers.{staff_to_row}
use ai_dlc_test.DataManagement.Repositories.{Tables, all_staff_count, total_required_headcount}
use ai_dlc_test.DataManagement.Repositories.Effective.{
  History, row, IsUnique, unique_at, from_force, effective_declarations_iff,
}
use ai_dlc_test.DataManagement.Availability.{
  SufficiencyStatus, minus, ids_of, answered_yes, answered_no, counted, sufficiency_status,
}

abbrev always : String → Bool
always x = true

all_of : (zs : List String) → count_if always zs ≡ length zs
unfolding count_if
all_of [] = refl
all_of (z ∷ zs) = omega (arith, all_of zs)

-- A list without repeats is as long as the members of another one that it holds.
length-subset :
    (p : String → Bool) (xs ys : List String)
    → Distinct xs
    → Distinct ys
    → ((x : String) → In x xs ↔ (In x ys × (p x ≡ true)))
    → length xs ≡ count_if p ys
length-subset p xs ys d e same =
    let below =
      count_if-subset always xs (select p ys) d
        (λ x m. let (n, q) = (same x).0 m in select_complete p x ys n q) in
    let above =
      count_if-subset always (select p ys) xs (Distinct-select p ys e)
        (λ x m. (same x).1 (select_sound p x ys m)) in
    omega (arith, below, above, all_of xs, all_of (select p ys), length-select p ys)

abbrev pub says_yes : Result DomainError (Option AvailabilityDeclaration) → Bool
says_yes (ok (some d)) = d.is_available
says_yes _ = false

abbrev pub says_no : Result DomainError (Option AvailabilityDeclaration) → Bool
says_no (ok (some d)) = not d.is_available
says_no _ = false

abbrev pub says_nothing : Result DomainError (Option AvailabilityDeclaration) → Bool
says_nothing (ok none) = true
says_nothing _ = false

module _ (event_id : String) (history : History) where
  abbrev pub stance : String → Result DomainError (Option AvailabilityDeclaration)
  stance staff_id = effective_declaration_for staff_id event_id history

  -- The counts that a status should have, of the staff members themselves.
  abbrev pub status_of : List String → ℤ → SufficiencyStatus
  status_of ids required = record {
    available = pos (count_if (λ s. says_yes (stance s)) ids);
    unavailable = pos (count_if (λ s. says_no (stance s)) ids);
    undeclared = pos (count_if (λ s. says_nothing (stance s)) ids);
    required = required;
    shortage = max_ℤ (pos 0) (minus required (pos (count_if (λ s. says_yes (stance s)) ids)));
  }

  decided :
      IsUnique history
      → (s : String)
      → (stance s ≡ ok none) ⊎ ((d : AvailabilityDeclaration) × (stance s ≡ ok (some d)))
  decided u s = go (stance s) (effective_declaration_for-InForce s event_id history)
    where
      go :
          (r : Result DomainError (Option AvailabilityDeclaration))
          → InForce s event_id history r
          → (r ≡ ok none) ⊎ ((d : AvailabilityDeclaration) × (r ≡ ok (some d)))
      go r (undeclared h) = inl refl
      go r (declared d m y top once) = inr (d, refl)
      go r (undecided t top many) = absurd (omega (arith, many, unique_at s event_id t history u))

  partition :
      IsUnique history
      → (ids : List String)
      → count_if (λ s. says_yes (stance s)) ids
          + count_if (λ s. says_no (stance s)) ids
          + count_if (λ s. says_nothing (stance s)) ids
        ≡ length ids
  unfolding count_if
  partition u [] = omega arith
  partition u (s ∷ ids) = elim (decided u s) [
    | inl e ↦ rw e (omega (arith, partition u ids))
    | inr (d, e) ↦ rw e (elim (Bool-cases d.is_available) [
      | inl y ↦ rw y (omega (arith, partition u ids))
      | inr n ↦ rw n (omega (arith, partition u ids))
    ])
  ]

  -- The identifiers that one comprehension collects are the staff members who take that stance.
  ids_of-length :
      (ds : History) (ids : List String) (p : AvailabilityDeclaration → Bool)
      (q : Result DomainError (Option AvailabilityDeclaration) → Bool)
      → ((d : AvailabilityDeclaration) → q (ok (some d)) ≡ p d)
      → ((r : Result DomainError (Option AvailabilityDeclaration))
          → q r ≡ true
          → (d : AvailabilityDeclaration) × (r ≡ ok (some d)))
      → ((d : AvailabilityDeclaration) → In d ds ↔ (stance d.staff_id ≡ ok (some d)))
      → IsUnique history
      → Distinct ids
      → ((d : AvailabilityDeclaration) → In d history → In d.staff_id ids)
      → length (ids_of p ds) ≡ count_if (λ s. q (stance s)) ids
  unfolding ids_of
  ids_of-length ds ids p q at_some only_some same u distinct known =
      length-subset (λ s. q (stance s)) (counter_keys keys) ids (counter_keys-Distinct keys)
        distinct (λ x. (there x, back x))
    where
      keys : List String
      keys = map (λ d. d.staff_id) (select p ds)

      there : (x : String) → In x (counter_keys keys) → In x ids × (q (stance x) ≡ true)
      there x m =
          let (d, n, e) =
            In-map_inv (λ d. d.staff_id) (select p ds) x (counter_keys_sound keys x m) in
          let (k, y) = select_sound p d ds n in
          let f = (same d).0 k in
          let (h, _, _) =
            from_force event_id d.staff_id history u (stance d.staff_id) d
              (effective_declaration_for-InForce d.staff_id event_id history) f in
          let said : q (stance d.staff_id) ≡ true = ap q f ∙ (at_some d ∙ y) in
          subst (λ z. In z ids × (q (stance z) ≡ true)) (sym e) (known d h, said)

      back : (x : String) → In x ids × (q (stance x) ≡ true) → In x (counter_keys keys)
      back x (m, y) =
          let (d, f) = only_some (stance x) y in
          let (_, e, _) =
            from_force event_id x history u (stance x) d
              (effective_declaration_for-InForce x event_id history) f in
          let g : stance d.staff_id ≡ ok (some d) = subst (λ z. stance z ≡ ok (some d)) (sym e) f in
          let said : p d ≡ true = sym (at_some d) ∙ (sym (ap q f) ∙ y) in
          subst (λ z. In z (counter_keys keys)) e
            (counter_keys_complete keys d.staff_id (
              In-map (λ d. d.staff_id) (select p ds) d
                (select_complete p d ds ((same d).1 g) said)))

some_if_yes :
    (r : Result DomainError (Option AvailabilityDeclaration))
    → says_yes r ≡ true
    → (d : AvailabilityDeclaration) × (r ≡ ok (some d))
some_if_yes (ok (some d)) h = (d, refl)
some_if_yes (ok none) h = cc
some_if_yes (err e) h = cc

some_if_no :
    (r : Result DomainError (Option AvailabilityDeclaration))
    → says_no r ≡ true
    → (d : AvailabilityDeclaration) × (r ≡ ok (some d))
some_if_no (ok (some d)) h = (d, refl)
some_if_no (ok none) h = cc
some_if_no (err e) h = cc

remaining :
    (total a b c : ℕ) → a + b + c ≡ total → minus (minus (pos total) (pos a)) (pos b) ≡ pos c
remaining total a b c h = ground arith

lengths :
    (F : Type 0) (members : List Staff)
    → length (map (staff_to_row {F = F}) members) ≡ length (map (λ m. m.id) members)
lengths F [] = refl
lengths F (m ∷ members) = ap suc (lengths F members)

counted-status_of :
    (event_id : String) (history ds : History) (ids : List String) (total : ℕ) (required : ℤ)
    → IsUnique history
    → length (ids_of answered_yes ds) ≡ count_if (λ s. says_yes (stance event_id history s)) ids
    → length (ids_of answered_no ds) ≡ count_if (λ s. says_no (stance event_id history s)) ids
    → total ≡ length ids
    → counted ds total required ≡ status_of event_id history ids required
unfolding counted
counted-status_of event_id history ds ids total required u agreed denied all_ =
    rw (agreed, denied, remaining total _ _ _ (partition event_id history u ids ∙ sym all_)) refl

module _ {F : Type 0} where
  -- Where the table holds declarations that were constructed, none two of one staff member for one
  -- event at one instant, and each of a stored staff member, and the identifiers of staff are keys,
  -- the sufficiency status of an event counts the staff whose declaration in force says yes, those
  -- whose says no and those who have none, with the shortage of the first against the headcount of
  -- the facilities.
  pub sufficiency_status-status_of :
      (t : Tables F) (event_id : String) (history : History) (members : List Staff)
      → t.availability_declarations ≡ map (row F) history
      → t.staff ≡ map staff_to_row members
      → All (λ d. declaration_post_init d ≡ ok tt) history
      → IsUnique history
      → Distinct (map (λ m. m.id) members)
      → ((d : AvailabilityDeclaration) → In d history → In d.staff_id (map (λ m. m.id) members))
      → sufficiency_status t event_id
        ≡ ok (status_of event_id history (map (λ m. m.id) members) (total_required_headcount t))
  unfolding sufficiency_status all_staff_count
  sufficiency_status-status_of t event_id history members stored staff valid u distinct known =
      let ids = map (λ m. m.id) members in
      let (ds, answered, same) = effective_declarations_iff t event_id history stored valid u in
      let agreed =
        ids_of-length event_id history ds ids answered_yes says_yes (λ d. refl) some_if_yes same u
          distinct known in
      let denied =
        ids_of-length event_id history ds ids answered_no says_no (λ d. refl) some_if_no same u
          distinct known in
      rw answered (
        ap (λ x. ok x)
          (counted-status_of event_id history ds ids (all_staff_count t)
            (total_required_headcount t) u agreed denied (rw staff (lengths F members))))
