-- ===== src/DataManagement/Repositories/Effective/Queried.antt =====
-- What the query for the effective declarations selects.
use ai_dlc_test.Common.{
  ℕ, ◌≤◌, ◌==◌, ltb, ==_iff, ◌≡◌, refl, ap, ◌∙◌, ◌↔◌, Bool, true, ◌&&◌, String, List, [], ◌∷◌, map,
  ok, each, In, All, select, select_complete, select-congr, select-map, Bool-cases, inl, inr,
  str_eq, str_eq→eq, str_eq_refl, arith, if◌then◌else◌,
}
use ai_dlc_test.SharedKernel.Entities.{AvailabilityDeclaration}
use ai_dlc_test.SharedKernel.Entities.DeclarationRules.{declaration_post_init}
use ai_dlc_test.SharedKernel.Availability.{matches}
use ai_dlc_test.DataManagement.Rows.{Row, column}
use ai_dlc_test.DataManagement.Mappers.{declaration_to_row, row_to_declaration}
use ai_dlc_test.DataManagement.Mappers.RoundTrips.{row_to_declaration-declaration_to_row}
use ai_dlc_test.DataManagement.Repositories.Store.{Tables, same_key, same_cell}
use ai_dlc_test.DataManagement.Repositories.Reads.{
  latest_instant, is_effective, effective_declarations,
}
use ai_dlc_test.DataManagement.Repositories.Effective.Unique.{History, matches_self}

abbrev pub rivals : AvailabilityDeclaration → History → History
rivals d history = select (matches d.staff_id d.event_id) history

-- Of an event, and not declared before any rival.
abbrev pub IsEffective : String → History → AvailabilityDeclaration → Type 0
IsEffective event_id history d =
    (d.event_id ≡ event_id)
    × ((x : AvailabilityDeclaration) → In x (rivals d history) → x.declared_at ≤ d.declared_at)

pub latest : History → ℕ
latest [] = 0
latest (d ∷ ds) = let later = latest ds in if ltb later d.declared_at then d.declared_at else later

latest-ge : (ds : History) (x : AvailabilityDeclaration) → In x ds → x.declared_at ≤ latest ds
unfolding latest
latest-ge [] x m = absurd m
latest-ge (d ∷ ds) x (inl e) = ground arith
latest-ge (d ∷ ds) x (inr m) = ground (arith, latest-ge ds x m)

latest-le :
    (ds : History) (t : ℕ)
    → ((x : AvailabilityDeclaration) → In x ds → x.declared_at ≤ t)
    → latest ds ≤ t
unfolding latest
latest-le [] t h = omega arith
latest-le (d ∷ ds) t h = ground (arith, latest-le ds t (λ x m. h x (inr m)), h d (inl refl))

-- The test of the query, on declarations.
abbrev pub passes : String → History → AvailabilityDeclaration → Bool
passes event_id history d =
    str_eq d.event_id event_id && (d.declared_at == latest (rivals d history))

All-select :
    {A : Type 0} (P : A → Type 0) (p : A → Bool) (xs : List A) → All P xs → All P (select p xs)
unfolding select
All-select P p [] all = tt
All-select P p (x ∷ xs) all = elim (Bool-cases (p x)) [
  | inl t ↦ rw t (all.0, All-select P p xs all.1)
  | inr f ↦ rw f (All-select P p xs all.1)
]

module _ (F : Type 0) where
  abbrev pub row : AvailabilityDeclaration → Row F
  row d = declaration_to_row d d.event_id

  latest_instant-row : (ds : History) → latest_instant (map row ds) ≡ latest ds
  unfolding latest_instant latest column declaration_to_row
  latest_instant-row [] = refl
  latest_instant-row (d ∷ ds) = rw (latest_instant-row ds) refl

  same_pair :
      (d x : AvailabilityDeclaration)
      → same_key ("staff_id" ∷ "event_id" ∷ []) (row x) (row d) ≡ matches d.staff_id d.event_id x
  unfolding column declaration_to_row same_cell matches
  same_pair d x = ground arith

  is_effective-row :
      (history : History) (event_id : String) (d : AvailabilityDeclaration)
      → is_effective (map row history) event_id (row d) ≡ passes event_id history d
  unfolding is_effective column declaration_to_row same_cell
  is_effective-row history event_id d =
      let pair : Row F → Bool = λ inner. same_key ("staff_id" ∷ "event_id" ∷ []) inner (row d) in
      ap (λ n. str_eq d.event_id event_id && (d.declared_at == n))
        (ap latest_instant (select-map pair row history)
          ∙ (latest_instant-row (select (λ x. pair (row x)) history)
              ∙ ap latest (
                  select-congr (λ x. pair (row x)) (matches d.staff_id d.event_id) history
                    (λ x m. same_pair d x))))

  each-row :
      (ds : History)
      → All (λ d. declaration_post_init d ≡ ok tt) ds
      → each row_to_declaration (map row ds) ≡ ok ds
  unfolding each
  each-row [] valid = refl
  each-row (d ∷ ds) valid =
      rw (row_to_declaration-declaration_to_row F d valid.0, each-row ds valid.1) refl

  -- What the query answers.
  pub answer :
      (history : History) (event_id : String) (t : Tables F)
      → All (λ d. declaration_post_init d ≡ ok tt) history
      → t.availability_declarations ≡ map row history
      → effective_declarations t event_id ≡ ok (select (passes event_id history) history)
  unfolding effective_declarations
  answer history event_id t valid stored =
      rw
        (
          stored,
          select-map (is_effective (map row history) event_id) row history,
          select-congr (λ x. is_effective (map row history) event_id (row x))
              (passes event_id history) history (λ x m. is_effective-row history event_id x),
        )
        (each-row (select (passes event_id history) history) (
          All-select (λ d. declaration_post_init d ≡ ok tt) (passes event_id history) history
            valid))

pub passes_iff :
    (event_id : String) (history : History) (d : AvailabilityDeclaration)
    → In d history
    → (passes event_id history d ≡ true) ↔ IsEffective event_id history d
passes_iff event_id history d m = (
  λ h.
      let (a, b) : (str_eq d.event_id event_id ≡ true)
          × ((d.declared_at == latest (rivals d history)) ≡ true) =
        ground arith in
      let t = (==_iff d.declared_at (latest (rivals d history))).0 b in
      (str_eq→eq d.event_id event_id a, λ x n. omega (arith, t, latest-ge (rivals d history) x n)),
  λ (e, all).
      let self = select_complete (matches d.staff_id d.event_id) d history m (matches_self d) in
      let above = latest-ge (rivals d history) d self in
      let below = latest-le (rivals d history) d.declared_at all in
      let same = (==_iff d.declared_at (latest (rivals d history))).1 (omega arith) in
      rw (same, e, str_eq_refl event_id) refl,
)
