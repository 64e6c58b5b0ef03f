-- ===== src/DataManagement/Repositories/Masters.antt =====
-- What an import of facilities leaves to be read.
use ai_dlc_test.Common.{
  ◌≡◌, refl, sym, ap, ◌∙◌, subst, true, false, String, List, [], ◌∷◌, ◌++◌, map, ℕ, ok, ◌>>=◌,
  >>=-eq-ok, ok-injective, each, any, any-false, In, In-map, In-map_inv, Distinct, ne→str_eq, ◌&&◌,
  In-append_left, In-append_right, All, Bool-cases, inl, inr, str_eq, str_eq_refl, if◌then◌else◌,
  concat_map, get_or, setdefault_then, get_or-setdefault_then,
}
use mathlib.Core.List.{append_assoc, append-nil}
use ai_dlc_test.SharedKernel.Entities.{Facility, QualificationRequirement}
use ai_dlc_test.SharedKernel.Entities.FacilityRules.{facility_post_init}
use ai_dlc_test.DataManagement.Rows.{Row, column, as_str}
use ai_dlc_test.DataManagement.Mappers.{
  facility_to_row, facility_requirement_rows, row_to_facility, requirement_row,
}
use ai_dlc_test.DataManagement.Mappers.RoundTrips.{
  row_to_facility-facility_to_row, row_to_qualification_requirement-requirement_row,
}
use ai_dlc_test.DataManagement.Repositories.Store.{Tables, insert_rows, same_key, same_cell, refers}
use ai_dlc_test.DataManagement.Repositories.Writes.{insert_facilities}
use ai_dlc_test.DataManagement.Repositories.Reads.{
  str_at, requirements_by_facility, find_all_facilities,
}

module _ {F : Type 0} where
  -- No row has the key of a row before it.
  abbrev pub IsKeyed : List String → List (Row F) → Type 0
  IsKeyed keys [] = Unit
  IsKeyed keys (r ∷ rs) = ((s : Row F) → In s rs → same_key keys s r ≡ false) × IsKeyed keys rs

  -- An INSERT that is accepted appends the rows, and their keys are new.
  pub insert_rows-ok :
      (keys : List String) (refs : List (String × List (Row F))) (rows table after : List (Row F))
      → insert_rows keys refs table rows ≡ ok after
      → (after ≡ table ++ rows)
        × ((r s : Row F) → In r rows → In s table → same_key keys r s ≡ false)
        × IsKeyed keys rows
  unfolding insert_rows
  insert_rows-ok keys refs [] table after h =
      (rw append-nil (sym (ok-injective h)), λ r s m. absurd m, tt)
  insert_rows-ok keys refs (row ∷ rows) table after h =
      elim (Bool-cases (any (same_key keys row) table)) [
        | inl t ↦ cc (rw t at h)
        | inr new ↦ elim (Bool-cases (refers refs row)) [
          | inr n ↦ cc (rw (new, n) at h)
          | inl known ↦
              let (e, fresh, keyed) =
                insert_rows-ok keys refs rows (table ++ row ∷ []) after (rw (new, known) at h) in
              (
                e ∙ append_assoc table (row ∷ []) rows,
                λ r s m n. elim m [
                  | inl q ↦ rw q (any-false (same_key keys row) table s new n)
                  | inr k ↦ fresh r s k (In-append_left s table (row ∷ []) n)
                ],
                (λ s m. fresh s row m (In-append_right row table (row ∷ []) (inl refl)), keyed),
              )
        ]
      ]

  -- What the loop over the requirements of some facilities adds to the dictionary.
  gather_one :
      (dict : List (String × List QualificationRequirement)) (id : String)
      (reqs : List QualificationRequirement) (rows : List (Row F))
      → (dict' : List (String × List QualificationRequirement)) × (requirements_by_facility dict
            (map (requirement_row id) reqs ++ rows)
          ≡ requirements_by_facility dict' rows)
        × ((j : String)
            → get_or [] dict' j ≡ get_or [] dict j ++ (if str_eq id j then reqs else []))
  unfolding requirements_by_facility
  gather_one dict id [] rows = (
    dict,
    refl,
    λ j. elim (Bool-cases (str_eq id j)) [
      | inl t ↦ rw (t, append-nil) refl
      | inr f ↦ rw (f, append-nil) refl
    ],
  )
  gather_one dict id (r ∷ reqs) rows =
      let step = setdefault_then [] (λ l. l ++ r ∷ []) id dict in
      let (dict', e, g) = gather_one step id reqs rows in
      (dict', rw (row_to_qualification_requirement-requirement_row F id r) e, λ j. g j ∙ added j)
    where
      added :
          (j : String)
          → get_or [] (setdefault_then [] (λ l. l ++ r ∷ []) id dict) j
              ++ (if str_eq id j then reqs else [])
            ≡ get_or [] dict j ++ (if str_eq id j then r ∷ reqs else [])
      added j = elim (Bool-cases (str_eq id j)) [
        | inl t ↦
            rw (get_or-setdefault_then [] (λ l. l ++ r ∷ []) id j dict, t)
              (append_assoc (get_or [] dict j) (r ∷ []) reqs)
        | inr f ↦ rw (get_or-setdefault_then [] (λ l. l ++ r ∷ []) id j dict, f) refl
      ]

abbrev requirements_of : String → Facility → List QualificationRequirement
requirements_of id f = if str_eq f.id id then f.qualification_requirements else []

foreign :
    (id : String) (fs : List Facility)
    → ¬ In id (map (λ f. f.id) fs)
    → concat_map (requirements_of id) fs ≡ []
unfolding concat_map
foreign id [] absent = refl
foreign id (f ∷ fs) absent =
    rw (ne→str_eq f.id id (λ e. absent (inl (sym e)))) (foreign id fs (λ m. absent (inr m)))

own :
    (fs : List Facility)
    → Distinct (map (λ f. f.id) fs)
    → (f : Facility) → In f fs
    → concat_map (requirements_of f.id) fs ≡ f.qualification_requirements
unfolding concat_map
own [] d f m = absurd m
own (g ∷ fs) d f (inl e) =
    subst (λ x. concat_map (requirements_of x.id) (g ∷ fs) ≡ x.qualification_requirements) (sym e)
      first
  where
    first : concat_map (requirements_of g.id) (g ∷ fs) ≡ g.qualification_requirements
    first = rw (str_eq_refl g.id, foreign g.id fs d.0, append-nil) refl
own (g ∷ fs) d f (inr m) =
    rw (ne→str_eq g.id f.id (λ e. d.0 (rw e (In-map (λ x. x.id) fs f m)))) (own fs d.1 f m)

module _ (F : Type 0) where
  gather_all :
      (dict : List (String × List QualificationRequirement)) (fs : List Facility)
      → (dict' : List (String × List QualificationRequirement)) × (requirements_by_facility dict
            (concat_map (facility_requirement_rows {F = F}) fs)
          ≡ ok dict')
        × ((j : String) → get_or [] dict' j ≡ get_or [] dict j ++ concat_map (requirements_of j) fs)
  unfolding requirements_by_facility concat_map facility_requirement_rows
  gather_all dict [] = (dict, refl, λ j. rw append-nil refl)
  gather_all dict (f ∷ fs) =
      let (middle, e, g) =
        gather_one dict f.id f.qualification_requirements
          (concat_map (facility_requirement_rows {F = F}) fs) in
      let (dict', e', g') = gather_all middle fs in
      (
        dict',
        e ∙ e',
        λ j.
            g' j
            ∙ ap (λ l. l ++ concat_map (requirements_of j) fs) (g j)
            ∙ append_assoc (get_or [] dict j) (requirements_of j f)
                (concat_map (requirements_of j) fs),
      )

  Distinct-ids :
      (fs : List Facility)
      → IsKeyed ("id" ∷ []) (map (facility_to_row {F = F}) fs)
      → Distinct (map (λ f. f.id) fs)
  unfolding column facility_to_row same_cell
  Distinct-ids [] keyed = tt
  Distinct-ids (f ∷ fs) keyed = (
    λ m.
        let (g, n, e) = In-map_inv (λ x. x.id) fs f.id m in
        apart g.id e (keyed.0 (facility_to_row g) (In-map facility_to_row fs g n)),
    Distinct-ids fs keyed.1,
  )
    where
      apart : (id : String) → f.id ≡ id → (str_eq id f.id && true) ≡ false → ⊥
      apart id e h = cc (rw (e, str_eq_refl id) at h)

  read_back :
      (dict : List (String × List QualificationRequirement)) (fs : List Facility)
      → All (λ f. facility_post_init f ≡ ok tt) fs
      → ((f : Facility) → In f fs → get_or [] dict f.id ≡ f.qualification_requirements)
      → each
          (λ row. str_at row "id" >>= λ id. row_to_facility row (get_or [] dict id))
          (map (facility_to_row {F = F}) fs)
        ≡ ok fs
  unfolding each column as_str facility_to_row
  read_back dict [] valid g = refl
  read_back dict (f ∷ fs) valid g = rw (
    g f (inl refl),
    row_to_facility-facility_to_row F f valid.0,
    read_back dict fs valid.1 (λ x m. g x (inr m)),
  )

abbrev requirement_key : List String
requirement_key = "facility_id" ∷ "requirement" ∷ []

abbrev districts : {F : Type 0} → Tables F → List (String × List (Row F))
districts t = ("district_id", t.school_districts) ∷ []

abbrev owners : {F : Type 0} → List (Row F) → List (String × List (Row F))
owners table = ("facility_id", table) ∷ []

module _ {F : Type 0} where
  -- Facilities that were constructed and are imported into an empty master are what
  -- find_all_facilities reads, with their requirements.
  pub find_all_facilities-insert_facilities :
      (fs : List Facility) (t after : Tables F) (count : ℕ)
      → All (λ f. facility_post_init f ≡ ok tt) fs
      → t.facilities ≡ []
      → t.facility_qualification_requirements ≡ []
      → insert_facilities fs t ≡ ok (after, count)
      → find_all_facilities after ≡ ok fs
  unfolding insert_facilities find_all_facilities
  find_all_facilities-insert_facilities fs t after count valid none_yet none_needed h =
      let rows : List (Row F) = map facility_to_row fs in
      let needs : List (Row F) = concat_map facility_requirement_rows fs in
      let (table, i, h1) =
        >>=-eq-ok (insert_rows ("id" ∷ []) (districts t) t.facilities rows) _ h in
      let (reqs, j, h2) =
        >>=-eq-ok
          (insert_rows requirement_key (owners table) t.facility_qualification_requirements needs) _
          h1 in
      let (stored, _, keyed) = insert_rows-ok ("id" ∷ []) (districts t) rows t.facilities table i in
      let (needed, _, _) =
        insert_rows-ok requirement_key (owners table) needs t.facility_qualification_requirements
          reqs j in
      let (dict, g, got) = gather_all F [] fs in
      let e1 : after.facilities ≡ rows =
        sym (ap (λ (p : Tables F × ℕ). p.0.facilities) (ok-injective h2))
        ∙ (stored ∙ rw none_yet refl) in
      let e2 : after.facility_qualification_requirements ≡ needs =
        sym (ap (λ (p : Tables F × ℕ). p.0.facility_qualification_requirements) (ok-injective h2))
        ∙ (needed ∙ rw none_needed refl) in
      rw (e1, e2, g)
        (read_back F dict fs valid (λ f m. got f.id ∙ own fs (Distinct-ids F fs keyed) f m))
