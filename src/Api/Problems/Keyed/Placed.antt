-- ===== src/Api/Problems/Keyed/Placed.antt =====
-- The facilities of a problem are distinct.
use ai_dlc_test.Common.{
  ◌≡◌, refl, sym, ap, ◌∙◌, subst, false, String, List, [], ◌∷◌, map, Result, ok, err, ◌>>=◌,
  >>=-eq-ok, ok-injective, each, In, In-map_inv, Distinct, inl, inr, str_eq_refl,
}
use ai_dlc_test.SharedKernel.Entities.{Facility, QualificationRequirement}
use ai_dlc_test.DataManagement.Rows.{
  Row, Raised, Cell, null, text, integer, floating, boolean, day, naive_datetime, aware_datetime,
  column, as_str,
}
use ai_dlc_test.DataManagement.Mappers.{row_to_facility}
use ai_dlc_test.DataManagement.Repositories.{same_cell, same_key, str_at}
use ai_dlc_test.DataManagement.Mappers.Checked.{row_to_facility-id}
use ai_dlc_test.DataManagement.Repositories.Masters.{IsKeyed}
use ai_dlc_test.DataManagement.Repositories.Effective.{row}

module _ {F : Type 0} where
  text_of :
      (row : Row F) (s : String)
      → (column row "id" >>= λ cell. as_str cell) ≡ ok s
      → column row "id" ≡ ok (text s)
  unfolding as_str
  text_of row s h = by_cell (column row "id") refl h
    where
      by_cell :
          (c : Result Raised (Cell F))
          → column row "id" ≡ c
          → (c >>= λ cell. as_str cell) ≡ ok s
          → column row "id" ≡ ok (text s)
      by_cell (ok (text t)) e h = e ∙ ap (λ x. ok (text x)) (ok-injective h)
      by_cell (ok null) e h = cc h
      by_cell (ok (integer n)) e h = cc h
      by_cell (ok (floating n)) e h = cc h
      by_cell (ok (boolean n)) e h = cc h
      by_cell (ok (day n)) e h = cc h
      by_cell (ok (naive_datetime n)) e h = cc h
      by_cell (ok (aware_datetime n)) e h = cc h
      by_cell (err x) e h = cc h

  unfoldable pub read_facility :
      (String → List QualificationRequirement) → Row F → Result Raised Facility
  read_facility reqs row = str_at row "id" >>= λ id. row_to_facility row (reqs id)

  facility-row :
      (reqs : String → List QualificationRequirement) (row : Row F) (f : Facility)
      → read_facility reqs row ≡ ok f
      → column row "id" ≡ ok (text f.id)
  unfolding read_facility
  facility-row reqs row f h =
      let (id, _, k) = >>=-eq-ok (str_at row "id") (λ id. row_to_facility row (reqs id)) h in
      text_of row f.id (row_to_facility-id row (reqs id) f k)

  origin :
      (reqs : String → List QualificationRequirement) (rows : List (Row F)) (fs : List Facility)
      (f : Facility)
      → each (read_facility reqs) rows ≡ ok fs
      → In f fs
      → (r : Row F) × In r rows × (read_facility reqs r ≡ ok f)
  unfolding each
  origin reqs [] fs f h m = absurd (subst (λ l. In f l) (sym (ok-injective h)) m)
  origin reqs (r ∷ rows) fs f h m =
      let (g, e, k) =
        >>=-eq-ok (read_facility reqs r) (λ y. each (read_facility reqs) rows >>= λ ys. ok (y ∷ ys))
          h in
      let (gs, e', k') = >>=-eq-ok (each (read_facility reqs) rows) (λ ys. ok (g ∷ ys)) k in
      elim (subst (λ l. In f l) (sym (ok-injective k')) m) [
        | inl q ↦ (r, inl refl, e ∙ ap (λ x. ok x) (sym q))
        | inr n ↦ let (s, i, j) = origin reqs rows gs f e' n in (s, inr i, j)
      ]

  -- The facilities that are read have the identifiers of their rows.
  pub facilities-Distinct :
      (reqs : String → List QualificationRequirement) (rows : List (Row F)) (fs : List Facility)
      → IsKeyed ("id" ∷ []) rows
      → each (read_facility reqs) rows ≡ ok fs
      → Distinct (map (λ (f : Facility). f.id) fs)
  unfolding each same_cell
  facilities-Distinct reqs [] fs keyed h =
      subst (λ l. Distinct (map (λ (f : Facility). f.id) l)) (ok-injective h) tt
  facilities-Distinct reqs (r ∷ rows) fs keyed h =
      let (f, e, k) =
        >>=-eq-ok (read_facility reqs r) (λ y. each (read_facility reqs) rows >>= λ ys. ok (y ∷ ys))
          h in
      let (gs, e', k') = >>=-eq-ok (each (read_facility reqs) rows) (λ ys. ok (f ∷ ys)) k in
      let apart : In f.id (map (λ (g : Facility). g.id) gs) → ⊥ = λ m.
        let (g, n, q) = In-map_inv (λ (g : Facility). g.id) gs f.id m in
        let (s, i, j) = origin reqs rows gs g e' n in
        clash r s f g (facility-row reqs r f e) (facility-row reqs s g j) q (keyed.0 s i) in
      subst (λ l. Distinct (map (λ (f : Facility). f.id) l)) (ok-injective k')
        (apart, facilities-Distinct reqs rows gs keyed.1 e')
    where
      clash :
          (r s : Row F) (f g : Facility)
          → column r "id" ≡ ok (text f.id)
          → column s "id" ≡ ok (text g.id)
          → f.id ≡ g.id
          → same_key ("id" ∷ []) s r ≡ false
          → ⊥
      clash r s f g a b q h = cc (rw (b, a, q, str_eq_refl g.id) at h)
