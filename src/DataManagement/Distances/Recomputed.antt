-- ===== src/DataManagement/Distances/Recomputed.antt =====
-- What the cache answers once it was recomputed.
use ai_dlc_test.Common.{
  ◌≡◌, refl, sym, ap, ◌∙◌, subst, ◌⊎◌, inl, inr, true, false, ◌&&◌, String, List, [], ◌∷◌, ◌++◌,
  map, some, ok, select, any, any-true, In, In-append, In-map, In-map_inv, Distinct, Bool-cases,
  str_eq, str_eq→eq, str_eq_refl, str_le, arith,
}
use mathlib.Core.List.{append_assoc, append-nil}
use ai_dlc_test.Common.Float.{Floats}
use ai_dlc_test.SharedKernel.Entities.{SchoolDistrict}
use ai_dlc_test.Distance.{
  DistanceCacheEntry, Trigonometry, canonical_key, haversine_distance_km, cached,
  compute_district_distance_matrix,
}
use ai_dlc_test.Distance.Keys.{canonical_key_sym, canonical_key_le}
use ai_dlc_test.Distance.Matrix.{key_of, cached_key, matrix-pair, matrix-Distinct, matrix-In}
use ai_dlc_test.DataManagement.Rows.{Row, column}
use ai_dlc_test.DataManagement.Repositories.{insert_rows, same_key, same_cell}
use ai_dlc_test.DataManagement.Repositories.Masters.{IsKeyed}
use ai_dlc_test.DataManagement.Distances.{
  distance_entry_to_row, invalidate_all, scalar_of, is_pair, get_distance, all_canonical,
  put_distances, recompute,
}

module _ {F : Type 0} where
  not-any :
      (keys : List String) (r : Row F) (table : List (Row F))
      → ((s : Row F) → In s table → same_key keys r s ≡ false)
      → any (same_key keys r) table ≡ false
  not-any keys r table apart = elim (Bool-cases (any (same_key keys r) table)) [
    | inl t ↦ let (s, m, e) = any-true (same_key keys r) table t in cc (apart s m, e)
    | inr f ↦ f
  ]

  -- Rows under new keys are accepted, where the table has no foreign key.
  insert_rows_accepts :
      (keys : List String) (rows table : List (Row F))
      → IsKeyed keys rows
      → ((r s : Row F) → In r rows → In s table → same_key keys r s ≡ false)
      → insert_rows keys [] table rows ≡ ok (table ++ rows)
  unfolding insert_rows
  insert_rows_accepts keys [] table keyed apart = rw append-nil refl
  insert_rows_accepts keys (row ∷ rows) table keyed apart =
      rw (not-any keys row table (λ s m. apart row s (inl refl) m)) (
        insert_rows_accepts keys rows (table ++ row ∷ []) keyed.1 extended
        ∙ ap (λ l. ok l) (append_assoc table (row ∷ []) rows))
    where
      extended : (r s : Row F) → In r rows → In s (table ++ row ∷ []) → same_key keys r s ≡ false
      extended r s m n = elim (In-append s table (row ∷ []) n) [
        | inl l ↦ apart r s (inr m) l
        | inr (inl e) ↦ rw e (keyed.0 r m)
        | inr (inr x) ↦ absurd x
      ]

abbrev pair_key : List String
pair_key = "district_a" ∷ "district_b" ∷ []

apart_pair :
    (a b c d : String)
    → (◌≡◌ {A = String × String} (a, b) (c, d) → ⊥)
    → (str_eq a c && (str_eq b d && true)) ≡ false
apart_pair a b c d differ = elim (Bool-cases (str_eq a c)) [
  | inr f ↦ rw f refl
  | inl t ↦ elim (Bool-cases (str_eq b d)) [
    | inr g ↦ rw (t, g) refl
    | inl u ↦ absurd (differ (rw (str_eq→eq a c t, str_eq→eq b d u) refl))
  ]
]

apart_both :
    (a b c d : String)
    → (◌≡◌ {A = String × String} (a, b) (c, d) → ⊥)
    → (str_eq a c && str_eq b d) ≡ false
apart_both a b c d differ = ground (arith, apart_pair a b c d differ)

module _ (fl : Floats) where
  abbrev Entry : Type 0
  Entry = DistanceCacheEntry fl.Float

  abbrev row : Entry → Row fl.Float
  row e = distance_entry_to_row fl e

  keyed : (es : List Entry) → Distinct (map (λ e. key_of e) es) → IsKeyed pair_key (map row es)
  unfolding column distance_entry_to_row same_cell
  keyed [] distinct = tt
  keyed (e ∷ es) distinct = (
    λ s m.
        let (g, n, q) = In-map_inv row es s m in
        subst (λ z. same_key pair_key z (row e) ≡ false) (sym q)
          (apart_pair g.district_a g.district_b e.district_a e.district_b (λ p.
            distinct.0
              (subst (λ k. In k (map (λ e. key_of e) es)) p (In-map (λ e. key_of e) es g n)))),
    keyed es distinct.1,
  )

  not_found :
      (es : List Entry) (a b : String)
      → ¬ In (a, b) (map (λ e. key_of e) es)
      → select (is_pair fl a b) (map row es) ≡ []
  unfolding select column distance_entry_to_row same_cell
  not_found [] a b absent = refl
  not_found (e ∷ es) a b absent =
      rw (apart_both e.district_a e.district_b a b (λ q. absent (inl (sym q))))
        (not_found es a b (λ m. absent (inr m)))

  -- The one entry of a key.
  found :
      (es : List Entry) (e : Entry)
      → Distinct (map (λ e. key_of e) es)
      → In e es
      → select (is_pair fl e.district_a e.district_b) (map row es) ≡ row e ∷ []
  unfolding select column distance_entry_to_row same_cell
  found [] e distinct m = absurd m
  found (g ∷ es) e distinct (inl p) =
      subst (λ z. select (is_pair fl z.district_a z.district_b) (map row (g ∷ es)) ≡ row z ∷ [])
        (sym p) here
    where
      here : select (is_pair fl g.district_a g.district_b) (map row (g ∷ es)) ≡ row g ∷ []
      here =
          rw (str_eq_refl g.district_a, str_eq_refl g.district_b)
            (ap (λ l. row g ∷ l) (not_found es g.district_a g.district_b distinct.0))
  found (g ∷ es) e distinct (inr m) =
      rw
        (apart_both g.district_a g.district_b e.district_a e.district_b (λ q.
          distinct.0
            (subst (λ k. In k (map (λ e. key_of e) es)) (sym q) (In-map (λ e. key_of e) es e m))))
        (found es e distinct.1 m)

  -- What a table of entries answers for the pair of one of them.
  answer :
      (es : List Entry) (e : Entry) (x y : String)
      → Distinct (map (λ e. key_of e) es)
      → In e es
      → key_of e ≡ canonical_key x y
      → get_distance fl (map row es) x y ≡ ok (some e.great_circle_km)
  unfolding get_distance column distance_entry_to_row
  answer es e x y distinct m k =
      subst
        (λ (p : String × String).
          scalar_of fl (select (is_pair fl p.0 p.1) (map row es)) ≡ ok (some e.great_circle_km))
        k (rw (found es e distinct m) refl)

  get_distance_sym :
      (rows : List (Row fl.Float)) (x y : String)
      → get_distance fl rows x y ≡ get_distance fl rows y x
  unfolding get_distance
  get_distance_sym rows x y =
      ap (λ (p : String × String). scalar_of fl (select (is_pair fl p.0 p.1) rows))
        (canonical_key_sym x y)

  module _ (math : Trigonometry fl.Float) (districts : List (SchoolDistrict fl.Float))
      (distinct : Distinct (map (λ d. d.id) districts)) where
    abbrev entries : List Entry
    entries = compute_district_distance_matrix fl math districts

    canonical :
        (es : List Entry)
        → ((e : Entry) → In e es → str_le e.district_a e.district_b ≡ true)
        → all_canonical fl es ≡ true
    unfolding all_canonical
    canonical [] h = refl
    canonical (e ∷ es) h = rw (h e (inl refl)) (canonical es (λ g m. h g (inr m)))

    ordered : (e : Entry) → In e entries → str_le e.district_a e.district_b ≡ true
    ordered e m =
        let (x, y, _, _, q) = matrix-pair fl math districts e m in
        subst (λ (p : String × String). str_le p.0 p.1 ≡ true)
          (sym (ap (λ e. key_of e) q ∙ cached_key fl math x y)) (canonical_key_le x.id y.id)

    written :
        (table : List (Row fl.Float)) → recompute fl math districts table ≡ ok (map row entries)
    unfolding recompute put_distances invalidate_all
    written table = rw (canonical entries ordered) (
        insert_rows_accepts pair_key (map row entries) []
          (keyed entries (matrix-Distinct fl math districts distinct)) (λ r s m n. absurd n))

    at_pair :
        (x y : SchoolDistrict fl.Float)
        → In (cached fl math x y) entries
        → (u v : String) → canonical_key x.id y.id ≡ canonical_key u v
        → get_distance fl (map row entries) u v
          ≡ ok (some (haversine_distance_km fl math x.representative_point y.representative_point))
    unfolding cached
    at_pair x y m u v k =
        answer entries (cached fl math x y) u v (matrix-Distinct fl math districts distinct) m
          (cached_key fl math x y ∙ k)

  -- Of districts with distinct identifiers the recomputation succeeds, whatever the cache held, and
  -- the cache then answers for any two of them the same in both orders: the great-circle distance
  -- of the two, computed from one to the other or back.
  pub get_distance-recompute :
      (math : Trigonometry fl.Float) (districts : List (SchoolDistrict fl.Float))
      (table : List (Row fl.Float)) (x y : SchoolDistrict fl.Float)
      → Distinct (map (λ d. d.id) districts)
      → In x districts
      → In y districts
      → (after : List (Row fl.Float)) × (recompute fl math districts table ≡ ok after)
        × (get_distance fl after x.id y.id ≡ get_distance fl after y.id x.id)
        × ((get_distance fl after x.id y.id
              ≡ ok (
                  some
                    (haversine_distance_km fl math x.representative_point y.representative_point)))
            ⊎ (get_distance fl after x.id y.id
                ≡ ok (
                    some (
                      haversine_distance_km fl math y.representative_point
                        x.representative_point))))
  get_distance-recompute math districts table x y distinct m n = (
    map row (entries math districts distinct),
    written math districts distinct table,
    both_ways (map row (entries math districts distinct)),
    elim (matrix-In fl math districts x y m n) [
      | inl k ↦ inl (at_pair math districts distinct x y k x.id y.id refl)
      | inr k ↦ inr (at_pair math districts distinct y x k x.id y.id (canonical_key_sym y.id x.id))
    ],
  )
    where
      both_ways :
          (rows : List (Row fl.Float))
          → get_distance fl rows x.id y.id ≡ get_distance fl rows y.id x.id
      both_ways rows = get_distance_sym rows x.id y.id
