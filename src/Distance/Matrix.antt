-- ===== src/Distance/Matrix.antt =====
-- The entries of the matrix: one for each pair, under keys that do not repeat.
use ai_dlc_test.Common.{
  ◌≡◌, refl, sym, ap, ◌∙◌, subst, ◌⊎◌, inl, inr, String, List, [], ◌∷◌, ◌++◌, map, In, In-append,
  In-append_left, In-append_right, In-map, In-map_inv, Distinct,
}
use ai_dlc_test.Common.Float.{Floats}
use ai_dlc_test.SharedKernel.Entities.{SchoolDistrict}
use ai_dlc_test.Distance.{
  DistanceCacheEntry, Trigonometry, canonical_key, cached, compute_district_distance_matrix,
}
use ai_dlc_test.Distance.Keys.{canonical_key_injective, canonical_key-members}

abbrev pub key_of : {F : Type 0} → DistanceCacheEntry F → String × String
key_of e = (e.district_a, e.district_b)

Distinct-append :
    {A : Type 0} (xs ys : List A)
    → Distinct xs
    → Distinct ys
    → ((x : A) → In x xs → In x ys → ⊥)
    → Distinct (xs ++ ys)
Distinct-append [] ys d e apart = e
Distinct-append (x ∷ xs) ys d e apart = (
  λ m. elim (In-append x xs ys m) [ inl l ↦ d.0 l | inr r ↦ apart x (inl refl) r ],
  Distinct-append xs ys d.1 e (λ y l r. apart y (inr l) r),
)

map-append : {A B : Type 0} (f : A → B) (xs ys : List A) → map f (xs ++ ys) ≡ map f xs ++ map f ys
map-append f [] ys = refl
map-append f (x ∷ xs) ys = ap (λ l. f x ∷ l) (map-append f xs ys)

module _ (fl : Floats) (math : Trigonometry fl.Float) where
  abbrev District : Type 0
  District = SchoolDistrict fl.Float

  abbrev entries : List District → List (DistanceCacheEntry fl.Float)
  entries = compute_district_distance_matrix fl math

  abbrev entry : District → District → DistanceCacheEntry fl.Float
  entry = cached fl math

  pub cached_key : (x y : District) → key_of (entry x y) ≡ canonical_key x.id y.id
  unfolding cached
  cached_key x y = refl

  -- Every entry is of a pair of districts.
  pub matrix-pair :
      (ds : List District) (e : DistanceCacheEntry fl.Float)
      → In e (entries ds)
      → (x : District) × (y : District) × In x ds × In y ds × (e ≡ entry x y)
  unfolding compute_district_distance_matrix
  matrix-pair [] e m = absurd m
  matrix-pair (d ∷ ds) e m = elim (In-append e (map (entry d) (d ∷ ds)) (entries ds) m) [
    | inl l ↦ let (y, n, q) = In-map_inv (entry d) (d ∷ ds) e l in (d, y, inl refl, n, q)
    | inr r ↦ let (x, y, m1, m2, q) = matrix-pair ds e r in (x, y, inr m1, inr m2, q)
  ]

  keys_apart :
      (d : District) (xs : List District)
      → Distinct (map (λ x. x.id) xs)
      → Distinct (map (λ e. key_of e) (map (entry d) xs))
  keys_apart d [] distinct = tt
  keys_apart d (x ∷ xs) distinct = (
    λ m.
        let (e, n, q) = In-map_inv (λ e. key_of e) (map (entry d) xs) (key_of (entry d x)) m in
        let (y, k, p) = In-map_inv (entry d) xs e n in
        let same : canonical_key d.id x.id ≡ canonical_key d.id y.id =
          sym (cached_key d x) ∙ (q ∙ (ap (λ e. key_of e) p ∙ cached_key d y)) in
        let f : x.id ≡ y.id = canonical_key_injective d.id x.id y.id same in
        distinct.0 (subst (λ i. In i (map (λ x. x.id) xs)) (sym f) (In-map (λ x. x.id) xs y k)),
    keys_apart d xs distinct.1,
  )

  pub matrix-Distinct :
      (ds : List District)
      → Distinct (map (λ d. d.id) ds)
      → Distinct (map (λ e. key_of e) (entries ds))
  unfolding compute_district_distance_matrix
  matrix-Distinct [] distinct = tt
  matrix-Distinct (d ∷ ds) distinct =
      subst Distinct (sym (map-append (λ e. key_of e) (map (entry d) (d ∷ ds)) (entries ds))) (
        Distinct-append (map (λ e. key_of e) (map (entry d) (d ∷ ds)))
          (map (λ e. key_of e) (entries ds)) (keys_apart d (d ∷ ds) distinct)
          (matrix-Distinct ds distinct.1) foreign)
    where
      foreign :
          (k : String × String)
          → In k (map (λ e. key_of e) (map (entry d) (d ∷ ds)))
          → In k (map (λ e. key_of e) (entries ds))
          → ⊥
      foreign k l r =
          let (e, n, q) = In-map_inv (λ e. key_of e) (map (entry d) (d ∷ ds)) k l in
          let (y, _, p) = In-map_inv (entry d) (d ∷ ds) e n in
          let (g, n', q') = In-map_inv (λ e. key_of e) (entries ds) k r in
          let (u, v, mu, mv, p') = matrix-pair ds g n' in
          let same : canonical_key d.id y.id ≡ canonical_key u.id v.id =
            sym (q ∙ (ap (λ e. key_of e) p ∙ cached_key d y))
            ∙ (q' ∙ (ap (λ e. key_of e) p' ∙ cached_key u v)) in
          elim (canonical_key-members d.id y.id u.id v.id same) [
            | inl f ↦
                distinct.0
                  (subst (λ i. In i (map (λ x. x.id) ds)) (sym f) (In-map (λ x. x.id) ds u mu))
            | inr f ↦
                distinct.0
                  (subst (λ i. In i (map (λ x. x.id) ds)) (sym f) (In-map (λ x. x.id) ds v mv))
          ]

  -- Every pair has its entry, computed in one of the two orders.
  pub matrix-In :
      (ds : List District) (x y : District)
      → In x ds
      → In y ds
      → In (entry x y) (entries ds) ⊎ In (entry y x) (entries ds)
  unfolding compute_district_distance_matrix
  matrix-In [] x y m n = absurd m
  matrix-In (d ∷ ds) x y (inl p) n = inl (
      In-append_left (entry x y) (map (entry d) (d ∷ ds)) (entries ds)
        (subst (λ z. In (entry x y) (map (entry z) (d ∷ ds))) p (In-map (entry x) (d ∷ ds) y n)))
  matrix-In (d ∷ ds) x y (inr m) (inl p) = inr (
      In-append_left (entry y x) (map (entry d) (d ∷ ds)) (entries ds) (
        subst (λ z. In (entry y x) (map (entry z) (d ∷ ds))) p
          (In-map (entry y) (d ∷ ds) x (inr m))))
  matrix-In (d ∷ ds) x y (inr m) (inr n) = elim (matrix-In ds x y m n) [
    | inl k ↦ inl (In-append_right (entry x y) (map (entry d) (d ∷ ds)) (entries ds) k)
    | inr k ↦ inr (In-append_right (entry y x) (map (entry d) (d ∷ ds)) (entries ds) k)
  ]
