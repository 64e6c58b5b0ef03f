-- ===== src/Common/Dicts.antt =====
-- Dictionaries and counters that the program builds from a list.
use mathlib.Core.Path.{◌≡◌, refl, sym, ap}
use mathlib.Core.Logic.{◌↔◌, inl, inr}
use mathlib.Core.Bool.{not}
use mathlib.Core.List.{List, [], ◌∷◌, ◌++◌, map}
use mathlib.Core.Option.{Option, none, some}
use ai_dlc_test.Common.Tests.{if◌then◌else◌, Bool-cases, Option-cases}
use ai_dlc_test.Common.Text.{String, str_eq, str_eq→eq, str_eq_refl}
use ai_dlc_test.Common.Lists.{
  In, In-append, In-append_left, In-append_right, select, select_sound, select_complete,
}

module _ {A : Type 0} (key : A → String) where
  -- `{key(x): x for x in xs}.get(k)`: of two entries with one key the later stays.
  unfoldable pub dict_get : List A → String → Option A
  dict_get [] k = none
  dict_get (x ∷ xs) k = elim (dict_get xs k) [
    | some y ↦ some y
    | none ↦ if str_eq (key x) k then some x else none
  ]

  pub dict_get_sound :
      (xs : List A) (k : String) (x : A) → dict_get xs k ≡ some x → In x xs × (key x ≡ k)
  unfolding dict_get
  dict_get_sound [] k x h = cc
  dict_get_sound (y ∷ ys) k x h = go (dict_get ys k) (λ q. dict_get_sound ys k x q) h
    where
      none_not_some : ◌≡◌ {A = Option A} none (some x) → In x (y ∷ ys) × (key x ≡ k)
      none_not_some e = cc

      go :
          (o : Option A)
          → (o ≡ some x → In x ys × (key x ≡ k))
          → elim o as (λ _. Option A) [
            | some z ↦ some z
            | none ↦ if str_eq (key y) k then some y else none
          ]
            ≡ some x
          → In x (y ∷ ys) × (key x ≡ k)
      go (some z) ih h = (inr (ih h).0, (ih h).1)
      go none ih h = elim (Bool-cases (str_eq (key y) k)) [
        | inl t ↦
            let e : ◌≡◌ {A = Option A} (some y) (some x) = rw t at h in
            let q : y ≡ x = cc in (inl (sym q), rw q at (str_eq→eq (key y) k t))
        | inr f ↦ none_not_some (rw f at h)
      ]

  pub dict_get-some : (xs : List A) (x : A) → In x xs → (y : A) × (dict_get xs (key x) ≡ some y)
  unfolding dict_get
  dict_get-some [] x m = absurd m
  dict_get-some (y ∷ ys) x (inl e) = elim (Option-cases (dict_get ys (key x))) [
    | inl n ↦ (y, rw (n, e, str_eq_refl (key y)))
    | inr (z, s) ↦ (z, rw s)
  ]
  dict_get-some (y ∷ ys) x (inr m) = let (z, s) = dict_get-some ys x m in (z, rw s)

-- The keys of a counter, in the order in which they were first counted.
unfoldable pub counter_keys : List String → List String
unfolding select
counter_keys [] = []
counter_keys (k ∷ ks) = k ∷ select (λ j. not (str_eq j k)) (counter_keys ks)

pub counter_keys_sound : (ks : List String) (k : String) → In k (counter_keys ks) → In k ks
unfolding counter_keys
counter_keys_sound [] k m = m
counter_keys_sound (j ∷ ks) k (inl e) = inl e
counter_keys_sound (j ∷ ks) k (inr m) =
    inr (counter_keys_sound ks k (select_sound (λ i. not (str_eq i j)) k (counter_keys ks) m).0)

pub counter_keys_complete : (ks : List String) (k : String) → In k ks → In k (counter_keys ks)
unfolding counter_keys
counter_keys_complete [] k m = m
counter_keys_complete (j ∷ ks) k (inl e) = inl e
counter_keys_complete (j ∷ ks) k (inr m) = elim (Bool-cases (str_eq k j)) [
  | inl t ↦ inl (str_eq→eq k j t)
  | inr f ↦ inr (
      select_complete (λ i. not (str_eq i j)) k (counter_keys ks) (counter_keys_complete ks k m)
        (rw f))
]

-- Two lists of findings are empty together.
pub append-nil_iff {ℓ} : {A : Type ℓ} (xs ys : List A) → (xs ++ ys ≡ []) ↔ ((xs ≡ []) × (ys ≡ []))
append-nil_iff [] ys = (λ h. (refl, h), λ h. h.1)
append-nil_iff (x ∷ xs) ys = (λ h. cc, λ h. cc (h.0))

module _ {A B : Type 0} (f : A → List B) where
  -- One `append` or none for each round of a loop.
  unfoldable pub concat_map : List A → List B
  concat_map [] = []
  concat_map (x ∷ xs) = f x ++ concat_map xs

  each_nil : (xs : List A) → concat_map xs ≡ [] → (x : A) → In x xs → f x ≡ []
  unfolding concat_map
  each_nil [] h x m = absurd m
  each_nil (y ∷ ys) h x (inl e) = rw e ((append-nil_iff (f y) (concat_map ys)).0 h).0
  each_nil (y ∷ ys) h x (inr m) = each_nil ys ((append-nil_iff (f y) (concat_map ys)).0 h).1 x m

  all_nil : (xs : List A) → ((x : A) → In x xs → f x ≡ []) → concat_map xs ≡ []
  unfolding concat_map
  all_nil [] h = refl
  all_nil (y ∷ ys) h =
      (append-nil_iff (f y) (concat_map ys)).1 (h y (inl refl), all_nil ys (λ x m. h x (inr m)))

  pub concat_map-nil_iff : (xs : List A) → (concat_map xs ≡ []) ↔ ((x : A) → In x xs → f x ≡ [])
  concat_map-nil_iff xs = (each_nil xs, all_nil xs)

module _ {A B : Type 0} (f : A → List B) where
  pub In-concat_map : (xs : List A) (x : A) (y : B) → In x xs → In y (f x) → In y (concat_map f xs)
  unfolding concat_map
  In-concat_map [] x y m n = absurd m
  In-concat_map (z ∷ zs) x y (inl e) n = In-append_left y (f z) (concat_map f zs) (rw e at n)
  In-concat_map (z ∷ zs) x y (inr m) n =
      In-append_right y (f z) (concat_map f zs) (In-concat_map zs x y m n)

  pub In-concat_map_inv :
      (xs : List A) (y : B) → In y (concat_map f xs) → (x : A) × In x xs × In y (f x)
  unfolding concat_map
  In-concat_map_inv [] y n = absurd n
  In-concat_map_inv (z ∷ zs) y n = elim (In-append y (f z) (concat_map f zs) n) [
    | inl h ↦ (z, inl refl, h)
    | inr h ↦ let (x, m, k) = In-concat_map_inv zs y h in (x, inr m, k)
  ]

module _ {A B : Type 0} (f : A → B) where
  pub In-map : (xs : List A) (x : A) → In x xs → In (f x) (map f xs)
  In-map [] x m = absurd m
  In-map (z ∷ zs) x (inl e) = inl (ap f e)
  In-map (z ∷ zs) x (inr m) = inr (In-map zs x m)

  pub In-map_inv : (xs : List A) (y : B) → In y (map f xs) → (x : A) × In x xs × (y ≡ f x)
  In-map_inv [] y m = absurd m
  In-map_inv (z ∷ zs) y (inl e) = (z, inl refl, e)
  In-map_inv (z ∷ zs) y (inr m) = let (x, n, e) = In-map_inv zs y m in (x, inr n, e)
