-- ===== src/Common/Counts.antt =====
-- Counting the members of a list that pass a test, and lists without repeats.
use mathlib.Core.Path.{◌≡◌, refl, sym, ap, ◌∙◌}
use mathlib.Core.Logic.{◌⊎◌, inl, inr}
use mathlib.Core.Bool.{Bool, true, false, not}
use mathlib.Core.List.{List, [], ◌∷◌, ◌++◌, map}
use Prim.Native.Nat.{ℕ, ◌+◌, ◌≤◌}
use native.Mathlib.Omega.{arith}
use ai_dlc_test.Common.Tests.{if◌then◌else◌, Bool-cases}
use ai_dlc_test.Common.Text.{String, str_eq, str_eq_refl}
use ai_dlc_test.Common.Lists.{In, select, select_sound, count_if}
use ai_dlc_test.Common.Dicts.{concat_map, counter_keys, In-map, In-map_inv}
use ai_dlc_test.Common.Repeats.{Distinct}

-- Two tests that pass together are equal.
pub Bool-eq : (a b : Bool) → (a ≡ true → b ≡ true) → (b ≡ true → a ≡ true) → a ≡ b
Bool-eq true b f g = sym (f refl)
Bool-eq false true f g = g refl
Bool-eq false false f g = refl

module _ {ℓ} {A : Type ℓ} (p : A → Bool) where
  pub count_if-append : (xs ys : List A) → count_if p (xs ++ ys) ≡ count_if p xs + count_if p ys
  unfolding count_if
  count_if-append [] ys = omega arith
  count_if-append (x ∷ xs) ys = omega (arith, count_if-append xs ys)

  -- Tests commute: what passes both is counted either way.
  pub count_if-select :
      (q : A → Bool) (xs : List A) → count_if p (select q xs) ≡ count_if q (select p xs)
  unfolding count_if select
  count_if-select q [] = refl
  count_if-select q (x ∷ xs) = ground (arith, count_if-select q xs)

  pub count_if-map {κ} :
      {B : Type κ} (f : B → A) (xs : List B) → count_if p (map f xs) ≡ count_if (λ x. p (f x)) xs
  unfolding count_if
  count_if-map f [] = refl
  count_if-map f (x ∷ xs) = ap (λ (n : ℕ). (if p (f x) then 1 else 0) + n) (count_if-map f xs)

module _ {A : Type 0} where
  pub select-congr :
      (p q : A → Bool) (xs : List A) → ((x : A) → In x xs → p x ≡ q x) → select p xs ≡ select q xs
  unfolding select
  select-congr p q [] h = refl
  select-congr p q (x ∷ xs) h = rw (h x (inl refl), select-congr p q xs (λ y m. h y (inr m)))

  -- A loop that appends at most one member in each round is counted by its rounds.
  pub count_if-concat_map :
      {B : Type 0} (p : B → Bool) (g : A → List B) (t : A → Bool)
      → ((x : A) → count_if p (g x) ≡ (if t x then 1 else 0))
      → (xs : List A) → count_if p (concat_map g xs) ≡ count_if t xs
  unfolding concat_map count_if
  count_if-concat_map p g t h [] = refl
  count_if-concat_map p g t h (x ∷ xs) =
      omega (arith, count_if-append p (g x) (concat_map g xs), h x, count_if-concat_map p g t h xs)

  -- A member splits its list.
  pub In-split :
      (x : A) (xs : List A) → In x xs → (ls : List A) × (rs : List A) × (xs ≡ ls ++ x ∷ rs)
  In-split x [] m = absurd m
  In-split x (y ∷ ys) (inl e) = ([], ys, rw e)
  In-split x (y ∷ ys) (inr m) = let (ls, rs, e) = In-split x ys m in (y ∷ ls, rs, ap (λ l. y ∷ l) e)

  In-middle : (x y : A) (ls rs : List A) → In x (ls ++ y ∷ rs) → (x ≡ y) ⊎ In x (ls ++ rs)
  In-middle x y [] rs (inl e) = inl e
  In-middle x y [] rs (inr m) = inr m
  In-middle x y (a ∷ ls) rs (inl e) = inr (inl e)
  In-middle x y (a ∷ ls) rs (inr m) = elim (In-middle x y ls rs m) [
    | inl e ↦ inl e
    | inr n ↦ inr (inr n)
  ]

  -- A list without repeats, all of whose members stand in another, counts no more than that.
  pub count_if-subset :
      (p : A → Bool) (xs ys : List A)
      → Distinct xs
      → ((x : A) → In x xs → In x ys)
      → count_if p xs ≤ count_if p ys
  unfolding count_if
  count_if-subset p [] ys d h = omega arith
  count_if-subset p (x ∷ xs) ys d h =
      let (ls, rs, e) = In-split x ys (h x (inl refl)) in
      let rest =
        count_if-subset p xs (ls ++ rs) d.1
          (λ y m. other ls rs y m (In-middle y x ls rs (rw e at (h y (inr m))))) in
      rw e (omega (arith, rest, count_if-append p ls (x ∷ rs), count_if-append p ls rs))
    where
      other : (ls rs : List A) (y : A) → In y xs → (y ≡ x) ⊎ In y (ls ++ rs) → In y (ls ++ rs)
      other ls rs y m (inl e) = absurd (d.0 (rw e at m))
      other ls rs y m (inr n) = n

  pub Distinct-select : (p : A → Bool) (xs : List A) → Distinct xs → Distinct (select p xs)
  unfolding select
  Distinct-select p [] d = tt
  Distinct-select p (x ∷ xs) d = elim (Bool-cases (p x)) [
    | inl e ↦ rw e ((λ m. d.0 (select_sound p x xs m).0), Distinct-select p xs d.1)
    | inr e ↦ rw e (Distinct-select p xs d.1)
  ]

  pub Distinct-map :
      {B : Type 0} (f : A → B)
      → ((x y : A) → f x ≡ f y → x ≡ y)
      → (xs : List A) → Distinct xs
      → Distinct (map f xs)
  Distinct-map f inj [] d = tt
  Distinct-map f inj (x ∷ xs) d = (
    λ m. let (y, n, e) = In-map_inv f xs (f x) m in d.0 (rw (inj x y e) n),
    Distinct-map f inj xs d.1,
  )

  -- Members with one key are one member.
  pub Distinct-unique :
      {K : Type 0} (key : A → K) (xs : List A)
      → Distinct (map key xs)
      → (x y : A) → In x xs
      → In y xs
      → key x ≡ key y
      → x ≡ y
  Distinct-unique key [] d x y m n e = absurd m
  Distinct-unique key (z ∷ zs) d x y (inl p) (inl q) e = p ∙ sym q
  Distinct-unique key (z ∷ zs) d x y (inl p) (inr n) e =
      absurd (d.0 (rw (sym (ap key p) ∙ e) (In-map key zs y n)))
  Distinct-unique key (z ∷ zs) d x y (inr m) (inl q) e =
      absurd (d.0 (rw (sym (ap key q) ∙ sym e) (In-map key zs x m)))
  Distinct-unique key (z ∷ zs) d x y (inr m) (inr n) e = Distinct-unique key zs d.1 x y m n e

pub counter_keys-Distinct : (ks : List String) → Distinct (counter_keys ks)
unfolding counter_keys
counter_keys-Distinct [] = tt
counter_keys-Distinct (k ∷ ks) = (
  λ m. absent (select_sound (λ j. not (str_eq j k)) k (counter_keys ks) m).1,
  Distinct-select (λ j. not (str_eq j k)) (counter_keys ks) (counter_keys-Distinct ks),
)
  where
    absent : not (str_eq k k) ≡ true → ⊥
    absent e = ground (arith, str_eq_refl k)
