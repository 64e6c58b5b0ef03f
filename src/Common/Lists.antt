-- ===== src/Common/Lists.antt =====
-- Lists measured by native numbers, membership tests, and predicates by recursion.
use Prim.Native.Nat.{ℕ, suc, ◌+◌}
use mathlib.Core.Path.{◌≡◌, refl}
use mathlib.Core.Logic.{◌⊎◌, ◌↔◌, inl, inr}
use mathlib.Core.Bool.{Bool, true, false, ◌||◌}
use mathlib.Core.List.{List, [], ◌∷◌, ◌++◌, map}
use mathlib.Core.Option.{Option, none, some}
use native.Mathlib.Omega.{arith}
use ai_dlc_test.Common.Tests.{if◌then◌else◌, Bool-cases}

module _ {ℓ} {A : Type ℓ} where
  abbrev pub length : List A → ℕ
  length [] = 0
  length (x ∷ xs) = suc (length xs)

  -- `[x for x in xs if p(x)]`
  unfoldable pub select : (A → Bool) → List A → List A
  select p [] = []
  select p (x ∷ xs) = let rest = select p xs in if p x then x ∷ rest else rest

  -- `any(p(x) for x in xs)`
  unfoldable pub any : (A → Bool) → List A → Bool
  any p [] = false
  any p (x ∷ xs) = p x || any p xs

  -- `sum(1 for x in xs if p(x))`
  unfoldable pub count_if : (A → Bool) → List A → ℕ
  count_if p [] = 0
  count_if p (x ∷ xs) = (if p x then 1 else 0) + count_if p xs

  -- The first member that passes a test.
  unfoldable pub find_first : (A → Bool) → List A → Option A
  find_first p [] = none
  find_first p (x ∷ xs) = if p x then some x else find_first p xs

  abbrev pub All {κ} : (A → Type κ) → List A → Type κ
  All P [] = Unit
  All P (x ∷ xs) = P x × All P xs

  pub length-append : (xs ys : List A) → length (xs ++ ys) ≡ length xs + length ys
  length-append [] ys = omega arith
  length-append (x ∷ xs) ys = omega (arith, length-append xs ys)

module _ {ℓ} {A : Type ℓ} (p : A → Bool) where
  pub length-select : (xs : List A) → length (select p xs) ≡ count_if p xs
  unfolding select count_if
  length-select [] = refl
  length-select (x ∷ xs) = ground (arith, length-select xs)

  pub find_first-true : (xs : List A) (x : A) → find_first p xs ≡ some x → p x ≡ true
  unfolding find_first
  find_first-true [] x h = cc
  find_first-true (y ∷ ys) x h = elim (Bool-cases (p y)) [
    | inl e ↦ cc (ground_eq e)
    | inr e ↦ find_first-true ys x (rw e at h)
  ]
    where
      ground_eq : p y ≡ true → y ≡ x
      ground_eq e = ground arith

module _ {A : Type 0} where
  -- `x` stands in `xs`.
  abbrev pub In : A → List A → Type 0
  In x [] = ⊥
  In x (y ∷ ys) = (x ≡ y) ⊎ In x ys

  pub In-append_left : (x : A) (xs ys : List A) → In x xs → In x (xs ++ ys)
  In-append_left x [] ys h = absurd h
  In-append_left x (z ∷ xs) ys (inl e) = inl e
  In-append_left x (z ∷ xs) ys (inr h) = inr (In-append_left x xs ys h)

  pub In-append_right : (x : A) (xs ys : List A) → In x ys → In x (xs ++ ys)
  In-append_right x [] ys h = h
  In-append_right x (z ∷ xs) ys h = inr (In-append_right x xs ys h)

  pub In-append : (x : A) (xs ys : List A) → In x (xs ++ ys) → In x xs ⊎ In x ys
  In-append x [] ys h = inr h
  In-append x (z ∷ xs) ys (inl e) = inl (inl e)
  In-append x (z ∷ xs) ys (inr h) = elim (In-append x xs ys h) [
    | inl l ↦ inl (inr l)
    | inr r ↦ inr r
  ]

  pub All-In {κ} : (P : A → Type κ) (x : A) (xs : List A) → All P xs → In x xs → P x
  All-In P x [] a h = absurd h
  All-In P x (y ∷ ys) a (inl e) = rw e a.0
  All-In P x (y ∷ ys) a (inr h) = All-In P x ys a.1 h

module _ {A : Type 0} (p : A → Bool) where
  pub select_sound : (x : A) (xs : List A) → In x (select p xs) → In x xs × (p x ≡ true)
  unfolding select
  select_sound x [] h = absurd h
  select_sound x (y ∷ ys) h = keep (λ m. select_sound x ys m) (Bool-cases (p y))
    where
      first :
          (In x (select p ys) → In x ys × (p x ≡ true))
          → p y ≡ true
          → (x ≡ y) ⊎ In x (select p ys)
          → In x (y ∷ ys) × (p x ≡ true)
      first ih e (inl q) = (inl q, rw q e)
      first ih e (inr m) = (inr (ih m).0, (ih m).1)

      keep :
          (In x (select p ys) → In x ys × (p x ≡ true))
          → (p y ≡ true) ⊎ (p y ≡ false)
          → In x (y ∷ ys) × (p x ≡ true)
      keep ih (inl e) = first ih e (rw e at h)
      keep ih (inr e) = (inr (ih (rw e at h)).0, (ih (rw e at h)).1)

  pub select_complete : (x : A) (xs : List A) → In x xs → p x ≡ true → In x (select p xs)
  unfolding select
  select_complete x [] h q = absurd h
  select_complete x (y ∷ ys) (inl e) q = let py : p y ≡ true = rw e at q in rw py (inl e)
  select_complete x (y ∷ ys) (inr h) q = elim (Bool-cases (p y)) [
    | inl e ↦ rw e (inr (select_complete x ys h q))
    | inr e ↦ rw e (select_complete x ys h q)
  ]

  pub any-true : (xs : List A) → any p xs ≡ true → (x : A) × In x xs × (p x ≡ true)
  unfolding any
  any-true [] h = cc
  any-true (y ∷ ys) h = elim (Bool-cases (p y)) [
    | inl e ↦ (y, inl refl, e)
    | inr e ↦ let r = any-true ys (rw e at h) in (r.0, inr r.1, r.2)
  ]

  pub any-intro : (xs : List A) (x : A) → In x xs → p x ≡ true → any p xs ≡ true
  unfolding any
  any-intro [] x m e = absurd m
  any-intro (y ∷ ys) x (inl q) e = let py : p y ≡ true = rw q at e in rw py
  any-intro (y ∷ ys) x (inr m) e = ground (arith, any-intro ys x m e)

  pub any-false : (xs : List A) (x : A) → any p xs ≡ false → In x xs → p x ≡ false
  any-false xs x h m = elim (Bool-cases (p x)) [ inl t ↦ cc (any-intro xs x m t) | inr f ↦ f ]

  pub find_first-In : (xs : List A) (x : A) → find_first p xs ≡ some x → In x xs
  unfolding find_first
  find_first-In [] x h = cc
  find_first-In (y ∷ ys) x h = elim (Bool-cases (p y)) [
    | inl e ↦ inl (ground arith)
    | inr e ↦ inr (find_first-In ys x (rw e at h))
  ]

  found_none : (xs : List A) → find_first p xs ≡ none → (x : A) → In x xs → p x ≡ false
  unfolding find_first
  found_none [] h x m = absurd m
  found_none (y ∷ ys) h x m = elim (Bool-cases (p y)) [
    | inl t ↦ cc (rw t at h)
    | inr f ↦ elim m [ inl q ↦ rw q f | inr n ↦ found_none ys (rw f at h) x n ]
  ]

  none_found : (xs : List A) → ((x : A) → In x xs → p x ≡ false) → find_first p xs ≡ none
  unfolding find_first
  none_found [] h = refl
  none_found (y ∷ ys) h = rw (h y (inl refl)) (none_found ys (λ x m. h x (inr m)))

  pub find_first-none_iff :
      (xs : List A) → (find_first p xs ≡ none) ↔ ((x : A) → In x xs → p x ≡ false)
  find_first-none_iff xs = (found_none xs, none_found xs)

pub select-map {ℓ κ} :
    {A : Type ℓ} {B : Type κ} (p : B → Bool) (f : A → B) (xs : List A)
    → select p (map f xs) ≡ map f (select (λ x. p (f x)) xs)
unfolding select
select-map p f [] = refl
select-map p f (x ∷ xs) = elim (Bool-cases (p (f x))) [
  | inl t ↦ rw (t, select-map p f xs) refl
  | inr n ↦ rw (n, select-map p f xs) refl
]
