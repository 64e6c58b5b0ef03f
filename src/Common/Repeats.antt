-- ===== src/Common/Repeats.antt =====
-- `seen = set(); for x in xs: if x in seen: ...; seen.add(x)`, and what it decides.
use mathlib.Core.Path.{◌≡◌, refl, sym}
use mathlib.Core.Logic.{◌↔◌, inl, inr}
use mathlib.Core.Bool.{Bool, true, false}
use mathlib.Core.List.{List, [], ◌∷◌}
use mathlib.Core.Option.{Option, none, some}
use ai_dlc_test.Common.Tests.{if◌then◌else◌, Bool-cases}
use ai_dlc_test.Common.Lists.{any, any-true, any-intro, In}

-- No member stands twice.
abbrev pub Distinct : {A : Type 0} → List A → Type 0
Distinct [] = Unit
Distinct (x ∷ xs) = (¬ In x xs) × Distinct xs

-- No member of `xs` stands in `seen`.
abbrev Apart : {A : Type 0} → List A → List A → Type 0
Apart {A} seen xs = (x : A) → In x xs → ¬ In x seen

module _ {A : Type 0} (same : A → A → Bool) where
  -- The first member that was seen before.
  unfoldable pub first_repeat : List A → List A → Option A
  first_repeat seen [] = none
  first_repeat seen (x ∷ xs) =
      let rest = first_repeat (x ∷ seen) xs in if any (same x) seen then some x else rest

module _ {A : Type 0} (same : A → A → Bool)
    (same_iff : (a b : A) → (same a b ≡ true) ↔ (a ≡ b)) where
  not-any : (x : A) (seen : List A) → ¬ In x seen → any (same x) seen ≡ false
  not-any x seen absent = elim (Bool-cases (any (same x) seen)) [
    | inl t ↦
        let (z, m, e) = any-true (same x) seen t in
        let q : x ≡ z = (same_iff x z).0 e in absurd (absent (rw q m))
    | inr f ↦ f
  ]

  repeat-free : (seen xs : List A) → first_repeat same seen xs ≡ none → Apart seen xs × Distinct xs
  unfolding first_repeat
  repeat-free seen [] h = (λ x m. absurd m, tt)
  repeat-free seen (x ∷ xs) h = elim (Bool-cases (any (same x) seen)) [
    | inl t ↦ cc (rw t at h)
    | inr f ↦
        let (apart, distinct) = repeat-free (x ∷ seen) xs (rw f at h) in
        (apart_cons f apart, (λ m. apart x m (inl refl), distinct))
  ]
    where
      apart_cons : any (same x) seen ≡ false → Apart (x ∷ seen) xs → Apart seen (x ∷ xs)
      apart_cons f apart y (inl e) m = cc (any-intro (same x) seen y m ((same_iff x y).1 (sym e)))
      apart_cons f apart y (inr n) m = apart y n (inr m)

  no_repeat : (seen xs : List A) → Apart seen xs → Distinct xs → first_repeat same seen xs ≡ none
  unfolding first_repeat
  no_repeat seen [] apart distinct = refl
  no_repeat seen (x ∷ xs) apart distinct =
      rw (not-any x seen (apart x (inl refl)))
        (no_repeat (x ∷ seen) xs (apart_rest distinct.0) distinct.1)
    where
      apart_rest : ¬ In x xs → Apart (x ∷ seen) xs
      apart_rest absent y m (inl e) = absent (rw e at m)
      apart_rest absent y m (inr n) = apart y (inr m) n

  pub first_repeat-none_iff : (xs : List A) → (first_repeat same [] xs ≡ none) ↔ Distinct xs
  first_repeat-none_iff xs = (λ h. (repeat-free [] xs h).1, no_repeat [] xs (λ x m absent. absent))
