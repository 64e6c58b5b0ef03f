-- ===== src/Common/Grouped.antt =====
-- `d.setdefault(k, default)` with a change in place, and `d.get(k, default)`: a dictionary that gathers
-- what belongs to one key, as an association list.
use mathlib.Core.Path.{◌≡◌, refl, sym, ◌∙◌}
use mathlib.Core.Bool.{Bool, true, false}
use mathlib.Core.List.{List, [], ◌∷◌}
use mathlib.Core.Logic.{inl, inr}
use ai_dlc_test.Common.Tests.{if◌then◌else◌, Bool-cases}
use ai_dlc_test.Common.Text.{String, str_eq, str_eq→eq, str_eq→ne, ne→str_eq}

module _ {B : Type 0} (default : B) where
  unfoldable pub get_or : List (String × B) → String → B
  get_or [] k = default
  get_or ((j, v) ∷ d) k = if str_eq j k then v else get_or d k

  unfoldable pub setdefault_then : (B → B) → String → List (String × B) → List (String × B)
  setdefault_then change k [] = (k, change default) ∷ []
  setdefault_then change k ((j, v) ∷ d) =
      let rest = setdefault_then change k d in
      if str_eq j k then (j, change v) ∷ d else (j, v) ∷ rest

  pub get_or-setdefault_then :
      (change : B → B) (k j : String) (d : List (String × B))
      → get_or (setdefault_then change k d) j
        ≡ (if str_eq k j then change (get_or d j) else get_or d j)
  unfolding get_or setdefault_then
  get_or-setdefault_then change k j [] = refl
  get_or-setdefault_then change k j ((i, v) ∷ d) = elim (Bool-cases (str_eq i k)) [
    | inl t ↦ let e = str_eq→eq i k t in rw (t, e) (same (str_eq k j))
    | inr f ↦ rw f (elim (Bool-cases (str_eq i j)) [
      | inl t ↦ rw (t, apart (str_eq→eq i j t) f)
      | inr n ↦ rw n (get_or-setdefault_then change k j d)
    ])
  ]
    where
      same :
          (b : Bool)
          → (if b then change v else get_or d j)
            ≡ (if b then change (if b then v else get_or d j) else (if b then v else get_or d j))
      same true = refl
      same false = refl

      apart : i ≡ j → str_eq i k ≡ false → str_eq k j ≡ false
      apart e f = ne→str_eq k j (λ q. str_eq→ne i k f (e ∙ sym q))
