-- ===== src/Distance/Keys.antt =====
-- The canonical key of a pair does not depend on the order of the pair, and keeps what it orders.
use ai_dlc_test.Common.{
  ◌≡◌, refl, ◌⊎◌, inl, inr, true, String, Bool-cases, str_le, str_le_total, str_le_antisym,
}
use ai_dlc_test.Distance.{canonical_key}

-- One of the two orders.
pub canonical_key-cases :
    (x y : String) → (canonical_key x y ≡ (x, y)) ⊎ (canonical_key x y ≡ (y, x))
unfolding canonical_key
canonical_key-cases x y = elim (Bool-cases (str_le x y)) [
  | inl t ↦ inl (rw t refl)
  | inr f ↦ inr (rw f refl)
]

pub canonical_key_sym : (x y : String) → canonical_key x y ≡ canonical_key y x
unfolding canonical_key
canonical_key_sym x y = elim (Bool-cases (str_le x y)) [
  | inr f ↦ rw (f, str_le_total x y f) refl
  | inl t ↦ elim (Bool-cases (str_le y x)) [
    | inr g ↦ rw (t, g) refl
    | inl u ↦ rw (str_le_antisym x y t u) refl
  ]
]

-- The CHECK of the table.
pub canonical_key_le : (x y : String) → str_le (canonical_key x y).0 (canonical_key x y).1 ≡ true
unfolding canonical_key
canonical_key_le x y = elim (Bool-cases (str_le x y)) [
  | inl t ↦ rw (t, t) refl
  | inr f ↦ rw f (str_le_total x y f)
]

pub canonical_key_injective : (f s t : String) → canonical_key f s ≡ canonical_key f t → s ≡ t
canonical_key_injective f s t e = by_cases (canonical_key-cases f s) (canonical_key-cases f t)
  where
    by_cases :
        (canonical_key f s ≡ (f, s)) ⊎ (canonical_key f s ≡ (s, f))
        → (canonical_key f t ≡ (f, t)) ⊎ (canonical_key f t ≡ (t, f))
        → s ≡ t
    by_cases (inl p) (inl q) = cc
    by_cases (inl p) (inr q) = cc
    by_cases (inr p) (inl q) = cc
    by_cases (inr p) (inr q) = cc

pub canonical_key-members :
    (f s u v : String) → canonical_key f s ≡ canonical_key u v → (f ≡ u) ⊎ (f ≡ v)
canonical_key-members f s u v e = by_cases (canonical_key-cases f s) (canonical_key-cases u v)
  where
    by_cases :
        (canonical_key f s ≡ (f, s)) ⊎ (canonical_key f s ≡ (s, f))
        → (canonical_key u v ≡ (u, v)) ⊎ (canonical_key u v ≡ (v, u))
        → (f ≡ u) ⊎ (f ≡ v)
    by_cases (inl p) (inl q) = inl cc
    by_cases (inl p) (inr q) = inr cc
    by_cases (inr p) (inl q) = inr cc
    by_cases (inr p) (inr q) = inl cc
