-- ===== src/Common/Text.antt =====
-- Texts: the identifiers and labels of the program, compared with `str_eq`.
use Prim.Native.Nat.{ℕ, Ordering, compare as compare_ℕ}
use Prim.Native.Char.{code}
use Prim.Native.String.compare
use Prim.Native.String.{[], ◌∷◌, compare, then}
use text.Mathlib.TextEquality.{eq_iff, path_by_compare}
use text.Mathlib.TextPositions.{eq_refl}
use mathlib.Core.Path.{◌≡◌, refl, sym, ap, ◌∙◌}
use mathlib.Core.Logic.{◌≢◌}
use mathlib.Core.Bool.{Bool, true, false}
use native.Mathlib.Omega.{arith}
pub use Prim.Native.String.{String, ◌++◌ as str_append}
pub use text.Mathlib.Text.{◌==◌ as str_eq}

pub str_eq→eq : (s t : String) → str_eq s t ≡ true → s ≡ t
str_eq→eq s t = (eq_iff s t).0

pub str_eq_refl : (s : String) → str_eq s s ≡ true
str_eq_refl s = eq_refl s

pub ne→str_eq : (s t : String) → s ≢ t → str_eq s t ≡ false
ne→str_eq s t h = ground (arith, eq_iff s t)

pub str_eq→ne : (s t : String) → str_eq s t ≡ false → s ≢ t
str_eq→ne s t h = ground (arith, eq_iff s t)

abbrev opposite : Ordering → Ordering
opposite Ordering.lt = Ordering.gt
opposite Ordering.eq = Ordering.eq
opposite Ordering.gt = Ordering.lt

opposite-then : (a b : Ordering) → then (opposite a) (opposite b) ≡ opposite (then a b)
opposite-then Ordering.lt b = refl
opposite-then Ordering.eq b = refl
opposite-then Ordering.gt b = refl

opposite_ℕ : (m n : ℕ) → compare_ℕ n m ≡ opposite (compare_ℕ m n)
opposite_ℕ m n = ground arith

compare-opposite : (s t : String) → compare t s ≡ opposite (compare s t)
compare-opposite [] [] = compare.nil-nil ∙ ap opposite (sym compare.nil-nil)
compare-opposite [] (d ∷ t) = compare.cons-nil d t ∙ ap opposite (sym (compare.nil-cons d t))
compare-opposite (c ∷ s) [] = compare.nil-cons c s ∙ ap opposite (sym (compare.cons-nil c s))
compare-opposite (c ∷ s) (d ∷ t) =
    compare.cons-cons d c t s
    ∙ (rw (opposite_ℕ (code c) (code d), compare-opposite s t)
          (opposite-then (compare_ℕ (code c) (code d)) (compare s t))
        ∙ ap opposite (sym (compare.cons-cons c d s t)))

abbrev not_gt : Ordering → Bool
not_gt Ordering.gt = false
not_gt _ = true

-- `s <= t` of texts
unfoldable pub str_le : String → String → Bool
str_le s t = not_gt (compare s t)

-- Two texts are in order one way or the other, and both ways only where they are equal.
pub str_le_total : (s t : String) → str_le s t ≡ false → str_le t s ≡ true
unfolding str_le
str_le_total s t h = by_order (compare s t) h (compare-opposite s t)
  where
    by_order :
        (o : Ordering) → not_gt o ≡ false → compare t s ≡ opposite o → not_gt (compare t s) ≡ true
    by_order Ordering.gt g e = rw e refl
    by_order Ordering.lt g e = cc g
    by_order Ordering.eq g e = rw e refl

pub str_le_antisym : (s t : String) → str_le s t ≡ true → str_le t s ≡ true → s ≡ t
unfolding str_le
str_le_antisym s t h k = by_order (compare s t) refl h
  where
    by_order : (o : Ordering) → compare s t ≡ o → not_gt o ≡ true → s ≡ t
    by_order Ordering.eq e g = path_by_compare s t e
    by_order Ordering.gt e g = cc g
    by_order Ordering.lt e g = cc (rw (compare-opposite s t, e) at k)
