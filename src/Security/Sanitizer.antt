-- ===== src/Security/Sanitizer.antt =====
-- src/security/sanitizer.py: the cells of an exported CSV.
use Prim.Native.Char.{Char}
use Prim.Native.String.{String, [], ◌∷◌}
use ai_dlc_test.Common.{
  ◌≡◌, refl, ◌⊎◌, Bool, true, ◌||◌, str_eq, str_eq→eq, if◌then◌else◌, Bool-cases, inl, inr,
}

-- `value[:1]`
unfoldable pub first_of : String → String
first_of [] = []
first_of (c ∷ value) = c ∷ []

-- `value[:1] in DANGEROUS_PREFIXES`
unfoldable pub is_dangerous : String → Bool
unfolding first_of
is_dangerous value =
    let first = first_of value in
    str_eq first "=" || (str_eq first "+" || (str_eq first "-" || str_eq first "@"))

unfoldable pub sanitize_csv_cell : String → String
unfolding is_dangerous
sanitize_csv_cell value = if is_dangerous value then "'" ∷ value else value

-- The texts that a spreadsheet takes for a formula, by their first characters.
abbrev pub IsFormula : String → Type 0
IsFormula value =
    (rest : String) × ((value ≡ "=" ∷ rest)
      ⊎ ((value ≡ "+" ∷ rest) ⊎ ((value ≡ "-" ∷ rest) ⊎ (value ≡ "@" ∷ rest))))

no_quote : (value : String) → ¬ (is_dangerous ("'" ∷ value) ≡ true)
unfolding is_dangerous first_of
no_quote value h = cc h

is_dangerous-IsFormula : (value : String) → is_dangerous value ≡ true → IsFormula value
unfolding is_dangerous first_of
is_dangerous-IsFormula [] h = cc h
is_dangerous-IsFormula (c ∷ value) h = elim (Bool-cases (str_eq (c ∷ []) "=")) [
  | inl e ↦ (value, inl (swapped c "=" value (str_eq→eq _ _ e)))
  | inr e ↦ elim (Bool-cases (str_eq (c ∷ []) "+")) [
    | inl f ↦ (value, inr (inl (swapped c "+" value (str_eq→eq _ _ f))))
    | inr f ↦ elim (Bool-cases (str_eq (c ∷ []) "-")) [
      | inl g ↦ (value, inr (inr (inl (swapped c "-" value (str_eq→eq _ _ g)))))
      | inr g ↦ (value, inr (inr (inr (swapped c "@" value (str_eq→eq _ _ (rw (e, f, g) at h))))))
    ]
  ]
]
  where
    swapped : (c d : Char) (value : String) → (c ∷ []) ≡ (d ∷ []) → (c ∷ value) ≡ (d ∷ value)
    swapped c d value e = cc e

IsFormula-is_dangerous : (value : String) → IsFormula value → is_dangerous value ≡ true
unfolding is_dangerous first_of
IsFormula-is_dangerous value (rest, inl e) = rw e refl
IsFormula-is_dangerous value (rest, inr (inl e)) = rw e refl
IsFormula-is_dangerous value (rest, inr (inr (inl e))) = rw e refl
IsFormula-is_dangerous value (rest, inr (inr (inr e))) = rw e refl

-- A cell that starts with =, +, - or @ is sanitised by an apostrophe in front of it, every other
-- cell is left as it is, and no sanitised cell starts with one of the four.
pub sanitize_csv_cell-IsFormula :
    (value : String)
    → ((IsFormula value × (sanitize_csv_cell value ≡ "'" ∷ value))
        ⊎ ((¬ IsFormula value) × (sanitize_csv_cell value ≡ value)))
      × (¬ IsFormula (sanitize_csv_cell value))
unfolding sanitize_csv_cell
sanitize_csv_cell-IsFormula value = elim (Bool-cases (is_dangerous value)) [
  | inl t ↦ (inl (is_dangerous-IsFormula value t, rw t refl), λ f. quoted value (rw t at f))
  | inr n ↦
      let harmless : ¬ IsFormula value = λ f. cc (n, IsFormula-is_dangerous value f) in
      (inr (harmless, rw n refl), λ f. harmless (rw n at f))
]
  where
    quoted : (value : String) → ¬ IsFormula ("'" ∷ value)
    quoted value f = no_quote value (IsFormula-is_dangerous ("'" ∷ value) f)
