-- ===== src/DataManagement/Imports/Cells.antt =====
-- `_split_list` of src/data_management/services.py. Which characters are white space to Python's
-- `str.strip` is a parameter.
use Prim.Native.Char.{Char}
use Prim.Native.String.{[], ◌∷◌}
use mathlib.Core.List.{List, [], ◌∷◌, map}
use ai_dlc_test.Common.{Bool, not, ◌&&◌, String, str_eq, if◌then◌else◌, select}

abbrev prefixed : Char → List String → List String
prefixed c [] = (c ∷ "") ∷ []
prefixed c (part ∷ parts) = (c ∷ part) ∷ parts

-- `cell.split(";")`
unfoldable pub split_semicolons : String → List String
split_semicolons [] = "" ∷ []
split_semicolons (c ∷ cell) =
    let rest = split_semicolons cell in if str_eq (c ∷ "") ";" then "" ∷ rest else prefixed c rest

module _ (is_space : Char → Bool) where
  unfoldable pub lstrip : String → String
  lstrip [] = ""
  lstrip (c ∷ s) = let rest = lstrip s in if is_space c then rest else c ∷ s

  unfoldable pub rstrip : String → String
  rstrip [] = ""
  rstrip (c ∷ s) = let rest = rstrip s in if is_space c && str_eq rest "" then "" else c ∷ rest

  unfoldable pub strip : String → String
  unfolding lstrip rstrip
  strip s = rstrip (lstrip s)

  unfoldable pub split_list : String → List String
  unfolding split_semicolons strip select
  split_list cell =
      map strip (select (λ part. not (str_eq (strip part) "")) (split_semicolons cell))
