-- ===== src/Common.antt =====
-- The names that the other modules share: the libraries', passed on, and those of the children.
mod Tests
mod Lists
mod Text
mod Fallible
mod Repeats
mod Dicts
mod Counts
mod Grouped
pub mod Int
pub mod Float
pub use Tests.*
pub use Lists.{
  length, In, All, length-append, In-append, In-append_left, In-append_right, All-In, select_sound,
  select_complete, any-true, any-intro, any-false, length-select, find_first-true, find_first-In,
  find_first-none_iff, select-map,
}
unfoldable pub use Lists.{select, any, count_if, find_first}
pub use Text.{
  String, str_eq, str_append, str_eq→eq, str_eq_refl, ne→str_eq, str_eq→ne, str_le_total,
  str_le_antisym,
}
unfoldable pub use Text.{str_le}
pub use Fallible.{
  Result, ok, err, ◌>>=◌, ◌>>◌, raise_if, >>=-eq-ok, ok-injective, Result-cases, each-append,
  Paired, each_iff,
}
unfoldable pub use Fallible.{each}
pub use Dicts.{
  dict_get_sound, dict_get-some, counter_keys_sound, counter_keys_complete, append-nil_iff,
  concat_map-nil_iff, In-map, In-map_inv, In-concat_map, In-concat_map_inv,
}
pub use Counts.*
unfoldable pub use Dicts.{dict_get, counter_keys, concat_map}
pub use Repeats.{Distinct, first_repeat-none_iff}
unfoldable pub use Repeats.{first_repeat}
pub use Grouped.{get_or-setdefault_then}
unfoldable pub use Grouped.{get_or, setdefault_then}
pub use Prim.Native.Nat.{ℕ, zero, suc, ◌+◌, ◌-◌, ◌*◌, ◌/◌, ◌≤◌, ◌<◌}
pub use mathlib.Core.Path.{◌≡◌, refl, sym, ap, ◌∙◌, subst}
pub use mathlib.Core.Logic.{◌≢◌, ◌↔◌, ◌⊎◌, inl, inr}
pub use mathlib.Core.Bool.{Bool, true, false, not, ◌&&◌, ◌||◌}
pub use mathlib.Core.Option.{Option, none, some}
pub use mathlib.Core.List.{List, [], ◌∷◌, ◌++◌, map}
pub use native.Mathlib.Omega.{arith}
pub use text.Mathlib.TextEquality.{eq_iff}
