-- ===== src/DataManagement/Availability.antt =====
-- `AvailabilityService` of src/data_management/services.py: the queries, and the sufficiency of an event.
pub mod Sufficient
use ai_dlc_test.Common.{
  ℕ, ◌+◌, Bool, not, String, List, [], ◌∷◌, map, Result, ok, err, ◌>>=◌, select, length, any,
  counter_keys,
}
use ai_dlc_test.Common.Int.{ℤ, pos, sub_ℕ, max_ℤ, pos_part, neg_part}
use ai_dlc_test.SharedKernel.Entities.{AvailabilityDeclaration}
use ai_dlc_test.DataManagement.Rows.{Raised}
use ai_dlc_test.DataManagement.Repositories.{
  Tables, effective_declarations, all_staff_count, total_required_headcount,
}

pub record SufficiencyStatus : Type 0 where
  pub available : ℤ
  pub unavailable : ℤ
  pub undeclared : ℤ
  pub required : ℤ
  pub shortage : ℤ

-- a - b
abbrev pub minus : ℤ → ℤ → ℤ
minus a b = sub_ℕ (pos_part a + neg_part b) (pos_part b + neg_part a)

-- `{d.staff_id for d in ... if p(d)}`
unfoldable pub ids_of :
    (AvailabilityDeclaration → Bool) → List AvailabilityDeclaration → List String
unfolding select counter_keys
ids_of p ds = counter_keys (map (λ d. d.staff_id) (select p ds))

abbrev pub answered_yes : AvailabilityDeclaration → Bool
answered_yes d = d.is_available

abbrev pub answered_no : AvailabilityDeclaration → Bool
answered_no d = not d.is_available

-- The counts, of the three values that the transaction read.
unfoldable pub counted : List AvailabilityDeclaration → ℕ → ℤ → SufficiencyStatus
unfolding ids_of max_ℤ
counted effective total_staff required =
    let available = pos (length (ids_of answered_yes effective)) in
    let unavailable = pos (length (ids_of answered_no effective)) in
    record {
      available = available;
      unavailable = unavailable;
      undeclared = minus (minus (pos total_staff) available) unavailable;
      required = required;
      shortage = max_ℤ (pos 0) (minus required available);
    }

unfoldable pub sufficiency_status :
    {F : Type 0} → Tables F → String → Result Raised SufficiencyStatus
sufficiency_status t event_id = effective_declarations t event_id >>= λ effective.
    ok (counted effective (all_staff_count t) (total_required_headcount t))
