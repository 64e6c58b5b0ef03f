-- ===== src/Tests/JobsCases.antt =====
-- The queue of jobs and the saved results at concrete inputs.
use ai_dlc_test.Common.{
  ◌≡◌, refl, List, [], ◌∷◌, some, none, ok, err, inl, inr, Distinct, map, arith, str_eq→ne,
}
use mathlib.Core.List.{Perm, reverse, reverse_perm}
use ai_dlc_test.Common.Int.{ℤ}
use ai_dlc_test.SharedKernel.Entities.{Assignment}
use ai_dlc_test.Security.Store.{integrity_error}
use ai_dlc_test.Jobs.Queue.{
  OptimizationJob, queued, running, full, is_queued, claim_seen, claim_next,
}
use ai_dlc_test.Jobs.Queue.Claims.{claim_seen-once, IsOldest, taken, claim_next-IsOldest}
use ai_dlc_test.Jobs.Results.{Tables, save_assignment_result, save_assignments, load_assignments}
use ai_dlc_test.Jobs.Results.Repeated.{save_assignment_result-repeated, load-save_assignments}
use ai_dlc_test.Tests.Samples.{placed, reported_result}

abbrev pub newer : OptimizationJob ℤ
newer = record {
  id = "j2";
  event_id = "e1";
  mode = full;
  state = queued;
  created_at = 20;
  parameters = none;
  result_id = none;
  detail = none;
}

abbrev oldest_job : OptimizationJob ℤ
oldest_job = record newer { id = "j1"; created_at = 10 }

abbrev pub jobs : List (OptimizationJob ℤ)
jobs = newer ∷ oldest_job ∷ []

pub jobs-Distinct : Distinct (map (λ (j : OptimizationJob ℤ). j.id) jobs)
jobs-Distinct = ground (arith, str_eq→ne "j2" "j1" refl)

claim_seen-once_example :
    claim_seen newer (claim_seen newer jobs).0 ≡ ((claim_seen newer jobs).0, none)
claim_seen-once_example = claim_seen-once newer jobs

claim_next-IsOldest_example :
    (seen : OptimizationJob ℤ) × IsOldest jobs seen
    × ((claim_next jobs).1 ≡ some (record seen { state = running }))
    × ((claim_next jobs).0 ≡ map (taken seen.id) jobs)
unfolding is_queued
claim_next-IsOldest_example = claim_next-IsOldest jobs newer jobs-Distinct (inl refl) refl

abbrev pub first_run : Tables ℤ
first_run = record {
  event_ids = "e1" ∷ [];
  staff_ids = "s1" ∷ [];
  facility_ids = "f1" ∷ [];
  assignment_results = [];
  assignments = placed ∷ [];
  constraint_violations = [];
}

save_assignment_result-repeated_example :
    save_assignment_result first_run reported_result "R-j2" 0 ≡ err integrity_error
save_assignment_result-repeated_example =
    save_assignment_result-repeated first_run reported_result "R-j2" 0 placed placed (inl refl)
      (inl refl) refl refl

-- Two people, saved in the order that the key of the table does not have.
abbrev second_placed : Assignment
second_placed = record placed { staff_id = "s2" }

abbrev elsewhere : Assignment
elsewhere = record placed { event_id = "e2" }

abbrev two_events : Tables ℤ
two_events = record first_run {
  event_ids = "e1" ∷ "e2" ∷ [];
  staff_ids = "s1" ∷ "s2" ∷ [];
  assignments = placed ∷ elsewhere ∷ [];
}

abbrev saved_tables : Tables ℤ
saved_tables = record two_events { assignments = elsewhere ∷ second_placed ∷ placed ∷ [] }

saved_again : save_assignments two_events "e1" (second_placed ∷ placed ∷ []) ≡ ok saved_tables
unfolding save_assignments
saved_again = refl

load-save_assignments_example :
    Perm (load_assignments saved_tables reverse "e1") (second_placed ∷ placed ∷ [])
    × (load_assignments saved_tables reverse "e2" ≡ load_assignments two_events reverse "e2")
load-save_assignments_example =
    load-save_assignments two_events reverse reverse_perm "e1" "e2" (second_placed ∷ placed ∷ [])
      saved_tables
      (λ a m. elim m [
        | inl e ↦ rw e refl
        | inr n ↦ elim n [ inl e ↦ rw e refl | inr k ↦ absurd k ]
      ])
      (str_eq→ne "e1" "e2" refl) saved_again
