-- ===== src/Tests/SharedKernelCases.antt =====
-- src/shared_kernel at concrete inputs.
use ai_dlc_test.Common.{◌≡◌, refl, ◌≢◌, ◌↔◌, List, [], ◌∷◌, ◌++◌, some, ok}
use ai_dlc_test.SharedKernel.Enums.{
  EventStatus, event_statuses, collecting_declarations, optimized, confirmed, positions,
}
use ai_dlc_test.SharedKernel.Entities.{Event}
use ai_dlc_test.SharedKernel.Entities.Lifecycle.{
  transition_to, transition_to_iff, Step, transitions, transitions-confirmed,
}
use ai_dlc_test.SharedKernel.Entities.FacilityRules.{
  facility_post_init, IsStaffable, facility_post_init_iff,
}
use ai_dlc_test.SharedKernel.Entities.DeclarationRules.{
  declaration_post_init, IsConsistent, declaration_post_init_iff,
}
use ai_dlc_test.Common.{none}
use ai_dlc_test.Common.Int.{ℤ, pos, ◌*ℤ◌}
use ai_dlc_test.SharedKernel.CostModel.{CostBand, flat, per_km, cost_model_post_init}
use ai_dlc_test.SharedKernel.CostModel.Total.{IsCharged, cost_for-IsCharged}
use ai_dlc_test.SharedKernel.Availability.{effective_declaration_for}
use ai_dlc_test.SharedKernel.Availability.InForce.{InForce, effective_declaration_for-InForce}
use ai_dlc_test.SharedKernel.Problem.{result_post_init}
use ai_dlc_test.SharedKernel.Problem.ResultRules.{IsReportable, result_post_init_iff}
use ai_dlc_test.Tests.Samples.{whole, school, shelter_support, answered, withdrawn, reported_result}

still_open : shelter_support.status ≢ confirmed
still_open e = cc e

ends :
    transitions shelter_support (optimized ∷ confirmed ∷ [])
    ≡ ok (record shelter_support { status = confirmed })
unfolding transitions transition_to
ends = refl

effective_declaration_for-InForce_example :
    InForce "s1" "e1"
      (answered ∷ withdrawn ∷ [])
      (effective_declaration_for "s1" "e1" (answered ∷ withdrawn ∷ []))
effective_declaration_for-InForce_example =
    effective_declaration_for-InForce "s1" "e1" (answered ∷ withdrawn ∷ [])

transition_to_iff_example :
    (Step collecting_declarations optimized
      → transition_to shelter_support optimized
        ≡ ok (record shelter_support { status = optimized }))
    × ((e' : Event)
        → transition_to shelter_support optimized ≡ ok e'
        → Step collecting_declarations optimized)
transition_to_iff_example = transition_to_iff shelter_support optimized

transitions-confirmed_example :
    (before : List EventStatus) × (collecting_declarations ∷ optimized ∷ confirmed ∷ []
      ≡ before ++ optimized ∷ confirmed ∷ [])
transitions-confirmed_example =
    transitions-confirmed shelter_support (record shelter_support { status = confirmed })
      (optimized ∷ confirmed ∷ []) still_open ends refl

facility_post_init_iff_example : (facility_post_init school ≡ ok tt) ↔ IsStaffable school
facility_post_init_iff_example = facility_post_init_iff school

declaration_post_init_iff_example :
    (declaration_post_init withdrawn ≡ ok tt)
    ↔ IsConsistent withdrawn.is_available withdrawn.reason_category withdrawn.other_reason_note
declaration_post_init_iff_example = declaration_post_init_iff withdrawn

result_post_init_iff_example :
    (result_post_init whole reported_result ≡ ok tt) ↔ IsReportable whole reported_result
result_post_init_iff_example = result_post_init_iff whole reported_result

abbrev walking_then_taxi : List (CostBand ℤ)
walking_then_taxi =
    (record { upper_bound_km = some (pos 2); rule = flat; amount_yen = pos 0 })
    ∷ (record { upper_bound_km = none; rule = per_km; amount_yen = pos 400 })
    ∷ []

constructed : cost_model_post_init whole walking_then_taxi ≡ ok tt
unfolding cost_model_post_init ◌*ℤ◌
constructed = refl

cost_for-IsCharged_example : IsCharged whole walking_then_taxi (pos 5)
cost_for-IsCharged_example = cost_for-IsCharged whole walking_then_taxi (pos 5) constructed
