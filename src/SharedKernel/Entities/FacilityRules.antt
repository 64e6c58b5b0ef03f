-- ===== src/SharedKernel/Entities/FacilityRules.antt =====
-- `Facility.__post_init__` (BR-03).
use ai_dlc_test.Common.{
  ◌≡◌, ◌↔◌, false, some, none, Option, List, [], ◌∷◌, map, arith, Result, ok, err, ◌>>◌, raise_if,
  first_repeat, first_repeat-none_iff, Distinct,
}
use ai_dlc_test.Common.Int.{ℤ, pos, ◌+ℤ◌, ◌≤ℤ◌, ltb_ℤ, ltb_ℤ→ge, ge→ltb_ℤ}
use ai_dlc_test.SharedKernel.Exceptions.{
  DomainError, ErrorClass, qualification_requirement_exceeds_headcount,
  duplicate_qualification_requirement,
}
use ai_dlc_test.SharedKernel.Entities.Records.{
  Facility, QualificationRequirement, Requirement, same_requirement, same_requirement_iff,
}

abbrev refused : ErrorClass → Facility → DomainError
refused class f = record {
  class = class;
  violated_rule = "BR-03";
  staff_id = none;
  event_id = none;
  facility_id = some f.id;
}

abbrev pub requirements : Facility → List Requirement
requirements f = map (λ r. r.requirement) f.qualification_requirements

-- `sum(req.required_count for req in ...)`
unfoldable pub total_required : List QualificationRequirement → ℤ
unfolding ◌+ℤ◌
total_required [] = pos 0
total_required (r ∷ rs) = r.required_count +ℤ total_required rs

abbrev no_repeat : Option Requirement → Facility → Result DomainError (Unit {0})
no_repeat none f = ok tt
no_repeat (some r) f = err (refused duplicate_qualification_requirement f)

unfoldable pub facility_post_init : Facility → Result DomainError (Unit {0})
unfolding first_repeat same_requirement
facility_post_init f = do
  raise_if (ltb_ℤ f.required_headcount (pos 1))
      (refused qualification_requirement_exceeds_headcount f)
  no_repeat (first_repeat same_requirement [] (requirements f)) f
  raise_if (ltb_ℤ f.required_headcount (total_required f.qualification_requirements))
      (refused qualification_requirement_exceeds_headcount f)

-- BR-03 as a specification.
pub record IsStaffable (f : Facility) : Type 0 where
  pub staffed : pos 1 ≤ℤ f.required_headcount
  pub distinct : Distinct (requirements f)
  pub fits : total_required f.qualification_requirements ≤ℤ f.required_headcount

module _ (f : Facility) where
  abbrev repeated : Option Requirement
  repeated = first_repeat same_requirement [] (requirements f)

  accepted_parts :
      facility_post_init f ≡ ok tt
      → (ltb_ℤ f.required_headcount (pos 1) ≡ false)
        × (repeated ≡ none)
        × (ltb_ℤ f.required_headcount (total_required f.qualification_requirements) ≡ false)
  unfolding facility_post_init
  accepted_parts h = ground arith

  accepts : IsStaffable f → facility_post_init f ≡ ok tt
  accepts s =
      rebuild (ge→ltb_ℤ f.required_headcount (pos 1) s.staffed)
        ((first_repeat-none_iff same_requirement same_requirement_iff (requirements f)).1
          s.distinct)
        (ge→ltb_ℤ f.required_headcount (total_required f.qualification_requirements) s.fits)
    where
      rebuild :
          ltb_ℤ f.required_headcount (pos 1) ≡ false
          → repeated ≡ none
          → ltb_ℤ f.required_headcount (total_required f.qualification_requirements) ≡ false
          → facility_post_init f ≡ ok tt
      rebuild a b c = unfold facility_post_init in ground arith

  -- A facility is constructed exactly when its headcount is at least 1, no requirement appears
  -- twice and the required counts sum to at most the headcount.
  pub facility_post_init_iff : (facility_post_init f ≡ ok tt) ↔ IsStaffable f
  facility_post_init_iff = (
    λ h.
        let (staffed, distinct, fits) = accepted_parts h in
        record {
          staffed = ltb_ℤ→ge f.required_headcount (pos 1) staffed;
          distinct =
              (first_repeat-none_iff same_requirement same_requirement_iff (requirements f)).0
                distinct;
          fits = ltb_ℤ→ge f.required_headcount (total_required f.qualification_requirements) fits;
        },
    λ s. accepts s,
  )
