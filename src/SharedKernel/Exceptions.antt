-- ===== src/SharedKernel/Exceptions.antt =====
-- src/shared_kernel/exceptions.py: the exceptions of the domain layer. The message text is left out:
-- the program keeps the context of an exception in the attributes.
use ai_dlc_test.Common.{String, Option, none, some, List, [], ◌∷◌, ◌++◌}

-- The subclasses of `DomainError`.
pub data ErrorClass : Type 0 where
  invalid_coordinates all_weights_zero negative_weight : ErrorClass
  qualification_requirement_exceeds_headcount duplicate_qualification_requirement : ErrorClass
  invalid_travel_parameters inconsistent_declaration : ErrorClass
  non_demotable_constraint_violation duplicate_assignment invalid_objective_value : ErrorClass
  ambiguous_declaration invalid_state_transition unknown_enum_value : ErrorClass
  data_integrity invalid_cost_model unknown_school_district : ErrorClass
  -- of the optimisation engine
  model_construction pinned_assignment_infeasible : ErrorClass

pub record DomainError : Type 0 where
  pub class : ErrorClass
  pub violated_rule : String
  pub staff_id : Option String
  pub event_id : Option String
  pub facility_id : Option String

abbrev entry : String → Option String → List (String × String)
entry key none = []
entry key (some value) = (key, value) ∷ []

-- `DomainError.context`: the dictionary for the log.
unfoldable pub context : DomainError → List (String × String)
context e =
    ("violated_rule", e.violated_rule)
    ∷ (entry "staff_id" e.staff_id
        ++ (entry "event_id" e.event_id ++ entry "facility_id" e.facility_id))

-- An exception that names no identifier.
abbrev pub error : ErrorClass → String → DomainError
error class rule = record {
  class = class;
  violated_rule = rule;
  staff_id = none;
  event_id = none;
  facility_id = none;
}
