-- ===== src/Tests/Samples.antt =====
-- Sample data, and floats that are integers.
use ai_dlc_test.Common.{true, false, ◌&&◌, none, some, [], ◌∷◌}
use ai_dlc_test.Common.Int.{ℤ, pos, pos_part, ltb_ℤ, leb_ℤ, ◌+ℤ◌, ◌*ℤ◌, sub_ℕ}
use ai_dlc_test.Common.Float.{Floats}
use ai_dlc_test.SharedKernel.Enums.{
  clerical, manager, general, disaster_prevention_specialist, disaster_shelter_support,
  collecting_declarations, leave, optimal,
}
use ai_dlc_test.SharedKernel.Entities.{
  Staff, Facility, Event, Assignment, AvailabilityDeclaration, position,
}
use ai_dlc_test.SharedKernel.Values.{TravelMetrics, OptimizationParameters}
use ai_dlc_test.SharedKernel.Problem.{AssignmentProblem, AssignmentResult}

-- Whole numbers with the operations of a float; division answers its numerator.
abbrev pub whole : Floats
whole = record {
  Float = ℤ;
  decimal = λ n _. n;
  is_finite = λ _. true;
  lt = ltb_ℤ;
  le = leb_ℤ;
  eq = λ a b. leb_ℤ a b && leb_ℤ b a;
  add = λ a b. a +ℤ b;
  sub = λ a b. sub_ℕ (pos_part a) (pos_part b);
  mul = λ a b. a *ℤ b;
  div = λ a b. a;
  abs = λ a. pos (pos_part a);
  of_int = λ n. n;
  round = λ a. a;
  ceil = λ a. a;
}

abbrev pub sato : Staff
sato = record {
  id = "s1";
  name = "佐藤";
  department_id = "d1";
  job_type = clerical;
  position = manager;
  residence_district_id = "r1";
  qualifications = disaster_prevention_specialist ∷ [];
}

abbrev pub suzuki : Staff
suzuki = record {
  id = "s2";
  name = "鈴木";
  department_id = "d1";
  job_type = clerical;
  position = general;
  residence_district_id = "r2";
  qualifications = [];
}

abbrev pub school : Facility
school = record {
  id = "f1";
  name = "第一小学校";
  district_id = "r1";
  required_headcount = pos 1;
  qualification_requirements =
      (record { requirement = position manager; required_count = pos 1 }) ∷ [];
}

abbrev pub shelter_support : Event
shelter_support = record {
  id = "e1";
  type = disaster_shelter_support;
  name = "避難所応援";
  scheduled_date = 739000;
  status = collecting_declarations;
}

abbrev pub placed : Assignment
placed = record { event_id = "e1"; staff_id = "s1"; facility_id = "f1"; is_pinned = false }

abbrev metrics : TravelMetrics ℤ
metrics = record { distance_km = pos 3; time_seconds = pos 60; cost_yen = pos 0 }

abbrev pub parameters : OptimizationParameters ℤ
parameters = record {
  weights = record { travel_time = pos 1; travel_cost = pos 1; inequity = pos 1 };
  time_limit_seconds = pos 300;
  department_cap_limit = pos 1;
  allow_c3_demotion = true;
  random_seed = pos 0;
}

abbrev pub problem : AssignmentProblem ℤ
problem = record {
  event = shelter_support;
  facilities = school ∷ [];
  available_staff = sato ∷ suzuki ∷ [];
  travel_matrix = (("s1", "f1"), metrics) ∷ (("s2", "f1"), metrics) ∷ [];
  parameters = parameters;
  pinned_assignments = [];
}

abbrev pub answered : AvailabilityDeclaration
answered = record {
  staff_id = "s1";
  event_id = "e1";
  is_available = true;
  declared_at = 10;
  reason_category = none;
  other_reason_note = none;
}

abbrev pub withdrawn : AvailabilityDeclaration
withdrawn = record {
  staff_id = "s1";
  event_id = "e1";
  is_available = false;
  declared_at = 20;
  reason_category = some leave;
  other_reason_note = none;
}

abbrev pub reported_result : AssignmentResult ℤ
reported_result = record {
  event_id = "e1";
  assignments = placed ∷ [];
  objective_value = pos 120;
  optimality_gap = pos 0;
  solver_status = optimal;
  computed_at = 0;
  violations = [];
}
