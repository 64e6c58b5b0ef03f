-- ===== src/Tests/Masters.antt =====
-- Sample rows of the database, and functions in the place of Python's `math`.
use ai_dlc_test.Common.{
  ◌≡◌, refl, ap, List, [], ◌∷◌, map, none, ok, All, In, Distinct, arith, str_eq→ne, inl, inr,
}
use ai_dlc_test.Common.Int.{ℤ, pos}
use ai_dlc_test.SharedKernel.CostModel.{TravelParameters, flat}
use ai_dlc_test.SharedKernel.Entities.{AvailabilityDeclaration, SchoolDistrict, Staff}
use ai_dlc_test.SharedKernel.Entities.DeclarationRules.{declaration_post_init}
use ai_dlc_test.Distance.{Trigonometry}
use ai_dlc_test.DataManagement.Mappers.{
  staff_to_row, staff_qualification_rows, facility_to_row, facility_requirement_rows, event_to_row,
  school_district_to_row,
}
use ai_dlc_test.DataManagement.Repositories.{Tables}
use ai_dlc_test.DataManagement.Repositories.Masters.{IsKeyed}
use ai_dlc_test.DataManagement.Repositories.Effective.{History, IsUnique, row}
use ai_dlc_test.Tests.Samples.{whole, sato, suzuki, school, shelter_support, answered, withdrawn}

abbrev pub flat_earth : Trigonometry ℤ
flat_earth = record {
  radians = λ x. x;
  sin = λ x. x;
  cos = λ x. x;
  asin = λ x. x;
  sqrt = λ x. x;
  square = λ x. x;
}

abbrev pub on_foot : TravelParameters ℤ
on_foot = record {
  detour_factor = pos 1;
  average_speed_kmh = pos 4;
  same_district_fixed_seconds = pos 600;
  cost_model = (record { upper_bound_km = none; rule = flat; amount_yen = pos 0 }) ∷ [];
}

abbrev pub north : SchoolDistrict ℤ
north = record {
  id = "r1";
  name = "北";
  representative_point = record { latitude = pos 35; longitude = pos 139 };
}

abbrev pub south : SchoolDistrict ℤ
south = record {
  id = "r2";
  name = "南";
  representative_point = record { latitude = pos 34; longitude = pos 139 };
}

abbrev pub history : History
history = answered ∷ withdrawn ∷ []

abbrev pub members : List Staff
members = sato ∷ suzuki ∷ []

abbrev pub masters : Tables ℤ
masters = record {
  departments = [];
  school_districts = school_district_to_row whole north ∷ school_district_to_row whole south ∷ [];
  staff = map staff_to_row members;
  staff_qualifications = staff_qualification_rows sato;
  facilities = facility_to_row school ∷ [];
  facility_qualification_requirements = facility_requirement_rows school;
  events = event_to_row shelter_support ∷ [];
  availability_declarations = map (row ℤ) history;
}

pub history-All : All (λ d. declaration_post_init d ≡ ok tt) history
unfolding declaration_post_init
history-All = (refl, (refl, tt))

pub history-IsUnique : IsUnique history
history-IsUnique = (
  λ x m e q. elim m [
    | inl p ↦ absurd (omega (arith, q, ap (λ (d : AvailabilityDeclaration). d.declared_at) p))
    | inr n ↦ absurd n
  ],
  (λ x m. absurd m, tt),
)

pub facilities-IsKeyed : IsKeyed ("id" ∷ []) masters.facilities
facilities-IsKeyed = (λ s m. absurd m, tt)

pub members-Distinct : Distinct (map (λ (m : Staff). m.id) members)
members-Distinct = ground (arith, str_eq→ne "s1" "s2" refl)

pub districts-Distinct : Distinct (map (λ (d : SchoolDistrict ℤ). d.id) (north ∷ south ∷ []))
districts-Distinct = ground (arith, str_eq→ne "r1" "r2" refl)

pub history-known :
    (d : AvailabilityDeclaration) → In d history → In d.staff_id (map (λ (m : Staff). m.id) members)
history-known d (inl p) = inl (ap (λ (x : AvailabilityDeclaration). x.staff_id) p)
history-known d (inr (inl p)) = inl (ap (λ (x : AvailabilityDeclaration). x.staff_id) p)
history-known d (inr (inr m)) = absurd m
