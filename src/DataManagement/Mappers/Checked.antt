-- ===== src/DataManagement/Mappers/Checked.antt =====
-- Whatever stands in a row, a mapper answers an entity that passes its construction checks, or reports
-- the row as corrupt.
use ai_dlc_test.Common.{
  ◌≡◌, refl, ◌∙◌, ◌⊎◌, inl, inr, String, List, Result, ok, err, >>=-eq-ok, ok-injective,
  Result-cases, ap, ◌>>=◌,
}
use ai_dlc_test.SharedKernel.Exceptions.{DomainError}
use ai_dlc_test.SharedKernel.Entities.{Facility, QualificationRequirement, AvailabilityDeclaration}
use ai_dlc_test.SharedKernel.Entities.FacilityRules.{facility_post_init_iff, IsStaffable}
use ai_dlc_test.SharedKernel.Entities.DeclarationRules.{
  declaration_post_init, declaration_post_init_iff, IsConsistent,
}
use ai_dlc_test.DataManagement.Rows.{
  Raised, data_integrity_error, Row, column, as_int, as_str, as_bool, as_utc_datetime, optional,
  guarded, constructed, safe_id,
}
use ai_dlc_test.DataManagement.Mappers.{row_to_facility, row_to_declaration, text_at, as_reason}

module _ {A : Type 0} where
  constructed-ok :
      (check : Result DomainError (Unit {0})) (a b : A)
      → constructed check a ≡ ok b
      → (check ≡ ok tt) × (a ≡ b)
  constructed-ok (ok done) a b h = (refl, ok-injective h)
  constructed-ok (err e) a b h = cc

  guarded-ok :
      (entity id : String) (r : Result Raised A) (a : A) → guarded entity id r ≡ ok a → r ≡ ok a
  guarded-ok entity id (ok b) a h = h
  guarded-ok entity id (err e) a h = cc

  guarded-err :
      (entity id : String) (r : Result Raised A) (raised : Raised)
      → guarded entity id r ≡ err raised
      → guarded entity id r
        ≡ err (data_integrity_error (record { entity = entity; entity_id = id }))
  guarded-err entity id (ok a) raised h = cc
  guarded-err entity id (err e) raised h = refl

-- The identifier of a facility that is read is the one of its row.
pub row_to_facility-id :
    {F : Type 0} (row : Row F) (requirements : List QualificationRequirement) (f : Facility)
    → row_to_facility row requirements ≡ ok f
    → text_at row "id" ≡ ok f.id
unfolding row_to_facility
row_to_facility-id row requirements f h =
    let (id, e, h1) = >>=-eq-ok (text_at row "id") _ (guarded-ok "facility" _ _ f h) in
    let (name, _, h2) = >>=-eq-ok (text_at row "name") _ h1 in
    let (district_id, _, h3) = >>=-eq-ok (text_at row "district_id") _ h2 in
    let (headcount, _, h4) =
      >>=-eq-ok (column row "required_headcount" >>= λ cell. as_int cell) _ h3 in
    let (_, q) = constructed-ok _ _ f h4 in e ∙ ap (λ (x : Facility). ok x.id) q

facility_failed :
    {F : Type 0} (row : Row F) (requirements : List QualificationRequirement) (raised : Raised)
    → row_to_facility row requirements ≡ err raised
    → row_to_facility row requirements
      ≡ err (data_integrity_error (record { entity = "facility"; entity_id = safe_id row "id" }))
unfolding row_to_facility
facility_failed row requirements raised h = guarded-err "facility" _ _ raised h

facility_read :
    {F : Type 0} (row : Row F) (requirements : List QualificationRequirement) (f : Facility)
    → row_to_facility row requirements ≡ ok f
    → IsStaffable f
unfolding row_to_facility
facility_read row requirements f h =
    let (id, _, h1) = >>=-eq-ok (text_at row "id") _ (guarded-ok "facility" _ _ f h) in
    let (name, _, h2) = >>=-eq-ok (text_at row "name") _ h1 in
    let (district_id, _, h3) = >>=-eq-ok (text_at row "district_id") _ h2 in
    let (headcount, _, h4) =
      >>=-eq-ok (column row "required_headcount" >>= λ cell. as_int cell) _ h3 in
    let (valid, e) = constructed-ok _ _ f h4 in rw (← e) ((facility_post_init_iff _).0 valid)

-- Whatever a row of the facilities holds, reading it answers a facility with a headcount of at
-- least 1, no requirement twice and required counts that sum to at most the headcount, or it fails
-- with the error of corrupt data for that facility.
pub row_to_facility-IsStaffable :
    {F : Type 0} (row : Row F) (requirements : List QualificationRequirement)
    → ((f : Facility) × (row_to_facility row requirements ≡ ok f) × IsStaffable f)
      ⊎ (row_to_facility row requirements
          ≡ err
              (data_integrity_error (record { entity = "facility"; entity_id = safe_id row "id" })))
row_to_facility-IsStaffable row requirements =
    elim (Result-cases (row_to_facility row requirements)) [
      | inl (f, e) ↦ inl (f, e, facility_read row requirements f e)
      | inr (raised, e) ↦ inr (facility_failed row requirements raised e)
    ]

-- A declaration that is read from a row, whatever the row holds, carries a reason and a note that
-- agree with its answer.
pub row_to_declaration-IsConsistent :
    {F : Type 0} (row : Row F) (d : AvailabilityDeclaration)
    → row_to_declaration row ≡ ok d
    → IsConsistent d.is_available d.reason_category d.other_reason_note
unfolding row_to_declaration
row_to_declaration-IsConsistent row d h =
    let (reason_raw, _, h1) =
      >>=-eq-ok (column row "reason_category") _ (guarded-ok "availability_declaration" _ _ d h) in
    let (reason, _, h2) = >>=-eq-ok (optional as_reason reason_raw) _ h1 in
    let (note_raw, _, h3) = >>=-eq-ok (column row "other_reason_note") _ h2 in
    let (note, _, h4) = >>=-eq-ok (optional as_str note_raw) _ h3 in
    let (staff_id, _, h5) = >>=-eq-ok (text_at row "staff_id") _ h4 in
    let (event_id, _, h6) = >>=-eq-ok (text_at row "event_id") _ h5 in
    let (is_available, _, h7) =
      >>=-eq-ok (column row "is_available" >>= λ cell. as_bool cell) _ h6 in
    let (declared_at, _, h8) =
      >>=-eq-ok (column row "declared_at" >>= λ cell. as_utc_datetime cell) _ h7 in
    let read : AvailabilityDeclaration = record {
      staff_id = staff_id;
      event_id = event_id;
      is_available = is_available;
      declared_at = declared_at;
      reason_category = reason;
      other_reason_note = note;
    } in
    let (valid, e) = constructed-ok (declaration_post_init read) read d h8 in
    rw (← e) ((declaration_post_init_iff read).0 valid)
