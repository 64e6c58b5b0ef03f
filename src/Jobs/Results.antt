-- ===== src/Jobs/Results.antt =====
-- src/optimization_engine/repository.py, and the reads and writes of assignments in
-- src/api_orchestration/services.py. Each function is one transaction: where an insert is refused,
-- nothing of it is kept. The list of a table holds its rows as they were inserted, and the order of a
-- SELECT is a parameter of the function that runs it. The row of a violation is named by its result and index.
pub mod Repeated
use ai_dlc_test.Common.{
  ℕ, suc, Bool, true, false, not, ◌&&◌, String, List, [], ◌∷◌, ◌++◌, Result, ok, err, ◌>>=◌, any,
  select, str_eq, if◌then◌else◌,
}
use ai_dlc_test.SharedKernel.Enums.{SolverStatus}
use ai_dlc_test.SharedKernel.Entities.{Assignment}
use ai_dlc_test.SharedKernel.Problem.{AssignmentResult, ConstraintViolation, ConstraintId, Detail}
use ai_dlc_test.Security.Store.{StoreError, integrity_error}

pub record ResultRow (F : Type 0) : Type 0 where
  pub id : String
  pub event_id : String
  pub objective_value : F
  pub solver_status : SolverStatus
  pub created_at : ℕ

pub record ViolationRow : Type 0 where
  pub result_id : String
  pub index : ℕ
  pub constraint_id : ConstraintId
  pub detail : Detail

-- The tables, with the identifiers that the foreign keys refer to.
pub record Tables (F : Type 0) : Type 0 where
  pub event_ids : List String
  pub staff_ids : List String
  pub facility_ids : List String
  pub assignment_results : List (ResultRow F)
  pub assignments : List Assignment
  pub constraint_violations : List ViolationRow

-- PRIMARY KEY (event_id, staff_id)
abbrev pub same_place : Assignment → Assignment → Bool
same_place a b = str_eq a.event_id b.event_id && str_eq a.staff_id b.staff_id

-- `a.event_id == event_id`
abbrev pub is_of : String → Assignment → Bool
is_of event_id a = str_eq a.event_id event_id

module _ {F : Type 0} (tables : Tables F) where
  abbrev pub refers : Assignment → Bool
  refers a =
      any (str_eq a.event_id) tables.event_ids
      && (any (str_eq a.staff_id) tables.staff_ids
          && any (str_eq a.facility_id) tables.facility_ids)

  -- The INSERT of a list of rows into `assignments`.
  unfoldable pub insert_assignments :
      List Assignment → List Assignment → Result StoreError (List Assignment)
  unfolding any
  insert_assignments [] rows = ok rows
  insert_assignments (a ∷ as_) rows =
      let rest = insert_assignments as_ (rows ++ a ∷ []) in
      if any (same_place a) rows
      then err integrity_error
      else if refers a
      then rest
      else err integrity_error

  unfoldable pub insert_result : ResultRow F → Result StoreError (List (ResultRow F))
  unfolding any
  insert_result row =
      if any (λ (r : ResultRow F). str_eq r.id row.id) tables.assignment_results
      then err integrity_error
      else if any (str_eq row.event_id) tables.event_ids
      then ok (tables.assignment_results ++ row ∷ [])
      else err integrity_error

  -- The rows of `enumerate(result.violations)`; their result is new, so no key repeats.
  unfoldable pub violation_rows : String → ℕ → List ConstraintViolation → List ViolationRow
  violation_rows result_id index [] = []
  violation_rows result_id index (v ∷ vs) =
      (record {
        result_id = result_id;
        index = index;
        constraint_id = v.constraint_id;
        detail = v.detail;
      })
      ∷ violation_rows result_id (suc index) vs

  unfoldable pub save_assignment_result :
      AssignmentResult F → String → ℕ → Result StoreError (Tables F)
  unfolding insert_result insert_assignments violation_rows
  save_assignment_result result result_id created_at = do
    results ← insert_result (record {
      id = result_id;
      event_id = result.event_id;
      objective_value = result.objective_value;
      solver_status = result.solver_status;
      created_at = created_at;
    })
    rows ← insert_assignments result.assignments tables.assignments
    ok (record tables {
      assignment_results = results;
      assignments = rows;
      constraint_violations =
          tables.constraint_violations ++ violation_rows result_id 0 result.violations;
    })

  -- `Services.load_assignments`. The SELECT has no ORDER BY: `hand_out` puts the rows that match into
  -- the order in which the database hands them out.
  unfoldable pub load_assignments : (List Assignment → List Assignment) → String → List Assignment
  unfolding select
  load_assignments hand_out event_id = hand_out (select (is_of event_id) tables.assignments)

  -- `Services.save_assignments`: the rows of the event are deleted, and the new ones inserted.
  unfoldable pub save_assignments : String → List Assignment → Result StoreError (Tables F)
  unfolding select insert_assignments
  save_assignments event_id assignments = do
    rows ← insert_assignments assignments (select (λ a. not (is_of event_id a)) tables.assignments)
    ok (record tables { assignments = rows })
