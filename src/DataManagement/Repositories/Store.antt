-- ===== src/DataManagement/Repositories/Store.antt =====
-- The tables of src/data_management/schema.py, each the list of its rows in the order in which a SELECT
-- hands them out, with the constraints that an INSERT meets.
use ai_dlc_test.Common.{
  ◌==◌, Bool, true, false, ◌&&◌, String, List, [], ◌∷◌, ◌++◌, Result, ok, err, any, str_eq,
  if◌then◌else◌,
}
use ai_dlc_test.SharedKernel.Enums.{qualifications}
use ai_dlc_test.Security.Store.{StoreError, integrity_error}
use ai_dlc_test.DataManagement.Rows.{Raised, Cell, text, naive_datetime, Row, column}
use ai_dlc_test.DataManagement.Names.{qualification_names}

pub record Tables (F : Type 0) : Type 0 where
  pub departments : List (Row F)
  pub school_districts : List (Row F)
  pub staff : List (Row F)
  pub staff_qualifications : List (Row F)
  pub facilities : List (Row F)
  pub facility_qualification_requirements : List (Row F)
  pub events : List (Row F)
  pub availability_declarations : List (Row F)

-- SQL's `=` between values of the columns that keys and queries compare: texts, and datetimes, which
-- are stored naive.
unfoldable pub same_cell : {F : Type 0} → Cell F → Cell F → Bool
same_cell (text a) (text b) = str_eq a b
same_cell (naive_datetime a) (naive_datetime b) = a == b
same_cell _ _ = false

abbrev pub same_result : {F : Type 0} → Result Raised (Cell F) → Result Raised (Cell F) → Bool
same_result (ok a) (ok b) = same_cell a b
same_result _ _ = false

module _ {F : Type 0} where
  -- The two rows agree in a column.
  abbrev pub same_column : String → Row F → Row F → Bool
  same_column key r s = same_result (column r key) (column s key)

  abbrev pub same_key : List String → Row F → Row F → Bool
  same_key [] r s = true
  same_key (key ∷ keys) r s = same_column key r s && same_key keys r s

  -- FOREIGN KEY (key) REFERENCES table (id)
  abbrev pub refers : List (String × List (Row F)) → Row F → Bool
  refers [] row = true
  refers ((key, table) ∷ refs) row =
      any (λ r. same_result (column row key) (column r "id")) table && refers refs row

  -- `_executemany`: an INSERT of rows, with the unique key and the foreign keys of the table.
  unfoldable pub insert_rows :
      List String
      → List (String × List (Row F))
      → List (Row F)
      → List (Row F)
      → Result StoreError (List (Row F))
  unfolding any same_cell column
  insert_rows keys refs table [] = ok table
  insert_rows keys refs table (row ∷ rows) =
      let rest = insert_rows keys refs (table ++ row ∷ []) rows in
      if any (same_key keys row) table
      then err integrity_error
      else if refers refs row
      then rest
      else err integrity_error
