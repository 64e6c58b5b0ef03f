-- ===== src/DataManagement/Imports/Accepted.antt =====
-- What an import of staff accepts, and what it reports of a file that it does not.
use Prim.Native.Char.{Char}
use ai_dlc_test.Common.{ℕ, ◌≡◌, Bool, String, List, map, ok, Distinct, Paired}
use ai_dlc_test.SharedKernel.Entities.{Staff}
use ai_dlc_test.DataManagement.Repositories.{Tables, insert_staff}
use ai_dlc_test.DataManagement.Imports.{Record, ParsedCsv, CsvReader, staff_columns}
use ai_dlc_test.DataManagement.Imports.Parsed.{IsParsed, HasId}
use ai_dlc_test.DataManagement.Imports.Described.{IsStaffOf}

abbrev ids : List Record → List String
ids rows = map (λ row. row "職員ID") rows

module _ (is_space : Char → Bool) {Bytes F : Type 0} (csv : CsvReader Bytes) where
  -- The file has the columns, the ids of its rows are distinct, the ids of the masters can be read,
  -- every row describes a member of the staff, and the database takes the members.
  abbrev pub Accepts : Bytes → Tables F → Tables F → ℕ → Type 0
  Accepts raw t after n =
      (parsed : ParsedCsv) × (districts : List String) × (departments : List String)
      × (members : List Staff) × IsParsed csv raw staff_columns parsed
      × Paired HasId t.school_districts districts
      × Paired HasId t.departments departments
      × Distinct (ids parsed.rows)
      × Paired (IsStaffOf is_space districts departments) parsed.rows members
      × (insert_staff members t ≡ ok (after, n))
