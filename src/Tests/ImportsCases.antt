-- ===== src/Tests/ImportsCases.antt =====
-- The import of staff at a concrete file.
use Prim.Native.Char.{Char}
use ai_dlc_test.Common.{
  ℕ, ◌≡◌, refl, ◌↔◌, ◌⊎◌, In, Bool, false, String, err, List, [], ◌∷◌, Option, none, some, ok,
  str_eq, if◌then◌else◌,
}
use ai_dlc_test.Common.Int.{ℤ}
use ai_dlc_test.DataManagement.Repositories.{Tables}
use ai_dlc_test.DataManagement.Mappers.{
  school_district_to_row, department_to_row, staff_to_row, staff_qualification_rows,
}
use ai_dlc_test.DataManagement.Rows.{as_str, column}
use ai_dlc_test.DataManagement.Imports.{
  CsvReader, ParsedCsv, RowError, csv_import_error, or_empty, parse_csv, existing_ids, import_staff,
  staff_columns,
}
use ai_dlc_test.DataManagement.Imports.Reported.{FaultyAt, reported, import_staff-reported}
use ai_dlc_test.Tests.Samples.{sato}
use ai_dlc_test.Tests.Masters.{masters}

abbrev cells : List (String × String) → String → Option String
cells [] column = none
cells ((key, value) ∷ rest) column = if str_eq key column then some value else cells rest column

abbrev sato_record : String → Option String
sato_record = cells (
    ("職員ID", "s1")
    ∷ ("氏名", "佐藤")
    ∷ ("所属部署ID", "d1")
    ∷ ("職種", "事務職")
    ∷ ("役職", "管理職")
    ∷ ("居住小学校区ID", "r1")
    ∷ ("資格", "防災士")
    ∷ [])

abbrev one_row : CsvReader String
one_row = record {
  decode = λ raw. some raw;
  dict_reader = λ text. (staff_columns, sato_record ∷ []);
}

abbrev unstaffed : Tables ℤ
unstaffed = record masters {
  departments =
      department_to_row (record { id = "d1"; name = "総務"; concurrent_assignment_cap = none }) ∷ [];
  staff = [];
  staff_qualifications = [];
}

abbrev staffed : Tables ℤ
staffed = record unstaffed {
  staff = staff_to_row sato ∷ [];
  staff_qualifications = staff_qualification_rows sato;
}

abbrev no_space : Char → Bool
no_space c = false

imported_staff : import_staff no_space one_row "file" unstaffed ≡ ok (staffed, 1)
unfolding import_staff school_district_to_row department_to_row as_str
imported_staff = refl

-- The same record twice.
abbrev two_rows : CsvReader String
two_rows = record {
  decode = λ raw. some raw;
  dict_reader = λ text. (staff_columns, sato_record ∷ sato_record ∷ []);
}

abbrev parsed_twice : ParsedCsv
parsed_twice = record {
  fieldnames = staff_columns;
  rows = (λ column. or_empty (sato_record column)) ∷ (λ column. or_empty (sato_record column)) ∷ [];
}

parsed : parse_csv two_rows "file" staff_columns ≡ ok parsed_twice
unfolding parse_csv
parsed = refl

read_districts : existing_ids unstaffed.school_districts ≡ ok ("r1" ∷ "r2" ∷ [])
unfolding existing_ids school_district_to_row as_str column
read_districts = refl

read_departments : existing_ids unstaffed.departments ≡ ok ("d1" ∷ [])
unfolding existing_ids department_to_row as_str column
read_departments = refl

import_staff-reported_example :
    ((k : ℕ) → ¬ FaultyAt no_space ("r1" ∷ "r2" ∷ []) ("d1" ∷ []) [] 2 parsed_twice.rows k)
    ⊎ ((errors : List RowError) × (import_staff no_space two_rows "file" unstaffed
          ≡ err (csv_import_error errors))
        × ((k : ℕ)
            → In k (reported errors)
              ↔ FaultyAt no_space ("r1" ∷ "r2" ∷ []) ("d1" ∷ []) [] 2 parsed_twice.rows k))
import_staff-reported_example =
    import_staff-reported no_space two_rows "file" unstaffed parsed_twice ("r1" ∷ "r2" ∷ [])
      ("d1" ∷ []) parsed read_districts read_departments
