-- ===== src/DataManagement/Imports.antt =====
-- `MasterDataService.import_staff` of src/data_management/services.py, with `parse_csv` of
-- src/data_management/csv_codec.py. The decoder and the reader of CSV belong to Python and are
-- parameters: a reader answers the names of the columns and, for each record, the value in a column,
-- none where the record is too short for it.
pub mod Cells
pub mod Sets
pub mod Parsed
pub mod Described
pub mod Accepted
pub mod Reported
use Prim.Native.Char.{Char}
use ai_dlc_test.Common.{
  ℕ, suc, Bool, not, String, List, [], ◌∷◌, map, Option, none, some, Result, ok, err, ◌>>=◌, ◌>>◌,
  each, any, select, str_eq, if◌then◌else◌,
}
use ai_dlc_test.SharedKernel.Enums.{
  JobType, job_types, Position, positions, Qualification, qualifications, from_japanese,
}
use ai_dlc_test.SharedKernel.Exceptions.{DomainError}
use ai_dlc_test.SharedKernel.Entities.{Staff, staff_post_init}
use ai_dlc_test.Security.Store.{StoreError}
use ai_dlc_test.DataManagement.Rows.{Raised, Row}
use ai_dlc_test.DataManagement.Repositories.{Tables, insert_staff, add_qualification, str_at}
use ai_dlc_test.DataManagement.Imports.Cells.{split_list}

-- What the message of a row error says.
pub data Problem : Type 0 where
  not_utf8 : Problem
  missing_columns : List String → Problem
  duplicate_id unknown_district unknown_department : String → Problem
  rejected : String → DomainError → Problem

pub record RowError : Type 0 where
  pub line : ℕ
  pub problem : Problem

-- What an import raises: `CsvImportError`, or what the database does.
pub data ImportError : Type 0 where
  csv_import_error : List RowError → ImportError
  store_error : StoreError → ImportError
  read_error : Raised → ImportError

-- A record by the names of its columns.
abbrev pub Record : Type 0
Record = String → String

abbrev pub or_empty : Option String → String
or_empty none = ""
or_empty (some value) = value

pub record ParsedCsv : Type 0 where
  pub fieldnames : List String
  pub rows : List Record

-- `value in values`, of texts
unfoldable pub is_known : List String → String → Bool
unfolding any
is_known values value = any (str_eq value) values

abbrev pub if_none_missing : ParsedCsv → List String → Result ImportError ParsedCsv
if_none_missing parsed [] = ok parsed
if_none_missing parsed (column ∷ missing) =
    err
      (csv_import_error ((record { line = 1; problem = missing_columns (column ∷ missing) }) ∷ []))

-- The two calls of Python that `parse_csv` makes.
pub record CsvReader (Bytes : Type 0) : Type 0 where
  pub decode : Bytes → Option String
  pub dict_reader : String → List String × List (String → Option String)

module _ {Bytes : Type 0} (csv : CsvReader Bytes) where
  abbrev pub parse_text : List String → Option String → Result ImportError ParsedCsv
  parse_text required none = err (csv_import_error ((record { line = 1; problem = not_utf8 }) ∷ []))
  parse_text required (some text) =
      let (fieldnames, records) = csv.dict_reader text in
      if_none_missing
        (record { fieldnames = fieldnames; rows = map (λ r column. or_empty (r column)) records })
        (select (λ column. not (is_known fieldnames column)) required)

  unfoldable pub parse_csv : Bytes → List String → Result ImportError ParsedCsv
  unfolding is_known select
  parse_csv raw required = parse_text required (csv.decode raw)

-- `frozenset(...)`
unfoldable pub frozenset : List Qualification → List Qualification → List Qualification
unfolding add_qualification
frozenset held [] = held
frozenset held (q ∷ qs) = frozenset (add_qualification q held) qs

unfoldable pub existing_ids : {F : Type 0} → List (Row F) → Result Raised (List String)
unfolding each
existing_ids table = each (λ row. str_at row "id") table

abbrev pub raised_for : String → {A : Type 0} → Result DomainError A → Result Problem A
raised_for staff_id (err e) = err (rejected staff_id e)
raised_for staff_id (ok a) = ok a

abbrev pub staff_columns : List String
staff_columns = "職員ID" ∷ "氏名" ∷ "所属部署ID" ∷ "職種" ∷ "役職" ∷ "居住小学校区ID" ∷ "資格" ∷ []

-- `errors.append` or `members.append`, in front of what the rows after this one append.
abbrev pub collect :
    ℕ → Result Problem Staff → List RowError × List Staff → List RowError × List Staff
collect line (err p) rest = ((record { line = line; problem = p }) ∷ rest.0, rest.1)
collect line (ok member) rest = (rest.0, member ∷ rest.1)

abbrev pub read_ids : Result Raised (List String) → Result ImportError (List String)
read_ids (err e) = err (read_error e)
read_ids (ok ids) = ok ids

abbrev pub committed :
    {F : Type 0} → Result StoreError (Tables F × ℕ) → Result ImportError (Tables F × ℕ)
committed (err e) = err (store_error e)
committed (ok done) = ok done

abbrev pub persist :
    {F : Type 0} → Tables F → List RowError × List Staff → Result ImportError (Tables F × ℕ)
persist t ([], members) = committed (insert_staff members t)
persist t (e ∷ errors, members) = err (csv_import_error (e ∷ errors))

module _ (is_space : Char → Bool) where
  unfoldable pub build_staff : Record → Result DomainError Staff
  unfolding split_list each frozenset from_japanese staff_post_init
  build_staff row = do
    held ← each (λ label. from_japanese {A = Qualification} label) (split_list is_space (row "資格"))
    job_type ← from_japanese {A = JobType} (row "職種")
    position ← from_japanese {A = Position} (row "役職")
    let member : Staff = record {
      id = row "職員ID";
      name = row "氏名";
      department_id = row "所属部署ID";
      job_type = job_type;
      position = position;
      residence_district_id = row "居住小学校区ID";
      qualifications = frozenset [] held;
    } in
        staff_post_init member >> ok member

  -- The body of the loop after the check for a duplicate.
  unfoldable pub staff_from_row : List String → List String → Record → Result Problem Staff
  unfolding is_known build_staff
  staff_from_row districts departments row =
      if not (is_known districts (row "居住小学校区ID"))
      then err (unknown_district (row "居住小学校区ID"))
      else if not (is_known departments (row "所属部署ID"))
      then err (unknown_department (row "所属部署ID"))
      else raised_for (row "職員ID") (build_staff row)

  -- The loop over the rows.
  unfoldable pub staff_rows :
      List String → List String → List String → ℕ → List Record → List RowError × List Staff
  unfolding is_known staff_from_row
  staff_rows districts departments seen line [] = ([], [])
  staff_rows districts departments seen line (row ∷ rows) =
      let id = row "職員ID" in
      let repeated = is_known seen id in
      let rest =
        staff_rows districts departments (if repeated then seen else id ∷ seen) (suc line) rows in
      if repeated
      then collect line (err (duplicate_id id)) rest
      else collect line (staff_from_row districts departments row) rest

  module _ {Bytes F : Type 0} (csv : CsvReader Bytes) where
    unfoldable pub import_staff : Bytes → Tables F → Result ImportError (Tables F × ℕ)
    unfolding parse_csv existing_ids staff_rows insert_staff
    import_staff raw t = do
      parsed ← parse_csv csv raw staff_columns
      districts ← read_ids (existing_ids t.school_districts)
      departments ← read_ids (existing_ids t.departments)
      persist t (staff_rows districts departments [] 2 parsed.rows)
