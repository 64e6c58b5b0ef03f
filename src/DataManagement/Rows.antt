-- ===== src/DataManagement/Rows.antt =====
-- What the driver of the database hands back, and the coercions of src/data_management/mappers.py.
-- A row is its columns with their values; of an aware datetime the instant is kept.
use ai_dlc_test.Common.{
  ℕ, Bool, String, List, Option, none, some, Result, ok, err, ◌>>=◌, str_eq, find_first,
}
use ai_dlc_test.Common.Int.{ℤ}
use ai_dlc_test.Common.Float.{Floats}
use ai_dlc_test.SharedKernel.Exceptions.{DomainError}

-- The context of `DataIntegrityError`.
pub record Corrupt : Type 0 where
  pub entity : String
  pub entity_id : String

-- The exceptions of the mappers and of the queries that use them.
pub data Raised : Type 0 where
  key_error value_error type_error : Raised
  domain_error : DomainError → Raised
  data_integrity_error : Corrupt → Raised

-- `object`, as far as the mappers tell values apart.
pub data Cell (F : Type 0) : Type 0 where
  null : Cell F
  text : String → Cell F
  integer : ℤ → Cell F
  floating : F → Cell F
  boolean : Bool → Cell F
  day : ℕ → Cell F
  naive_datetime : ℕ → Cell F
  aware_datetime : ℕ → Cell F

abbrev pub Row : Type 0 → Type 0
Row F = List (String × Cell F)

abbrev value_of : {F : Type 0} → Option (String × Cell F) → Result Raised (Cell F)
value_of none = err key_error
value_of (some (key, value)) = ok value

module _ {F : Type 0} where
  -- `mapping[key]`
  unfoldable pub column : Row F → String → Result Raised (Cell F)
  unfolding find_first
  column row key = value_of (find_first (λ (entry : String × Cell F). str_eq entry.0 key) row)

  unfoldable pub as_str : Cell F → Result Raised String
  as_str (text s) = ok s
  as_str _ = err type_error

  unfoldable pub as_int : Cell F → Result Raised ℤ
  as_int (integer n) = ok n
  as_int _ = err type_error

  unfoldable pub as_bool : Cell F → Result Raised Bool
  as_bool (boolean b) = ok b
  as_bool _ = err type_error

  unfoldable pub as_date : Cell F → Result Raised ℕ
  as_date (day d) = ok d
  as_date _ = err type_error

  -- A naive datetime is read as UTC.
  unfoldable pub as_utc_datetime : Cell F → Result Raised ℕ
  as_utc_datetime (naive_datetime t) = ok t
  as_utc_datetime (aware_datetime t) = ok t
  as_utc_datetime _ = err type_error

  -- `None if raw is None else read(raw)`
  abbrev pub optional :
      {A : Type 0} → (Cell F → Result Raised A) → Cell F → Result Raised (Option A)
  optional read null = ok none
  optional read cell = read cell >>= λ a. ok (some a)

  abbrev id_or_unknown : Result Raised (Cell F) → String
  id_or_unknown (ok (text s)) = s
  id_or_unknown _ = "<unknown>"

  -- `_safe_id`
  unfoldable pub safe_id : Row F → String → String
  unfolding column
  safe_id row key = id_or_unknown (column row key)

-- `float(value)`: an integer is converted.
unfoldable pub as_float : (fl : Floats) → Cell fl.Float → Result Raised fl.Float
as_float fl (integer n) = ok (fl.of_int n)
as_float fl (floating x) = ok x
as_float fl _ = err type_error

-- The `except` of the row mappers, which catches every exception that a mapper can raise.
abbrev pub guarded : {A : Type 0} → String → String → Result Raised A → Result Raised A
guarded entity id (ok a) = ok a
guarded entity id (err raised) =
    err (data_integrity_error (record { entity = entity; entity_id = id }))

-- `__post_init__` inside the `try`
abbrev pub constructed : {A : Type 0} → Result DomainError (Unit {0}) → A → Result Raised A
constructed (ok done) a = ok a
constructed (err e) a = err (domain_error e)
