-- ===== src/DataManagement/Imports/Parsed.antt =====
-- What an import reads: the columns and records of its file, and the ids that are stored.
use ai_dlc_test.Common.{
  ◌≡◌, refl, subst, ◌↔◌, inl, inr, Bool-cases, not, String, List, [], ◌∷◌, map, some, Option-cases,
  ok, >>=-eq-ok, select, All, In, Paired, each_iff,
}
use ai_dlc_test.DataManagement.Rows.{
  Cell, null, text, integer, floating, boolean, day, naive_datetime, aware_datetime, Row, column,
  as_str,
}
use ai_dlc_test.DataManagement.Repositories.{str_at}
use ai_dlc_test.DataManagement.Imports.{
  ParsedCsv, CsvReader, or_empty, is_known, if_none_missing, parse_csv, existing_ids,
}
use ai_dlc_test.DataManagement.Imports.Sets.{is_known_iff}

-- What the reader answers for a text, an empty value in place of one that is absent.
abbrev pub read : {Bytes : Type 0} → CsvReader Bytes → String → ParsedCsv
read csv source = record {
  fieldnames = (csv.dict_reader source).0;
  rows = map (λ r column. or_empty (r column)) (csv.dict_reader source).1;
}

none_missing :
    (fieldnames required : List String)
    → (select (λ column. not (is_known fieldnames column)) required ≡ [])
      ↔ All (λ column. In column fieldnames) required
unfolding select
none_missing fieldnames [] = (λ h. tt, λ a. refl)
none_missing fieldnames (column ∷ required) = elim (Bool-cases (is_known fieldnames column)) [
  | inl t ↦ (
    λ h. ((is_known_iff fieldnames column).0 t, (none_missing fieldnames required).0 (rw t at h)),
    λ a. rw t ((none_missing fieldnames required).1 a.1),
  )
  | inr f ↦ (λ h. cc (rw f at h), λ a. cc (f, (is_known_iff fieldnames column).1 a.0))
]

if_none_missing-ok :
    (p parsed : ParsedCsv) (missing : List String)
    → if_none_missing p missing ≡ ok parsed
    → (missing ≡ []) × (p ≡ parsed)
if_none_missing-ok p parsed [] h = (refl, cc)
if_none_missing-ok p parsed (c ∷ missing) h = cc

module _ {Bytes : Type 0} (csv : CsvReader Bytes) where
  -- The file is a text, and its fields hold every required column.
  abbrev pub IsParsed : Bytes → List String → ParsedCsv → Type 0
  IsParsed raw required parsed =
      (source : String) × (csv.decode raw ≡ some source)
      × (parsed ≡ read csv source)
      × All (λ column. In column parsed.fieldnames) required

  pub parse_csv_iff :
      (raw : Bytes) (required : List String) (parsed : ParsedCsv)
      → (parse_csv csv raw required ≡ ok parsed) ↔ IsParsed raw required parsed
  unfolding parse_csv
  parse_csv_iff raw required parsed = (forth, back)
    where
      forth : parse_csv csv raw required ≡ ok parsed → IsParsed raw required parsed
      forth h = elim (Option-cases (csv.decode raw)) [
        | inl n ↦ cc (rw n at h)
        | inr (source, s) ↦
            let (clean, same) = if_none_missing-ok (read csv source) parsed _ (rw s at h) in
            subst (IsParsed raw required) same
              (source, s, refl, (none_missing (csv.dict_reader source).0 required).0 clean)
      ]

      back : IsParsed raw required parsed → parse_csv csv raw required ≡ ok parsed
      back (source, s, same, all) =
          rw (s, (none_missing (csv.dict_reader source).0 required).1 (rw same at all), same) refl

module _ {F : Type 0} where
  -- The row holds the id.
  abbrev pub HasId : Row F → String → Type 0
  HasId row id = column row "id" ≡ ok (text id)

  as_str-text : (cell : Cell F) (id : String) → as_str cell ≡ ok id → cell ≡ text id
  unfolding as_str
  as_str-text (text s) id h = cc
  as_str-text null id h = cc h
  as_str-text (integer n) id h = cc h
  as_str-text (floating x) id h = cc h
  as_str-text (boolean b) id h = cc h
  as_str-text (day n) id h = cc h
  as_str-text (naive_datetime n) id h = cc h
  as_str-text (aware_datetime n) id h = cc h

  str_at_iff : (row : Row F) (id : String) → (str_at row "id" ≡ ok id) ↔ HasId row id
  unfolding as_str
  str_at_iff row id = (forth, back)
    where
      forth : str_at row "id" ≡ ok id → HasId row id
      forth h =
          let (cell, e, s) = >>=-eq-ok (column row "id") _ h in rw (e, as_str-text cell id s) refl

      back : HasId row id → str_at row "id" ≡ ok id
      back h = rw h refl

  pub existing_ids_iff :
      (table : List (Row F)) (ids : List String)
      → (existing_ids table ≡ ok ids) ↔ Paired HasId table ids
  unfolding existing_ids
  existing_ids_iff table ids = each_iff (λ row. str_at row "id") HasId str_at_iff table ids
