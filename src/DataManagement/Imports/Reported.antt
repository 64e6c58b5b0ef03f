-- ===== src/DataManagement/Imports/Reported.antt =====
-- The row errors of an import of staff.
use Prim.Native.Char.{Char}
use ai_dlc_test.Common.{
  ℕ, suc, ◌≡◌, refl, ◌↔◌, ◌⊎◌, inl, inr, Bool, true, Bool-cases, String, List, [], ◌∷◌, map, ok,
  err, Result-cases, In, if◌then◌else◌,
}
use ai_dlc_test.SharedKernel.Entities.{Staff}
use ai_dlc_test.DataManagement.Repositories.{Tables}
use ai_dlc_test.DataManagement.Imports.{
  Record, RowError, Problem, ParsedCsv, CsvReader, csv_import_error, is_known, staff_from_row,
  staff_rows, staff_columns, parse_csv, existing_ids, persist, import_staff,
}
use ai_dlc_test.DataManagement.Imports.Sets.{is_known_iff}

-- The lines that the errors name.
abbrev pub reported : List RowError → List ℕ
reported errors = map (λ (e : RowError). e.line) errors

-- The set of the ids seen, after one more.
seen_next :
    (seen : List String) (id x : String)
    → In x (if is_known seen id then seen else id ∷ seen) ↔ In x (id ∷ seen)
seen_next seen id x = elim (Bool-cases (is_known seen id)) [
  | inl t ↦ (λ m. inr (rw t at m), λ m. rw t (merged t m))
  | inr f ↦ (λ m. rw f at m, λ m. rw f m)
]
  where
    merged : is_known seen id ≡ true → In x (id ∷ seen) → In x seen
    merged t (inl e) = rw e ((is_known_iff seen id).0 t)
    merged t (inr m) = m

module _ (is_space : Char → Bool) (districts departments : List String) where
  -- Row `row`, whose id is among `seen`, or which makes no member of the staff.
  abbrev pub IsFaulty : List String → Record → Type 0
  IsFaulty seen row =
      In (row "職員ID") seen
      ⊎ ((p : Problem) × (staff_from_row is_space districts departments row ≡ err p))

  -- Line `k` is that of a faulty row, where the first of the rows is on `line` and the ids `seen` came before.
  abbrev pub FaultyAt : List String → ℕ → List Record → ℕ → Type 0
  FaultyAt seen line [] k = ⊥
  FaultyAt seen line (row ∷ rows) k =
      ((k ≡ line) × IsFaulty seen row) ⊎ FaultyAt (row "職員ID" ∷ seen) (suc line) rows k

  same_seen :
      (s s' : List String) (line : ℕ) (rows : List Record) (k : ℕ)
      → ((x : String) → In x s → In x s')
      → FaultyAt s line rows k
      → FaultyAt s' line rows k
  same_seen s s' line [] k le h = h
  same_seen s s' line (row ∷ rows) k le (inl (e, inl m)) = inl (e, inl (le (row "職員ID") m))
  same_seen s s' line (row ∷ rows) k le (inl (e, inr p)) = inl (e, inr p)
  same_seen s s' line (row ∷ rows) k le (inr h) =
      inr (same_seen (row "職員ID" ∷ s) (row "職員ID" ∷ s') (suc line) rows k (cons_le le) h)
    where
      cons_le :
          ((x : String) → In x s → In x s')
          → (x : String) → In x (row "職員ID" ∷ s)
          → In x (row "職員ID" ∷ s')
      cons_le le x (inl e) = inl e
      cons_le le x (inr m) = inr (le x m)

  rest_of :
      (seen : List String) (line : ℕ) (row : Record) (rows : List Record)
      → List RowError × List Staff
  rest_of seen line row rows =
      staff_rows is_space districts departments
        (if is_known seen (row "職員ID") then seen else row "職員ID" ∷ seen) (suc line) rows

  -- The line of a row is reported exactly where the row is faulty, and the other lines are those of the rest.
  first-reported :
      (seen : List String) (line : ℕ) (row : Record) (rows : List Record) (k : ℕ)
      → In k (reported (staff_rows is_space districts departments seen line (row ∷ rows)).0)
        ↔ (((k ≡ line) × IsFaulty seen row) ⊎ In k (reported (rest_of seen line row rows).0))
  unfolding staff_rows rest_of
  first-reported seen line row rows k = elim (Bool-cases (is_known seen (row "職員ID"))) [
    | inl t ↦ rw t (
      λ m. elim m [ inl e ↦ inl (e, inl ((is_known_iff seen (row "職員ID")).0 t)) | inr n ↦ inr n ],
      λ h. elim h [ inl (e, f) ↦ inl e | inr n ↦ inr n ],
    )
    | inr f ↦ elim (Result-cases (staff_from_row is_space districts departments row)) [
      | inr (p, q) ↦
          rw (f, q)
            (
              λ m. elim m [ inl e ↦ inl (e, inr (p, refl)) | inr n ↦ inr n ],
              λ h. elim h [ inl (e, g) ↦ inl e | inr n ↦ inr n ],
            )
      | inl (member, q) ↦
          rw (f, q)
            (
              λ m. inr m,
              λ h. elim h [
                | inl (e, inl n) ↦ cc (f, (is_known_iff seen (row "職員ID")).1 n)
                | inl (e, inr (p, g)) ↦ cc g
                | inr n ↦ n
              ],
            )
    ]
  ]

  rows-reported :
      (seen : List String) (line : ℕ) (rows : List Record) (k : ℕ)
      → In k (reported (staff_rows is_space districts departments seen line rows).0)
        ↔ FaultyAt seen line rows k
  unfolding staff_rows rest_of
  rows-reported seen line [] k = (λ m. m, λ h. h)
  rows-reported seen line (row ∷ rows) k =
      let id = row "職員ID" in
      let next = if is_known seen id then seen else id ∷ seen in
      let first = first-reported seen line row rows k in
      let ih = rows-reported next (suc line) rows k in
      (
        λ m. elim (first.0 m) [
          | inl faulty ↦ inl faulty
          | inr n ↦
              inr (
                same_seen next (id ∷ seen) (suc line) rows k (λ x. (seen_next seen id x).0)
                  (ih.0 n))
        ],
        λ h. first.1 (elim h [
          | inl faulty ↦ inl faulty
          | inr n ↦
              inr (
                ih.1
                  (same_seen (id ∷ seen) next (suc line) rows k (λ x. (seen_next seen id x).1) n))
        ]),
      )

module _ (is_space : Char → Bool) {Bytes F : Type 0} (csv : CsvReader Bytes) where
  -- Of a file that parses and masters that are read, either no row is faulty, or the import of
  -- staff fails with row errors that name the lines of the faulty rows, every one of them, and no
  -- other line; a row is faulty where its id stands in a row before it or it makes no member of the
  -- staff.
  pub import_staff-reported :
      (raw : Bytes) (t : Tables F) (parsed : ParsedCsv) (districts departments : List String)
      → parse_csv csv raw staff_columns ≡ ok parsed
      → existing_ids t.school_districts ≡ ok districts
      → existing_ids t.departments ≡ ok departments
      → ((k : ℕ) → ¬ FaultyAt is_space districts departments [] 2 parsed.rows k)
        ⊎ ((errors : List RowError) × (import_staff is_space csv raw t
              ≡ err (csv_import_error errors))
            × ((k : ℕ)
                → In k (reported errors)
                  ↔ FaultyAt is_space districts departments [] 2 parsed.rows k))
  unfolding import_staff
  import_staff-reported raw t parsed districts departments p d q =
      rw (p, d, q)
        (by_errors (staff_rows is_space districts departments [] 2 parsed.rows)
          (rows-reported is_space districts departments [] 2 parsed.rows))
    where
      by_errors :
          (found : List RowError × List Staff)
          → ((k : ℕ)
              → In k (reported found.0)
                ↔ FaultyAt is_space districts departments [] 2 parsed.rows k)
          → ((k : ℕ) → ¬ FaultyAt is_space districts departments [] 2 parsed.rows k)
            ⊎ ((errors : List RowError) × (persist t found ≡ err (csv_import_error errors))
                × ((k : ℕ)
                    → In k (reported errors)
                      ↔ FaultyAt is_space districts departments [] 2 parsed.rows k))
      by_errors ([], members) exact = inl (λ k h. (exact k).1 h)
      by_errors (e ∷ errors, members) exact = inr (e ∷ errors, refl, exact)
