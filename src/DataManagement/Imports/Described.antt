-- ===== src/DataManagement/Imports/Described.antt =====
-- A member of the staff as its row describes it.
use Prim.Native.Char.{Char}
use ai_dlc_test.Common.{
  ◌≡◌, ◌≢◌, refl, ap, sym, subst, ◌↔◌, inl, inr, Bool, Bool-cases, String, ne→str_eq, List, [],
  Result, ok, err, >>=-eq-ok, ok-injective, each, In, Distinct, Paired, each_iff,
}
use ai_dlc_test.SharedKernel.Exceptions.{DomainError}
use ai_dlc_test.SharedKernel.Enums.{
  JobType, job_types, Position, positions, Qualification, qualifications, to_japanese,
  from_japanese, from_japanese-IsRead,
}
use ai_dlc_test.SharedKernel.Entities.{Staff, staff_post_init}
use ai_dlc_test.DataManagement.Imports.{
  Record, is_known, frozenset, raised_for, build_staff, staff_from_row,
}
use ai_dlc_test.DataManagement.Imports.Cells.{split_list}
use ai_dlc_test.DataManagement.Imports.Sets.{is_known_iff, frozenset-Distinct}

-- The member that a row describes, with the members of the enumerations that its labels stand for.
abbrev pub described : Record → List Qualification → JobType → Position → Staff
described row held job position = record {
  id = row "職員ID";
  name = row "氏名";
  department_id = row "所属部署ID";
  job_type = job;
  position = position;
  residence_district_id = row "居住小学校区ID";
  qualifications = frozenset [] held;
}

-- The label of a qualification.
abbrev pub Labels : String → Qualification → Type 0
Labels label q = to_japanese q ≡ label

module _ (is_space : Char → Bool) (districts departments : List String) where
  -- The row names a known district and a known department, has a name and the labels of a job type, of
  -- a position and of the qualifications `held`, and the member has all of this and each of the
  -- qualifications once.
  pub record IsStaffOf (row : Record) (m : Staff) : Type 0 where
    pub district : In (row "居住小学校区ID") districts
    pub department : In (row "所属部署ID") departments
    pub named : row "氏名" ≢ ""
    pub held : List Qualification
    pub labelled : Paired Labels (split_list is_space (row "資格")) held
    pub job : to_japanese m.job_type ≡ row "職種"
    pub post : to_japanese m.position ≡ row "役職"
    pub same : m ≡ described row held m.job_type m.position
    pub members : (q : Qualification) → In q m.qualifications ↔ In q held
    pub once : Distinct m.qualifications

  held_iff :
      (parts : List String) (held : List Qualification)
      → (each (λ label. from_japanese {A = Qualification} label) parts ≡ ok held)
        ↔ Paired Labels parts held
  held_iff parts held =
      each_iff (λ label. from_japanese {A = Qualification} label) Labels
        (λ label q. (from_japanese-IsRead.2 label).0 q) parts held

  unraised :
      (staff_id : String) (r : Result DomainError Staff) (m : Staff)
      → raised_for staff_id r ≡ ok m
      → r ≡ ok m
  unraised staff_id (ok a) m h = cc
  unraised staff_id (err e) m h = cc

  constructed : (m : Staff) (u : Unit) → staff_post_init m ≡ ok u → m.name ≢ ""
  unfolding staff_post_init
  constructed m u h e = cc (rw e at h)

  named-constructed : (m : Staff) → m.name ≢ "" → staff_post_init m ≡ ok tt
  unfolding staff_post_init
  named-constructed m n = rw (ne→str_eq m.name "" n) refl

  built :
      (row : Record) (m : Staff)
      → In (row "居住小学校区ID") districts
      → In (row "所属部署ID") departments
      → build_staff is_space row ≡ ok m
      → IsStaffOf row m
  unfolding build_staff
  built row m d p h =
      let (held, e, h1) =
        >>=-eq-ok
          (each (λ label. from_japanese {A = Qualification} label) (split_list is_space (row "資格")))
          _ h in
      let (job, j, h2) = >>=-eq-ok (from_japanese {A = JobType} (row "職種")) _ h1 in
      let (post, k, h3) = >>=-eq-ok (from_japanese {A = Position} (row "役職")) _ h2 in
      let (u, n, h4) = >>=-eq-ok (staff_post_init (described row held job post)) _ h3 in
      let (once, all) = frozenset-Distinct [] held tt in
      subst (IsStaffOf row) (ok-injective h4) (record {
        district = d;
        department = p;
        named = constructed (described row held job post) u n;
        held = held;
        labelled = (held_iff (split_list is_space (row "資格")) held).0 e;
        job = ((from_japanese-IsRead.0 (row "職種")).0 job).0 j;
        post = ((from_japanese-IsRead.1 (row "役職")).0 post).0 k;
        same = refl;
        members =
            λ q. (λ i. elim ((all q).0 i) [ inl x ↦ x | inr x ↦ absurd x ], λ i. (all q).1 (inl i));
        once = once;
      })

  rebuilt : (row : Record) (m : Staff) → IsStaffOf row m → build_staff is_space row ≡ ok m
  unfolding build_staff
  rebuilt row m s =
      rw
        (
          (held_iff (split_list is_space (row "資格")) s.held).1 s.labelled,
          ((from_japanese-IsRead.0 (row "職種")).0 m.job_type).1 s.job,
          ((from_japanese-IsRead.1 (row "役職")).0 m.position).1 s.post,
          named-constructed (described row s.held m.job_type m.position) s.named,
        )
        (ap (λ x. ok x) (sym s.same))

  pub staff_from_row_iff :
      (row : Record) (m : Staff)
      → (staff_from_row is_space districts departments row ≡ ok m) ↔ IsStaffOf row m
  unfolding staff_from_row
  staff_from_row_iff row m = (forth, back)
    where
      forth : staff_from_row is_space districts departments row ≡ ok m → IsStaffOf row m
      forth h = elim (Bool-cases (is_known districts (row "居住小学校区ID"))) [
        | inr f ↦ cc (rw f at h)
        | inl t ↦ elim (Bool-cases (is_known departments (row "所属部署ID"))) [
          | inr g ↦ cc (rw (t, g) at h)
          | inl u ↦
              built row m ((is_known_iff districts (row "居住小学校区ID")).0 t)
                ((is_known_iff departments (row "所属部署ID")).0 u)
                (unraised (row "職員ID") (build_staff is_space row) m (rw (t, u) at h))
        ]
      ]

      back : IsStaffOf row m → staff_from_row is_space districts departments row ≡ ok m
      back s =
          rw
            (
              (is_known_iff districts (row "居住小学校区ID")).1 s.district,
              (is_known_iff departments (row "所属部署ID")).1 s.department,
              rebuilt row m s,
            )
            refl
