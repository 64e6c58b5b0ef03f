-- ===== src/DataManagement/Imports/Sets.antt =====
-- The sets of an import of staff: the texts that are known, and the qualifications of a member.
use ai_dlc_test.Common.{
  ◌≡◌, refl, sym, ◌∙◌, ◌↔◌, ◌⊎◌, inl, inr, true, Bool-cases, String, str_eq, str_eq→eq, str_eq_refl,
  eq_iff, List, [], ◌∷◌, ◌++◌, ok-injective, any, any-true, any-intro, In, In-append,
  In-append_left, In-append_right, Distinct,
}
use ai_dlc_test.SharedKernel.Enums.{
  Qualification, qualifications, to_japanese, from_japanese-IsRead,
}
use ai_dlc_test.DataManagement.Repositories.{add_qualification}
use ai_dlc_test.DataManagement.Imports.{is_known, frozenset}

pub is_known_iff :
    (values : List String) (value : String) → (is_known values value ≡ true) ↔ In value values
unfolding is_known
is_known_iff values value =
    (forth, λ m. any-intro (str_eq value) values value m ((eq_iff value value).1 refl))
  where
    forth : any (str_eq value) values ≡ true → In value values
    forth h = let (z, m, e) = any-true (str_eq value) values h in rw ((eq_iff value z).0 e) m

same_label : (p q : Qualification) → qualifications.japanese p ≡ qualifications.japanese q → p ≡ q
unfolding to_japanese
same_label p q e =
    let reads = from_japanese-IsRead.2 (to_japanese q) in
    let first = (reads.0 p).1 e in
    let second = (reads.0 q).1 refl in ok-injective (sym first ∙ second)

Distinct-end :
    {A : Type 0} (x : A) (xs : List A) → Distinct xs → ¬ In x xs → Distinct (xs ++ x ∷ [])
Distinct-end x [] d n = (λ m. m, tt)
Distinct-end x (y ∷ ys) d n = (
  λ m. elim (In-append y ys (x ∷ []) m) [
    | inl k ↦ d.0 k
    | inr (inl e) ↦ n (inl (sym e))
    | inr (inr k) ↦ absurd k
  ],
  Distinct-end x ys d.1 (λ m. n (inr m)),
)

added :
    (q : Qualification) (held : List Qualification)
    → Distinct held
    → Distinct (add_qualification q held)
      × ((x : Qualification) → In x (add_qualification q held) ↔ ((x ≡ q) ⊎ In x held))
unfolding add_qualification
added q held d =
    let test =
      λ (h : Qualification). str_eq (qualifications.japanese h) (qualifications.japanese q) in
    elim (Bool-cases (any test held)) [
      | inl t ↦
          let (h, m, e) = any-true test held t in
          let same : h ≡ q = same_label h q (str_eq→eq _ _ e) in
          (rw t d, λ x. rw t (λ n. inr n, λ n. elim n [ inl k ↦ rw (k, ← same) m | inr k ↦ k ]))
      | inr f ↦
          let new : ¬ In q held =
            λ m. cc (f, any-intro test held q m (str_eq_refl (qualifications.japanese q))) in
          (
            rw f (Distinct-end q held d new),
            λ x. rw f (
              λ m. elim (In-append x held (q ∷ []) m) [
                | inl k ↦ inr k
                | inr (inl e) ↦ inl e
                | inr (inr k) ↦ absurd k
              ],
              λ n. elim n [
                | inl e ↦ In-append_right x held (q ∷ []) (inl e)
                | inr k ↦ In-append_left x held (q ∷ []) k
              ],
            ),
          )
    ]

-- A set holds each of its members once, and those that were put into it.
pub frozenset-Distinct :
    (held qs : List Qualification)
    → Distinct held
    → Distinct (frozenset held qs)
      × ((x : Qualification) → In x (frozenset held qs) ↔ (In x qs ⊎ In x held))
unfolding frozenset
frozenset-Distinct held [] d = (d, λ x. (λ m. inr m, λ n. elim n [ inl k ↦ absurd k | inr k ↦ k ]))
frozenset-Distinct held (q ∷ qs) d =
    let (once, members) = added q held d in
    let (rest, all) = frozenset-Distinct (add_qualification q held) qs once in
    (
      rest,
      λ x. (
        λ m. elim ((all x).0 m) [
          | inl k ↦ inl (inr k)
          | inr k ↦ elim ((members x).0 k) [ inl e ↦ inl (inl e) | inr n ↦ inr n ]
        ],
        λ n. elim n [
          | inl (inl e) ↦ (all x).1 (inr ((members x).1 (inl e)))
          | inl (inr k) ↦ (all x).1 (inl k)
          | inr k ↦ (all x).1 (inr ((members x).1 (inr k)))
        ],
      ),
    )
