-- ===== src/Api/Worker/Steps/Marked.antt =====
-- The row of a job after it was claimed, and after it was finished.
use ai_dlc_test.Common.{
  ◌≡◌, refl, ap, ◌∙◌, ◌≢◌, true, String, List, [], ◌∷◌, map, Option, some, In, In-map, Distinct,
  find_first, str_eq, str_eq_refl, ne→str_eq, Bool-cases, inl, inr, arith,
}
use ai_dlc_test.Jobs.Queue.{OptimizationJob, running, is_queued, claim_rows, finish}

module _ {F : Type 0} where
  -- The row of a job.
  abbrev pub row_of : String → List (OptimizationJob F) → Option (OptimizationJob F)
  row_of id jobs = find_first (λ (j : OptimizationJob F). str_eq j.id id) jobs

  pub claimed-row_of :
      (jobs : List (OptimizationJob F)) (job : OptimizationJob F)
      → Distinct (map (λ (j : OptimizationJob F). j.id) jobs)
      → In job jobs
      → is_queued job.state ≡ true
      → row_of job.id (claim_rows job.id jobs).0 ≡ some (record job { state = running })
  unfolding claim_rows find_first
  claimed-row_of [] job d m q = absurd m
  claimed-row_of (row ∷ rows) job d (inl e) q =
      let same : str_eq row.id job.id ≡ true = rw e (str_eq_refl row.id) in
      let waits : is_queued row.state ≡ true = rw e at q in rw (same, waits, same, e) refl
  claimed-row_of (row ∷ rows) job d (inr m) q =
      let other : row.id ≢ job.id =
        λ e. d.0 (rw e (In-map (λ (j : OptimizationJob F). j.id) rows job m)) in
      rw (ne→str_eq row.id job.id other, ne→str_eq row.id job.id other)
        (claimed-row_of rows job d.1 m q)

  pub finish-row_of :
      (id : String) (values : OptimizationJob F → OptimizationJob F)
      → ((j : OptimizationJob F) → (values j).id ≡ j.id)
      → (jobs : List (OptimizationJob F)) (row : OptimizationJob F) → row_of id jobs ≡ some row
      → row_of id (finish id values jobs) ≡ some (values row)
  unfolding finish find_first
  finish-row_of id values kept [] row h = cc h
  finish-row_of id values kept (j ∷ jobs) row h = elim (Bool-cases (str_eq j.id id)) [
    | inl t ↦
        let same : j ≡ row = ground arith in
        let hit : str_eq (values j).id id ≡ true = ap (λ x. str_eq x id) (kept j) ∙ t in
        rw (t, hit) (ap (λ x. some (values x)) same)
    | inr f ↦ rw (f, f) (finish-row_of id values kept jobs row (rw f at h))
  ]
