-- ===== src/Jobs/Queue/Claims.antt =====
-- Claiming: the oldest job is taken, by one worker only.
use ai_dlc_test.Common.{
  ◌≤◌, ◌≡◌, refl, sym, true, false, String, List, [], ◌∷◌, some, none, arith, subst, ◌≢◌, In,
  Distinct, map, In-map, Bool-cases, Option-cases, inl, inr, str_eq, str_eq_refl, ne→str_eq, ltb,
  if◌then◌else◌,
}
use ai_dlc_test.Jobs.Queue.{
  OptimizationJob, running, is_queued, candidate, claim_rows, is_claimable, claim_seen, claim_next,
}

module _ {F : Type 0} where
  unclaimable :
      (id : String) (row : OptimizationJob F)
      → is_claimable id (record row { state = running }) ≡ false
  unfolding is_queued
  unclaimable id row = ground arith

  claimed-none :
      (id : String) (jobs : List (OptimizationJob F))
      → claim_rows id (claim_rows id jobs).0 ≡ ((claim_rows id jobs).0, 0)
  unfolding claim_rows
  claimed-none id [] = refl
  claimed-none id (row ∷ rows) = elim (Bool-cases (is_claimable id row)) [
    | inl e ↦ rw (e, unclaimable id row, claimed-none id rows)
    | inr e ↦ rw (e, e, claimed-none id rows)
  ]

  -- Of two workers that saw the same job, the second one to claim it takes nothing and changes
  -- nothing, whatever the table holds.
  pub claim_seen-once :
      (seen : OptimizationJob F) (jobs : List (OptimizationJob F))
      → claim_seen seen (claim_seen seen jobs).0 ≡ ((claim_seen seen jobs).0, none)
  unfolding claim_seen
  claim_seen-once seen jobs = rw (claimed-none seen.id jobs)

  -- The row that `candidate` selects.
  pub record IsOldest (jobs : List (OptimizationJob F)) (job : OptimizationJob F) : Type 0 where
    pub member : In job jobs
    pub waiting : is_queued job.state ≡ true
    pub oldest :
        (other : OptimizationJob F)
        → In other jobs
        → is_queued other.state ≡ true
        → job.created_at ≤ other.created_at

  candidate-none :
      (jobs : List (OptimizationJob F)) (other : OptimizationJob F)
      → candidate jobs ≡ none
      → In other jobs
      → is_queued other.state ≡ false
  unfolding candidate
  candidate-none [] other h m = absurd m
  candidate-none (job ∷ jobs) other h m = elim (Bool-cases (is_queued job.state)) [
    | inl q ↦ cc (rw q at h)
    | inr q ↦ elim m [ inl e ↦ rw e q | inr n ↦ candidate-none jobs other (rw q at h) n ]
  ]

  alone :
      (job : OptimizationJob F) (jobs : List (OptimizationJob F))
      → is_queued job.state ≡ true
      → candidate jobs ≡ none
      → IsOldest (job ∷ jobs) job
  alone job jobs q n = record {
    member = inl refl;
    waiting = q;
    oldest = λ other m w. elim m [
      | inl e ↦ rw e (omega arith)
      | inr k ↦ cc (w, candidate-none jobs other n k)
    ];
  }

  passed :
      (job best : OptimizationJob F) (jobs : List (OptimizationJob F))
      → (is_queued job.state ≡ true → best.created_at ≤ job.created_at)
      → IsOldest jobs best
      → IsOldest (job ∷ jobs) best
  passed job best jobs h o = record {
    member = inr o.member;
    waiting = o.waiting;
    oldest = λ other m w. elim m [ inl e ↦ rw e (h (rw e at w)) | inr k ↦ o.oldest other k w ];
  }

  ahead :
      (job best : OptimizationJob F) (jobs : List (OptimizationJob F))
      → is_queued job.state ≡ true
      → job.created_at ≤ best.created_at
      → IsOldest jobs best
      → IsOldest (job ∷ jobs) job
  ahead job best jobs q le o = record {
    member = inl refl;
    waiting = q;
    oldest = λ other m w. elim m [
      | inl e ↦ rw e (omega arith)
      | inr k ↦ omega (arith, o.oldest other k w)
    ];
  }

  candidate-IsOldest :
      (jobs : List (OptimizationJob F)) (job : OptimizationJob F)
      → candidate jobs ≡ some job
      → IsOldest jobs job
  unfolding candidate
  candidate-IsOldest [] job h = cc
  candidate-IsOldest (row ∷ rows) job h = elim (Bool-cases (is_queued row.state)) [
    | inl q ↦ elim (Option-cases (candidate rows)) [
      | inl n ↦
          let same : row ≡ job = ground arith in
          subst (IsOldest (row ∷ rows)) same (alone row rows q n)
      | inr (best, c) ↦ elim (Bool-cases (ltb best.created_at row.created_at)) [
        | inl l ↦
            let same : best ≡ job = ground arith in
            subst (IsOldest (row ∷ rows)) same
              (passed row best rows (λ _. ground arith) (candidate-IsOldest rows best c))
        | inr g ↦
            let same : row ≡ job = ground arith in
            subst (IsOldest (row ∷ rows)) same
              (ahead row best rows q (ground arith) (candidate-IsOldest rows best c))
      ]
    ]
    | inr q ↦ passed row job rows (λ w. cc (w, q)) (candidate-IsOldest rows job (rw q at h))
  ]

  absent :
      (id : String) (jobs : List (OptimizationJob F))
      → ¬ In id (map (λ (j : OptimizationJob F). j.id) jobs)
      → claim_rows id jobs ≡ (jobs, 0)
  unfolding claim_rows
  absent id [] n = refl
  absent id (row ∷ rows) n =
      rw (ne→str_eq row.id id (λ e. n (inl (sym e))), absent id rows (λ m. n (inr m)))

  claimed-one :
      (jobs : List (OptimizationJob F)) (job : OptimizationJob F)
      → Distinct (map (λ (j : OptimizationJob F). j.id) jobs)
      → In job jobs
      → is_queued job.state ≡ true
      → (claim_rows job.id jobs).1 ≡ 1
  unfolding claim_rows
  claimed-one [] job d m q = absurd m
  claimed-one (row ∷ rows) job d (inl e) q =
      let none_left = absent job.id rows (rw e d.0) in
      let same : str_eq row.id job.id ≡ true = rw e (str_eq_refl row.id) in
      let waits : is_queued row.state ≡ true = rw e at q in rw (same, waits, none_left)
  claimed-one (row ∷ rows) job d (inr m) q =
      let other : row.id ≢ job.id =
        λ e. d.0 (rw e (In-map (λ (j : OptimizationJob F). j.id) rows job m)) in
      rw (ne→str_eq row.id job.id other) (claimed-one rows job d.1 m q)

  -- A row after the job with identifier `id` was taken.
  abbrev pub taken : String → OptimizationJob F → OptimizationJob F
  taken id row = if str_eq row.id id then record row { state = running } else row

  untaken :
      (id : String) (jobs : List (OptimizationJob F))
      → ¬ In id (map (λ (j : OptimizationJob F). j.id) jobs)
      → map (taken id) jobs ≡ jobs
  untaken id [] n = refl
  untaken id (row ∷ rows) n =
      rw (ne→str_eq row.id id (λ e. n (inl (sym e))), untaken id rows (λ m. n (inr m)))

  claimed-taken :
      (jobs : List (OptimizationJob F)) (job : OptimizationJob F)
      → Distinct (map (λ (j : OptimizationJob F). j.id) jobs)
      → In job jobs
      → is_queued job.state ≡ true
      → (claim_rows job.id jobs).0 ≡ map (taken job.id) jobs
  unfolding claim_rows
  claimed-taken [] job d m q = absurd m
  claimed-taken (row ∷ rows) job d (inl e) q =
      let none_left = absent job.id rows (rw e d.0) in
      let same : str_eq row.id job.id ≡ true = rw e (str_eq_refl row.id) in
      let waits : is_queued row.state ≡ true = rw e at q in
      rw (same, waits, none_left, untaken job.id rows (rw e d.0)) refl
  claimed-taken (row ∷ rows) job d (inr m) q =
      let other : row.id ≢ job.id =
        λ e. d.0 (rw e (In-map (λ (j : OptimizationJob F). j.id) rows job m)) in
      rw (ne→str_eq row.id job.id other, claimed-taken rows job d.1 m q) refl

  -- Where the identifiers of jobs are keys and a job is waiting, claim_next takes the oldest of
  -- those that wait, now running, and leaves it running in the table and every other row as it was.
  pub claim_next-IsOldest :
      (jobs : List (OptimizationJob F)) (waiting : OptimizationJob F)
      → Distinct (map (λ (j : OptimizationJob F). j.id) jobs)
      → In waiting jobs
      → is_queued waiting.state ≡ true
      → (seen : OptimizationJob F) × IsOldest jobs seen
        × ((claim_next jobs).1 ≡ some (record seen { state = running }))
        × ((claim_next jobs).0 ≡ map (taken seen.id) jobs)
  unfolding claim_next claim_seen
  claim_next-IsOldest jobs waiting d m q = elim (Option-cases (candidate jobs)) [
    | inl n ↦ cc (candidate-none jobs waiting n m, q)
    | inr (seen, c) ↦
        let o = candidate-IsOldest jobs seen c in
        (
          seen,
          o,
          rw (c, claimed-one jobs seen d o.member o.waiting) refl,
          rw c (claimed-taken jobs seen d o.member o.waiting),
        )
  ]

  -- The same, with the rows.
  pub claim_next-rows :
      (jobs : List (OptimizationJob F)) (waiting : OptimizationJob F)
      → Distinct (map (λ (j : OptimizationJob F). j.id) jobs)
      → In waiting jobs
      → is_queued waiting.state ≡ true
      → (seen : OptimizationJob F) × IsOldest jobs seen
        × (claim_next jobs ≡ ((claim_rows seen.id jobs).0, some (record seen { state = running })))
  unfolding claim_next claim_seen
  claim_next-rows jobs waiting d m q = elim (Option-cases (candidate jobs)) [
    | inl n ↦ cc (candidate-none jobs waiting n m, q)
    | inr (seen, c) ↦
        let o = candidate-IsOldest jobs seen c in
        (seen, o, rw (c, claimed-one jobs seen d o.member o.waiting) refl)
  ]
