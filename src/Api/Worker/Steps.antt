-- ===== src/Api/Worker/Steps.antt =====
-- What a step of the worker leaves, on each of its paths.
mod Marked
pub use Marked.{row_of}
use Marked.{claimed-row_of, finish-row_of}
use ai_dlc_test.Common.{
  ℕ, ◌≡◌, refl, ap, ◌∙◌, ◌≢◌, Bool, true, String, List, [], ◌∷◌, map, Option, some, Result, ok, err,
  In, In-map, Distinct, All, find_first, str_eq, str_eq_refl, ne→str_eq, Bool-cases, inl, inr,
  arith,
}
use ai_dlc_test.Common.Int.{ℤ}
use ai_dlc_test.Common.Float.{Floats}
use ai_dlc_test.SharedKernel.Values.{OptimizationParameters}
use ai_dlc_test.SharedKernel.CostModel.{TravelParameters}
use ai_dlc_test.SharedKernel.Problem.{AssignmentProblem, AssignmentResult}
use ai_dlc_test.Security.Store.{StoreError}
use ai_dlc_test.Distance.{Trigonometry}
use ai_dlc_test.Optimization.Diagnoser.{InfeasibilityDiagnosis}
use ai_dlc_test.Optimization.Service.{OptimizeError, Outcome, result, diagnosis, optimize}
use ai_dlc_test.Optimization.CpSat.{Solver, IsSound, solve}
use ai_dlc_test.Optimization.Solved.Counted.{HasKeys}
use ai_dlc_test.Optimization.Solved.Reported.{IsFeasible, optimize-IsFeasible}
use ai_dlc_test.Jobs.Queue.{
  OptimizationJob, running, succeeded, failed, infeasible, is_queued, claim_rows, finish,
  mark_succeeded, mark_infeasible, mark_failed, ReoptimizationMode, full, incremental,
}
use ai_dlc_test.Jobs.Queue.Claims.{IsOldest, claim_next-rows}
use ai_dlc_test.Jobs.Results as Results
use ai_dlc_test.SharedKernel.Entities.DeclarationRules.{declaration_post_init}
use ai_dlc_test.DataManagement.Repositories.Masters.{IsKeyed}
use ai_dlc_test.DataManagement.Repositories.Effective.{History, IsUnique, row}
use ai_dlc_test.Api.Problems.Keyed.{pins-built, build_problem-HasKeys}
use ai_dlc_test.Api.Problems.{
  BuildError, problem_build_error, repository_error, district_key_error, travel_error,
  build_problem, pins_of,
}
use ai_dlc_test.Api.Worker.{
  Database, StepError, build_error, save_error, cause_text, result_id, with_jobs, record_success,
  saved_success, parameters_or, after_solve, after_build, step,
}

module _ (fl : Floats) (math : Trigonometry fl.Float) (cp_sat : Solver fl.Float) (num_workers : ℤ)
    (error_name : OptimizeError → String) (optimization : OptimizationParameters fl.Float)
    (travel : TravelParameters fl.Float) where
  abbrev Job : Type 0
  Job = OptimizationJob fl.Float

  -- The problem of a job.
  abbrev pub built_for : Job → Database fl.Float → Result BuildError (AssignmentProblem fl.Float)
  built_for job db =
      build_problem fl math db.masters job.event_id
        (parameters_or fl math (solve fl cp_sat) num_workers error_name optimization travel
          job.parameters)
        travel job.mode []

  abbrev pub solved_for : AssignmentProblem fl.Float → ℕ → Result OptimizeError (Outcome fl.Float)
  solved_for problem now = optimize fl (solve fl cp_sat) num_workers problem now

  -- The paths of a step that claimed `job`, each with the row of the job afterwards.
  pub data IsWorked (job : Job) (db : Database fl.Float) (now : ℕ) (after : Database fl.Float)
      : Result StepError Bool → Type 0 where
    no_event :
        built_for job db ≡ err problem_build_error
        → row_of job.id after.jobs
          ≡ some (record job { state = failed; detail = some "event not found" })
        → after.results ≡ db.results
        → IsWorked job db now after (ok true)
    solve_failed :
        (problem : AssignmentProblem fl.Float) (e : OptimizeError)
        → built_for job db ≡ ok problem
        → solved_for problem now ≡ err e
        → row_of job.id after.jobs
          ≡ some (record job { state = failed; detail = some (error_name e) })
        → after.results ≡ db.results
        → IsWorked job db now after (ok true)
    no_solution :
        (problem : AssignmentProblem fl.Float) (d : InfeasibilityDiagnosis)
        → built_for job db ≡ ok problem
        → solved_for problem now ≡ ok (diagnosis d)
        → row_of job.id after.jobs
          ≡ some (record job { state = infeasible; detail = some (cause_text d.cause) })
        → after.results ≡ db.results
        → IsWorked job db now after (ok true)
    solved :
        (problem : AssignmentProblem fl.Float) (r : AssignmentResult fl.Float)
        → built_for job db ≡ ok problem
        → problem.pinned_assignments ≡ []
        → IsFeasible fl problem r
        → Results.save_assignment_result db.results r (result_id job) now ≡ ok after.results
        → row_of job.id after.jobs
          ≡ some (record job { state = succeeded; result_id = some (result_id job) })
        → IsWorked job db now after (ok true)
    left_running :
        (e : StepError)
        → row_of job.id after.jobs ≡ some job
        → after.results ≡ db.results
        → IsWorked job db now after (err e)

  module _ (sound : IsSound cp_sat) (job : Job) (db : Database fl.Float) (rows : List Job)
      (claimed : row_of job.id rows ≡ some job) (now : ℕ) where
    abbrev taken : Database fl.Float
    taken = with_jobs rows db

    abbrev Worked : Database fl.Float × Result StepError Bool → Type 0
    Worked done = IsWorked job db now done.0 done.1

    saved-IsWorked :
        (problem : AssignmentProblem fl.Float) (r : AssignmentResult fl.Float)
        → built_for job db ≡ ok problem
        → problem.pinned_assignments ≡ []
        → IsFeasible fl problem r
        → (saved : Result StoreError (Results.Tables fl.Float))
        → Results.save_assignment_result db.results r (result_id job) now ≡ saved
        → Worked (saved_success job taken saved)
    unfolding mark_succeeded
    saved-IsWorked problem r b pins feasible (err e) q = left_running (save_error e) claimed refl
    saved-IsWorked problem r b pins feasible (ok tables) q =
        solved problem r b pins feasible q (finish-row_of job.id _ (λ j. refl) rows job claimed)

    solved-IsWorked :
        (problem : AssignmentProblem fl.Float)
        → built_for job db ≡ ok problem
        → problem.pinned_assignments ≡ []
        → HasKeys problem
        → (outcome : Result OptimizeError (Outcome fl.Float)) → solved_for problem now ≡ outcome
        → Worked (
            after_solve fl math
              (solve fl cp_sat)
              num_workers
              error_name
              optimization
              travel
              job
              now
              taken
              outcome)
    unfolding mark_failed mark_infeasible record_success
    solved-IsWorked problem b pins keys (err e) q =
        solve_failed problem e b q (finish-row_of job.id _ (λ j. refl) rows job claimed) refl
    solved-IsWorked problem b pins keys (ok (diagnosis d)) q =
        no_solution problem d b q (finish-row_of job.id _ (λ j. refl) rows job claimed) refl
    solved-IsWorked problem b pins keys (ok (result r)) q =
        saved-IsWorked problem r b pins
          (optimize-IsFeasible fl problem cp_sat sound keys num_workers now r q) _ refl

    built-IsWorked :
        ((problem : AssignmentProblem fl.Float) → built_for job db ≡ ok problem → HasKeys problem)
        → ((problem : AssignmentProblem fl.Float)
            → built_for job db ≡ ok problem
            → problem.pinned_assignments ≡ [])
        → (built : Result BuildError (AssignmentProblem fl.Float)) → built_for job db ≡ built
        → Worked (
            after_build fl math
              (solve fl cp_sat)
              num_workers
              error_name
              optimization
              travel
              job
              now
              taken
              built)
    unfolding mark_failed
    built-IsWorked keys pins (err problem_build_error) q =
        no_event q (finish-row_of job.id _ (λ j. refl) rows job claimed) refl
    built-IsWorked keys pins (err (repository_error x)) q =
        left_running (build_error _) claimed refl
    built-IsWorked keys pins (err district_key_error) q = left_running (build_error _) claimed refl
    built-IsWorked keys pins (err (travel_error x)) q = left_running (build_error _) claimed refl
    built-IsWorked keys pins (ok problem) q =
        solved-IsWorked problem q (pins problem q) (keys problem q) _ refl

  no_pins : (mode : ReoptimizationMode) → pins_of mode [] ≡ []
  unfolding pins_of
  no_pins full = refl
  no_pins incremental = refl

  -- Where the solver keeps the constraints of its program, the identifiers of jobs and facilities
  -- are keys, the declarations stored were constructed, none two of one staff member for one event
  -- at one instant, and a job waits: a step takes the oldest job that waits and leaves it failed,
  -- infeasible or succeeded, with nothing saved but for a success, whose saved assignments pass the
  -- check of the problem that was built, which pins nothing; or the step raises, and then it saved
  -- nothing and the job is still running.
  pub step-IsWorked :
      (db : Database fl.Float) (now : ℕ) (waiting : Job) (history : History)
      → IsSound cp_sat
      → Distinct (map (λ (j : Job). j.id) db.jobs)
      → In waiting db.jobs
      → is_queued waiting.state ≡ true
      → IsKeyed ("id" ∷ []) db.masters.facilities
      → db.masters.availability_declarations ≡ map (row fl.Float) history
      → All (λ d. declaration_post_init d ≡ ok tt) history
      → IsUnique history
      → (seen : Job) × IsOldest db.jobs seen
        × (after : Database fl.Float) × (outcome : Result StepError Bool) × (step fl math
              (solve fl cp_sat)
              num_workers
              error_name
              optimization
              travel
              now
              db
            ≡ (after, outcome))
        × IsWorked (record seen { state = running }) db now after outcome
  unfolding step
  step-IsWorked db now waiting history sound distinct member queued_ keyed stored valid u =
      let (seen, oldest, claimed) = claim_next-rows db.jobs waiting distinct member queued_ in
      let job : Job = record seen { state = running } in
      let rows = (claim_rows seen.id db.jobs).0 in
      let done =
        after_build fl math (solve fl cp_sat) num_workers error_name optimization travel job now
          (with_jobs rows db) (built_for job db) in
      let worked =
        built-IsWorked sound job db rows
          (claimed-row_of db.jobs seen distinct oldest.member oldest.waiting) now
          (λ problem b.
            build_problem-HasKeys fl math db.masters _ _ travel _ [] problem b history keyed stored
              valid u)
          (λ problem b.
            pins-built fl math db.masters _ _ travel job.mode [] problem b ∙ no_pins job.mode)
          (built_for job db) refl in
      (seen, oldest, done.0, done.1, rw claimed refl, worked)
