-- ===== src/Api/Worker.antt =====
-- src/api_orchestration/worker.py: one step of the worker. Its three phases are transactions of their
-- own, so what an exception leaves is what the phases before it wrote.
pub mod Steps
use ai_dlc_test.Common.{
  ℕ, Bool, true, false, String, str_append, List, [], Option, none, some, Result, ok, err,
}
use ai_dlc_test.Common.Int.{ℤ}
use ai_dlc_test.Common.Float.{Floats}
use ai_dlc_test.SharedKernel.Values.{OptimizationParameters}
use ai_dlc_test.SharedKernel.CostModel.{TravelParameters}
use ai_dlc_test.SharedKernel.Problem.{AssignmentProblem, AssignmentResult}
use ai_dlc_test.Security.Store.{StoreError}
use ai_dlc_test.Distance.{Trigonometry}
use ai_dlc_test.DataManagement.Repositories as Repositories
use ai_dlc_test.Optimization.Diagnoser.{
  InfeasibilityDiagnosis, InfeasibilityCause, total_shortage, c3_demoted, hard_constraint,
}
use ai_dlc_test.Optimization.Service.{
  SolverPort, OptimizeError, Outcome, result, diagnosis, optimize,
}
use ai_dlc_test.Jobs.Queue.{
  OptimizationJob, claim_next, mark_succeeded, mark_infeasible, mark_failed,
}
use ai_dlc_test.Jobs.Results as Results
use ai_dlc_test.Api.Problems.{
  BuildError, problem_build_error, repository_error, district_key_error, travel_error,
  build_problem,
}

-- The database, as far as a step reads and writes it.
pub record Database (F : Type 0) : Type 0 where
  pub masters : Repositories.Tables F
  pub jobs : List (OptimizationJob F)
  pub results : Results.Tables F

-- What escapes from a step.
pub data StepError : Type 0 where
  build_error : BuildError → StepError
  save_error : StoreError → StepError

-- `outcome.cause.value`
unfoldable pub cause_text : InfeasibilityCause → String
cause_text total_shortage = "TOTAL_SHORTAGE"
cause_text c3_demoted = "C3_DEMOTED"
cause_text hard_constraint = "HARD_CONSTRAINT"

module _ {F : Type 0} where
  -- `_result_id`
  abbrev pub result_id : OptimizationJob F → String
  result_id job = str_append "R-" job.id

  abbrev pub with_jobs : List (OptimizationJob F) → Database F → Database F
  with_jobs jobs db = record db { jobs = jobs }

  abbrev pub saved_success :
      OptimizationJob F
      → Database F
      → Result StoreError (Results.Tables F)
      → Database F × Result StepError Bool
  saved_success job db (err e) = (db, err (save_error e))
  saved_success job db (ok tables) = (
    record db { results = tables; jobs = mark_succeeded job.id (result_id job) db.jobs },
    ok true,
  )

  -- `_record_success`: the result is saved, and then the job is marked.
  unfoldable pub record_success :
      OptimizationJob F → AssignmentResult F → ℕ → Database F → Database F × Result StepError Bool
  record_success job r now db =
      saved_success job db (Results.save_assignment_result db.results r (result_id job) now)

module _ (fl : Floats) (math : Trigonometry fl.Float) (solver : SolverPort fl) (num_workers : ℤ)
    (error_name : OptimizeError → String) (optimization : OptimizationParameters fl.Float)
    (travel : TravelParameters fl.Float) where
  open fl use {Float}

  abbrev pub parameters_or : Option (OptimizationParameters Float) → OptimizationParameters Float
  parameters_or none = optimization
  parameters_or (some parameters) = parameters

  abbrev pub after_solve :
      OptimizationJob Float
      → ℕ
      → Database Float
      → Result OptimizeError (Outcome Float)
      → Database Float × Result StepError Bool
  after_solve job now db (err e) =
      (with_jobs (mark_failed job.id (error_name e) db.jobs) db, ok true)
  after_solve job now db (ok (diagnosis d)) =
      (with_jobs (mark_infeasible job.id (cause_text d.cause) db.jobs) db, ok true)
  after_solve job now db (ok (result r)) = record_success job r now db

  abbrev pub after_build :
      OptimizationJob Float
      → ℕ
      → Database Float
      → Result BuildError (AssignmentProblem Float)
      → Database Float × Result StepError Bool
  after_build job now db (err problem_build_error) =
      (with_jobs (mark_failed job.id "event not found" db.jobs) db, ok true)
  after_build job now db (err e) = (db, err (build_error e))
  after_build job now db (ok problem) =
      after_solve job now db (optimize fl solver num_workers problem now)

  abbrev pub after_claim :
      Option (OptimizationJob Float) → ℕ → Database Float → Database Float × Result StepError Bool
  after_claim none now db = (db, ok false)
  after_claim (some job) now db = after_build job now db (
      build_problem fl math db.masters job.event_id (parameters_or job.parameters) travel job.mode
        [])

  -- `step`: the job is claimed, its problem is built and solved, and the outcome is recorded.
  unfoldable pub step : ℕ → Database Float → Database Float × Result StepError Bool
  unfolding claim_next
  step now db =
      let (jobs, claimed) = claim_next db.jobs in after_claim claimed now (with_jobs jobs db)
