-- ===== src/Jobs/Queue.antt =====
-- src/api_orchestration/jobs.py and job_queue.py: the table of jobs, as the list of its rows. A datetime
-- is the microseconds of its instant, which the conversions for storage keep.
pub mod Claims
use ai_dlc_test.Common.{
  ℕ, suc, zero, Bool, true, false, ◌&&◌, String, List, [], ◌∷◌, ◌++◌, Option, some, none, Result,
  ok, err, any, select, str_eq, if◌then◌else◌, ltb, ◌==◌,
}
use ai_dlc_test.SharedKernel.Values.{OptimizationParameters}
use ai_dlc_test.Security.Store.{StoreError, integrity_error}

pub data JobState : Type 0 where
  queued running succeeded infeasible failed : JobState

pub data ReoptimizationMode : Type 0 where
  full incremental : ReoptimizationMode

pub record OptimizationJob (F : Type 0) : Type 0 where
  pub id : String
  pub event_id : String
  pub mode : ReoptimizationMode
  pub state : JobState
  pub created_at : ℕ
  pub parameters : Option (OptimizationParameters F)
  pub result_id : Option String
  pub detail : Option String

unfoldable pub is_queued : JobState → Bool
is_queued queued = true
is_queued _ = false

module _ {F : Type 0} where
  -- What `_params_from_json` reads of what `_params_to_json` wrote: the flag is not among the keys,
  -- and comes back as its default.
  unfoldable pub stored_parameters :
      Option (OptimizationParameters F) → Option (OptimizationParameters F)
  stored_parameters none = none
  stored_parameters (some p) = some (record p { allow_c3_demotion = false })

  -- `enqueue`, with the foreign key on events and the primary key of the table
  unfoldable pub enqueue :
      List String
      → OptimizationJob F
      → List (OptimizationJob F)
      → Result StoreError (List (OptimizationJob F))
  unfolding any stored_parameters
  enqueue event_ids job jobs =
      if any (λ (row : OptimizationJob F). str_eq row.id job.id) jobs
      then err integrity_error
      else if any (str_eq job.event_id) event_ids
      then ok (
          jobs
          ++ (record job {
            parameters = stored_parameters job.parameters;
            result_id = none;
            detail = none;
          })
            ∷ [])
      else err integrity_error

  abbrev pub older : OptimizationJob F → Option (OptimizationJob F) → OptimizationJob F
  older job none = job
  older job (some other) = if ltb other.created_at job.created_at then other else job

  -- The SELECT: the oldest queued row, the first one of them where several are as old.
  unfoldable pub candidate : List (OptimizationJob F) → Option (OptimizationJob F)
  unfolding is_queued
  candidate [] = none
  candidate (job ∷ jobs) =
      let rest = candidate jobs in if is_queued job.state then some (older job rest) else rest

  abbrev pub is_claimable : String → OptimizationJob F → Bool
  is_claimable id row = str_eq row.id id && is_queued row.state

  -- The conditional UPDATE, and its row count.
  unfoldable pub claim_rows : String → List (OptimizationJob F) → List (OptimizationJob F) × ℕ
  unfolding is_queued
  claim_rows id [] = ([], 0)
  claim_rows id (row ∷ rows) =
      let (rest, n) = claim_rows id rows in
      if is_claimable id row
      then (record row { state = running } ∷ rest, suc n)
      else (row ∷ rest, n)

  -- The rest of `claim_next` after its SELECT, on the rows as they are by then.
  unfoldable pub claim_seen :
      OptimizationJob F
      → List (OptimizationJob F)
      → List (OptimizationJob F) × Option (OptimizationJob F)
  unfolding claim_rows
  claim_seen seen jobs =
      let (rows, n) = claim_rows seen.id jobs in
      (rows, if n == 1 then some (record seen { state = running }) else none)

  abbrev claim_candidate :
      Option (OptimizationJob F)
      → List (OptimizationJob F)
      → List (OptimizationJob F) × Option (OptimizationJob F)
  claim_candidate none jobs = (jobs, none)
  claim_candidate (some seen) jobs = claim_seen seen jobs

  -- `claim_next`
  unfoldable pub claim_next :
      List (OptimizationJob F) → List (OptimizationJob F) × Option (OptimizationJob F)
  unfolding candidate claim_seen
  claim_next jobs = claim_candidate (candidate jobs) jobs

  -- `_finish`, whose fields are the result for a success and the detail otherwise
  unfoldable pub finish :
      String
      → (OptimizationJob F → OptimizationJob F)
      → List (OptimizationJob F)
      → List (OptimizationJob F)
  finish id values [] = []
  finish id values (row ∷ rows) =
      let rest = finish id values rows in if str_eq row.id id then values row ∷ rest else row ∷ rest

  unfoldable pub mark_succeeded :
      String → String → List (OptimizationJob F) → List (OptimizationJob F)
  unfolding finish
  mark_succeeded id result =
      finish id (λ row. record row { state = succeeded; result_id = some result })

  unfoldable pub mark_infeasible :
      String → String → List (OptimizationJob F) → List (OptimizationJob F)
  unfolding finish
  mark_infeasible id text = finish id (λ row. record row { state = infeasible; detail = some text })

  unfoldable pub mark_failed : String → String → List (OptimizationJob F) → List (OptimizationJob F)
  unfolding finish
  mark_failed id text = finish id (λ row. record row { state = failed; detail = some text })
