-- ===== src/Tests/ApiCases.antt =====
-- The gates and the worker at concrete inputs.
use ai_dlc_test.Common.{
  ◌≡◌, refl, ◌⊎◌, inl, Bool, true, str_eq, String, Option, [], ◌∷◌, some, none, Result, ok,
}
use ai_dlc_test.Common.Int.{ℤ, pos}
use ai_dlc_test.Security.Entities.{Principal}
use ai_dlc_test.Security.Store.Sql.{sql_session_store}
use ai_dlc_test.Security.RateLimit as RateLimit
use ai_dlc_test.Security.Network as Network
use ai_dlc_test.Optimization.CpSat.{solve}
use ai_dlc_test.Jobs.Queue.{OptimizationJob, running, is_queued}
use ai_dlc_test.Jobs.Queue.Claims.{IsOldest}
use ai_dlc_test.Api.Middleware.{Request, Response, kind_of, source_ip, serve}
use ai_dlc_test.Api.Middleware.Guarded.{IsRefused, IsRouted, serve-IsGuarded}
use ai_dlc_test.Api.Worker.{Database, StepError, step}
use ai_dlc_test.Api.Worker.Steps.{IsWorked, step-IsWorked}
use ai_dlc_test.Tests.Samples.{whole, parameters}
use ai_dlc_test.Tests.Solver.{only_offered, only_offered-IsSound}
use ai_dlc_test.Tests.SecurityCases.{plain, config, start}
use ai_dlc_test.Tests.JobsCases.{newer, jobs, first_run, jobs-Distinct}
use ai_dlc_test.Tests.Masters.{
  flat_earth, on_foot, history, masters, history-All, history-IsUnique, facilities-IsKeyed,
}

abbrev list_events : Request
list_events = record {
  method = "GET";
  path = "/events";
  client_host = some "10.0.0.1";
  header = λ _. none;
  session_cookie = some "t1";
}

abbrev api_only : Request → Bool
api_only r = true

abbrev empty_response : Request → Option Principal → Response
empty_response r who = record { status = 200; body = none; headers = [] }

abbrev this_host : String → Option String
this_host s = some s

abbrev same_host : String → String → Bool
same_host network address = str_eq network address

serve-IsGuarded_example :
    (let served =
        serve sql_session_store plain config api_only empty_response this_host
          (λ s. s)
          same_host
          ("10.0.0.1" ∷ [])
          (λ s. s)
          []
          "x-forwarded-for"
          list_events
          100
          100
          start
          [] in
      IsRefused sql_session_store plain config api_only empty_response served.1
      ⊎ (Network.IsListed this_host
            (λ s. s)
            same_host
            ("10.0.0.1" ∷ [])
            (source_ip (λ s. s) [] "x-forwarded-for" list_events)
          × ((RateLimit.check config
                (source_ip (λ s. s) [] "x-forwarded-for" list_events)
                (kind_of list_events)
                100
                []).1
              ≡ ok tt)
          × IsRouted sql_session_store plain config api_only empty_response list_events 100 start
              served.1))
serve-IsGuarded_example =
    serve-IsGuarded sql_session_store plain config api_only empty_response this_host (λ s. s)
      same_host ("10.0.0.1" ∷ []) (λ s. s) [] "x-forwarded-for" list_events 100 100 start []

abbrev waiting : Database ℤ
waiting = record { masters = masters; jobs = jobs; results = record first_run { assignments = [] } }

step-IsWorked_example :
    (seen : OptimizationJob ℤ) × IsOldest jobs seen
    × (after : Database ℤ) × (outcome : Result StepError Bool) × (step whole flat_earth
          (solve whole only_offered)
          (pos 1)
          (λ _. "KeyError")
          parameters
          on_foot
          0
          waiting
        ≡ (after, outcome))
    × IsWorked whole flat_earth only_offered
        (pos 1)
        (λ _. "KeyError")
        parameters
        on_foot
        (record seen { state = running })
        waiting
        0
        after
        outcome
unfolding is_queued
step-IsWorked_example =
    step-IsWorked whole flat_earth only_offered (pos 1) (λ _. "KeyError") parameters on_foot waiting
      0 newer history only_offered-IsSound jobs-Distinct (inl refl) refl facilities-IsKeyed refl
      history-All history-IsUnique
