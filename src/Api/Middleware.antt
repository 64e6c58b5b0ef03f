-- ===== src/Api/Middleware.antt =====
-- src/api_orchestration/middleware.py: the gates around every request. The router, the headers of a
-- request and the route itself belong to FastAPI and are parameters.
pub mod Guarded
use ai_dlc_test.Common.{
  ℕ, Bool, true, false, not, ◌&&◌, ◌||◌, String, List, [], ◌∷◌, Option, some, none, Result, ok, err,
  any, str_eq, if◌then◌else◌,
}
use ai_dlc_test.Security.Entities.{Principal, SecurityConfig, SecurityError, authentication_failed}
use ai_dlc_test.Security.Store.{SessionStorePort}
use ai_dlc_test.Security.Authentication.{Hasher, State, authenticate}
use ai_dlc_test.Security.RateLimit.{Counts}
use ai_dlc_test.Security.RateLimit as RateLimit
use ai_dlc_test.Security.Network as Network
use ai_dlc_test.Api.Errors.{ErrorResponse, security_error, error_response_for}

pub record Request : Type 0 where
  pub method : String
  pub path : String
  pub client_host : Option String
  pub header : String → Option String
  pub session_cookie : Option String

-- `PUBLIC_ROUTES`
unfoldable pub is_public : Request → Bool
is_public r =
    (str_eq r.method "POST" && str_eq r.path "/sessions")
    || (str_eq r.method "GET" && str_eq r.path "/health")

-- `LOGIN` and `GENERAL`
unfoldable pub kind_of : Request → String
kind_of r = if str_eq r.method "POST" && str_eq r.path "/sessions" then "login" else "general"

abbrev host_or_empty : Option String → String
host_or_empty none = ""
host_or_empty (some host) = host

-- `_SECURITY_HEADERS`
abbrev pub security_headers : List (String × String)
security_headers =
    ("Content-Security-Policy", "default-src 'self'; frame-ancestors 'none'")
    ∷ ("Strict-Transport-Security", "max-age=31536000; includeSubDomains")
    ∷ ("X-Content-Type-Options", "nosniff")
    ∷ ("X-Frame-Options", "DENY")
    ∷ ("Referrer-Policy", "no-referrer")
    ∷ []

-- `response.headers[header] = value`
unfoldable pub set_header : String × String → List (String × String) → List (String × String)
set_header (name, value) [] = (name, value) ∷ []
set_header (name, value) ((n, v) ∷ headers) =
    let rest = set_header (name, value) headers in
    if str_eq n name then (n, value) ∷ headers else (n, v) ∷ rest

unfoldable pub set_headers :
    List (String × String) → List (String × String) → List (String × String)
unfolding set_header
set_headers [] headers = headers
set_headers (entry ∷ entries) headers = set_headers entries (set_header entry headers)

pub record Response : Type 0 where
  pub status : ℕ
  pub body : Option ErrorResponse
  pub headers : List (String × String)

-- A response, and the call of the route that was made for it, with the principal that the route finds in
-- the state of the request. Of a refused request there is no call.
pub record Served : Type 0 where
  pub routed : Option (Option Principal)
  pub response : Response

abbrev refusal : ℕ → Option ErrorResponse → Served
refusal status body = record {
  routed = none;
  response = record { status = status; body = body; headers = [] };
}

-- The response to a denial; an exception that has none is raised again, and becomes the 500.
abbrev denied_by : Option (ℕ × ErrorResponse) → Served
denied_by none = refusal 500 none
denied_by (some (status, body)) = refusal status (some body)

-- `_denied`
unfoldable pub denied : SecurityError → Served
unfolding error_response_for
denied e = denied_by (error_response_for (security_error e))

module _ (first_entry : String → String) (trusted_proxies : List String)
    (client_ip_header : String) where
  abbrev forwarded_source : Option String → String
  forwarded_source none = ""
  forwarded_source (some value) = if str_eq value "" then "" else first_entry value

  -- `source_ip`: `first_entry` is the text before the first comma, stripped.
  unfoldable pub source_ip : Request → String
  unfolding any
  source_ip r =
      let peer = host_or_empty r.client_host in
      if any (str_eq peer) trusted_proxies
      then forwarded_source (r.header client_ip_header)
      else peer

module _ (port : SessionStorePort) (hasher : Hasher) (config : SecurityConfig)
    (targets_api_route : Request → Bool) (route : Request → Option Principal → Response) where
  open port use {Store}

  -- `call_next`
  abbrev pub call_next : Request → Option Principal → Served
  call_next r principal = record { routed = some principal; response = route r principal }

  abbrev pub with_principal : Request → Result SecurityError Principal → Served
  with_principal r (err e) = denied e
  with_principal r (ok principal) = call_next r (some principal)

  abbrev pub with_cookie : Request → Option String → ℕ → State Store → Served
  with_cookie r none now s = denied (authentication_failed none)
  with_cookie r (some session_id) now s =
      with_principal r (authenticate port hasher config session_id now s)

  -- `_authenticate`
  unfoldable pub authenticate_gate : Request → ℕ → State Store → Served
  authenticate_gate r now s =
      if is_public r
      then call_next r none
      else if not (targets_api_route r)
      then call_next r none
      else with_cookie r r.session_cookie now s

  abbrev pub after_check : Result SecurityError (Unit {0}) → Served → Served
  after_check (err e) next = denied e
  after_check (ok done) next = next

  -- `_rate_limit`
  unfoldable pub rate_limit_gate : Request → String → ℕ → Counts → Served → Counts × Served
  rate_limit_gate r source now counts next =
      let (counted, checked) = RateLimit.check config source (kind_of r) now counts in
      (counted, after_check checked next)

  -- `_security_headers`
  abbrev pub secured : Served → Served
  secured served = record {
    routed = served.routed;
    response = record served.response {
      headers = set_headers security_headers served.response.headers;
    };
  }

  module _ {Address Range : Type 0} (ip_address : String → Option Address)
      (ip_network : String → Range) (holds : Range → Address → Bool) (ip_allowlist : List String)
      (first_entry : String → String) (trusted_proxies : List String)
      (client_ip_header : String) where
    abbrev pub ip_checked :
        Result SecurityError (Unit {0}) → Counts → Counts × Served → Counts × Served
    ip_checked (err e) counts next = (counts, denied e)
    ip_checked (ok done) counts next = next

    -- `_ip_check`
    unfoldable pub ip_gate : String → Counts → Counts × Served → Counts × Served
    ip_gate source counts next =
        ip_checked (Network.check ip_address ip_network holds ip_allowlist source) counts next

    abbrev pub source : Request → String
    source r = source_ip first_entry trusted_proxies client_ip_header r

    -- The whole chain: headers, then the address, then the rate, then the session. The two gates that
    -- read the clock read it at `rate_time` and `session_time`.
    unfoldable pub serve : Request → ℕ → ℕ → State Store → Counts → Counts × Served
    serve r rate_time session_time s counts =
        let (counted, served) =
          ip_gate (source r) counts
            (rate_limit_gate r (source r) rate_time counts (authenticate_gate r session_time s)) in
        (counted, secured served)
