-- ===== src/Api/Middleware/Guarded.antt =====
-- What a request has passed when it reaches its route.
use ai_dlc_test.Common.{
  ℕ, ◌≡◌, refl, ◌⊎◌, Bool, true, false, String, List, Option, some, none, Result, ok, err,
  Result-cases, Bool-cases, inl, inr, sym, subst,
}
use ai_dlc_test.Security.Entities.{
  Principal, SecurityConfig, SecurityError, authentication_failed, authorization_denied,
  ip_not_allowed, rate_limit_exceeded,
}
use ai_dlc_test.Security.Store.{SessionStorePort}
use ai_dlc_test.Security.Authentication.{Hasher, State, authenticate}
use ai_dlc_test.Security.RateLimit.{Counts}
use ai_dlc_test.Security.RateLimit as RateLimit
use ai_dlc_test.Security.Network as Network
use ai_dlc_test.Api.Errors.{error_response_for}
use ai_dlc_test.Api.Middleware.{
  Request, Response, Served, is_public, kind_of, denied, authenticate_gate, rate_limit_gate,
  ip_gate, source, serve, with_cookie, with_principal,
}

module _ (port : SessionStorePort) (hasher : Hasher) (config : SecurityConfig)
    (targets_api_route : Request → Bool) (route : Request → Option Principal → Response) where
  open port use {Store}

  -- A request may reach its route as `who`: the route needs no session, or a session in its cookie
  -- authenticates the principal.
  abbrev pub IsAdmitted : Request → ℕ → State Store → Option Principal → Type 0
  IsAdmitted r now s who =
      ((who ≡ none) × ((is_public r ≡ true) ⊎ (targets_api_route r ≡ false)))
      ⊎ ((session_id : String) × (principal : Principal) × (r.session_cookie ≡ some session_id)
          × (authenticate port hasher config session_id now s ≡ ok principal)
          × (who ≡ some principal))

  -- Not routed, with the status of a denial.
  abbrev pub IsRefused : Served → Type 0
  IsRefused served =
      (served.routed ≡ none)
      × ((served.response.status ≡ 401)
          ⊎ ((served.response.status ≡ 403) ⊎ (served.response.status ≡ 429)))

  -- Routed as somebody who is admitted.
  abbrev pub IsRouted : Request → ℕ → State Store → Served → Type 0
  IsRouted r now s served =
      (who : Option Principal) × (served.routed ≡ some who) × IsAdmitted r now s who

  denied-IsRefused : (e : SecurityError) → IsRefused (denied e)
  unfolding denied error_response_for
  denied-IsRefused (authentication_failed user_id) = (refl, inl refl)
  denied-IsRefused (authorization_denied user_id action resource_id) = (refl, inr (inl refl))
  denied-IsRefused (ip_not_allowed source_ip) = (refl, inr (inl refl))
  denied-IsRefused (rate_limit_exceeded source_ip) = (refl, inr (inr refl))

  abbrev gate : Request → ℕ → State Store → Served
  gate = authenticate_gate port hasher config targets_api_route route

  by_cookie :
      (r : Request) (now : ℕ) (s : State Store) (cookie : Option String)
      → r.session_cookie ≡ cookie
      → (let served = with_cookie port hasher config targets_api_route route r cookie now s in
          IsRefused served ⊎ IsRouted r now s served)
  by_cookie r now s none e = inl (denied-IsRefused (authentication_failed none))
  by_cookie r now s (some id) e = by_session (authenticate port hasher config id now s) refl
    where
      by_session :
          (a : Result SecurityError Principal)
          → authenticate port hasher config id now s ≡ a
          → (let served = with_principal port hasher config targets_api_route route r a in
              IsRefused served ⊎ IsRouted r now s served)
      by_session (err x) q = inl (denied-IsRefused x)
      by_session (ok principal) q = inr (some principal, refl, inr (id, principal, e, q, refl))

  gate-IsAdmitted :
      (r : Request) (now : ℕ) (s : State Store)
      → IsRefused (gate r now s) ⊎ IsRouted r now s (gate r now s)
  unfolding authenticate_gate
  gate-IsAdmitted r now s = elim (Bool-cases (is_public r)) [
    | inl t ↦
        let e : gate r now s ≡ record { routed = some none; response = route r none } = rw t refl in
        guard e (inr (none, refl, inl (refl, inl t)))
    | inr f ↦ elim (Bool-cases (targets_api_route r)) [
      | inr n ↦
          let e : gate r now s ≡ record { routed = some none; response = route r none } =
            rw (f, n) refl in
          guard e (inr (none, refl, inl (refl, inr n)))
      | inl t ↦
          let e : gate r now s
              ≡ with_cookie port hasher config targets_api_route route r r.session_cookie now s =
            rw (f, t) refl in
          guard e (by_cookie r now s r.session_cookie refl)
    ]
  ]
    where
      guard :
          {served : Served}
          → gate r now s ≡ served
          → IsRefused served ⊎ IsRouted r now s served
          → IsRefused (gate r now s) ⊎ IsRouted r now s (gate r now s)
      guard e h = subst (λ x. IsRefused x ⊎ IsRouted r now s x) (sym e) h

  module _ {Address Range : Type 0} (ip_address : String → Option Address)
      (ip_network : String → Range) (holds : Range → Address → Bool) (ip_allowlist : List String)
      (first_entry : String → String) (trusted_proxies : List String)
      (client_ip_header : String) where
    abbrev source_of : Request → String
    source_of r =
        source port hasher config targets_api_route route ip_address ip_network holds ip_allowlist
          first_entry trusted_proxies client_ip_header r

    -- Every request is refused with the status of a denial and does not reach its route, or it
    -- passed the allowlist and the rate limiter and is routed: without a principal where the route
    -- is public or no API route, and otherwise as the principal whom the session in its cookie
    -- authenticates.
    pub serve-IsGuarded :
        (r : Request) (rate_time session_time : ℕ) (s : State Store) (counts : Counts)
        → (let served =
              serve port hasher config targets_api_route route ip_address ip_network holds
                ip_allowlist first_entry trusted_proxies client_ip_header r rate_time session_time s
                counts in
            IsRefused served.1
            ⊎ (Network.IsListed ip_address ip_network holds ip_allowlist (source_of r)
                × ((RateLimit.check config (source_of r) (kind_of r) rate_time counts).1 ≡ ok tt)
                × IsRouted r session_time s served.1))
    unfolding serve ip_gate rate_limit_gate
    serve-IsGuarded r rate_time session_time s counts =
        elim (Result-cases (Network.check ip_address ip_network holds ip_allowlist (source_of r))) [
          | inr (e, q) ↦ inl (rw q (denied-IsRefused e))
          | inl (u, q) ↦
              elim (Result-cases
                (RateLimit.check config (source_of r) (kind_of r) rate_time counts).1) [
                  | inr (e, p) ↦ inl (rw (q, p) (denied-IsRefused e))
                  | inl (v, p) ↦ elim (gate-IsAdmitted r session_time s) [
                    | inl refused ↦ inl (rw (q, p) refused)
                    | inr routed ↦ inr (
                      (Network.check_iff ip_address ip_network holds ip_allowlist (source_of r)).0.0
                          q,
                      p,
                      rw (q, p) routed,
                    )
                  ]
                ]
        ]
