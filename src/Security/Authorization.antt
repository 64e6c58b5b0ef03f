-- ===== src/Security/Authorization.antt =====
-- src/security/authorization.py: the check of a role and of the resource, and its denial.
use ai_dlc_test.Common.{
  ℕ, ◌≡◌, refl, Bool, true, false, not, String, List, [], ◌∷◌, ◌++◌, Option, some, none, Result, ok,
  err, any, str_eq, if◌then◌else◌, In, str_eq→eq, str_eq_refl, str_append, any-true, any-false,
  arith, Bool-cases, inl, inr,
}
use ai_dlc_test.Security.Entities.{
  Role, coordinator, Principal, AuditEvent, authz_denied, SecurityError, authorization_denied,
}

pub record AuthorizationDecision : Type 0 where
  pub allowed : Bool
  pub reason : Option String

-- `_ROLE_ACTIONS.get(role)`
unfoldable pub role_actions : Role → Option (List String)
role_actions coordinator = some (
    "MANAGE_EVENT" ∷ "IMPORT_MASTER" ∷ "MANAGE_DECLARATIONS" ∷ "RUN_OPTIMIZATION"
    ∷ "VIEW_ASSIGNMENT" ∷ "EDIT_ASSIGNMENT" ∷ "VIEW_REPORT" ∷ "EXPORT_DATA" ∷ [])

-- `role in _UNRESTRICTED_ROLES`
unfoldable pub is_unrestricted : Role → Bool
is_unrestricted coordinator = true

abbrev pub action_in : String → Option (List String) → Bool
action_in action none = false
action_in action (some actions) = any (str_eq action) actions

-- `_authorize_resource`
unfoldable pub authorize_resource : Principal → Option String → AuthorizationDecision
unfolding is_unrestricted
authorize_resource principal resource_id =
    if is_unrestricted principal.role
    then record { allowed = true; reason = none }
    else record { allowed = false; reason = some "object-level access denied" }

-- `Authorizer.authorize`
unfoldable pub authorize : Principal → String → Option String → AuthorizationDecision
unfolding role_actions any authorize_resource
authorize principal action resource_id =
    if action_in action (role_actions principal.role)
    then authorize_resource principal resource_id
    else record { allowed = false; reason = some "action not permitted for role" }

-- `f"{action}: {decision.reason}"`
abbrev denial_detail : String → Option String → String
denial_detail action none = str_append action ": None"
denial_detail action (some reason) = str_append action (str_append ": " reason)

abbrev pub denial_event : Principal → String → ℕ → Option String → AuditEvent
denial_event principal action now reason = record {
  timestamp = now;
  action = authz_denied;
  actor = some principal.user_id;
  detail = some (denial_detail action reason);
}

-- `Authorizer.require_authorization`, on the audit log.
unfoldable pub require_authorization :
    Principal
    → String
    → ℕ
    → Option String
    → List AuditEvent
    → List AuditEvent × Result SecurityError (Unit {0})
unfolding authorize
require_authorization principal action now resource_id audit =
    let decision = authorize principal action resource_id in
    if not decision.allowed
    then (
      audit ++ denial_event principal action now decision.reason ∷ [],
      err (authorization_denied principal.user_id action resource_id),
    )
    else (audit, ok tt)

-- The role lists the action and reaches every resource.
abbrev pub IsPermitted : Principal → String → Type 0
IsPermitted principal action =
    (actions : List String) × (role_actions principal.role ≡ some actions)
    × In action actions
    × (is_unrestricted principal.role ≡ true)

-- The two outcomes: nothing happens, or the denial is raised and one event is logged.
pub data IsDecided (principal : Principal) (action : String) (now : ℕ) (resource_id : Option String)
    (audit : List AuditEvent) : List AuditEvent × Result SecurityError (Unit {0}) → Type 0 where
  permitted :
      IsPermitted principal action → IsDecided principal action now resource_id audit (audit, ok tt)
  refused :
      (reason : String)
      → ¬ IsPermitted principal action
      → IsDecided principal action now resource_id audit (
        audit ++ denial_event principal action now (some reason) ∷ [],
        err (authorization_denied principal.user_id action resource_id),
      )

listed :
    (action : String) (o : Option (List String))
    → action_in action o ≡ true
    → (actions : List String) × (o ≡ some actions) × In action actions
listed action none h = cc
listed action (some actions) h =
    let (x, m, e) = any-true (str_eq action) actions h in
    (actions, refl, rw (str_eq→eq action x e) m)

unlisted :
    (action : String) (o : Option (List String)) (actions : List String)
    → action_in action o ≡ false
    → o ≡ some actions
    → ¬ In action actions
unlisted action none actions h e m = absurd (ground arith)
unlisted action (some xs) actions h e m =
    let same : xs ≡ actions = cc e in
    cc (any-false (str_eq action) actions action (rw same at h) m, str_eq_refl action)

-- require_authorization returns and leaves the log as it is where the role lists the action and
-- reaches every resource, and otherwise raises the denial and logs one event that names the
-- principal.
pub require_authorization-IsDecided :
    (principal : Principal) (action : String) (now : ℕ) (resource_id : Option String)
    (audit : List AuditEvent)
    → IsDecided principal action now resource_id audit
        (require_authorization principal action now resource_id audit)
unfolding require_authorization
require_authorization-IsDecided principal action now resource_id audit =
    elim (Bool-cases (action_in action (role_actions principal.role))) [
      | inl i ↦ elim (Bool-cases (is_unrestricted principal.role)) [
        | inl u ↦
            let (actions, e, m) = listed action (role_actions principal.role) i in
            rw (i, u) (permitted (actions, e, m, u))
        | inr u ↦ rw (i, u) (refused "object-level access denied" (λ p. cc (u, p.3)))
      ]
      | inr i ↦ rw i (
          refused "action not permitted for role"
            (λ p. unlisted action (role_actions principal.role) p.0 i p.1 p.2))
    ]
