-- ===== src/Security/Entities.antt =====
-- src/security/entities.py, config.py, audit.py and exceptions.py. A datetime is the microseconds of
-- its instant; counts, durations and limits are configured as nonnegative numbers.
use ai_dlc_test.Common.{ℕ, ◌*◌, Bool, false, String, Option, some, none, ltb, leb}

pub data Role : Type 0 where
  coordinator : Role

pub record Principal : Type 0 where
  pub user_id : String
  pub role : Role

pub record Account : Type 0 where
  pub user_id : String
  pub password_hash : String
  pub role : Role
  pub failed_attempts : ℕ
  pub locked_until : Option ℕ

abbrev before : ℕ → Option ℕ → Bool
before now none = false
before now (some t) = ltb now t

-- `Account.is_locked`
unfoldable pub is_locked : Account → ℕ → Bool
is_locked account now = before now account.locked_until

pub record Session : Type 0 where
  pub id : String
  pub principal : Principal
  pub issued_at : ℕ
  pub expires_at : ℕ

-- `Session.is_expired`
unfoldable pub is_expired : Session → ℕ → Bool
is_expired session now = leb session.expires_at now

pub record SecurityConfig : Type 0 where
  pub session_ttl_seconds : ℕ
  pub lock_threshold : ℕ
  pub lock_duration_seconds : ℕ
  pub rate_limit_per_minute : ℕ
  pub login_rate_limit_per_minute : ℕ

-- `timedelta(seconds=n)`
abbrev pub seconds : ℕ → ℕ
seconds n = 1000000 * n

pub data AuditAction : Type 0 where
  login_success auth_failure logged_out authz_denied : AuditAction
  privilege_escalation_attempt ip_rejected rate_limited : AuditAction
  assignment_created assignment_changed master_changed master_deleted : AuditAction

-- The fields that the security unit writes.
pub record AuditEvent : Type 0 where
  pub timestamp : ℕ
  pub action : AuditAction
  pub actor : Option String
  pub detail : Option String

-- The denials, with the context that each carries.
pub data SecurityError : Type 0 where
  authentication_failed : (user_id : Option String) → SecurityError
  authorization_denied : (user_id action : String) (resource_id : Option String) → SecurityError
  ip_not_allowed : (source_ip : String) → SecurityError
  rate_limit_exceeded : (source_ip : String) → SecurityError
