-- ===== src/Security/Authentication.antt =====
-- src/security/authentication.py: login, validation of sessions and logout. The store and the hasher
-- stand behind their ports; the random identifier of a session is an argument of `login`.
pub mod Login
pub mod Lockout
pub mod Sessions
use ai_dlc_test.Common.{
  ℕ, suc, ◌+◌, Bool, true, false, String, List, [], ◌∷◌, ◌++◌, Option, some, none, Result, ok, err,
  if◌then◌else◌, leb,
}
use ai_dlc_test.Security.Entities.{
  Account, Session, Principal, SecurityConfig, SecurityError, authentication_failed, AuditEvent,
  AuditAction, login_success, auth_failure, logged_out, is_locked, is_expired, seconds,
}
use ai_dlc_test.Security.Store.{SessionStorePort, StoreError}

-- `PasswordHasherPort`: `verify` of a hash and a password, and the hash of the dummy password.
pub record Hasher : Type 0 where
  pub verify : String → String → Bool
  pub dummy_hash : String

-- What `login` raises: its own denial, or the error of the store.
pub data LoginError : Type 0 where
  denied : SecurityError → LoginError
  store_error : StoreError → LoginError

-- The store, the audit log and the hashes that were verified, in their order.
pub record State (S : Type 0) : Type 0 where
  pub store : S
  pub audit : List AuditEvent
  pub verified : List String

module _ (port : SessionStorePort) (hasher : Hasher) (config : SecurityConfig) where
  open port use {Store, find_account, save_account, save_session, find_session, delete_session}

  -- `self._audit.record(event)`
  abbrev pub record_event : AuditEvent → State Store → State Store
  record_event event s = record s { audit = s.audit ++ event ∷ [] }

  abbrev pub failure : String → ℕ → String → AuditEvent
  failure user_id now reason = record {
    timestamp = now;
    action = auth_failure;
    actor = some user_id;
    detail = some reason;
  }

  abbrev pub success : String → ℕ → AuditEvent
  success user_id now = record {
    timestamp = now;
    action = login_success;
    actor = some user_id;
    detail = none;
  }

  -- A call of `verify`, which takes its time whatever it answers.
  abbrev pub verifying : String → State Store → State Store
  verifying hash s = record s { verified = s.verified ++ hash ∷ [] }

  abbrev pub storing : Store → State Store → State Store
  storing store s = record s { store = store }

  -- `_after_failure`
  unfoldable pub after_failure : Account → ℕ → Account
  after_failure account now =
      let attempts = suc account.failed_attempts in
      if leb config.lock_threshold attempts
      then record account {
        failed_attempts = attempts;
        locked_until = some (now + seconds config.lock_duration_seconds);
      }
      else record account { failed_attempts = attempts }

  abbrev pub refused : String → ℕ → String → State Store → State Store × Result LoginError Session
  refused user_id now reason s = (
    record_event (failure user_id now reason) s,
    err (denied (authentication_failed (some user_id))),
  )

  abbrev pub session_for : Account → String → ℕ → Session
  session_for account token now = record {
    id = token;
    principal = record { user_id = account.user_id; role = account.role };
    issued_at = now;
    expires_at = now + seconds config.session_ttl_seconds;
  }

  abbrev pub issued :
      String
      → ℕ
      → Session
      → Result StoreError Store
      → State Store
      → State Store × Result LoginError Session
  issued user_id now session (err e) s = (s, err (store_error e))
  issued user_id now session (ok store) s =
      (record_event (success user_id now) (storing store s), ok session)

  -- The counters are reset before the session is saved.
  abbrev pub accepted :
      String → ℕ → String → Account → State Store → State Store × Result LoginError Session
  accepted user_id now token account s =
      let store =
        save_account (record account { failed_attempts = 0; locked_until = none }) s.store in
      let session = session_for account token now in
      issued user_id now session (save_session session store) (storing store s)

  abbrev pub login_to :
      String
      → String
      → ℕ
      → String
      → Option Account
      → State Store
      → State Store × Result LoginError Session
  login_to user_id password now token none s =
      refused user_id now "unknown account" (verifying hasher.dummy_hash s)
  login_to user_id password now token (some account) s =
      if is_locked account now
      then refused user_id now "account locked" (verifying hasher.dummy_hash s)
      else if hasher.verify account.password_hash password
      then accepted user_id now token account (verifying account.password_hash s)
      else refused user_id now "bad password" (
          storing (save_account (after_failure account now) s.store)
            (verifying account.password_hash s))

  -- `Authenticator.login`
  unfoldable pub login :
      String → String → ℕ → String → State Store → State Store × Result LoginError Session
  unfolding is_locked after_failure
  login user_id password now token s =
      login_to user_id password now token (find_account s.store user_id) s

  abbrev principal_of : Option Session → ℕ → Result SecurityError Principal
  principal_of none now = err (authentication_failed none)
  principal_of (some session) now =
      if is_expired session now then err (authentication_failed none) else ok session.principal

  -- `Authenticator.authenticate`
  unfoldable pub authenticate : String → ℕ → State Store → Result SecurityError Principal
  unfolding is_expired
  authenticate session_id now s = principal_of (find_session s.store session_id) now

  abbrev actor_of : Option Session → Option String
  actor_of none = none
  actor_of (some session) = some session.principal.user_id

  -- `Authenticator.logout`
  unfoldable pub logout : String → ℕ → State Store → State Store
  logout session_id now s =
      record_event
        (record {
          timestamp = now;
          action = logged_out;
          actor = actor_of (find_session s.store session_id);
          detail = none;
        })
        (storing (delete_session session_id s.store) s)
