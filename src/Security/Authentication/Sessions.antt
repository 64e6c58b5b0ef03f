-- ===== src/Security/Authentication/Sessions.antt =====
-- The life of a session: from the login that issued it to its expiry or its logout.
use ai_dlc_test.Common.{
  ℕ, ◌+◌, ◌<◌, ◌≡◌, ◌≢◌, ◌↔◌, String, some, none, ok, err, arith, Bool-cases, Option-cases, inl,
  inr, ap, Result-cases,
}
use ai_dlc_test.Security.Entities.{
  Session, SecurityConfig, authentication_failed, is_expired, is_locked, seconds,
}
use ai_dlc_test.Security.Store.{SessionStorePort, IsStore}
use ai_dlc_test.Security.Authentication.Login.{login-ok}
use ai_dlc_test.Security.Authentication.{
  Hasher, State, login, authenticate, principal_of, logout, issued,
}

module _ (port : SessionStorePort) (laws : IsStore port) (hasher : Hasher)
    (config : SecurityConfig) where
  open port use {Store, find_account, find_session, save_session}

  -- Where the store keeps its promises, a session that was logged out is denied at every time, and
  -- a session with another identifier answers as before.
  pub authenticate-logout :
      (session_id other : String) (now later : ℕ) (s : State Store)
      → session_id ≢ other
      → (authenticate port hasher config session_id later
            (logout port hasher config session_id now s)
          ≡ err (authentication_failed none))
        × (authenticate port hasher config other later (logout port hasher config session_id now s)
            ≡ authenticate port hasher config other later s)
  unfolding authenticate logout
  authenticate-logout session_id other now later s n = (
    rw (laws.deleted s.store session_id),
    rw (laws.deletion_others_kept s.store session_id other n),
  )

  issued-kept :
      (user_id : String) (now : ℕ) (session x : Session) (store : Store) (s : State Store)
      → (issued port hasher config user_id now session (save_session session store) s).1 ≡ ok x
      → find_session
          (issued port hasher config user_id now session (save_session session store) s).0.store
          x.id
        ≡ some x
  issued-kept user_id now session x store s h = elim (Result-cases (save_session session store)) [
    | inl (kept, e) ↦
        let same : session ≡ x = ground arith in
        rw (e, ← same) (laws.session_saved store kept session e)
    | inr (f, e) ↦ absurd (ground arith)
  ]

  login-kept :
      (user_id password token : String) (now : ℕ) (s : State Store) (x : Session)
      → (login port hasher config user_id password now token s).1 ≡ ok x
      → find_session (login port hasher config user_id password now token s).0.store x.id ≡ some x
  unfolding login
  login-kept user_id password token now s x h = elim (Option-cases (find_account s.store user_id)) [
    | inl n ↦ absurd (ground arith)
    | inr (a, f) ↦ elim (Bool-cases (is_locked a now)) [
      | inl l ↦ absurd (ground arith)
      | inr l ↦ elim (Bool-cases (hasher.verify a.password_hash password)) [
        | inl v ↦ rw (f, l, v) (issued-kept user_id now _ x _ _ (rw (f, l, v) at h))
        | inr v ↦ absurd (ground arith)
      ]
    ]
  ]

  live_iff :
      (x : Session) (later : ℕ)
      → (principal_of port hasher config (some x) later ≡ ok x.principal) ↔ (later < x.expires_at)
  unfolding is_expired
  live_iff x later = (λ h. ground arith, λ h. ground arith)

  -- Where the store keeps its promises, the session of a login authenticates its principal at a
  -- time exactly where that time is before the login and the time to live.
  pub authenticate-login :
      (user_id password token : String) (now later : ℕ) (s : State Store) (x : Session)
      → (login port hasher config user_id password now token s).1 ≡ ok x
      → (authenticate port hasher config x.id later
            (login port hasher config user_id password now token s).0
          ≡ ok x.principal)
        ↔ (later < now + seconds config.session_ttl_seconds)
  unfolding authenticate
  authenticate-login user_id password token now later s x h =
      let kept = login-kept user_id password token now s x h in
      let (a, f, l, v, q) = login-ok port hasher config user_id password token now s x h in
      rw (kept, ← (ap (λ (y : Session). y.expires_at) q)) (live_iff x later)
