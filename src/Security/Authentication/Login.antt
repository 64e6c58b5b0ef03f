-- ===== src/Security/Authentication/Login.antt =====
-- One login: what it verifies, what it answers and what it leaves in the store.
use ai_dlc_test.Common.{
  ℕ, ◌≡◌, refl, ◌⊎◌, true, false, String, [], ◌∷◌, ◌++◌, Option, some, none, Result, ok, err, arith,
  Option-cases, Bool-cases, inl, inr,
}
use ai_dlc_test.Security.Entities.{
  Account, Session, SecurityConfig, authentication_failed, is_locked,
}
use ai_dlc_test.Security.Store.{SessionStorePort, StoreError}
use ai_dlc_test.Security.Authentication.{
  Hasher, LoginError, denied, store_error, State, login, login_to, session_for, issued,
}

module _ (port : SessionStorePort) (hasher : Hasher) (config : SecurityConfig) where
  open port use {Store, find_account, save_account, save_session}

  issued-verified :
      (user_id : String) (now : ℕ) (session : Session) (r : Result StoreError Store)
      (s : State Store)
      → (issued port hasher config user_id now session r s).0.verified ≡ s.verified
  issued-verified user_id now session (ok x) s = refl
  issued-verified user_id now session (err e) s = refl

  issued-err :
      (user_id : String) (now : ℕ) (session : Session) (r : Result StoreError Store)
      (s : State Store) (e : LoginError)
      → (issued port hasher config user_id now session r s).1 ≡ err e
      → (f : StoreError) × (e ≡ store_error f)
  issued-err user_id now session (ok x) s e h = cc
  issued-err user_id now session (err f) s e h = (f, ground arith)

  issued-ok :
      (user_id : String) (now : ℕ) (session x : Session) (r : Result StoreError Store)
      (s : State Store)
      → (issued port hasher config user_id now session r s).1 ≡ ok x
      → x ≡ session
  issued-ok user_id now session x (ok store) s h = ground arith
  issued-ok user_id now session x (err f) s h = cc

  module _ (user_id password token : String) (now : ℕ) (s : State Store) where
    abbrev tried : Option Account → State Store × Result LoginError Session
    tried o = login_to port hasher config user_id password now token o s

    tried-verified :
        (o : Option Account) → (hash : String) × ((tried o).0.verified ≡ s.verified ++ hash ∷ [])
    tried-verified none = (hasher.dummy_hash, refl)
    tried-verified (some a) = elim (Bool-cases (is_locked a now)) [
      | inl l ↦ (hasher.dummy_hash, rw l)
      | inr l ↦ elim (Bool-cases (hasher.verify a.password_hash password)) [
        | inl v ↦ (a.password_hash, rw (l, v) (issued-verified _ _ _ _ _))
        | inr v ↦ (a.password_hash, rw (l, v))
      ]
    ]

    tried-denied :
        (o : Option Account) (e : LoginError)
        → (tried o).1 ≡ err e
        → (e ≡ denied (authentication_failed (some user_id)))
          ⊎ ((f : StoreError) × (e ≡ store_error f))
    tried-denied none e h = inl (ground arith)
    tried-denied (some a) e h = elim (Bool-cases (is_locked a now)) [
      | inl l ↦ inl (ground arith)
      | inr l ↦ elim (Bool-cases (hasher.verify a.password_hash password)) [
        | inl v ↦ inr (issued-err _ _ _ _ _ e (rw (l, v) at h))
        | inr v ↦ inl (ground arith)
      ]
    ]

    tried-ok :
        (a : Account) (x : Session)
        → (tried (some a)).1 ≡ ok x
        → (is_locked a now ≡ false)
          × (hasher.verify a.password_hash password ≡ true)
          × (x ≡ session_for port hasher config a token now)
    tried-ok a x h = elim (Bool-cases (is_locked a now)) [
      | inl l ↦ absurd (ground arith)
      | inr l ↦ elim (Bool-cases (hasher.verify a.password_hash password)) [
        | inl v ↦ (l, v, issued-ok _ _ _ x _ _ (rw (l, v) at h))
        | inr v ↦ absurd (ground arith)
      ]
    ]

  -- Every login makes exactly one call of verify, on every path.
  pub login-verified :
      (user_id password token : String) (now : ℕ) (s : State Store)
      → (hash : String) × ((login port hasher config user_id password now token s).0.verified
          ≡ s.verified ++ hash ∷ [])
  unfolding login
  login-verified user_id password token now s =
      tried-verified user_id password token now s (find_account s.store user_id)

  -- A login fails with the generic denial that names the user it was for and no reason, or with the
  -- error of the store.
  pub login-denied :
      (user_id password token : String) (now : ℕ) (s : State Store) (e : LoginError)
      → (login port hasher config user_id password now token s).1 ≡ err e
      → (e ≡ denied (authentication_failed (some user_id)))
        ⊎ ((f : StoreError) × (e ≡ store_error f))
  unfolding login
  login-denied user_id password token now s e h =
      tried-denied user_id password token now s (find_account s.store user_id) e h

  -- A login that issues a session found the account, which was not locked, verified the password
  -- against its hash, and issued the session of that account and its role.
  pub login-ok :
      (user_id password token : String) (now : ℕ) (s : State Store) (x : Session)
      → (login port hasher config user_id password now token s).1 ≡ ok x
      → (a : Account) × (find_account s.store user_id ≡ some a)
        × (is_locked a now ≡ false)
        × (hasher.verify a.password_hash password ≡ true)
        × (x ≡ session_for port hasher config a token now)
  unfolding login
  login-ok user_id password token now s x h = elim (Option-cases (find_account s.store user_id)) [
    | inl n ↦ absurd (ground arith)
    | inr (a, f) ↦
        let (l, v, q) = tried-ok user_id password token now s a x (rw f at h) in (a, f, l, v, q)
  ]
