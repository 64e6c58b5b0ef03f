-- ===== src/Security/Authentication/Lockout.antt =====
-- Guessing: what a run of wrong passwords does to an account.
use ai_dlc_test.Common.{
  ℕ, suc, ◌+◌, ◌≤◌, ◌<◌, ◌≡◌, refl, true, false, String, List, [], ◌∷◌, some, none, err, arith, ◌∙◌,
  subst, Bool-cases, inl, inr, In, length, leb,
}
use ai_dlc_test.Security.Entities.{
  Account, SecurityConfig, authentication_failed, is_locked, seconds,
}
use ai_dlc_test.Security.Store.{SessionStorePort, IsStore}
use ai_dlc_test.Security.Authentication.{Hasher, denied, State, login, after_failure}

-- A guess: the time and the password.
pub record Guess : Type 0 where
  pub time : ℕ
  pub password : String

module _ (port : SessionStorePort) (hasher : Hasher) (config : SecurityConfig) where
  open port use {Store, find_account}

  -- Logins to one account, one after the other.
  unfoldable pub guesses : String → String → List Guess → State Store → State Store
  unfolding login
  guesses user_id token [] s = s
  guesses user_id token (g ∷ gs) s =
      guesses user_id token gs (login port hasher config user_id g.password g.time token s).0

  -- Wrong for the hash, and between `start` and the end of a lock that begins then.
  abbrev pub IsWrong : String → ℕ → Guess → Type 0
  IsWrong hash start g =
      (hasher.verify hash g.password ≡ false)
      × (start ≤ g.time)
      × (g.time < start + seconds config.lock_duration_seconds)

  -- Locked, at least until the end of a lock that begins at `start`.
  abbrev IsShut : ℕ → Account → Type 0
  IsShut start a =
      (until : ℕ) × (a.locked_until ≡ some until)
      × (start + seconds config.lock_duration_seconds ≤ until)

  IsShut-is_locked :
      (start now : ℕ) (a : Account)
      → IsShut start a
      → now < start + seconds config.lock_duration_seconds
      → is_locked a now ≡ true
  unfolding is_locked
  IsShut-is_locked start now a (until, e, le) h = rw e (ground arith)

  unlocked : (a : Account) (now : ℕ) → a.locked_until ≡ none → is_locked a now ≡ false
  unfolding is_locked
  unlocked a now e = rw e

  after_failure-IsShut :
      (a : Account) (start now : ℕ)
      → start ≤ now
      → config.lock_threshold ≤ suc a.failed_attempts
      → IsShut start (after_failure port hasher config a now)
  unfolding after_failure
  after_failure-IsShut a start now h t =
      rw (reached t) (now + seconds config.lock_duration_seconds, refl, omega arith)
    where
      reached :
          config.lock_threshold ≤ suc a.failed_attempts
          → leb config.lock_threshold (suc a.failed_attempts) ≡ true
      reached t = ground arith

  after_failure-counting :
      (a : Account) (now : ℕ)
      → suc a.failed_attempts < config.lock_threshold
      → after_failure port hasher config a now
        ≡ record a { failed_attempts = suc a.failed_attempts }
  unfolding after_failure
  after_failure-counting a now h = ground arith

  after_failure-kept :
      (a : Account) (now : ℕ)
      → ((after_failure port hasher config a now).user_id ≡ a.user_id)
        × ((after_failure port hasher config a now).password_hash ≡ a.password_hash)
  unfolding after_failure
  after_failure-kept a now = ground arith

  locked_refused :
      (user_id password token : String) (now : ℕ) (s : State Store) (a : Account)
      → find_account s.store user_id ≡ some a
      → is_locked a now ≡ true
      → ((login port hasher config user_id password now token s).0.store ≡ s.store)
        × ((login port hasher config user_id password now token s).1
            ≡ err (denied (authentication_failed (some user_id))))
  unfolding login
  locked_refused user_id password token now s a f l = (rw (f, l), rw (f, l))

  module _ (laws : IsStore port) where
    wrong_kept :
        (user_id password token : String) (now : ℕ) (s : State Store) (a : Account)
        → find_account s.store user_id ≡ some a
        → is_locked a now ≡ false
        → hasher.verify a.password_hash password ≡ false
        → find_account (login port hasher config user_id password now token s).0.store user_id
          ≡ some (after_failure port hasher config a now)
    unfolding login
    wrong_kept user_id password token now s a f l w =
        let u = (after_failure-kept a now).0 ∙ laws.found s.store a user_id f in
        rw (f, l, w)
          (subst
            (λ (id : String).
              find_account (port.save_account (after_failure port hasher config a now) s.store) id
              ≡ some (after_failure port hasher config a now))
            u (laws.saved s.store (after_failure port hasher config a now)))

    module _ (user_id token hash : String) (start : ℕ) where
      stays_shut :
          (gs : List Guess) (s : State Store) (a : Account)
          → find_account s.store user_id ≡ some a
          → IsShut start a
          → ((g : Guess) → In g gs → IsWrong hash start g)
          → find_account (guesses user_id token gs s).store user_id ≡ some a
      unfolding guesses
      stays_shut [] s a f shut wrong = f
      stays_shut (g ∷ gs) s a f shut wrong =
          let l = IsShut-is_locked start g.time a shut (wrong g (inl refl)).2 in
          let kept = (locked_refused user_id g.password token g.time s a f l).0 in
          stays_shut gs (login port hasher config user_id g.password g.time token s).0 a (rw kept f)
            shut (λ h m. wrong h (inr m))

      shuts :
          (gs : List Guess) (s : State Store) (a : Account)
          → find_account s.store user_id ≡ some a
          → a.password_hash ≡ hash
          → a.locked_until ≡ none
          → a.failed_attempts < config.lock_threshold
          → config.lock_threshold ≤ a.failed_attempts + length gs
          → ((g : Guess) → In g gs → IsWrong hash start g)
          → (b : Account) × (find_account (guesses user_id token gs s).store user_id ≡ some b)
            × IsShut start b
      unfolding guesses
      shuts [] s a f p n c enough wrong = absurd (omega (arith, enough, c))
      shuts (g ∷ gs) s a f p n c enough wrong =
          let w = wrong g (inl refl) in
          let next = (login port hasher config user_id g.password g.time token s).0 in
          let kept =
            wrong_kept user_id g.password token g.time s a f (unlocked a g.time n) (rw p w.0) in
          let rest = λ (h : Guess) (m : In h gs). wrong h (inr m) in
          elim (Bool-cases (leb config.lock_threshold (suc a.failed_attempts))) [
            | inl e ↦
                let b = after_failure port hasher config a g.time in
                let shut = after_failure-IsShut a start g.time w.1 (ground arith) in
                (b, stays_shut gs next b kept shut rest, shut)
            | inr e ↦
                let more : suc a.failed_attempts < config.lock_threshold = ground arith in
                shuts gs next (record a { failed_attempts = suc a.failed_attempts })
                  (rw (after_failure-counting a g.time more) at kept) p n more
                  (omega (arith, enough)) rest
          ]

  -- Where the store keeps its promises, as many wrong passwords as the threshold, counted with the
  -- failures before them and all within one lock duration of a start, lock an account that was not
  -- locked: until that duration is over every login to it is denied, the right password included.
  pub login-locked_out :
      (laws : IsStore port) (user_id token password : String) (start later : ℕ) (gs : List Guess)
      (s : State Store) (a : Account)
      → find_account s.store user_id ≡ some a
      → a.locked_until ≡ none
      → a.failed_attempts < config.lock_threshold
      → config.lock_threshold ≤ a.failed_attempts + length gs
      → ((g : Guess) → In g gs → IsWrong a.password_hash start g)
      → later < start + seconds config.lock_duration_seconds
      → (login port hasher config user_id password later token (guesses user_id token gs s)).1
        ≡ err (denied (authentication_failed (some user_id)))
  login-locked_out laws user_id token password start later gs s a f n c enough wrong soon =
      let (b, found, shut) =
        shuts laws user_id token a.password_hash start gs s a f refl n c enough wrong in
      (locked_refused user_id password token later (guesses user_id token gs s) b found
        (IsShut-is_locked start later b shut soon)).1
