-- ===== src/Tests/SecurityCases.antt =====
-- src/security at concrete inputs: the store of tables, and a hasher that keeps the password.
use ai_dlc_test.Common.{
  ◌+◌, ◌≤◌, ◌<◌, ◌≡◌, refl, ◌↔◌, ◌⊎◌, true, false, String, List, [], ◌∷◌, some, none, ok, err,
  arith, In, str_eq, str_eq→ne, count_if, inl, inr,
}
use ai_dlc_test.Security.Entities.{
  coordinator, Principal, Account, Session, SecurityConfig, authentication_failed,
  rate_limit_exceeded, ip_not_allowed, is_locked, seconds,
}
use ai_dlc_test.Security.Store.{StoreError}
use ai_dlc_test.Security.Store.Sql.{
  Tables, sql_session_store, sql_session_store-IsStore, find_account, save_account, save_session,
}
use ai_dlc_test.Security.Authentication.{
  Hasher, denied, store_error, State, login, authenticate, logout, session_for,
}
use ai_dlc_test.Security.Authentication.Login.{login-verified, login-denied, login-ok}
use ai_dlc_test.Security.Authentication.Sessions.{authenticate-login, authenticate-logout}
use ai_dlc_test.Security.Authentication.Lockout.{Guess, guesses, IsWrong, login-locked_out}
use ai_dlc_test.Security.Authorization.{
  require_authorization, IsDecided, require_authorization-IsDecided,
}
use ai_dlc_test.Security.RateLimit.{Request, check, checks, limit_for, window_of, is_for}
use ai_dlc_test.Security.RateLimit.Counted.{check-refuses_iff}
use ai_dlc_test.Security.Network.{IsListed, check_iff}
use ai_dlc_test.Security.Network
use ai_dlc_test.Security.Sanitizer.{IsFormula, sanitize_csv_cell, sanitize_csv_cell-IsFormula}

abbrev pub plain : Hasher
plain = record { verify = str_eq; dummy_hash = "dummy" }

abbrev pub config : SecurityConfig
config = record {
  session_ttl_seconds = 28800;
  lock_threshold = 2;
  lock_duration_seconds = 900;
  rate_limit_per_minute = 60;
  login_rate_limit_per_minute = 1;
}

abbrev tanaka : Account
tanaka = record {
  user_id = "u1";
  password_hash = "secret";
  role = coordinator;
  failed_attempts = 0;
  locked_until = none;
}

abbrev tanaka_principal : Principal
tanaka_principal = record { user_id = "u1"; role = coordinator }

abbrev pub start : State Tables
start = record {
  store = record { accounts = tanaka ∷ []; sessions = [] };
  audit = [];
  verified = [];
}

abbrev first_session : Session
first_session = record {
  id = "t1";
  principal = record { user_id = "u1"; role = coordinator };
  issued_at = 100;
  expires_at = 28800000100;
}

logged_in : (login sql_session_store plain config "u1" "secret" 100 "t1" start).1 ≡ ok first_session
unfolding login find_account save_account save_session
logged_in = refl

kept_out :
    (login sql_session_store plain config "u1" "guess" 100 "t1" start).1
    ≡ err (denied (authentication_failed (some "u1")))
unfolding login find_account save_account save_session
kept_out = refl

known : find_account start.store "u1" ≡ some tanaka
unfolding find_account
known = refl

login-verified_example :
    (hash : String) × ((login sql_session_store plain config "u2" "guess" 100 "t1" start).0.verified
      ≡ hash ∷ [])
login-verified_example = login-verified sql_session_store plain config "u2" "guess" "t1" 100 start

login-denied_example :
    (denied (authentication_failed (some "u1")) ≡ denied (authentication_failed (some "u1")))
    ⊎ ((f : StoreError) × (denied (authentication_failed (some "u1")) ≡ store_error f))
login-denied_example =
    login-denied sql_session_store plain config "u1" "guess" "t1" 100 start
      (denied (authentication_failed (some "u1"))) kept_out

login-ok_example :
    (a : Account) × (find_account start.store "u1" ≡ some a)
    × (is_locked a 100 ≡ false)
    × (str_eq a.password_hash "secret" ≡ true)
    × (first_session ≡ session_for sql_session_store plain config a "t1" 100)
login-ok_example =
    login-ok sql_session_store plain config "u1" "secret" "t1" 100 start first_session logged_in

authenticate-login_example :
    (authenticate sql_session_store plain config "t1" 200
        (login sql_session_store plain config "u1" "secret" 100 "t1" start).0
      ≡ ok first_session.principal)
    ↔ (200 < 100 + seconds 28800)
authenticate-login_example =
    authenticate-login sql_session_store sql_session_store-IsStore plain config "u1" "secret" "t1"
      100 200 start first_session logged_in

authenticate-logout_example :
    (authenticate sql_session_store plain config "t1" 300
        (logout sql_session_store plain config "t1" 200 start)
      ≡ err (authentication_failed none))
    × (authenticate sql_session_store plain config "t2" 300
          (logout sql_session_store plain config "t1" 200 start)
        ≡ authenticate sql_session_store plain config "t2" 300 start)
authenticate-logout_example =
    authenticate-logout sql_session_store sql_session_store-IsStore plain config "t1" "t2" 200 300
      start (str_eq→ne "t1" "t2" refl)

abbrev two_guesses : List Guess
two_guesses = (record { time = 100; password = "a" }) ∷ (record { time = 150; password = "b" }) ∷ []

both-IsWrong :
    (g : Guess) → In g two_guesses → IsWrong sql_session_store plain config "secret" 100 g
both-IsWrong g (inl e) = rw e (refl, omega arith, omega arith)
both-IsWrong g (inr (inl e)) = rw e (refl, omega arith, omega arith)
both-IsWrong g (inr (inr m)) = absurd m

login-locked_out_example :
    (login sql_session_store plain config "u1" "secret" 500 "t1"
      (guesses sql_session_store plain config "u1" "t1" two_guesses start)).1
    ≡ err (denied (authentication_failed (some "u1")))
login-locked_out_example =
    login-locked_out sql_session_store plain config sql_session_store-IsStore "u1" "t1" "secret" 100
      500 two_guesses start tanaka known refl (omega arith) (omega arith) both-IsWrong (omega arith)

require_authorization-IsDecided_example :
    IsDecided tanaka_principal "DELETE_EVERYTHING" 100 none []
      (require_authorization tanaka_principal "DELETE_EVERYTHING" 100 none [])
require_authorization-IsDecided_example =
    require_authorization-IsDecided tanaka_principal "DELETE_EVERYTHING" 100 none []

abbrev one_login : List Request
one_login = (record { source_ip = "10.0.0.1"; kind = "login"; time = 1000000 }) ∷ []

same_window : (r : Request) → In r one_login → window_of config r.time ≤ window_of config 2000000
unfolding window_of
same_window r (inl e) = rw e (omega arith)
same_window r (inr m) = absurd m

check-refuses_iff_example :
    ((check config "10.0.0.1" "login" 2000000 (checks config one_login [])).1
      ≡ err (rate_limit_exceeded "10.0.0.1"))
    ↔ (limit_for config "login"
        ≤ count_if
            (is_for config (record {
              source_ip = "10.0.0.1";
              kind = "login";
              window = window_of config 2000000;
            }))
            one_login)
check-refuses_iff_example =
    check-refuses_iff config "10.0.0.1" "login" 2000000 one_login same_window

-- Addresses and networks as texts; a network holds what it equals.
check_iff_example :
    ((Network.check (λ (s : String). some s) (λ (s : String). s) str_eq ("10.0.0.1" ∷ []) "10.0.0.1"
        ≡ ok tt)
      ↔ IsListed (λ (s : String). some s) (λ (s : String). s) str_eq ("10.0.0.1" ∷ []) "10.0.0.1")
    × (Network.check (λ (s : String). some s) (λ (s : String). s) str_eq [] "10.0.0.1"
        ≡ err (ip_not_allowed "10.0.0.1"))
check_iff_example =
    check_iff (λ (s : String). some s) (λ (s : String). s) str_eq ("10.0.0.1" ∷ []) "10.0.0.1"

sanitize_csv_cell-IsFormula_example :
    ((IsFormula "=1+1" × (sanitize_csv_cell "=1+1" ≡ "'=1+1"))
      ⊎ ((¬ IsFormula "=1+1") × (sanitize_csv_cell "=1+1" ≡ "=1+1")))
    × (¬ IsFormula (sanitize_csv_cell "=1+1"))
sanitize_csv_cell-IsFormula_example = sanitize_csv_cell-IsFormula "=1+1"
