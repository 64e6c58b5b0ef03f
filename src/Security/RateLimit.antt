-- ===== src/Security/RateLimit.antt =====
-- src/security/rate_limit.py: requests counted by source, kind and minute.
pub mod Counted
use ai_dlc_test.Common.{
  ℕ, suc, ◌+◌, ◌/◌, ◌≤◌, ◌<◌, ◌≡◌, refl, ◌↔◌, Bool, true, false, not, ◌&&◌, String, List, [], ◌∷◌,
  Option, some, none, Result, ok, err, select, count_if, find_first, str_eq, if◌then◌else◌, ltb,
  ◌==◌, arith, Bool-cases, inl, inr, In,
}
use ai_dlc_test.Security.Entities.{SecurityConfig, SecurityError, rate_limit_exceeded}

pub record Key : Type 0 where
  pub source_ip : String
  pub kind : String
  pub window : ℕ

-- `self._counts`: a key and its count.
abbrev pub Counts : Type 0
Counts = List (Key × ℕ)

abbrev pub same_key : Key → Key → Bool
same_key a b = str_eq a.source_ip b.source_ip && (str_eq a.kind b.kind && a.window == b.window)

-- `self._counts.get(key, 0)`
unfoldable pub count_at : Key → Counts → ℕ
count_at key [] = 0
count_at key ((k, n) ∷ counts) = if same_key k key then n else count_at key counts

-- `self._counts[key] = n`
unfoldable pub put : Key → ℕ → Counts → Counts
put key n [] = (key, n) ∷ []
put key n ((k, m) ∷ counts) =
    let rest = put key n counts in if same_key k key then (k, n) ∷ counts else (k, m) ∷ rest

-- `_prune`: the keys that are older than the window before the current one.
unfoldable pub prune : ℕ → Counts → Counts
unfolding select
prune current counts = select (λ entry. not (ltb (suc entry.0.window) current)) counts

pub record Request : Type 0 where
  pub source_ip : String
  pub kind : String
  pub time : ℕ

module _ (config : SecurityConfig) where
  -- `_limit_for`
  unfoldable pub limit_for : String → ℕ
  limit_for kind =
      if str_eq kind "login"
      then config.login_rate_limit_per_minute
      else config.rate_limit_per_minute

  -- `int(now.timestamp()) // 60`, of microseconds
  unfoldable pub window_of : ℕ → ℕ
  window_of now = now / 1000000 / 60

  -- `RateLimiter.check`
  unfoldable pub check : String → String → ℕ → Counts → Counts × Result SecurityError (Unit {0})
  unfolding count_at put prune limit_for window_of
  check source_ip kind now counts =
      let key : Key = record { source_ip = source_ip; kind = kind; window = window_of now } in
      let pruned = prune (window_of now) counts in
      let n = suc (count_at key pruned) in
      let written = put key n pruned in
      (written, if ltb (limit_for kind) n then err (rate_limit_exceeded source_ip) else ok tt)

  -- The counts after a list of requests.
  unfoldable pub checks : List Request → Counts → Counts
  unfolding check
  checks [] counts = counts
  checks (r ∷ rs) counts = checks rs (check r.source_ip r.kind r.time counts).0

  -- A request of the key, in its window.
  unfoldable pub is_for : Key → Request → Bool
  unfolding window_of
  is_for key r =
      same_key (record { source_ip = r.source_ip; kind = r.kind; window = window_of r.time }) key
