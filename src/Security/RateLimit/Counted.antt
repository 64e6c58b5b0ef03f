-- ===== src/Security/RateLimit/Counted.antt =====
-- The count of a key is the number of requests that were made for it.
use ai_dlc_test.Common.{
  ℕ, suc, ◌+◌, ◌≤◌, ◌≡◌, refl, sym, ap, ◌∙◌, ◌↔◌, true, false, String, List, [], ◌∷◌, err, select,
  count_if, str_eq, str_eq→eq, str_eq_refl, if◌then◌else◌, ltb, ◌==◌, arith, Bool-cases, inl, inr,
  In, ==_iff,
}
use ai_dlc_test.Security.Entities.{SecurityConfig, rate_limit_exceeded}
use ai_dlc_test.Security.RateLimit.{
  Key, Counts, same_key, count_at, put, prune, limit_for, window_of, check, checks, Request, is_for,
}

same_key→eq : (a b : Key) → same_key a b ≡ true → a ≡ b
same_key→eq a b h =
    let (s, k, w) : (str_eq a.source_ip b.source_ip ≡ true)
        × (str_eq a.kind b.kind ≡ true)
        × ((a.window == b.window) ≡ true) =
      ground arith in
    cc (str_eq→eq _ _ s, str_eq→eq _ _ k, (==_iff a.window b.window).0 w)

same_key_refl : (a : Key) → same_key a a ≡ true
same_key_refl a =
    rw (str_eq_refl a.source_ip, str_eq_refl a.kind, (==_iff a.window a.window).1 refl)

count_at-put :
    (key k : Key) (n : ℕ) (counts : Counts)
    → count_at key (put k n counts) ≡ (if same_key k key then n else count_at key counts)
unfolding count_at put
count_at-put key k n [] = refl
count_at-put key k n ((j, m) ∷ counts) = elim (Bool-cases (same_key j k)) [
  | inl e ↦ let q = same_key→eq j k e in rw (e, q) (ground arith)
  | inr e ↦
      rw (e, count_at-put key k n counts)
        (elim (Bool-cases (same_key j key)) [
          | inl f ↦ elim (Bool-cases (same_key k key)) [
            | inl g ↦
                let q : j ≡ k = same_key→eq j key f ∙ sym (same_key→eq k key g) in
                cc (same_key_refl k, q, e)
            | inr g ↦ rw (f, g)
          ]
          | inr f ↦ rw f
        ])
]

count_at-prune :
    (key : Key) (current : ℕ) (counts : Counts)
    → current ≤ suc key.window
    → count_at key (prune current counts) ≡ count_at key counts
unfolding count_at prune select
count_at-prune key current [] h = refl
count_at-prune key current ((j, m) ∷ counts) h = elim (Bool-cases (same_key j key)) [
  | inl e ↦
      let q : j.window ≡ key.window = ap (λ (k : Key). k.window) (same_key→eq j key e) in
      let fresh : ltb (suc j.window) current ≡ false = ground arith in rw (fresh, e)
  | inr e ↦ elim (Bool-cases (ltb (suc j.window) current)) [
    | inl old ↦ rw (old, e) (count_at-prune key current counts h)
    | inr kept ↦ rw (kept, e) (count_at-prune key current counts h)
  ]
]

module _ (config : SecurityConfig) where
  -- The window of a request is not after that of the key.
  abbrev pub NotAfter : ℕ → Request → Type 0
  NotAfter window r = window_of config r.time ≤ window

  count_at-check :
      (key : Key) (r : Request) (counts : Counts)
      → NotAfter key.window r
      → count_at key (check config r.source_ip r.kind r.time counts).0
        ≡ count_at key counts + (if is_for config key r then 1 else 0)
  unfolding check is_for
  count_at-check key r counts h =
      let w = window_of config r.time in
      let k : Key = record { source_ip = r.source_ip; kind = r.kind; window = w } in
      let pruned = prune w counts in
      let written = count_at-put key k (suc (count_at k pruned)) pruned in
      let same = count_at-prune key w counts (omega (arith, h)) in
      elim (Bool-cases (same_key k key)) [
        | inl e ↦
            let q = ap (λ (j : Key). count_at j pruned) (same_key→eq k key e) in
            rw e (omega (arith, rw e at written, q, same))
        | inr e ↦ rw e (omega (arith, rw e at written, same))
      ]

  count_at-checks :
      (key : Key) (rs : List Request) (counts : Counts)
      → ((r : Request) → In r rs → NotAfter key.window r)
      → count_at key (checks config rs counts)
        ≡ count_at key counts + count_if (is_for config key) rs
  unfolding checks count_if
  count_at-checks key [] counts h = omega arith
  count_at-checks key (r ∷ rs) counts h =
      let one = count_at-check key r counts (h r (inl refl)) in
      let rest =
        count_at-checks key rs (check config r.source_ip r.kind r.time counts).0
          (λ q m. h q (inr m)) in
      elim (Bool-cases (is_for config key r)) [
        | inl e ↦ rw e (omega (arith, rest, rw e at one))
        | inr e ↦ rw e (omega (arith, rest, rw e at one))
      ]

  -- After requests counted from an empty limiter, none in a later window, a request is refused
  -- exactly where at least the limit of its kind came before it with the same source, kind and
  -- window.
  pub check-refuses_iff :
      (source_ip kind : String) (now : ℕ) (before : List Request)
      → ((r : Request) → In r before → window_of config r.time ≤ window_of config now)
      → ((check config source_ip kind now (checks config before [])).1
          ≡ err (rate_limit_exceeded source_ip))
        ↔ (limit_for config kind
            ≤ count_if
                (is_for config
                  (record { source_ip = source_ip; kind = kind; window = window_of config now }))
                before)
  unfolding check count_at
  check-refuses_iff source_ip kind now before h =
      let w = window_of config now in
      let key : Key = record { source_ip = source_ip; kind = kind; window = w } in
      let counted = count_at-checks key before [] h in
      let same = count_at-prune key w (checks config before []) (omega arith) in
      let exact : count_at key (prune w (checks config before []))
          ≡ count_if (is_for config key) before =
        omega (arith, counted, same) in
      rw exact (λ e. ground arith, λ e. ground arith)
