-- ===== src/Security/Store/Sql.antt =====
-- src/api_orchestration/session_store.py: the store over the tables `accounts` and `sessions`, each
-- the list of its rows. The conversions of times keep the instant, and those of roles the member.
use ai_dlc_test.Common.{
  ◌≡◌, refl, ◌≢◌, Bool, true, false, not, String, List, [], ◌∷◌, ◌++◌, Option, some, none, Result,
  ok, err, select, any, find_first, find_first-true, str_eq, str_eq→eq, str_eq_refl, ne→str_eq,
  arith, if◌then◌else◌, Bool-cases, inl, inr,
}
use ai_dlc_test.Security.Entities.{Account, Session}
use ai_dlc_test.Security.Store.{StoreError, integrity_error, SessionStorePort, IsStore}

pub record Tables : Type 0 where
  pub accounts : List Account
  pub sessions : List Session

abbrev account_of : String → Account → Bool
account_of user_id row = str_eq row.user_id user_id

abbrev session_of : String → Session → Bool
session_of session_id row = str_eq row.id session_id

unfoldable pub find_account : Tables → String → Option Account
unfolding find_first
find_account t user_id = find_first (account_of user_id) t.accounts

-- The UPDATE with its WHERE clause.
unfoldable pub update_accounts : Account → List Account → List Account
update_accounts a [] = []
update_accounts a (row ∷ rows) =
    (if account_of a.user_id row then a else row) ∷ update_accounts a rows

-- The UPDATE, and the INSERT where its row count is 0.
unfoldable pub save_account : Account → Tables → Tables
unfolding any update_accounts
save_account a t = record {
  accounts =
      if any (account_of a.user_id) t.accounts
      then update_accounts a t.accounts
      else t.accounts ++ a ∷ [];
  sessions = t.sessions;
}

-- The INSERT, with the primary key and the foreign key of the table.
unfoldable pub save_session : Session → Tables → Result StoreError Tables
unfolding any
save_session x t =
    if any (session_of x.id) t.sessions
    then err integrity_error
    else if any (account_of x.principal.user_id) t.accounts
    then ok (record { accounts = t.accounts; sessions = t.sessions ++ x ∷ [] })
    else err integrity_error

unfoldable pub find_session : Tables → String → Option Session
unfolding find_first
find_session t session_id = find_first (session_of session_id) t.sessions

unfoldable pub delete_session : String → Tables → Tables
unfolding select
delete_session session_id t = record {
  accounts = t.accounts;
  sessions = select (λ row. not (session_of session_id row)) t.sessions;
}

abbrev pub sql_session_store : SessionStorePort
sql_session_store = record {
  Store = Tables;
  find_account = find_account;
  save_account = save_account;
  save_session = save_session;
  find_session = find_session;
  delete_session = delete_session;
}

updated :
    (a : Account) (rows : List Account)
    → any (account_of a.user_id) rows ≡ true
    → find_first (account_of a.user_id) (update_accounts a rows) ≡ some a
unfolding update_accounts any find_first
updated a [] h = cc
updated a (row ∷ rows) h = elim (Bool-cases (account_of a.user_id row)) [
  | inl e ↦ rw (e, str_eq_refl a.user_id)
  | inr e ↦ rw (e, e) (updated a rows (rw e at h))
]

not_updated :
    (a : Account) (user_id : String) (rows : List Account)
    → a.user_id ≢ user_id
    → find_first (account_of user_id) (update_accounts a rows)
      ≡ find_first (account_of user_id) rows
unfolding update_accounts find_first
not_updated a user_id [] n = refl
not_updated a user_id (row ∷ rows) n = elim (Bool-cases (account_of a.user_id row)) [
  | inl e ↦
      let same = str_eq→eq row.user_id a.user_id e in
      rw (e, same, ne→str_eq a.user_id user_id n) (not_updated a user_id rows n)
  | inr e ↦ rw (e, not_updated a user_id rows n)
]

module _ {A : Type 0} (p : A → Bool) (x : A) where
  appended_found :
      (xs : List A) → any p xs ≡ false → p x ≡ true → find_first p (xs ++ x ∷ []) ≡ some x
  unfolding any find_first
  appended_found [] h e = rw e
  appended_found (y ∷ ys) h e = ground (arith, appended_found ys)

  appended_other : (xs : List A) → p x ≡ false → find_first p (xs ++ x ∷ []) ≡ find_first p xs
  unfolding find_first
  appended_other [] e = rw e
  appended_other (y ∷ ys) e = ground (arith, appended_other ys e)

deleted_gone :
    (session_id : String) (rows : List Session)
    → find_first (session_of session_id) (select (λ row. not (session_of session_id row)) rows)
      ≡ none
unfolding find_first select
deleted_gone session_id [] = refl
deleted_gone session_id (row ∷ rows) = ground (arith, deleted_gone session_id rows)

deleted_other :
    (gone session_id : String) (rows : List Session)
    → gone ≢ session_id
    → find_first (session_of session_id) (select (λ row. not (session_of gone row)) rows)
      ≡ find_first (session_of session_id) rows
unfolding find_first select
deleted_other gone session_id [] n = refl
deleted_other gone session_id (row ∷ rows) n = elim (Bool-cases (session_of gone row)) [
  | inl e ↦
      let same = str_eq→eq row.id gone e in
      rw (e, same, ne→str_eq gone session_id n) (deleted_other gone session_id rows n)
  | inr e ↦ rw (e, deleted_other gone session_id rows n)
]

inserted :
    (x : Session) (t u : Tables)
    → save_session x t ≡ ok u
    → (any (session_of x.id) t.sessions ≡ false)
      × (u.sessions ≡ t.sessions ++ x ∷ [])
      × (u.accounts ≡ t.accounts)
unfolding save_session
inserted x t u h = ground arith

account_saved : (t : Tables) (a : Account) → find_account (save_account a t) a.user_id ≡ some a
unfolding find_account save_account
account_saved t a = elim (Bool-cases (any (account_of a.user_id) t.accounts)) [
  | inl e ↦ rw e (updated a t.accounts e)
  | inr e ↦ rw e (appended_found (account_of a.user_id) a t.accounts e (str_eq_refl a.user_id))
]

other_account_kept :
    (t : Tables) (a : Account) (user_id : String)
    → a.user_id ≢ user_id
    → find_account (save_account a t) user_id ≡ find_account t user_id
unfolding find_account save_account
other_account_kept t a user_id n = elim (Bool-cases (any (account_of a.user_id) t.accounts)) [
  | inl e ↦ rw e (not_updated a user_id t.accounts n)
  | inr e ↦ rw e (appended_other (account_of user_id) a t.accounts (ne→str_eq a.user_id user_id n))
]

-- The tables of accounts and sessions keep the promises of the store port: what is saved is found,
-- what is deleted is not, and nothing else changes.
pub sql_session_store-IsStore : IsStore sql_session_store
unfolding find_account find_session delete_session
sql_session_store-IsStore = record {
  found = λ t a id h. str_eq→eq a.user_id id (find_first-true (account_of id) t.accounts a h);
  saved = account_saved;
  others_kept = other_account_kept;
  session_saved = λ s t x h.
      let (fresh, rows, kept) = inserted x s t h in
      rw rows (appended_found (session_of x.id) x s.sessions fresh (str_eq_refl x.id));
  session_others_kept = λ s t x id h n.
      let (fresh, rows, kept) = inserted x s t h in
      rw rows (appended_other (session_of id) x s.sessions (ne→str_eq x.id id n));
  session_accounts_kept = λ s t x id h. let (fresh, rows, kept) = inserted x s t h in rw kept;
  deleted = λ s id. deleted_gone id s.sessions;
  deletion_others_kept = λ s gone id n. deleted_other gone id s.sessions n;
}
