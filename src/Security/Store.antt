-- ===== src/Security/Store.antt =====
-- src/security/ports.py: the store of accounts and sessions as an interface, with what its callers
-- may rely on. src/api_orchestration/session_store.py fills it.
pub mod Sql
use ai_dlc_test.Common.{◌≡◌, ◌≢◌, String, Option, some, none, Result, ok}
use ai_dlc_test.Security.Entities.{Account, Session}

-- An insert that the database refuses.
pub data StoreError : Type 0 where
  integrity_error : StoreError

pub record SessionStorePort : Type 1 where
  pub Store : Type 0
  pub find_account : Store → String → Option Account
  pub save_account : Account → Store → Store
  pub save_session : Session → Store → Result StoreError Store
  pub find_session : Store → String → Option Session
  pub delete_session : String → Store → Store

-- What is saved is found, what is deleted is not, and nothing else changes.
pub record IsStore (port : SessionStorePort) : Type 0 where
  pub found :
      (s : port.Store) (a : Account) (user_id : String)
      → port.find_account s user_id ≡ some a
      → a.user_id ≡ user_id
  pub saved :
      (s : port.Store) (a : Account) → port.find_account (port.save_account a s) a.user_id ≡ some a
  pub others_kept :
      (s : port.Store) (a : Account) (user_id : String)
      → a.user_id ≢ user_id
      → port.find_account (port.save_account a s) user_id ≡ port.find_account s user_id
  pub session_saved :
      (s t : port.Store) (x : Session)
      → port.save_session x s ≡ ok t
      → port.find_session t x.id ≡ some x
  pub session_others_kept :
      (s t : port.Store) (x : Session) (session_id : String)
      → port.save_session x s ≡ ok t
      → x.id ≢ session_id
      → port.find_session t session_id ≡ port.find_session s session_id
  pub session_accounts_kept :
      (s t : port.Store) (x : Session) (user_id : String)
      → port.save_session x s ≡ ok t
      → port.find_account t user_id ≡ port.find_account s user_id
  pub deleted :
      (s : port.Store) (session_id : String)
      → port.find_session (port.delete_session session_id s) session_id ≡ none
  pub deletion_others_kept :
      (s : port.Store) (gone session_id : String)
      → gone ≢ session_id
      → port.find_session (port.delete_session gone s) session_id ≡ port.find_session s session_id
