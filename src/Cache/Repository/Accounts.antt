-- ===== src/Cache/Repository/Accounts.antt =====
-- The statements that save accounts and sessions, in crates/lnxdrive-cache/src/repository.rs.
use lnxdrive.Prelude.{◌==◌, Bool, false, not, ◌&&◌, ◌||◌, if◌then◌else◌, List, [], ◌∷◌, text_eq}
use lnxdrive.Core.Account.{Account}
use lnxdrive.Core.Ids.{AccountId, SessionId}
use lnxdrive.Core.Session.{SyncSession}
use lnxdrive.Cache.Repository.{Repository, select}

-- The primary key of `accounts`, and its other unique column.
abbrev pub account_clashes : Account → Account → Bool
account_clashes new old = old.id == new.id || text_eq old.email new.email

unfoldable pub kept_accounts : Account → List Account → List Account
kept_accounts new [] = []
kept_accounts new (a ∷ accounts) =
    let rest = kept_accounts new accounts in if account_clashes new a then rest else a ∷ rest

-- Whether the account with this identifier is replaced.
abbrev pub is_replaced : Account → List Account → AccountId → Bool
is_replaced new [] id = false
is_replaced new (a ∷ accounts) id =
    (a.id == id && account_clashes new a) || is_replaced new accounts id

unfoldable pub kept_sessions : (AccountId → Bool) → List SyncSession → List SyncSession
kept_sessions gone [] = []
kept_sessions gone (s ∷ sessions) =
    let rest = kept_sessions gone sessions in if gone s.account_id then rest else s ∷ rest

-- `INSERT OR REPLACE INTO accounts`; items and sessions refer to their account with
-- `ON DELETE CASCADE`.
unfoldable pub save_account : Repository → Account → Repository
unfolding select kept_sessions kept_accounts
save_account self account =
    let gone = is_replaced account self.accounts in
    let inserted = record self { accounts = account ∷ kept_accounts account self.accounts } in
    if self.foreign_keys
    then record inserted {
      rows = select (λ row. not (gone row.account_id)) self.rows;
      sessions = kept_sessions gone self.sessions;
    }
    else inserted

unfoldable pub kept_by_id : SessionId → List SyncSession → List SyncSession
kept_by_id id [] = []
kept_by_id id (s ∷ sessions) =
    let rest = kept_by_id id sessions in if s.id == id then rest else s ∷ rest

unfoldable pub save_session : Repository → SyncSession → Repository
unfolding kept_by_id
save_session self session = record self { sessions = session ∷ kept_by_id session.id self.sessions }
