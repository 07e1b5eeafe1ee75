-- ===== src/Core/Account.antt =====
-- crates/lnxdrive-core/src/domain/account.rs: a OneDrive account and the state of its sync. An email
-- address is kept as its text; the ratio `quota_percent` in `f64` is left out.
use lnxdrive.Prelude.{ℕ, Bool, true, false, Option, none, some, Text, Result, ok}
use lnxdrive.Core.Error.{DomainError}
use lnxdrive.Core.Ids.{AccountId, DeltaToken}
use lnxdrive.Core.SyncPath.{SyncPath}
use lnxdrive.Core.Time.{DateTime}

pub data AccountState : Type 0 where
  active token_expired suspended : AccountState
  error : Text → AccountState

abbrev pub state_can_sync : AccountState → Bool
state_can_sync active = true
state_can_sync _ = false

abbrev pub needs_token_refresh : AccountState → Bool
needs_token_refresh token_expired = true
needs_token_refresh _ = false

pub record Account : Type 0 where
  pub id : AccountId
  pub email : Text
  pub display_name : Text
  pub onedrive_id : Text
  pub sync_root : SyncPath
  pub quota_used : ℕ
  pub quota_total : ℕ
  pub delta_token : Option DeltaToken
  pub last_sync : Option DateTime
  pub state : AccountState
  pub created_at : DateTime

-- `Account::with_id`; `Account::new` is this at a fresh identifier and the present time.
unfoldable pub with_id : AccountId → Text → Text → Text → SyncPath → DateTime → Account
with_id id email display_name onedrive_id sync_root created_at = record {
  id = id;
  email = email;
  display_name = display_name;
  onedrive_id = onedrive_id;
  sync_root = sync_root;
  quota_used = 0;
  quota_total = 0;
  delta_token = none;
  last_sync = none;
  state = active;
  created_at = created_at;
}

unfoldable pub update_quota : Account → ℕ → ℕ → Account
update_quota self used total = record self { quota_used = used; quota_total = total }

unfoldable pub update_delta_token : Account → DeltaToken → Account
update_delta_token self token = record self { delta_token = some token }

unfoldable pub clear_delta_token : Account → Account
clear_delta_token self = record self { delta_token = none }

unfoldable pub record_sync : Account → DateTime → Account
record_sync self timestamp = record self { last_sync = some timestamp }

unfoldable pub set_state : Account → AccountState → Account
set_state self state = record self { state = state }

unfoldable pub activate : Account → Account
activate self = record self { state = active }

unfoldable pub mark_token_expired : Account → Account
mark_token_expired self = record self { state = token_expired }

unfoldable pub suspend : Account → Account
suspend self = record self { state = suspended }

unfoldable pub mark_error : Account → Text → Account
mark_error self reason = record self { state = error reason }

unfoldable pub update_sync_root : Account → SyncPath → Account × Result DomainError (Unit {0})
update_sync_root self path = (record self { sync_root = path }, ok tt)

unfoldable pub can_sync : Account → Bool
can_sync self = state_can_sync self.state
