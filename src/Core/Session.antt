-- ===== src/Core/Session.antt =====
-- `SessionStatus`, `SessionError` and `SyncSession` of crates/lnxdrive-core/src/domain/session.rs.
-- The counters are `u64` and wrap around, as in a release build. The ratios in `f64`
-- (`sync_efficiency`, `progress_percent`) and `duration` are left out.
use lnxdrive.Prelude.{
  ℕ, ◌+◌, ◌-◌, ◌%◌, ◌^◌, Bool, true, false, not, Option, none, some, List, [], ◌∷◌, ◌++◌, Text,
}
use lnxdrive.Core.Ids.{AccountId, SessionId, UniqueId, DeltaToken}
use lnxdrive.Core.Time.{DateTime}
pub mod Counters

abbrev pub u64_mod : ℕ
u64_mod = 2 ^ 64

pub data SessionStatus : Type 0 where
  running completed : SessionStatus
  failed : Text → SessionStatus
  cancelled : SessionStatus

abbrev pub is_running : SessionStatus → Bool
is_running running = true
is_running _ = false

abbrev pub is_finished : SessionStatus → Bool
is_finished status = not (is_running status)

pub record SessionError : Type 0 where
  pub item_id : UniqueId
  pub error_code : Text
  pub message : Text
  pub timestamp : DateTime

pub record SyncSession : Type 0 where
  pub id : SessionId
  pub account_id : AccountId
  pub started_at : DateTime
  pub completed_at : Option DateTime
  pub status : SessionStatus
  pub items_total : ℕ
  pub items_processed : ℕ
  pub items_succeeded : ℕ
  pub items_failed : ℕ
  pub bytes_uploaded : ℕ
  pub bytes_downloaded : ℕ
  pub delta_token_start : Option DeltaToken
  pub delta_token_end : Option DeltaToken
  pub items_checked : ℕ
  pub items_synced : ℕ
  pub errors : List SessionError

-- `SyncSession::with_id`.
unfoldable pub with_id : SessionId → AccountId → DateTime → SyncSession
with_id id account_id started_at = record {
  id = id;
  account_id = account_id;
  started_at = started_at;
  completed_at = none;
  status = running;
  items_total = 0;
  items_processed = 0;
  items_succeeded = 0;
  items_failed = 0;
  bytes_uploaded = 0;
  bytes_downloaded = 0;
  delta_token_start = none;
  delta_token_end = none;
  items_checked = 0;
  items_synced = 0;
  errors = [];
}

-- `SyncSession::new` at a fresh identifier, at the time `now`.
unfoldable pub new : SessionId → AccountId → DateTime → SyncSession
unfolding with_id
new id account_id now = with_id id account_id now

-- `saturating_sub`
unfoldable pub items_remaining : SyncSession → ℕ
items_remaining self = self.items_total - self.items_processed

unfoldable pub complete : SyncSession → DateTime → SyncSession
complete self now = record self { status = completed; completed_at = some now }

unfoldable pub fail : SyncSession → Text → DateTime → SyncSession
fail self reason now = record self { status = failed reason; completed_at = some now }

unfoldable pub cancel : SyncSession → DateTime → SyncSession
cancel self now = record self { status = cancelled; completed_at = some now }

unfoldable pub add_error : SyncSession → SessionError → SyncSession
add_error self error = record self { errors = self.errors ++ error ∷ [] }

unfoldable pub update_progress : SyncSession → ℕ → ℕ → ℕ → SyncSession
update_progress self processed succeeded lost = record self {
  items_processed = processed;
  items_succeeded = succeeded;
  items_failed = lost;
}

unfoldable pub record_success : SyncSession → SyncSession
record_success self = record self {
  items_processed = (self.items_processed + 1) % u64_mod;
  items_succeeded = (self.items_succeeded + 1) % u64_mod;
}

unfoldable pub record_failure : SyncSession → SyncSession
record_failure self = record self {
  items_processed = (self.items_processed + 1) % u64_mod;
  items_failed = (self.items_failed + 1) % u64_mod;
}

unfoldable pub set_items_total : SyncSession → ℕ → SyncSession
set_items_total self total = record self { items_total = total }

unfoldable pub add_bytes_uploaded : SyncSession → ℕ → SyncSession
add_bytes_uploaded self bytes = record self {
  bytes_uploaded = (self.bytes_uploaded + bytes) % u64_mod;
}

unfoldable pub add_bytes_downloaded : SyncSession → ℕ → SyncSession
add_bytes_downloaded self bytes = record self {
  bytes_downloaded = (self.bytes_downloaded + bytes) % u64_mod;
}

unfoldable pub set_delta_token_start : SyncSession → DeltaToken → SyncSession
set_delta_token_start self token = record self { delta_token_start = some token }

unfoldable pub set_delta_token_end : SyncSession → DeltaToken → SyncSession
set_delta_token_end self token = record self { delta_token_end = some token }

unfoldable pub set_items_checked : SyncSession → ℕ → SyncSession
set_items_checked self count = record self { items_checked = count }

unfoldable pub set_items_synced : SyncSession → ℕ → SyncSession
set_items_synced self count = record self { items_synced = count }
