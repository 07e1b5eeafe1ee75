-- ===== src/Examples/Storage.antt =====
-- A repository with two items and the queue of its writes; a configuration, and states as text.
use lnxdrive.Prelude.{
  ℕ, ◌≡◌, ◌==◌, ◌↔◌, refl, true, false, not, none, some, List, [], ◌∷◌, Text, codes, ok, pos, every,
}
use lnxdrive.Cache.Repository.Accounts.{save_account}
use lnxdrive.Cache.Repository.{Repository, Row, get_item}
use lnxdrive.Cache.Repository.Columns.{save_account_cascades}
use lnxdrive.Cache.Repository.Unique.{IsUnique}
use lnxdrive.Cache.States.{
  item_state_to_string, item_state_from_string, account_state_to_string, account_state_from_string,
  session_status_to_string, session_status_from_string,
}
use lnxdrive.Cache.States.RoundTrip.{state_round_trip}
use lnxdrive.Core.Account.{Account, AccountState, with_id}
use lnxdrive.Core.Session.{SessionStatus}
use lnxdrive.Core.Config.{Config, config_default}
use lnxdrive.Core.Config.Accepted.{IsValid, validate_iff}
use lnxdrive.Core.Config.Validation.{validate}
use lnxdrive.Core.Ids.{RemoteId}
use lnxdrive.Core.ItemState.{ItemState, online, hydrated, modified}
use lnxdrive.Core.SyncItem.{SyncItem}
use lnxdrive.Core.SyncPath.{root_dir, normal, path_eq}
use lnxdrive.Core.Time.{DateTime}
use lnxdrive.Fuse.WriteSerializer.{WriteOp, update_state, update_inode, delete_item, run}
use lnxdrive.Fuse.WriteSerializer.Contract.{Runs, view}
use lnxdrive.Fuse.WriteSerializer.Refines.{run_refines}

program : Unit {0}
unfolding run save_account get_item validate
program = tt

abbrev pub remote : Text → RemoteId
remote text = record { text = text }

abbrev pub stored_item : ℕ → Text → ItemState → SyncItem
stored_item id name state = record {
  id = id;
  local_path = record { path = root_dir ∷ normal name ∷ [] };
  remote_id = some (remote name);
  remote_path = record { text = codes "/a" };
  state = state;
  content_hash = none;
  local_hash = none;
  size_bytes = 10;
  last_sync = none;
  last_modified_local = none;
  last_modified_remote = none;
  metadata = record {
    is_directory = false;
    mime_type = none;
    created_at = pos 0;
    etag = none;
    permissions = record { read = true; write = true; execute = true };
  };
  error_info = none;
  inode = none;
  last_accessed = some (pos 0);
  hydration_progress = none;
}

abbrev pub stored_item_read : SyncItem
stored_item_read = record (stored_item 8 (codes "S") modified) { last_accessed = none }

abbrev account : Account
unfolding with_id
account =
    with_id 1 (codes "a@b.c") (codes "A") (codes "drive") (record { path = root_dir ∷ [] }) (pos 0)

abbrev pub stored : Repository
unfolding with_id
stored = record {
  accounts = account ∷ [];
  rows =
      record { account_id = 1; item = stored_item 7 (codes "R") hydrated }
      ∷ record { account_id = 1; item = stored_item 8 (codes "S") modified }
      ∷ [];
  sessions = [];
  next_inode = 2;
  foreign_keys = true;
}

abbrev operations_sent : List (DateTime × WriteOp)
operations_sent =
    (pos 5, update_inode 7 3)
    ∷ (pos 6, update_state 7 online)
    ∷ (pos 7, update_state 8 online)
    ∷ (pos 8, delete_item 7)
    ∷ []

stored-IsUnique : IsUnique stored.rows
unfolding with_id path_eq
stored-IsUnique = (refl, (refl, tt))

run_refines_example :
    Runs
      (view stored)
      operations_sent
      (run stored operations_sent).1
      (view (run stored operations_sent).0)
    × IsUnique (run stored operations_sent).0.rows
run_refines_example = run_refines stored operations_sent stored-IsUnique

save_account_cascades_example :
    every (λ (row : Row). not (row.account_id == account.id)) (save_account stored account).rows
    ≡ true
unfolding with_id
save_account_cascades_example = save_account_cascades stored account refl refl

abbrev configuration : Config
unfolding config_default
configuration = config_default (record { home_dir = some (codes "/home/a"); data_local_dir = none })

validate_iff_example :
    (validate (λ path. true) configuration ≡ []) ↔ IsValid (λ path. true) configuration
unfolding config_default
validate_iff_example = validate_iff (λ path. true) configuration

state_round_trip_example :
    (item_state_from_string (item_state_to_string (ItemState.error (codes "a:b")))
      ≡ ok (ItemState.error (codes "a:b")))
    × (account_state_from_string (account_state_to_string AccountState.suspended)
        ≡ ok AccountState.suspended)
    × (session_status_from_string (session_status_to_string SessionStatus.running)
        ≡ ok SessionStatus.running)
state_round_trip_example =
    state_round_trip (ItemState.error (codes "a:b")) AccountState.suspended SessionStatus.running
