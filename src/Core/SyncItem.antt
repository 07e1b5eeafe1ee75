-- ===== src/Core/SyncItem.antt =====
-- `ItemMetadata` and `SyncItem` of crates/lnxdrive-core/src/domain/sync_item.rs, their constructors and setters. The
-- state transitions are in Core/Transition.antt.
use lnxdrive.Prelude.{ℕ, Bool, true, false, if◌then◌else◌, Option, none, some, Text, text_eq}
use lnxdrive.Core.Ids.{UniqueId, RemoteId, FileHash}
use lnxdrive.Core.RemotePath.{RemotePath}
use lnxdrive.Core.SyncPath.{SyncPath}
use lnxdrive.Core.Time.{DateTime}
use lnxdrive.Core.ErrorInfo.{ErrorInfo}
use lnxdrive.Core.ItemState.{ItemState, online}
use lnxdrive.Core.Metadata
use lnxdrive.Core.Metadata.{ItemMetadata}

pub record SyncItem : Type 0 where
  pub id : UniqueId
  pub local_path : SyncPath
  pub remote_id : Option RemoteId
  pub remote_path : RemotePath
  pub state : ItemState
  pub content_hash : Option FileHash
  pub local_hash : Option FileHash
  pub size_bytes : ℕ
  pub last_sync : Option DateTime
  pub last_modified_local : Option DateTime
  pub last_modified_remote : Option DateTime
  pub metadata : ItemMetadata
  pub error_info : Option ErrorInfo
  pub inode : Option ℕ
  pub last_accessed : Option DateTime
  pub hydration_progress : Option ℕ

-- `id` is the fresh UUID and `now` the clock; the source's `Result` is always `Ok`.
unfoldable pub new : UniqueId → DateTime → SyncPath → RemotePath → Bool → SyncItem
new id now local_path remote_path is_directory = record {
  id = id;
  local_path = local_path;
  remote_id = none;
  remote_path = remote_path;
  state = online;
  content_hash = none;
  local_hash = none;
  size_bytes = 0;
  last_sync = none;
  last_modified_local = none;
  last_modified_remote = none;
  metadata = if is_directory then Metadata.new_directory now else Metadata.new_file now none;
  error_info = none;
  inode = none;
  last_accessed = none;
  hydration_progress = none;
}

unfoldable pub new_file : UniqueId → DateTime → SyncPath → RemotePath → ℕ → Option Text → SyncItem
new_file id now local_path remote_path size_bytes mime_type =
    let item = new id now local_path remote_path false in
    record item {
      size_bytes = size_bytes;
      metadata = Metadata.set_mime_type item.metadata mime_type;
    }

unfoldable pub new_directory : UniqueId → DateTime → SyncPath → RemotePath → SyncItem
new_directory id now local_path remote_path = new id now local_path remote_path true

unfoldable pub from_remote :
    UniqueId
    → DateTime
    → SyncPath
    → RemotePath
    → RemoteId
    → Bool
    → ℕ
    → Option FileHash
    → DateTime
    → SyncItem
from_remote id now local_path remote_path remote_id is_directory size_bytes content_hash
      last_modified =
    record (new id now local_path remote_path is_directory) {
      remote_id = some remote_id;
      size_bytes = size_bytes;
      content_hash = content_hash;
      last_modified_remote = some last_modified;
    }

abbrev same_hash : Option FileHash → Option FileHash → Bool
same_hash (some local) (some remote) = text_eq local.text remote.text
same_hash _ _ = false

unfoldable pub hashes_match : SyncItem → Bool
hashes_match self = same_hash self.local_hash self.content_hash

unfoldable pub mark_synced : SyncItem → DateTime → SyncItem
mark_synced self now = record self { last_sync = some now }

unfoldable pub set_remote_id : SyncItem → RemoteId → SyncItem
set_remote_id self value = record self { remote_id = some value }

unfoldable pub set_content_hash : SyncItem → FileHash → SyncItem
set_content_hash self value = record self { content_hash = some value }

unfoldable pub set_local_hash : SyncItem → FileHash → SyncItem
set_local_hash self value = record self { local_hash = some value }

unfoldable pub set_size_bytes : SyncItem → ℕ → SyncItem
set_size_bytes self value = record self { size_bytes = value }

unfoldable pub set_last_modified_local : SyncItem → DateTime → SyncItem
set_last_modified_local self value = record self { last_modified_local = some value }

unfoldable pub set_last_modified_remote : SyncItem → DateTime → SyncItem
set_last_modified_remote self value = record self { last_modified_remote = some value }

unfoldable pub update_local_path : SyncItem → SyncPath → SyncItem
update_local_path self value = record self { local_path = value }

unfoldable pub update_remote_path : SyncItem → RemotePath → SyncItem
update_remote_path self value = record self { remote_path = value }

unfoldable pub set_inode : SyncItem → Option ℕ → SyncItem
set_inode self value = record self { inode = value }

unfoldable pub set_last_accessed : SyncItem → Option DateTime → SyncItem
set_last_accessed self value = record self { last_accessed = value }

unfoldable pub set_hydration_progress : SyncItem → Option ℕ → SyncItem
set_hydration_progress self value = record self { hydration_progress = value }
