-- ===== src/Sync/Local.antt =====
-- Sending local changes to the cloud: `split_remote_path` and the local handlers of
-- crates/lnxdrive-sync/src/engine.rs. Log lines are left out.
use lnxdrive.Prelude.{
  ℕ, zero, suc, Bool, true, false, not, ◌&&◌, if◌then◌else◌, ◌==◌, ltb, Option, none, some, is_some,
  List, [], ◌∷◌, ◌++◌, Text, codes, text_eq, Result, ok, err, length, map, ℤ, leb_ℤ,
}
use lnxdrive.Core.Ids.{RemoteId, FileHash, new_remote_id}
use lnxdrive.Core.ItemState.{ItemState, modified, deleted}
use lnxdrive.Core.RemotePath
use lnxdrive.Core.RemotePath.{RemotePath}
use lnxdrive.Core.SyncItem.{
  SyncItem, new_directory, from_remote, mark_synced, set_local_hash, set_last_modified_local,
}
use lnxdrive.Core.SyncPath
use lnxdrive.Core.SyncPath.{
  SyncPath, PathBuf, Component, root_dir, cur_dir, parent_dir, normal, relative_to,
}
use lnxdrive.Core.Time.{DateTime}
use lnxdrive.Core.Transition.{mark_deleted, complete_sync}
use lnxdrive.Sync.Bulk.{SyncEngine}
use lnxdrive.Sync.Ports.{
  Ports, DeltaItem, DirEntry, FileKind, directory, file, other, Bytes, is_directory, M, pure, bind,
  context, attempt, lift, lift_option, read_clock, fresh_id,
}
use lnxdrive.Sync.Remote.{
  step, parse_hash, modified_or_now, finish_item, with_hash, with_size, with_local_hash, size_or,
}
use lnxdrive.Sync.Retry.{with_retry}
use lnxdrive.Sync.Scan.{same_content}
pub mod Deletes
pub mod Target

unfoldable pub split_remote_path : Text → Result Text (RemotePath × Text)
split_remote_path path = elim (RemotePath.new path) [
  | err e ↦ err (codes "Invalid remote path")
  | ok remote_path ↦ elim (RemotePath.file_name remote_path) [
    | none ↦ err (codes "Remote path has no file name: " ++ path)
    | some name ↦ elim (RemotePath.parent remote_path) [
      | none ↦ ok (RemotePath.root, name)
      | some parent ↦ ok (parent, name)
    ]
  ]
]

-- `Path::display`
abbrev pub component_text : Component → Text
component_text root_dir = []
component_text cur_dir = codes "."
component_text parent_dir = codes ".."
component_text (normal name) = name

unfoldable pub display : PathBuf → Text
display [] = []
display (root_dir ∷ []) = codes "/"
display (c ∷ []) = component_text c
display (c ∷ (d ∷ rest)) = component_text c ++ (b'/' ∷ display (d ∷ rest))

-- `format!("/{}", relative.display()).replace('\\', "/")`
unfoldable pub remote_path_text : PathBuf → Text
remote_path_text relative = map (λ c. if c == b'\\' then b'/' else c) (b'/' ∷ display relative)

abbrev pub is_modified : ItemState → Bool
is_modified modified = true
is_modified _ = false

module _ (ports : Ports) where
  infixl 5 ◌>>=◌ ◌>>◌
  abbrev ◌>>=◌ : {A B : Type 0} → M ports A → (A → M ports B) → M ports B
  ◌>>=◌ = bind ports

  abbrev ◌>>◌ : {A B : Type 0} → M ports A → M ports B → M ports B
  m >> k = m >>= λ _. k

  unfoldable pub upload : SyncEngine → RemotePath → Text → Bytes → M ports DeltaItem
  upload engine parent name data_bytes =
      if ltb engine.large_file_threshold (length data_bytes)
      then with_retry ports (ports.upload_file_session parent name data_bytes)
      else with_retry ports (ports.upload_file parent name data_bytes)

  abbrev pub upload_failure : SyncEngine → Bytes → Text
  upload_failure engine data_bytes =
      if ltb engine.large_file_threshold (length data_bytes)
      then codes "Failed to upload large file"
      else codes "Failed to upload file"

  unfoldable pub track_directory : SyncPath → Text → M ports (Unit {0})
  track_directory path remote_path_str = do
    remote_path ←
        lift ports (codes "Failed to construct remote path for directory")
          (RemotePath.new remote_path_str)
    id ← fresh_id ports
    now ← read_clock ports
    item ← finish_item ports (new_directory id now path remote_path)
    ports.save_item item

  unfoldable pub upload_new_file : SyncEngine → SyncPath → Text → M ports (Unit {0})
  upload_new_file engine path remote_path_str = do
    data_bytes ← context ports (codes "Failed to read local file for upload") (ports.read_file path)
    target ← lift ports (codes "Invalid remote path") (split_remote_path remote_path_str)
    delta ←
        context ports (upload_failure engine data_bytes)
          (upload engine target.0 target.1 data_bytes)
    remote_id ←
        lift ports (codes "Invalid remote ID in upload response")
          (new_remote_id ports.is_alphanumeric delta.id)
    remote_path ←
        lift ports (codes "Failed to construct remote path") (RemotePath.new remote_path_str)
    modified_time ← modified_or_now ports delta.modified
    id ← fresh_id ports
    now ← read_clock ports
    item ← finish_item ports (
        from_remote id now path remote_path remote_id false (size_or delta.size (length data_bytes))
          (parse_hash ports delta.hash) modified_time)
    hash ← attempt ports (ports.compute_hash path)
    ports.save_item (with_local_hash item hash)

  unfoldable pub handle_local_create : SyncEngine → SyncPath → SyncPath → M ports (Unit {0})
  unfolding track_directory upload_new_file
  handle_local_create engine path sync_root = do
    fs_state ← context ports (codes "Failed to get state for new local file") (ports.get_state path)
    relative ← lift ports (codes "Path is not within sync root") (relative_to path sync_root)
    (if is_directory fs_state
        then track_directory path (remote_path_text relative)
        else upload_new_file engine path (remote_path_text relative))

  -- Modified items go back to hydrated.
  abbrev pub back_to_hydrated : SyncItem → DateTime → M ports SyncItem
  back_to_hydrated item now =
      if is_modified item.state then step ports (complete_sync item now) else pure ports item

  unfoldable pub upload_update :
      SyncEngine → SyncPath → SyncItem → SyncPath → FileHash → M ports (Unit {0})
  upload_update engine path existing sync_root local_hash = do
    data_bytes ← context ports (codes "Failed to read modified local file") (ports.read_file path)
    relative ← lift ports (codes "Path not in sync root") (relative_to path sync_root)
    target ←
        lift ports (codes "Invalid remote path") (split_remote_path (remote_path_text relative))
    delta ← upload engine target.0 target.1 data_bytes
    now ← read_clock ports
    item ←
        back_to_hydrated
          (set_last_modified_local
            (set_local_hash
              (with_size (with_hash existing (parse_hash ports delta.hash)) delta.size) local_hash)
            now)
          now
    ports.save_item (mark_synced item now)

  unfoldable pub handle_local_update :
      SyncEngine → SyncPath → SyncItem → SyncPath → M ports (Unit {0})
  unfolding upload_update
  handle_local_update engine path existing sync_root = do
    local_hash ← context ports (codes "Failed to compute local hash") (ports.compute_hash path)
    (if same_content existing.content_hash local_hash
        then pure ports tt
        else upload_update engine path existing sync_root local_hash)

  unfoldable pub handle_local_delete : SyncItem → M ports (Unit {0})
  handle_local_delete item = do
    remote_id ← lift_option ports (codes "Cannot delete item without remote ID") item.remote_id
    context ports (codes "Failed to delete item from cloud")
        (with_retry ports (ports.delete_item remote_id))
    now ← read_clock ports
    updated ← step ports (mark_deleted item now)
    ports.save_item updated
