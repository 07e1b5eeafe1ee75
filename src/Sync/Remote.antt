-- ===== src/Sync/Remote.antt =====
-- Changes from the cloud: `process_delta_item` and its handlers, in
-- crates/lnxdrive-sync/src/engine.rs. Log lines are left out.
use lnxdrive.Prelude.{
  ℕ, Bool, true, false, not, if◌then◌else◌, ◌==◌, Option, none, some, [], ◌∷◌, ◌++◌, Text, codes,
  text_eq, Result, ok, err, to_option, length,
}
use lnxdrive.Core.Ids.{RemoteId, FileHash, new_remote_id, new_file_hash}
use lnxdrive.Core.RemotePath
use lnxdrive.Core.RemotePath.{RemotePath}
use lnxdrive.Core.SyncItem.{
  SyncItem, from_remote, mark_synced, set_content_hash, set_local_hash, set_size_bytes,
  set_last_modified_remote,
}
use lnxdrive.Core.SyncPath
use lnxdrive.Core.SyncPath.{SyncPath, relative_components}
use lnxdrive.Core.Time.{DateTime}
use lnxdrive.Core.Transition.{Outcome, start_hydrating, complete_hydration, mark_deleted}
use lnxdrive.Sync.Ports.{
  Ports, DeltaItem, M, pure, bind, context, attempt, lift, lift_option, read_clock, fresh_id,
}
use lnxdrive.Sync.Retry.{with_retry}
pub mod Deletes

pub data DeltaAction : Type 0 where
  downloaded updated deleted skipped : DeltaAction

-- `trim_start_matches('/')`
unfoldable pub trim_slashes : Text → Text
trim_slashes [] = []
trim_slashes (c ∷ s) = let rest = trim_slashes s in if c == b'/' then rest else c ∷ s

abbrev pub with_modified : SyncItem → Option DateTime → SyncItem
with_modified item none = item
with_modified item (some modified) = set_last_modified_remote item modified

abbrev pub with_size : SyncItem → Option ℕ → SyncItem
with_size item none = item
with_size item (some size) = set_size_bytes item size

abbrev pub with_hash : SyncItem → Option FileHash → SyncItem
with_hash item none = item
with_hash item (some hash) = set_content_hash item hash

abbrev pub with_local_hash : SyncItem → Result Text FileHash → SyncItem
with_local_hash item (ok hash) = set_local_hash item hash
with_local_hash item (err e) = item

abbrev pub size_or : Option ℕ → ℕ → ℕ
size_or none n = n
size_or (some size) n = size

-- Whether the remote hash says that the content has changed.
unfoldable pub hashes_differ : Option Text → Option FileHash → Bool
hashes_differ (some remote) (some stored) = not (text_eq remote stored.text)
hashes_differ (some remote) none = true
hashes_differ none stored = false

module _ (ports : Ports) where
  infixl 5 ◌>>=◌ ◌>>◌
  abbrev ◌>>=◌ : {A B : Type 0} → M ports A → (A → M ports B) → M ports B
  ◌>>=◌ = bind ports

  abbrev ◌>>◌ : {A B : Type 0} → M ports A → M ports B → M ports B
  m >> k = m >>= λ _. k

  -- A transition that is followed by `?`.
  abbrev pub step : Outcome → M ports SyncItem
  step (item, ok _) w = (w, ok item)
  step (item, err e) w = (w, err (codes "invalid state transition"))

  unfoldable pub parse_hash : Option Text → Option FileHash
  parse_hash none = none
  parse_hash (some hash) = to_option (new_file_hash ports.is_alphanumeric hash)

  -- `unwrap_or_else(Utc::now)`
  abbrev pub modified_or_now : Option DateTime → M ports DateTime
  modified_or_now none = read_clock ports
  modified_or_now (some modified) = pure ports modified

  -- Hydrating, then hydrated, then marked as synced.
  unfoldable pub finish_item : SyncItem → M ports SyncItem
  finish_item item = do
    now ← read_clock ports
    hydrating ← step (start_hydrating item now)
    hydrated ← step (complete_hydration hydrating now)
    pure ports (mark_synced hydrated now)

  unfoldable pub create_local_directory :
      DeltaItem → RemotePath → RemoteId → SyncPath → M ports DeltaAction
  unfolding finish_item
  create_local_directory delta remote_path remote_id local_path = do
    context ports (codes "Failed to create local directory") (ports.create_directory local_path)
    modified ← modified_or_now delta.modified
    id ← fresh_id ports
    now ← read_clock ports
    item ← finish_item (from_remote id now local_path remote_path remote_id true 0 none modified)
    context ports (codes "Failed to save new directory SyncItem") (ports.save_item item)
    pure ports downloaded

  unfoldable pub download_new_file :
      DeltaItem → RemotePath → RemoteId → SyncPath → M ports DeltaAction
  unfolding finish_item
  download_new_file delta remote_path remote_id local_path = do
    content ←
        context ports (codes "Failed to download file")
          (with_retry ports (ports.download_file remote_id))
    context ports (codes "Failed to write downloaded file") (ports.write_file local_path content)
    modified ← modified_or_now delta.modified
    id ← fresh_id ports
    now ← read_clock ports
    item ← finish_item (
        from_remote id now local_path remote_path remote_id false
          (size_or delta.size (length content)) (parse_hash delta.hash) modified)
    hash ← attempt ports (ports.compute_hash local_path)
    context ports (codes "Failed to save new file SyncItem")
        (ports.save_item (with_local_hash item hash))
    pure ports downloaded

  unfoldable pub handle_remote_create : DeltaItem → SyncPath → M ports DeltaAction
  unfolding create_local_directory download_new_file
  handle_remote_create delta sync_root = do
    path ← lift_option ports (codes "Delta item has no path") delta.path
    remote_path ← lift ports (codes "Invalid remote path in delta item") (RemotePath.new path)
    remote_id ←
        lift ports (codes "Invalid remote ID in delta item")
          (new_remote_id ports.is_alphanumeric delta.id)
    local_path ←
        lift ports (codes "Failed to construct local path")
          (SyncPath.new (sync_root.path ++ relative_components (trim_slashes path)))
    (if delta.is_directory
        then create_local_directory delta remote_path remote_id local_path
        else download_new_file delta remote_path remote_id local_path)

  -- The content is unchanged, or there is none: only the times of the item are updated.
  unfoldable pub touch_item : DeltaItem → SyncItem → M ports DeltaAction
  touch_item delta existing = do
    now ← read_clock ports
    ports.save_item (mark_synced (with_modified existing delta.modified) now)
    pure ports skipped

  unfoldable pub download_update : DeltaItem → SyncItem → M ports DeltaAction
  download_update delta existing = do
    remote_id ← lift_option ports (codes "Existing item has no remote ID") existing.remote_id
    content ←
        context ports (codes "Failed to download updated file")
          (with_retry ports (ports.download_file remote_id))
    context ports (codes "Failed to write updated file")
        (ports.write_file existing.local_path content)
    hash ← attempt ports (ports.compute_hash existing.local_path)
    now ← read_clock ports
    ports.save_item (
        mark_synced
          (with_local_hash
            (with_modified (with_size (with_hash existing (parse_hash delta.hash)) delta.size)
              delta.modified)
            hash)
          now)
    pure ports updated

  unfoldable pub handle_remote_update : DeltaItem → SyncItem → M ports DeltaAction
  unfolding touch_item download_update
  handle_remote_update delta existing =
      if delta.is_directory
      then touch_item delta existing
      else if not (hashes_differ delta.hash existing.content_hash)
      then touch_item delta existing
      else download_update delta existing

  unfoldable pub delete_local : SyncItem → M ports DeltaAction
  delete_local item = do
    fs_state ←
        context ports (codes "Failed to check local file state") (ports.get_state item.local_path)
    (if fs_state.exists
        then context ports (codes "Failed to delete local file") (ports.delete_file item.local_path)
        else pure ports tt)
    now ← read_clock ports
    gone ← step (mark_deleted item now)
    context ports (codes "Failed to save deleted SyncItem") (ports.save_item gone)
    pure ports deleted

  abbrev pub delete_known : Option SyncItem → M ports DeltaAction
  delete_known none = pure ports skipped
  delete_known (some item) = delete_local item

  unfoldable pub handle_remote_delete : DeltaItem → M ports DeltaAction
  unfolding delete_local
  handle_remote_delete delta = do
    remote_id ←
        lift ports (codes "Invalid remote ID in deleted delta item")
          (new_remote_id ports.is_alphanumeric delta.id)
    existing ←
        context ports (codes "Failed to query item for remote delete")
          (ports.get_item_by_remote_id remote_id)
    delete_known existing

  abbrev pub update_or_create : DeltaItem → SyncPath → Option SyncItem → M ports DeltaAction
  update_or_create delta sync_root none = handle_remote_create delta sync_root
  update_or_create delta sync_root (some existing) = handle_remote_update delta existing

  unfoldable pub process_delta_item : DeltaItem → SyncPath → M ports DeltaAction
  unfolding handle_remote_delete handle_remote_create handle_remote_update
  process_delta_item delta sync_root = if delta.is_deleted then handle_remote_delete delta else (do
    remote_id ←
        lift ports (codes "Invalid remote ID in delta item")
          (new_remote_id ports.is_alphanumeric delta.id)
    existing ←
        context ports (codes "Failed to query existing item by remote ID")
          (ports.get_item_by_remote_id remote_id)
    update_or_create delta sync_root existing)
