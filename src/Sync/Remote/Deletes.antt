-- ===== src/Sync/Remote/Deletes.antt =====
-- Remote deletions of items whose state may not become deleted, in
-- crates/lnxdrive-sync/src/engine.rs.
use lnxdrive.Prelude.{
  Text, Result, err, if◌then◌else◌, ◌≡◌, true, false, some, ok, inl, inr, is_ok, Bool-cases,
  Result-cases, refl,
}
use lnxdrive.Core.Ids.{RemoteId, new_remote_id}
use lnxdrive.Core.ItemState.{deleted}
use lnxdrive.Core.SyncItem.{SyncItem}
use lnxdrive.Core.SyncPath.{SyncPath}
use lnxdrive.Core.Transition.{mark_deleted, transition_to, can_transition}
use lnxdrive.Sync.Ports.{Ports, DeltaItem, FileSystemState}
use lnxdrive.Sync.Remote.{process_delta_item, handle_remote_delete, delete_local}

module _ (ports : Ports) where
  open ports use {World}

  abbrev stamped : World × Result Text (Unit {0}) → World
  stamped (w, err x) = w
  stamped (w, ok u) = (ports.now w).0

  -- What is asked for: the state of the file, its deletion where it is there, and behind a success the time.
  abbrev asked : SyncPath → Result Text FileSystemState → World → World
  asked path (err x) w = w
  asked path (ok fs_state) w =
      if fs_state.exists then stamped (ports.delete_file path w) else (ports.now w).0

  abbrev pub disk_only : SyncPath → World → World
  disk_only path w = let (after, answer) = ports.get_state path w in asked path answer after

  delete_local_fails :
      (item : SyncItem) (w : World)
      → can_transition item.state deleted ≡ false
      → ((delete_local ports item w).0 ≡ disk_only item.local_path w)
        × (is_ok (delete_local ports item w).1 ≡ false)
  unfolding delete_local mark_deleted transition_to
  delete_local_fails item w e = elim (Result-cases (ports.get_state item.local_path w).1) [
    | inr (x, refused) ↦ rw refused (refl, refl)
    | inl (fs_state, answer) ↦ elim (Bool-cases fs_state.exists) [
      | inr missing ↦ rw (answer, missing, e) (refl, refl)
      | inl here ↦
          elim (Result-cases
            (ports.delete_file item.local_path (ports.get_state item.local_path w).0).1) [
              | inl (u, done) ↦ rw (answer, here, done, e) (refl, refl)
              | inr (x, refused) ↦ rw (answer, here, refused) (refl, refl)
            ]
    ]
  ]

  -- If the repository knows the item of a deletion in the cloud, and has it in a state that may not
  -- become deleted (modified, conflicted, hydrating, deleted), then `process_delta_item` fails, whatever
  -- the disk answers; behind the query it only asks for the state of the file, for its deletion where
  -- it is there, and for the time, and saves nothing.
  pub remote_delete_fails :
      (delta : DeltaItem) (sync_root : SyncPath) (id : RemoteId) (item : SyncItem) (w : World)
      → delta.is_deleted ≡ true
      → new_remote_id ports.is_alphanumeric delta.id ≡ ok id
      → (ports.get_item_by_remote_id id w).1 ≡ ok (some item)
      → can_transition item.state deleted ≡ false
      → ((process_delta_item ports delta sync_root w).0
          ≡ disk_only item.local_path (ports.get_item_by_remote_id id w).0)
        × (is_ok (process_delta_item ports delta sync_root w).1 ≡ false)
  unfolding process_delta_item handle_remote_delete
  remote_delete_fails delta sync_root id item w is_delete valid known e =
      rw (is_delete, valid, known) (delete_local_fails item (ports.get_item_by_remote_id id w).0 e)
