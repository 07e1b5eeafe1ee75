-- ===== src/Fuse/FileSystem/Unsaved.antt =====
-- Files whose state in the inode table is not that of the repository: the table keeps the state that a file had
-- when its entry was made, in crates/lnxdrive-fuse/src/filesystem.rs.
use lnxdrive.Prelude.{
  ℕ, ◌≡◌, ◌==◌, ==_refl, refl, ap, true, none, some, List, [], ◌∷◌, ok, err, ltb, arith,
}
use lnxdrive.Core.Ids.{RemoteId}
use lnxdrive.Core.ItemState.{online, hydrating, hydrated, modified, is_hydrated}
use lnxdrive.Core.Time.{DateTime}
use lnxdrive.Core.Transition.{can_transition}
use lnxdrive.Cache.Repository.{get_item}
use lnxdrive.Fuse.ContentCache
use lnxdrive.Fuse.ContentCache.{find_file, remove_file, cache_path, partial_path}
use lnxdrive.Fuse.ContentCache.Contents.{find_file-removed, find_file-absent}
use lnxdrive.Fuse.Dehydration.{DehydrationPolicy, threshold_bytes, notify_file_closed}
use lnxdrive.Fuse.Dehydration.Cached.{Surroundings, host_of}
use lnxdrive.Fuse.Dehydration.Manual.{dehydrate_path_refused}
use lnxdrive.Fuse.Hydration.{Hydrations, begin, is_hydrating}
use lnxdrive.Fuse.InodeEntry.{InodeEntry, decrement_open_handles}
use lnxdrive.Fuse.InodeTable
use lnxdrive.Fuse.InodeTable.{InodeTable, get}
use lnxdrive.Fuse.Maps
use lnxdrive.Fuse.Maps.{get-modify}
use lnxdrive.Fuse.FileSystem.{LnxDriveFs, Mount, mark_modified, eio}
use lnxdrive.Fuse.FileSystem.Handles.{
  read, write, read_remote, hydrate, write_cached, spawn, release, run_task, run_all, run_spawned,
}
use lnxdrive.Fuse.WriteSerializer.{process_operation, update_state}
use lnxdrive.Fuse.WriteSerializer.States.{
  stored_state, state_found, update_state_makes, update_state_keeps,
}

module _ (mount : Mount) where
  -- A file that the inode table has as online, but that is stored as hydrated and has no active download, cannot be
  -- read, whether its content is in the cache or not, and the attempt changes nothing.
  pub hydrated_unreadable :
      (self : LnxDriveFs) (ino : ℕ) (entry : InodeEntry) (id : RemoteId)
      → get self.inode_table ino ≡ some entry
      → entry.state ≡ online
      → entry.remote_id ≡ some id
      → mount.hydrates ≡ true
      → Maps.get self.hydrations.active ino ≡ none
      → stored_state self.hydrations.repository entry.item_id ≡ some hydrated
      → (others : ℕ → Hydrations → Hydrations × List ℕ) (now : DateTime) (offset size : ℕ)
      → read others mount self now ino offset size ≡ (self, err eio)
  unfolding read read_remote hydrate begin is_hydrating can_transition
  hydrated_unreadable self ino entry id here state remote runs idle stored others now offset size =
      let (e, refused) =
        update_state_keeps self.hydrations.repository now entry.item_id hydrated hydrating stored
          refl in
      rw (read, here, state, read_remote, runs, idle, remote, begin, idle, refused) refl

module _ (around : Surroundings) (mount : Mount) (policy : DehydrationPolicy) where
  -- The last close of a file that the table has as hydrated, when the cache is over its threshold, removes the content
  -- of a file that is stored as modified.
  close_loses :
      (w : around.World) (self : LnxDriveFs) (ino : ℕ) (entry : InodeEntry) (id : RemoteId)
      → get self.inode_table ino ≡ some entry
      → ((decrement_open_handles entry).1 == 0) ≡ true
      → is_hydrated entry.state ≡ true
      → entry.remote_id ≡ some id
      → self.spawned ≡ []
      → stored_state self.hydrations.repository entry.item_id ≡ some modified
      → ltb
          (threshold_bytes policy)
          (ContentCache.disk_usage mount.hash_remote_id self.hydrations.files)
        ≡ true
      → let closed = run_spawned around mount policy (w, (release self ino).0) in
        (find_file closed.1.hydrations.files (cache_path mount.hash_remote_id id) ≡ none)
        × (stored_state closed.1.hydrations.repository entry.item_id ≡ some modified)
  unfolding can_transition get release run_spawned run_all run_task decrement_open_handles
      notify_file_closed ContentCache.remove
  close_loses w self ino entry id here last full remote idle stored over =
      let host = host_of around mount.hash_remote_id in
      let table = record self.inode_table {
        by_inode = Maps.modify self.inode_table.by_inode ino (λ e. (decrement_open_handles e).0);
      } in
      let (item, found, state) =
        state_found (get_item self.hydrations.repository entry.item_id) stored in
      let closed : InodeTable.get table ino ≡ some ((decrement_open_handles entry).0) =
        rw
          (
            get-modify self.inode_table.by_inode ino ino
                (λ (e : InodeEntry). (decrement_open_handles e).0),
            ==_refl ino,
            here,
          )
          refl in
      let refused =
        dehydrate_path_refused host table self.hydrations.repository (self.hydrations.files, w) ino
          (decrement_open_handles entry).0 id item closed (ground arith) full remote refl found
          (ap (λ s. can_transition s online) state) in
      rw (release, here, last, full, idle, notify_file_closed, over, refused)
        (
          find_file-absent (remove_file self.hydrations.files (cache_path mount.hash_remote_id id))
              (cache_path mount.hash_remote_id id) (partial_path mount.hash_remote_id id)
              (find_file-removed self.hydrations.files (cache_path mount.hash_remote_id id)),
          stored,
        )

  abbrev after_write : RemoteId → LnxDriveFs → ℕ → List ℕ → ContentCache.Files × ℕ
  after_write id self offset bytes =
      ContentCache.write_at mount.hash_remote_id self.hydrations.files id offset bytes

  write_hydrated :
      (self : LnxDriveFs) (ino : ℕ) (entry : InodeEntry) (id : RemoteId) (offset : ℕ)
      (bytes : List ℕ)
      → get self.inode_table ino ≡ some entry
      → entry.state ≡ hydrated
      → entry.remote_id ≡ some id
      → write mount self ino offset bytes ≡ (
        spawn
            (record self {
              hydrations = record self.hydrations { files = (after_write id self offset bytes).0 };
            })
            (mark_modified entry.item_id ∷ []),
        ok (after_write id self offset bytes).1,
      )
  unfolding write write_cached
  write_hydrated self ino entry id offset bytes here state remote =
      rw (write, here, state, write_cached, remote) refl

  -- A file that is stored as hydrated, and that the inode table has as hydrated and open once, is written, and then closed;
  -- the tasks that each of the two starts run before the next. Where the cache is over its threshold behind the write,
  -- the write succeeds, the content is then gone from the cache, and the file is stored as modified.
  pub unsaved_lost :
      (w : around.World) (self : LnxDriveFs) (ino : ℕ) (entry : InodeEntry) (id : RemoteId)
      (offset : ℕ) (bytes : List ℕ)
      → get self.inode_table ino ≡ some entry
      → entry.state ≡ hydrated
      → entry.remote_id ≡ some id
      → ((decrement_open_handles entry).1 == 0) ≡ true
      → self.spawned ≡ []
      → stored_state self.hydrations.repository entry.item_id ≡ some hydrated
      → ltb
          (threshold_bytes policy)
          (ContentCache.disk_usage mount.hash_remote_id (after_write id self offset bytes).0)
        ≡ true
      → let written = run_spawned around mount policy (w, (write mount self ino offset bytes).0) in
        let closed = run_spawned around mount policy (written.0, (release written.1 ino).0) in
        ((write mount self ino offset bytes).1 ≡ ok (after_write id self offset bytes).1)
        × (find_file closed.1.hydrations.files (cache_path mount.hash_remote_id id) ≡ none)
        × (stored_state closed.1.hydrations.repository entry.item_id ≡ some modified)
  unfolding run_spawned run_all run_task can_transition
  unsaved_lost w self ino entry id offset bytes here state remote last idle stored over =
      let e = write_hydrated self ino entry id offset bytes here state remote in
      let made =
        update_state_makes self.hydrations.repository (around.now w).1 entry.item_id hydrated
          modified stored refl in
      let (gone, kept) =
        close_loses (around.now w).0
          (record self {
            spawned = [];
            hydrations = record self.hydrations {
              files = (after_write id self offset bytes).0;
              repository =
                  (process_operation self.hydrations.repository (around.now w).1
                    (update_state entry.item_id modified)).0;
            };
          })
          ino entry id here last (ap is_hydrated state) remote refl made.0 over in
      rw (e, idle) (refl, gone, kept)
