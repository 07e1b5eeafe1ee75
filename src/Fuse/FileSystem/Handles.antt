-- ===== src/Fuse/FileSystem/Handles.antt =====
-- Open files: `open`, `read`, `write` and `release` of crates/lnxdrive-fuse/src/filesystem.rs, and what the
-- tasks do that handlers start. A task is run as a whole, between two handlers; the writes of a task and the
-- time go through the queue of Fuse/WriteSerializer.antt.
use lnxdrive.Prelude.{
  ℕ, ◌==◌, Bool, true, false, if◌then◌else◌, Option, none, some, List, [], ◌∷◌, ◌++◌, Result, ok,
  err,
}
use lnxdrive.Core.Ids.{UniqueId, RemoteId}
use lnxdrive.Core.ItemState.{
  ItemState, online, hydrating, hydrated, pinned, modified, deleted, is_hydrated,
}
use lnxdrive.Core.Time.{DateTime}
use lnxdrive.Fuse.ContentCache
use lnxdrive.Fuse.Dehydration.{DehydrationPolicy, notify_file_closed}
use lnxdrive.Fuse.Dehydration.Cached.{Surroundings, host_of}
use lnxdrive.Fuse.Error.{FuseError}
use lnxdrive.Fuse.Hydration.{
  Hydrations, HydrationRequest, user_open, begin, register, is_hydrating, wait_for_range, to_state,
}
use lnxdrive.Fuse.InodeEntry.{
  InodeEntry, directory, regular_file, increment_open_handles, decrement_open_handles,
}
use lnxdrive.Fuse.InodeTable
use lnxdrive.Fuse.FileSystem.{
  LnxDriveFs, Mount, Answer, Spawned, start_hydration, touch, mark_modified, mark_deleted,
  notify_closed, change_entry, alloc_fh, enoent, eio, eisdir, fopen_keep_cache,
}
use lnxdrive.Fuse.WriteSerializer.{process_operation, update_last_accessed}

abbrev pub spawn : LnxDriveFs → List Spawned → LnxDriveFs
spawn self tasks = record self { spawned = self.spawned ++ tasks }

-- The hydration that an open of a file in this state starts.
abbrev hydration_on_open : Mount → ℕ → InodeEntry → Option RemoteId → List Spawned
hydration_on_open mount ino entry none = []
hydration_on_open mount ino entry (some remote_id) =
    if mount.hydrates then start_hydration ino entry.item_id remote_id entry.size ∷ [] else []

-- The tasks and the flags of `open`.
abbrev pub open_tasks : Mount → ℕ → InodeEntry → ItemState → List Spawned × ℕ
open_tasks mount ino entry online =
    (hydration_on_open mount ino entry entry.remote_id ++ touch entry.item_id ∷ [], 0)
open_tasks mount ino entry hydrated = (touch entry.item_id ∷ [], fopen_keep_cache)
open_tasks mount ino entry pinned = (touch entry.item_id ∷ [], fopen_keep_cache)
open_tasks mount ino entry modified = (touch entry.item_id ∷ [], fopen_keep_cache)
open_tasks mount ino entry _ = (touch entry.item_id ∷ [], 0)

abbrev opened : Mount → LnxDriveFs → ℕ → Option InodeEntry → Answer (ℕ × ℕ)
unfolding alloc_fh increment_open_handles
opened mount self ino none = (self, err enoent)
opened mount self ino (some entry) = elim entry.kind [
  | directory ↦ (self, err eisdir)
  | regular_file ↦
      let handle = alloc_fh (change_entry self ino increment_open_handles) in
      let tasks = open_tasks mount ino entry entry.state in
      (spawn handle.0 tasks.0, ok (handle.1, tasks.1))
]

unfoldable pub open_file : Mount → LnxDriveFs → ℕ → Answer (ℕ × ℕ)
unfolding alloc_fh increment_open_handles
open_file mount self ino = opened mount self ino (InodeTable.get self.inode_table ino)

-- `hydrate`, with the task that it starts.
abbrev pub started :
    LnxDriveFs
    → Hydrations × Option HydrationRequest × Result FuseError ℕ
    → LnxDriveFs × Result FuseError ℕ
started self (next, none, result) = (record self { hydrations = next }, result)
started self (next, some request, result) =
    let entered = register (next, some request, result) in
    (record self { hydrations = entered.0; downloads = self.downloads ++ request ∷ [] }, entered.1)

unfoldable pub hydrate :
    Mount → LnxDriveFs → DateTime → ℕ → UniqueId → RemoteId → ℕ → LnxDriveFs × Result FuseError ℕ
unfolding begin
hydrate mount self now ino item_id remote_id size =
    started self
      (begin mount.hash_remote_id self.hydrations now ino item_id remote_id size user_open)

unfoldable pub cached_read : Mount → LnxDriveFs → Option RemoteId → ℕ → ℕ → Answer (List ℕ)
unfolding ContentCache.read
cached_read mount self none offset size = (self, err eio)
cached_read mount self (some remote_id) offset size =
    elim (ContentCache.read mount.hash_remote_id self.hydrations.files remote_id offset size) [
      | ok bytes ↦ (self, ok bytes)
      | err e ↦ (self, err eio)
    ]

module _ (others : ℕ → Hydrations → Hydrations × List ℕ) where
  unfoldable pub waited : Mount → LnxDriveFs → ℕ → InodeEntry → ℕ → ℕ → Answer (List ℕ)
  unfolding wait_for_range cached_read
  waited mount self ino entry offset size =
      let waiting = wait_for_range others self.hydrations ino offset size in
      let next = record self { hydrations = waiting.0 } in
      elim waiting.1 [
        | err e ↦ (next, err eio)
        | ok _ ↦ cached_read mount next entry.remote_id offset size
      ]

  abbrev pub after_hydrate :
      Mount → ℕ → InodeEntry → ℕ → ℕ → LnxDriveFs × Result FuseError ℕ → Answer (List ℕ)
  after_hydrate mount ino entry offset size (self, err e) = (self, err eio)
  after_hydrate mount ino entry offset size (self, ok _) = waited mount self ino entry offset size

  -- A file whose content is not there, as far as the inode table knows.
  unfoldable pub read_remote :
      Mount → LnxDriveFs → DateTime → ℕ → InodeEntry → ℕ → ℕ → Answer (List ℕ)
  unfolding waited hydrate is_hydrating
  read_remote mount self now ino entry offset size = elim mount.hydrates [
    | false ↦ (self, err eio)
    | true ↦ elim (is_hydrating self.hydrations ino) [
      | true ↦ waited mount self ino entry offset size
      | false ↦ elim entry.remote_id [
        | none ↦ (self, err eio)
        | some remote_id ↦
            after_hydrate mount ino entry offset size
              (hydrate mount self now ino entry.item_id remote_id entry.size)
      ]
    ]
  ]

  abbrev pub read_entry :
      Mount → LnxDriveFs → DateTime → ℕ → InodeEntry → ℕ → ℕ → ItemState → Answer (List ℕ)
  read_entry mount self now ino entry offset size online =
      read_remote mount self now ino entry offset size
  read_entry mount self now ino entry offset size hydrating =
      read_remote mount self now ino entry offset size
  read_entry mount self now ino entry offset size hydrated =
      cached_read mount self entry.remote_id offset size
  read_entry mount self now ino entry offset size pinned =
      cached_read mount self entry.remote_id offset size
  read_entry mount self now ino entry offset size modified =
      cached_read mount self entry.remote_id offset size
  read_entry mount self now ino entry offset size _ = (self, err eio)

  unfoldable pub read : Mount → LnxDriveFs → DateTime → ℕ → ℕ → ℕ → Answer (List ℕ)
  unfolding read_remote cached_read
  read mount self now ino offset size = elim (InodeTable.get self.inode_table ino) [
    | none ↦ (self, err enoent)
    | some entry ↦ read_entry mount self now ino entry offset size entry.state
  ]

abbrev pub is_modified : ItemState → Bool
is_modified modified = true
is_modified _ = false

-- The cache is written, and unless the inode table has the file as modified, so is the state, later on; the table
-- stays as it is.
unfoldable pub write_cached :
    Mount → LnxDriveFs → InodeEntry → ℕ → List ℕ → Option RemoteId → Answer ℕ
unfolding ContentCache.write_at
write_cached mount self entry offset bytes none = (self, err eio)
write_cached mount self entry offset bytes (some remote_id) =
    let result =
      ContentCache.write_at mount.hash_remote_id self.hydrations.files remote_id offset bytes in
    let next = record self { hydrations = record self.hydrations { files = result.0 } } in
    (
      if is_modified entry.state then next else spawn next (mark_modified entry.item_id ∷ []),
      ok result.1,
    )

abbrev pub write_entry : Mount → LnxDriveFs → InodeEntry → ℕ → List ℕ → ItemState → Answer ℕ
write_entry mount self entry offset bytes hydrated =
    write_cached mount self entry offset bytes entry.remote_id
write_entry mount self entry offset bytes pinned =
    write_cached mount self entry offset bytes entry.remote_id
write_entry mount self entry offset bytes modified =
    write_cached mount self entry offset bytes entry.remote_id
write_entry mount self entry offset bytes _ = (self, err eio)

unfoldable pub write : Mount → LnxDriveFs → ℕ → ℕ → List ℕ → Answer ℕ
unfolding write_cached
write mount self ino offset bytes = elim (InodeTable.get self.inode_table ino) [
  | none ↦ (self, err enoent)
  | some entry ↦ write_entry mount self entry offset bytes entry.state
]

-- There is a dehydration manager.
unfoldable pub release : LnxDriveFs → ℕ → Answer (Unit {0})
unfolding decrement_open_handles
release self ino = elim (InodeTable.get self.inode_table ino) [
  | none ↦ (self, ok tt)
  | some entry ↦
      let closed = change_entry self ino (λ e. (decrement_open_handles e).0) in
      (
        if (decrement_open_handles entry).1 == 0
            then (if is_hydrated entry.state then spawn closed (notify_closed ino ∷ []) else closed)
            else closed,
        ok tt,
      )
]

module _ (around : Surroundings) (mount : Mount) (policy : DehydrationPolicy) where
  abbrev pub State : Type 0
  State = around.World × LnxDriveFs

  abbrev pub stored : around.World × DateTime → LnxDriveFs → UniqueId → ItemState → State
  stored (world, now) self item_id state =
      (world, record self { hydrations = (to_state self.hydrations now item_id state).0 })

  -- A task; where it fails, this is only logged.
  unfoldable pub run_task : State → Spawned → State
  unfolding hydrate process_operation notify_file_closed
  run_task (world, self) (start_hydration ino item_id remote_id size) =
      let clock = around.now world in
      (clock.0, (hydrate mount self clock.1 ino item_id remote_id size).0)
  run_task (world, self) (touch item_id) =
      let clock = around.now world in
      let next =
        process_operation self.hydrations.repository clock.1
          (update_last_accessed item_id clock.1) in
      (clock.0, record self { hydrations = record self.hydrations { repository = next.0 } })
  run_task (world, self) (mark_modified item_id) = stored (around.now world) self item_id modified
  run_task (world, self) (mark_deleted item_id) = stored (around.now world) self item_id deleted
  run_task (world, self) (notify_closed ino) =
      let next =
        notify_file_closed (host_of around mount.hash_remote_id) policy self.inode_table
          self.hydrations.repository (self.hydrations.files, world) ino in
      (
        next.0.1,
        record self {
          hydrations = record self.hydrations { repository = next.1; files = next.0.0 };
        },
      )

  -- The tasks that wait, in the order in which they were started.
  unfoldable pub run_all : State → List Spawned → State
  unfolding run_task
  run_all state [] = state
  run_all state (task ∷ tasks) = run_all (run_task state task) tasks

  unfoldable pub run_spawned : State → State
  unfolding run_all
  run_spawned (world, self) = run_all (world, record self { spawned = [] }) self.spawned
