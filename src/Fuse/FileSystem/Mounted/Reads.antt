-- ===== src/Fuse/FileSystem/Mounted/Reads.antt =====
-- `read` of crates/lnxdrive-fuse/src/filesystem.rs keeps the invariant of Numbered.antt, while other tasks
-- take no inode back.
use lnxdrive.Prelude.{
  ℕ, ◌≤◌, ◌≡◌, refl, Bool-cases, inl, inr, Option, none, some, Option-cases, List, Result,
  Result-cases, ok, err, arith,
}
use lnxdrive.Core.Ids.{UniqueId, RemoteId}
use lnxdrive.Core.ItemState.{
  ItemState, online, hydrating, hydrated, pinned, modified, conflicted, error, deleted,
}
use lnxdrive.Core.Time.{DateTime}
use lnxdrive.Fuse.ContentCache
use lnxdrive.Fuse.Error.{FuseError}
use lnxdrive.Fuse.Hydration.{
  Hydrations, HydrationRequest, begin, user_open, to_state, wait_for_range, is_hydrating, new,
}
use lnxdrive.Fuse.Maps
use lnxdrive.Fuse.InodeEntry.{InodeEntry}
use lnxdrive.Fuse.InodeTable.{get}
use lnxdrive.Fuse.FileSystem.{LnxDriveFs, Mount}
use lnxdrive.Fuse.FileSystem.Handles.{
  cached_read, read_entry, read_remote, waited, after_hydrate, hydrate, started, read,
}
use lnxdrive.Fuse.FileSystem.Counters.{state_keeps_count}
use lnxdrive.Fuse.FileSystem.Mounted.{IsMounted, Keeps, kept, chained, unchanged}

module _ (mount : Mount) where
  cached_read_same :
      (self : LnxDriveFs) (id : Option RemoteId) (offset size : ℕ)
      → (cached_read mount self id offset size).0 ≡ self
  unfolding cached_read
  cached_read_same self none offset size = refl
  cached_read_same self (some id) offset size =
      elim (Result-cases
        (ContentCache.read mount.hash_remote_id self.hydrations.files id offset size)) [
          | inl (bytes, h) ↦ rw (cached_read, h) refl
          | inr (e, h) ↦ rw (cached_read, h) refl
        ]

  started_lem :
      (self : LnxDriveFs) (next : Hydrations) (spawned : Option HydrationRequest)
      (result : Result FuseError ℕ)
      → self.hydrations.repository.next_inode ≤ next.repository.next_inode
      → Keeps self (started self (next, spawned, result)).0
  started_lem self next none result up = record { same_table = refl; counts_up = up }
  started_lem self next (some request) result up = record { same_table = refl; counts_up = up }

  begin_counts :
      (self : Hydrations) (now : DateTime) (ino : ℕ) (id : UniqueId) (remote_id : RemoteId)
      (size : ℕ)
      → (begin mount.hash_remote_id self now ino id remote_id size
          user_open).0.repository.next_inode
        ≡ self.repository.next_inode
  unfolding begin new
  begin_counts self now ino id remote_id size =
      let count = state_keeps_count self.repository now id hydrating in
      elim (Option-cases (Maps.get self.active ino)) [
        | inr (request, active) ↦ rw (begin, active) refl
        | inl fresh ↦ elim (Result-cases (to_state self now id hydrating).1) [
          | inl (u, h) ↦ rw (begin, fresh, h) count
          | inr (e, h) ↦ rw (begin, fresh, h) count
        ]
      ]

  pub started-Keeps :
      (self : LnxDriveFs) (now : DateTime) (ino : ℕ) (id : UniqueId) (remote_id : RemoteId)
      (size : ℕ)
      → Keeps self (hydrate mount self now ino id remote_id size).0
  unfolding hydrate
  started-Keeps self now ino id remote_id size =
      let begun = begin mount.hash_remote_id self.hydrations now ino id remote_id size user_open in
      started_lem self begun.0 begun.1 begun.2
        (omega (arith, begin_counts self.hydrations now ino id remote_id size))

  module _ (others : ℕ → Hydrations → Hydrations × List ℕ)
      (up : (ino : ℕ) (h : Hydrations)
        → h.repository.next_inode ≤ (others ino h).0.repository.next_inode) where
    wait_counts :
        (self : Hydrations) (ino offset size : ℕ)
        → self.repository.next_inode
          ≤ (wait_for_range others self ino offset size).0.repository.next_inode
    unfolding wait_for_range
    wait_counts self ino offset size = elim (Option-cases (Maps.get self.active ino)) [
      | inl gone ↦ rw (wait_for_range, gone) (omega arith)
      | inr (request, active) ↦ rw (wait_for_range, active) (up ino self)
    ]

    waited-Keeps :
        (self : LnxDriveFs) (ino : ℕ) (entry : InodeEntry) (offset size : ℕ)
        → Keeps self (waited others mount self ino entry offset size).0
    unfolding waited
    waited-Keeps self ino entry offset size =
        let waiting = wait_for_range others self.hydrations ino offset size in
        let waits = wait_counts self.hydrations ino offset size in
        elim (Result-cases waiting.1) [
          | inr (e, h) ↦ rw (waited, h) (record { same_table = refl; counts_up = waits })
          | inl (u, h) ↦
              rw
                (
                  waited,
                  h,
                  cached_read_same (record self { hydrations = waiting.0 }) entry.remote_id offset
                      size,
                )
                (record { same_table = refl; counts_up = waits })
        ]

    after-Keeps :
        (self : LnxDriveFs) (ino : ℕ) (entry : InodeEntry) (offset size : ℕ)
        (x : LnxDriveFs × Result FuseError ℕ)
        → Keeps self x.0
        → Keeps self (after_hydrate others mount ino entry offset size x).0
    after-Keeps self ino entry offset size (next, err e) k = k
    after-Keeps self ino entry offset size (next, ok _) k =
        chained k (waited-Keeps next ino entry offset size)

    remote-Keeps :
        (self : LnxDriveFs) (now : DateTime) (ino : ℕ) (entry : InodeEntry) (offset size : ℕ)
        → Keeps self (read_remote others mount self now ino entry offset size).0
    unfolding read_remote
    remote-Keeps self now ino entry offset size = elim (Bool-cases mount.hydrates) [
      | inr e ↦ rw (read_remote, e) (unchanged self)
      | inl e ↦ elim (Bool-cases (is_hydrating self.hydrations ino)) [
        | inl h ↦ rw (read_remote, e, h) (waited-Keeps self ino entry offset size)
        | inr h ↦ elim (Option-cases entry.remote_id) [
          | inl gone ↦ rw (read_remote, e, h, gone) (unchanged self)
          | inr (id, there) ↦
              let first = started-Keeps self now ino entry.item_id id entry.size in
              rw (read_remote, e, h, there)
                (after-Keeps self ino entry offset size
                  (hydrate mount self now ino entry.item_id id entry.size) first)
        ]
      ]
    ]

    entry-Keeps :
        (self : LnxDriveFs) (now : DateTime) (ino : ℕ) (entry : InodeEntry) (offset size : ℕ)
        (state : ItemState)
        → Keeps self (read_entry others mount self now ino entry offset size state).0
    entry-Keeps self now ino entry offset size online = remote-Keeps self now ino entry offset size
    entry-Keeps self now ino entry offset size hydrating =
        remote-Keeps self now ino entry offset size
    entry-Keeps self now ino entry offset size hydrated =
        rw (cached_read_same self entry.remote_id offset size) (unchanged self)
    entry-Keeps self now ino entry offset size pinned =
        rw (cached_read_same self entry.remote_id offset size) (unchanged self)
    entry-Keeps self now ino entry offset size modified =
        rw (cached_read_same self entry.remote_id offset size) (unchanged self)
    entry-Keeps self now ino entry offset size conflicted = unchanged self
    entry-Keeps self now ino entry offset size (error reason) = unchanged self
    entry-Keeps self now ino entry offset size deleted = unchanged self

    pub read-IsMounted :
        (self : LnxDriveFs) (now : DateTime) (ino offset size : ℕ)
        → IsMounted self
        → IsMounted (read others mount self now ino offset size).0
    unfolding read
    read-IsMounted self now ino offset size v = elim (Option-cases (get self.inode_table ino)) [
      | inl gone ↦ rw (read, gone) v
      | inr (entry, found) ↦
          rw (read, found) (kept (entry-Keeps self now ino entry offset size entry.state) v)
    ]
