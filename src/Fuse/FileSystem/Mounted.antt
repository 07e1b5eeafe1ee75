-- ===== src/Fuse/FileSystem/Mounted.antt =====
-- The handlers of crates/lnxdrive-fuse/src/filesystem.rs keep the invariant of Numbered.antt.
use lnxdrive.Prelude.{
  ℕ, ◌+◌, ◌%◌, ◌^◌, ◌≤◌, ◌<◌, ◌≡◌, ◌==◌, ==_refl, refl, sym, ap, ◌∙◌, true, false, Bool-cases, inl,
  inr, Option, none, some, Option-cases, List, [], ◌∷◌, ◌++◌, Text, Result, Result-cases, ok, err,
  arith, if◌then◌else◌, is_some, is_empty,
}
use lnxdrive.Core.Ids.{UniqueId, RemoteId}
use lnxdrive.Core.ItemState.{
  ItemState, is_hydrated, online, hydrating, hydrated, pinned, modified, conflicted, error, deleted,
}
use lnxdrive.Core.RemotePath
use lnxdrive.Core.SyncPath
use lnxdrive.Core.SyncPath.{PathBuf}
use lnxdrive.Core.Time.{DateTime}
use lnxdrive.Cache.Repository
use lnxdrive.Cache.Repository.{Repository}
use lnxdrive.Fuse.ContentCache
use lnxdrive.Fuse.Dehydration.{DehydrationPolicy, notify_file_closed}
use lnxdrive.Fuse.Dehydration.Cached.{Surroundings, host_of}
use lnxdrive.Fuse.Error.{FuseError}
use lnxdrive.Fuse.Hydration.{
  Hydrations, HydrationRequest, begin, begun, register, user_open, to_state, wait_for_range,
  is_hydrating, no_active, new,
}
use lnxdrive.Fuse.Maps
use lnxdrive.Fuse.InodeEntry
use lnxdrive.Fuse.InodeEntry.{
  InodeEntry, FileType, FileType-cases, directory, regular_file, increment_lookup,
  decrement_lookup_by, increment_open_handles, decrement_open_handles,
}
use lnxdrive.Fuse.InodeTable
use lnxdrive.Fuse.InodeTable.{InodeTable, get, get_by_item_id, insert, remove}
use lnxdrive.Fuse.FileSystem.{
  LnxDriveFs, Mount, Answer, lookup, forget, opendir, alloc_fh, change_entry, too_long,
  to_file_attr, Spawned, mark_deleted,
}
use lnxdrive.Fuse.FileSystem.Handles.{
  State, write_cached, write_entry, is_modified, cached_read, read_entry, read_remote, waited,
  after_hydrate, hydrate, started, stored, open_file, read, write, release, run_task, spawn,
}
use lnxdrive.Fuse.FileSystem.Names.{
  mkdir, rmdir, rename, unlink, next_inode, at_table, at_repository, made_directory, child_of,
  parent_error, renamed_entry, kind_error,
}
use lnxdrive.Fuse.FileSystem.Names.Create.{create}
use lnxdrive.Fuse.WriteSerializer.{process_operation}
use lnxdrive.Fuse.FileSystem.Counters.{
  save_keeps_count, state_keeps_count, access_keeps_count, progress_keeps_count,
}
use lnxdrive.Fuse.FileSystem.Numbered.{
  IsNumbered, IsCounting, modify-IsNumbered, insert-IsNumbered, remove-IsNumbered, removed_gone,
  raised, next_free,
}
pub mod Reads
pub mod Names
pub mod Created

-- The table of a file system, and the next inode of its repository.
abbrev pub IsMounted : LnxDriveFs → Type 0
IsMounted self = IsNumbered self.inode_table self.hydrations.repository.next_inode

-- Two states with one table, where inodes are only counted up.
pub record Keeps (self next : LnxDriveFs) : Type 0 where
  pub same_table : next.inode_table ≡ self.inode_table
  pub counts_up : self.hydrations.repository.next_inode ≤ next.hydrations.repository.next_inode

pub kept : {self next : LnxDriveFs} → Keeps self next → IsMounted self → IsMounted next
kept {self} {next} k v = rw k.same_table (raised k.counts_up v)

pub chained : {a b c : LnxDriveFs} → Keeps a b → Keeps b c → Keeps a c
chained k l = record {
  same_table = l.same_table ∙ k.same_table;
  counts_up = omega (arith, k.counts_up, l.counts_up);
}

pub unchanged : (self : LnxDriveFs) → Keeps self self
unchanged self = record { same_table = refl; counts_up = omega arith }

pub counting :
    (self : LnxDriveFs) (ino : ℕ) (f : InodeEntry → InodeEntry)
    → IsCounting f
    → IsMounted self
    → IsMounted (change_entry self ino f)
counting self ino f c v =
    modify-IsNumbered self.inode_table self.hydrations.repository.next_inode ino f c v

lookup_counts : IsCounting increment_lookup
unfolding increment_lookup
lookup_counts = record { same_ino = λ e. refl; same_item_id = λ e. refl }

module _ (mount : Mount) where
  pub lookup-IsMounted :
      (self : LnxDriveFs) (parent : ℕ) (os_name : Option Text)
      → IsMounted self
      → IsMounted (lookup mount self parent os_name).0
  unfolding lookup
  lookup-IsMounted self parent none v = v
  lookup-IsMounted self parent (some name) v = elim (Bool-cases (too_long name)) [
    | inl e ↦ rw e v
    | inr e ↦ elim (Option-cases (InodeTable.lookup self.inode_table parent name)) [
      | inl gone ↦ rw (e, gone) v
      | inr (entry, found) ↦
          rw (e, found) (counting self entry.ino increment_lookup lookup_counts v)
    ]
  ]

  pub forget-IsMounted :
      (self : LnxDriveFs) (ino n : ℕ) → IsMounted self → IsMounted (forget self ino n)
  unfolding forget decrement_lookup_by
  forget-IsMounted self ino n v =
      counting self ino _ (record { same_ino = λ e. refl; same_item_id = λ e. refl }) v

  pub opendir-IsMounted :
      (self : LnxDriveFs) (ino : ℕ) → IsMounted self → IsMounted (opendir self ino).0
  unfolding opendir alloc_fh
  opendir-IsMounted self ino v = elim (Option-cases (get self.inode_table ino)) [
    | inl gone ↦ rw gone v
    | inr (entry, found) ↦ elim (FileType-cases entry.kind) [
      | inl d ↦ rw (found, d) v
      | inr d ↦ rw (found, d) v
    ]
  ]

  pub open_file-IsMounted :
      (self : LnxDriveFs) (ino : ℕ) → IsMounted self → IsMounted (open_file mount self ino).0
  unfolding open_file alloc_fh increment_open_handles
  open_file-IsMounted self ino v = elim (Option-cases (get self.inode_table ino)) [
    | inl gone ↦ rw gone v
    | inr (entry, found) ↦ elim (FileType-cases entry.kind) [
      | inl d ↦ rw (found, d) v
      | inr d ↦
          rw (found, d)
            (counting self ino increment_open_handles
              (record { same_ino = λ e. refl; same_item_id = λ e. refl }) v)
    ]
  ]

  pub release-IsMounted :
      (self : LnxDriveFs) (ino : ℕ) → IsMounted self → IsMounted (release self ino).0
  unfolding release decrement_open_handles
  release-IsMounted self ino v = elim (Option-cases (get self.inode_table ino)) [
    | inl gone ↦ rw (release, gone) v
    | inr (entry, found) ↦
        let closed =
          counting self ino (λ e. (decrement_open_handles e).0)
            (record { same_ino = λ e. refl; same_item_id = λ e. refl }) v in
        elim (Bool-cases ((decrement_open_handles entry).1 == 0)) [
          | inr d ↦ rw (release, found, d) closed
          | inl d ↦ elim (Bool-cases (is_hydrated entry.state)) [
            | inl h ↦ rw (release, found, d, h) closed
            | inr h ↦ rw (release, found, d, h) closed
          ]
        ]
  ]

  write_cached-Keeps :
      (self : LnxDriveFs) (entry : InodeEntry) (offset : ℕ) (bytes : List ℕ) (id : Option RemoteId)
      → Keeps self (write_cached mount self entry offset bytes id).0
  unfolding write_cached
  write_cached-Keeps self entry offset bytes none = unchanged self
  write_cached-Keeps self entry offset bytes (some id) =
      elim (Bool-cases (is_modified entry.state)) [
        | inl e ↦ rw e (record { same_table = refl; counts_up = omega arith })
        | inr e ↦ rw e (record { same_table = refl; counts_up = omega arith })
      ]

  write-Keeps :
      (self : LnxDriveFs) (entry : InodeEntry) (offset : ℕ) (bytes : List ℕ) (state : ItemState)
      → Keeps self (write_entry mount self entry offset bytes state).0
  write-Keeps self entry offset bytes hydrated =
      write_cached-Keeps self entry offset bytes entry.remote_id
  write-Keeps self entry offset bytes pinned =
      write_cached-Keeps self entry offset bytes entry.remote_id
  write-Keeps self entry offset bytes modified =
      write_cached-Keeps self entry offset bytes entry.remote_id
  write-Keeps self entry offset bytes online = unchanged self
  write-Keeps self entry offset bytes hydrating = unchanged self
  write-Keeps self entry offset bytes conflicted = unchanged self
  write-Keeps self entry offset bytes (error reason) = unchanged self
  write-Keeps self entry offset bytes deleted = unchanged self

  pub write-IsMounted :
      (self : LnxDriveFs) (ino offset : ℕ) (bytes : List ℕ)
      → IsMounted self
      → IsMounted (write mount self ino offset bytes).0
  unfolding write
  write-IsMounted self ino offset bytes v = elim (Option-cases (get self.inode_table ino)) [
    | inl gone ↦ rw (write, gone) v
    | inr (entry, found) ↦
        rw (write, found) (kept (write-Keeps self entry offset bytes entry.state) v)
  ]
