-- ===== src/Fuse/FileSystem/Mounted/Created.antt =====
-- `create` of crates/lnxdrive-fuse/src/filesystem.rs keeps the invariant of the mounted file system.
use lnxdrive.Prelude.{
  ℕ, ◌<◌, ◌≡◌, refl, sym, ap, ◌∙◌, Bool-cases, inl, inr, Option, none, some, Option-cases, Text,
  Result-cases, arith,
}
use lnxdrive.Core.Ids.{UniqueId}
use lnxdrive.Core.RemotePath
use lnxdrive.Core.SyncPath
use lnxdrive.Core.SyncPath.{PathBuf}
use lnxdrive.Core.Time.{DateTime}
use lnxdrive.Cache.Repository
use lnxdrive.Cache.Repository.{Repository}
use lnxdrive.Fuse.Hydration.{answer}
use lnxdrive.Fuse.InodeEntry
use lnxdrive.Fuse.InodeEntry.{
  InodeEntry, FileType, FileType-cases, directory, regular_file, increment_lookup,
  decrement_lookup_by, increment_open_handles, decrement_open_handles,
}
use lnxdrive.Fuse.InodeTable.{get, get_by_item_id, insert}
use lnxdrive.Fuse.FileSystem.{LnxDriveFs, Mount, Answer, alloc_fh, too_long}
use lnxdrive.Fuse.FileSystem.Names.{next_inode, at_table, at_repository, parent_error}
use lnxdrive.Fuse.FileSystem.Names.Create.{
  create, saved, entered, with_inode, create_at, created_entry, created_item, Created, names_up,
  local_path_of, remote_path_of,
}
use lnxdrive.Fuse.WriteSerializer.{process_operation, Reply, save_item}
use lnxdrive.Fuse.FileSystem.Counters.{save_keeps_count}
use lnxdrive.Fuse.FileSystem.Numbered.{insert-IsNumbered, raised, next_free}
use lnxdrive.Fuse.FileSystem.Mounted.{IsMounted, counting}

module _ (mount : Mount) where
  saved_mounted :
      (self : LnxDriveFs) (flags : ℕ) (entry : InodeEntry) (repository : Repository) (reply : Reply)
      (next : ℕ)
      → IsMounted self
      → entry.ino ≡ next
      → next < self.hydrations.repository.next_inode
      → get self.inode_table next ≡ none
      → get_by_item_id self.inode_table entry.item_id ≡ none
      → repository.next_inode ≡ self.hydrations.repository.next_inode
      → IsMounted (saved mount self flags entry (repository, reply)).0
  unfolding saved entered alloc_fh increment_lookup increment_open_handles
  saved_mounted self flags entry repository reply next v at less free unused same =
      elim (Result-cases (answer reply)) [
        | inr (e, h) ↦ rw (saved, h) (raised (omega arith) v)
        | inl (u, h) ↦
            let inserted =
              insert-IsNumbered self.inode_table repository.next_inode entry
                (raised (omega arith) v) (ap (λ ino. get self.inode_table ino) at ∙ free) unused
                (omega arith) in
            rw (saved, h)
              (counting (at_table (at_repository self repository) (insert self.inode_table entry))
                entry.ino _ (record { same_ino = λ e. refl; same_item_id = λ e. refl }) inserted)
      ]

  create_at_mounted :
      (self : LnxDriveFs) (fresh : UniqueId) (now : DateTime) (parent : ℕ) (name : Text)
      (mode umask flags ino : ℕ) (local : PathBuf) (remote : Text)
      → IsMounted self
      → ino < self.hydrations.repository.next_inode
      → get self.inode_table ino ≡ none
      → get_by_item_id self.inode_table fresh ≡ none
      → IsMounted (create_at mount self fresh now parent name mode umask flags ino local remote).0
  unfolding create_at InodeEntry.new
  create_at_mounted self fresh now parent name mode umask flags ino local remote v less free
        unused =
      elim (Result-cases (SyncPath.new local)) [
        | inr (e, h) ↦ rw (create_at, h) v
        | inl (local_path, h) ↦ elim (Result-cases (RemotePath.new remote)) [
          | inr (e, k) ↦ rw (create_at, h, k) v
          | inl (remote_path, k) ↦
              let written =
                process_operation self.hydrations.repository now
                  (save_item (created_item fresh now local_path remote_path ino)) in
              rw (create_at, h, k)
                (saved_mounted self flags (created_entry fresh now parent name mode umask ino)
                  written.0 written.1 ino v refl less free unused
                  (save_keeps_count self.hydrations.repository now
                    (created_item fresh now local_path remote_path ino)))
        ]
      ]

  only_answer :
      {o : Option (Answer Created)} {x y : Answer Created} → o ≡ some x → o ≡ some y → x ≡ y
  only_answer h k = cc

  with_inode_mounted :
      (self : LnxDriveFs) (fresh : UniqueId) (now : DateTime) (parent : ℕ) (name : Text)
      (mode umask flags fuel ino : ℕ) (result : Answer Created)
      → IsMounted self
      → ino < self.hydrations.repository.next_inode
      → get self.inode_table ino ≡ none
      → get_by_item_id self.inode_table fresh ≡ none
      → with_inode mount fresh now parent name mode umask flags fuel (self, ino) ≡ some result
      → IsMounted result.0
  unfolding with_inode
  with_inode_mounted self fresh now parent name mode umask flags fuel ino result v less free unused
        h =
      elim (Option-cases (names_up self.inode_table fuel parent)) [
        | inl out ↦ absurd (cc (rw (with_inode, out) at h))
        | inr (names, up) ↦
            let same = only_answer refl (rw (with_inode, up) at h) in
            rw (sym same) (
              create_at_mounted self fresh now parent name mode umask flags ino
                (local_path_of mount names name) (remote_path_of names name) v less free unused)
      ]

  pub create-IsMounted :
      (self : LnxDriveFs) (fresh : UniqueId) (now : DateTime) (parent : ℕ) (os_name : Option Text)
      (mode umask flags fuel : ℕ) (result : Answer Created)
      → get_by_item_id self.inode_table fresh ≡ none
      → IsMounted self
      → create mount self fresh now parent os_name mode umask flags fuel ≡ some result
      → IsMounted result.0
  unfolding create process_operation Repository.get_next_inode
  create-IsMounted self fresh now parent none mode umask flags fuel result unused v h =
      rw (sym (only_answer refl h)) v
  create-IsMounted self fresh now parent (some name) mode umask flags fuel result unused v h =
      elim (Bool-cases (too_long name)) [
        | inl e ↦ rw (sym (only_answer refl (rw e at h))) v
        | inr e ↦ elim (Option-cases (parent_error self.inode_table parent name)) [
          | inr (errno, refused) ↦ rw (sym (only_answer refl (rw (e, refused) at h))) v
          | inl fine ↦
              let next = self.hydrations.repository.next_inode in
              with_inode_mounted (next_inode self now).0 fresh now parent name mode umask flags fuel
                next result (raised (omega arith) v) (omega arith)
                (next_free self.inode_table next v) unused (rw (e, fine) at h)
        ]
      ]
