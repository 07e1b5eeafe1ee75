-- ===== src/Fuse/FileSystem/Mounted/Names.antt =====
-- The handlers of names in crates/lnxdrive-fuse/src/filesystem.rs keep the invariant of Numbered.antt.
use lnxdrive.Prelude.{
  ℕ, ◌<◌, ◌≡◌, refl, ap, ◌∙◌, Bool-cases, inl, inr, Option, none, some, Option-cases, Text,
  Result-cases, arith, is_empty,
}
use lnxdrive.Core.Ids.{UniqueId}
use lnxdrive.Core.ItemState.{deleted}
use lnxdrive.Core.Time.{DateTime}
use lnxdrive.Cache.Repository
use lnxdrive.Cache.Repository.{Repository}
use lnxdrive.Fuse.Hydration.{to_state}
use lnxdrive.Fuse.InodeEntry
use lnxdrive.Fuse.InodeEntry.{
  InodeEntry, FileType, FileType-cases, directory, regular_file, increment_lookup,
  decrement_lookup_by, increment_open_handles, decrement_open_handles,
}
use lnxdrive.Fuse.InodeTable
use lnxdrive.Fuse.InodeTable.{InodeTable, get, get_by_item_id, insert, remove}
use lnxdrive.Fuse.FileSystem.{LnxDriveFs, Mount, too_long}
use lnxdrive.Fuse.FileSystem.Names.{
  mkdir, rmdir, rename, unlink, made_directory, child_of, parent_error, renamed_entry, kind_error,
  moved_over, replaced,
}
use lnxdrive.Fuse.WriteSerializer.{process_operation}
use lnxdrive.Fuse.FileSystem.Counters.{state_keeps_count}
use lnxdrive.Fuse.FileSystem.Numbered.{
  IsNumbered, insert-IsNumbered, remove-IsNumbered, removed_gone, raised, next_free,
}
use lnxdrive.Fuse.FileSystem.Mounted.{IsMounted}

module _ (mount : Mount) where
  -- A new entry with the inode that was handed out.
  pub entered_mounted :
      (self : LnxDriveFs) (entry : InodeEntry) (next : ℕ)
      → IsMounted self
      → entry.ino ≡ self.hydrations.repository.next_inode
      → get_by_item_id self.inode_table entry.item_id ≡ none
      → self.hydrations.repository.next_inode < next
      → IsNumbered (insert self.inode_table entry) next
  entered_mounted self entry next v at fresh more =
      insert-IsNumbered self.inode_table next entry (raised (omega arith) v)
        (ap (λ ino. get self.inode_table ino) at
          ∙ next_free self.inode_table self.hydrations.repository.next_inode v)
        fresh (omega arith)

  removed_mounted :
      (self : LnxDriveFs) (ino : ℕ)
      → IsMounted self
      → IsNumbered (remove self.inode_table ino).0 self.hydrations.repository.next_inode
  removed_mounted self ino v =
      (remove-IsNumbered self.inode_table self.hydrations.repository.next_inode ino v).0

  moved_mounted :
      (self : LnxDriveFs) (now : DateTime) (newparent : ℕ) (newname : Text) (ino : ℕ)
      (table : InodeTable)
      → IsNumbered table self.hydrations.repository.next_inode
      → IsMounted (moved_over self now newparent newname ino table).0
  unfolding InodeEntry.new
  moved_mounted self now newparent newname ino table v =
      let next = self.hydrations.repository.next_inode in
      let (w, same) = remove-IsNumbered table next ino v in
      elim (Option-cases (get table ino)) [
        | inl gone ↦ rw (moved_over, same, gone) w
        | inr (entry, found) ↦
            let (free, unknown) = removed_gone table ino entry found in
            let at : entry.ino ≡ ino = v.agreed.numbered ino entry found in
            rw (moved_over, same, found)
              (insert-IsNumbered (remove table ino).0 next
                (renamed_entry entry now newparent newname) w
                (ap (λ k. get (remove table ino).0 k) at ∙ free) unknown
                (omega (arith, v.below ino entry found)))
      ]

  replaced_mounted :
      (self : LnxDriveFs) (now : DateTime) (newparent : ℕ) (newname : Text) (source : InodeEntry)
      (dest : Option InodeEntry)
      → IsMounted self
      → IsMounted (replaced self now newparent newname source dest).0
  unfolding InodeEntry.new
  replaced_mounted self now newparent newname source none v =
      moved_mounted self now newparent newname source.ino self.inode_table v
  replaced_mounted self now newparent newname source (some dest) v =
      elim (Option-cases (kind_error dest.kind source.kind)) [
        | inr (errno, refused) ↦ rw (replaced, refused) v
        | inl fine ↦
            rw (replaced, fine)
              (moved_mounted self now newparent newname source.ino
                (remove self.inode_table dest.ino).0 (removed_mounted self dest.ino v))
      ]

  pub mkdir-IsMounted :
      (self : LnxDriveFs) (fresh : UniqueId) (now : DateTime) (parent : ℕ) (os_name : Option Text)
      (mode umask : ℕ)
      → get_by_item_id self.inode_table fresh ≡ none
      → IsMounted self
      → IsMounted (mkdir mount self fresh now parent os_name mode umask).0
  unfolding mkdir process_operation Repository.get_next_inode InodeEntry.new increment_lookup
  mkdir-IsMounted self fresh now parent none mode umask unused v = v
  mkdir-IsMounted self fresh now parent (some name) mode umask unused v =
      elim (Bool-cases (too_long name)) [
        | inl e ↦ rw e v
        | inr e ↦ elim (Option-cases (parent_error self.inode_table parent name)) [
          | inr (errno, refused) ↦ rw (e, refused) v
          | inl fine ↦
              rw (e, fine)
                (entered_mounted self
                  (increment_lookup (
                    made_directory fresh now parent name mode umask
                      self.hydrations.repository.next_inode))
                  _ v refl unused (omega arith))
        ]
      ]

  pub rmdir-IsMounted :
      (self : LnxDriveFs) (parent : ℕ) (os_name : Option Text)
      → IsMounted self
      → IsMounted (rmdir self parent os_name).0
  unfolding rmdir
  rmdir-IsMounted self parent none v = v
  rmdir-IsMounted self parent (some name) v = elim (Bool-cases (too_long name)) [
    | inl e ↦ rw e v
    | inr e ↦ elim (Option-cases (child_of self parent name)) [
      | inl gone ↦ rw (e, gone) v
      | inr (child, found) ↦ elim (FileType-cases child.kind) [
        | inr k ↦ rw (e, found, k) v
        | inl k ↦ elim (Bool-cases (is_empty (InodeTable.children self.inode_table child.ino))) [
          | inl d ↦ rw (e, found, k, d) (removed_mounted self child.ino v)
          | inr d ↦ rw (e, found, k, d) v
        ]
      ]
    ]
  ]

  pub rename-IsMounted :
      (self : LnxDriveFs) (now : DateTime) (parent : ℕ) (os_name : Option Text) (newparent : ℕ)
      (os_newname : Option Text)
      → IsMounted self
      → IsMounted (rename self now parent os_name newparent os_newname).0
  unfolding rename
  rename-IsMounted self now parent none newparent os_newname v = v
  rename-IsMounted self now parent (some name) newparent none v = v
  rename-IsMounted self now parent (some name) newparent (some newname) v =
      elim (Bool-cases (too_long name)) [
        | inl e ↦ rw e v
        | inr e ↦ elim (Bool-cases (too_long newname)) [
          | inl d ↦ rw (e, d) v
          | inr d ↦ elim (Option-cases (child_of self parent name)) [
            | inl gone ↦ rw (e, d, gone) v
            | inr (source, found) ↦
                rw (e, d, found)
                  (replaced_mounted self now newparent newname source
                    (child_of self newparent newname) v)
          ]
        ]
      ]

  pub unlink-IsMounted :
      (self : LnxDriveFs) (now : DateTime) (parent : ℕ) (os_name : Option Text)
      → IsMounted self
      → IsMounted (unlink mount self now parent os_name).0
  unfolding unlink
  unlink-IsMounted self now parent none v = v
  unlink-IsMounted self now parent (some name) v = elim (Bool-cases (too_long name)) [
    | inl e ↦ rw e v
    | inr e ↦ elim (Option-cases (child_of self parent name)) [
      | inl gone ↦ rw (e, gone) v
      | inr (child, found) ↦ elim (FileType-cases child.kind) [
        | inl k ↦ rw (e, found, k) v
        | inr k ↦
            let count = state_keeps_count self.hydrations.repository now child.item_id deleted in
            elim (Result-cases (to_state self.hydrations now child.item_id deleted).1) [
              | inr (x, h) ↦ rw (e, found, k, h) (raised (omega arith) v)
              | inl (u, h) ↦ elim (Option-cases child.remote_id) [
                | inl unsynced ↦
                    rw (e, found, k, h, unsynced)
                      (raised (omega arith) (removed_mounted self child.ino v))
                | inr (id, synced) ↦
                    rw (e, found, k, h, synced)
                      (raised (omega arith) (removed_mounted self child.ino v))
              ]
            ]
      ]
    ]
  ]
