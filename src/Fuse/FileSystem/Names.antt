-- ===== src/Fuse/FileSystem/Names.antt =====
-- Names in directories: `mkdir`, `rmdir`, `rename` and `unlink` of
-- crates/lnxdrive-fuse/src/filesystem.rs. `fresh` is the new UUID. Names have no separator.
use Prim.Native.Nat.{bit_and, bit_or, bit_xor}
use lnxdrive.Prelude.{
  ℕ, zero, suc, ◌-◌, ◌%◌, ◌^◌, ◌==◌, true, false, if◌then◌else◌, Option, none, some, List, [], ◌∷◌,
  ◌++◌, reverse, is_empty, is_some, Text, codes, Result, ok, err,
}
use lnxdrive.Core.Ids.{UniqueId, RemoteId}
use lnxdrive.Core.ItemState.{ItemState, hydrated, pinned, modified, deleted}
use lnxdrive.Core.RemotePath
use lnxdrive.Core.RemotePath.{RemotePath}
use lnxdrive.Core.SyncItem
use lnxdrive.Core.SyncItem.{SyncItem}
use lnxdrive.Core.SyncPath
use lnxdrive.Core.SyncPath.{PathBuf, SyncPath, relative_components}
use lnxdrive.Core.Time.{DateTime}
use lnxdrive.Core.Transition.{reset_state_for_crash_recovery}
use lnxdrive.Cache.Repository.{Repository}
use lnxdrive.Fuse.ContentCache
use lnxdrive.Fuse.Error.{FuseError}
use lnxdrive.Fuse.Hydration.{Hydrations, answer, to_state}
use lnxdrive.Fuse.InodeEntry
use lnxdrive.Fuse.InodeEntry.{
  InodeEntry, FileType, directory, regular_file, increment_lookup, increment_open_handles,
}
use lnxdrive.Fuse.InodeTable
use lnxdrive.Fuse.InodeTable.{InodeTable}
use lnxdrive.Fuse.FileSystem.{
  LnxDriveFs, Mount, Answer, FileAttr, to_file_attr, mark_deleted, change_entry, alloc_fh, too_long,
  enoent, eio, eexist, enotdir, eisdir, einval, enametoolong, enotempty, root_ino,
}
use lnxdrive.Fuse.FileSystem.Handles.{spawn}
use lnxdrive.Fuse.WriteSerializer.{
  Reply, done, inode, increment_inode_counter, save_item, process_operation,
}
pub mod Create

-- The check of a name with which these handlers begin.
abbrev pub named {ℓ} : {A : Type ℓ} → Option Text → (ℕ → A) → (Text → A) → A
named none refuse go = refuse einval
named (some name) refuse go = if too_long name then refuse enametoolong else go name

abbrev pub at_table : LnxDriveFs → InodeTable → LnxDriveFs
at_table self table = record self { inode_table = table }

abbrev pub at_repository : LnxDriveFs → Repository → LnxDriveFs
at_repository self repository = record self {
  hydrations = record self.hydrations { repository = repository };
}

-- `increment_inode_counter`; the other kind of answer does not occur.
abbrev number_of : Reply → ℕ
number_of (inode n) = n
number_of (done result) = 0

abbrev pub next_inode : LnxDriveFs → DateTime → LnxDriveFs × ℕ
next_inode self now =
    let next = process_operation self.hydrations.repository now increment_inode_counter in
    (at_repository self next.0, number_of next.1)

-- The checks of `mkdir` and `create` on the parent and on the name.
abbrev pub parent_error : InodeTable → ℕ → Text → Option ℕ
parent_error table parent name = elim (InodeTable.get table parent) [
  | none ↦ some enoent
  | some entry ↦ elim entry.kind [
    | regular_file ↦ some enotdir
    | directory ↦ if is_some (InodeTable.lookup table parent name) then some eexist else none
  ]
]

abbrev pub without_mask : ℕ → ℕ → ℕ
without_mask mode umask = bit_and mode (bit_xor umask (2 ^ 32 - 1))

abbrev pub made_directory : UniqueId → DateTime → ℕ → Text → ℕ → ℕ → ℕ → InodeEntry
unfolding InodeEntry.new
made_directory fresh now parent name mode umask ino =
    InodeEntry.new ino fresh none parent name directory 0
      (bit_or (without_mask mode umask) 0o111 % 2 ^ 16) now now now 2 modified

abbrev pub made : Mount → UniqueId → DateTime → ℕ → Text → ℕ → ℕ → LnxDriveFs × ℕ → Answer FileAttr
unfolding InodeEntry.new to_file_attr increment_lookup
made mount fresh now parent name mode umask (self, ino) =
    let entry = made_directory fresh now parent name mode umask ino in
    (
      at_table self (InodeTable.insert self.inode_table (increment_lookup entry)),
      ok (to_file_attr mount entry),
    )

unfoldable pub mkdir :
    Mount → LnxDriveFs → UniqueId → DateTime → ℕ → Option Text → ℕ → ℕ → Answer FileAttr
unfolding InodeEntry.new to_file_attr increment_lookup
mkdir mount self fresh now parent os_name mode umask =
    named os_name (λ errno. (self, err errno))
      (λ name. elim (parent_error self.inode_table parent name) [
        | some errno ↦ (self, err errno)
        | none ↦ made mount fresh now parent name mode umask (next_inode self now)
      ])

abbrev pub child_of : LnxDriveFs → ℕ → Text → Option InodeEntry
child_of self parent name = InodeTable.lookup self.inode_table parent name

unfoldable pub rmdir : LnxDriveFs → ℕ → Option Text → Answer (Unit {0})
rmdir self parent os_name =
    named os_name (λ errno. (self, err errno))
      (λ name. elim (child_of self parent name) [
        | none ↦ (self, err enoent)
        | some child ↦ elim child.kind [
          | regular_file ↦ (self, err enotdir)
          | directory ↦
              if is_empty (InodeTable.children self.inode_table child.ino)
              then (
                at_table (spawn self (mark_deleted child.item_id ∷ []))
                    (InodeTable.remove self.inode_table child.ino).0,
                ok tt,
              )
              else (self, err enotempty)
        ]
      ])

abbrev pub renamed_state : ItemState → ItemState
renamed_state hydrated = modified
renamed_state pinned = modified
renamed_state other = other

abbrev pub renamed_entry : InodeEntry → DateTime → ℕ → Text → InodeEntry
unfolding InodeEntry.new
renamed_entry entry now newparent newname =
    InodeEntry.new entry.ino entry.item_id entry.remote_id newparent newname entry.kind entry.size
      entry.perm entry.mtime now entry.atime entry.nlink (renamed_state entry.state)

-- The source is taken out and put in again with its new name and counters at zero.
abbrev pub put_back :
    LnxDriveFs → DateTime → ℕ → Text → InodeTable × Option InodeEntry → Answer (Unit {0})
unfolding InodeEntry.new
put_back self now newparent newname (table, none) = (at_table self table, err enoent)
put_back self now newparent newname (table, some entry) =
    (at_table self (InodeTable.insert table (renamed_entry entry now newparent newname)), ok tt)

abbrev pub moved_over : LnxDriveFs → DateTime → ℕ → Text → ℕ → InodeTable → Answer (Unit {0})
unfolding InodeEntry.new
moved_over self now newparent newname source_ino table =
    put_back self now newparent newname (InodeTable.remove table source_ino)

-- Whether the kinds of destination and source forbid the replacement.
abbrev pub kind_error : FileType → FileType → Option ℕ
kind_error directory regular_file = some eisdir
kind_error regular_file directory = some enotdir
kind_error directory directory = none
kind_error regular_file regular_file = none

abbrev pub replaced :
    LnxDriveFs → DateTime → ℕ → Text → InodeEntry → Option InodeEntry → Answer (Unit {0})
unfolding InodeEntry.new
replaced self now newparent newname source none =
    moved_over self now newparent newname source.ino self.inode_table
replaced self now newparent newname source (some dest) = elim (kind_error dest.kind source.kind) [
  | some errno ↦ (self, err errno)
  | none ↦
      moved_over self now newparent newname source.ino
        (InodeTable.remove self.inode_table dest.ino).0
]

unfoldable pub rename :
    LnxDriveFs → DateTime → ℕ → Option Text → ℕ → Option Text → Answer (Unit {0})
unfolding InodeEntry.new
rename self now parent none newparent os_newname = (self, err einval)
rename self now parent (some name) newparent none = (self, err einval)
rename self now parent (some name) newparent (some newname) =
    if too_long name
    then (self, err enametoolong)
    else if too_long newname
    then (self, err enametoolong)
    else elim (child_of self parent name) [
      | none ↦ (self, err enoent)
      | some source ↦ replaced self now newparent newname source (child_of self newparent newname)
    ]

abbrev pub cache_cleared : Mount → Hydrations → Option RemoteId → Hydrations
unfolding ContentCache.remove
cache_cleared mount hydrations none = hydrations
cache_cleared mount hydrations (some remote_id) = record hydrations {
  files = ContentCache.remove mount.hash_remote_id hydrations.files remote_id;
}

abbrev pub unlinked :
    Mount → LnxDriveFs → InodeEntry → Hydrations × Result FuseError (Unit {0}) → Answer (Unit {0})
unfolding ContentCache.remove
unlinked mount self child (hydrations, err e) = (record self { hydrations = hydrations }, err eio)
unlinked mount self child (hydrations, ok _) = (
  record self {
    hydrations = cache_cleared mount hydrations child.remote_id;
    inode_table = (InodeTable.remove self.inode_table child.ino).0;
  },
  ok tt,
)

unfoldable pub unlink : Mount → LnxDriveFs → DateTime → ℕ → Option Text → Answer (Unit {0})
unfolding ContentCache.remove
unlink mount self now parent os_name =
    named os_name (λ errno. (self, err errno))
      (λ name. elim (child_of self parent name) [
        | none ↦ (self, err enoent)
        | some child ↦ elim child.kind [
          | directory ↦ (self, err eisdir)
          | regular_file ↦
              unlinked mount self child (to_state self.hydrations now child.item_id deleted)
        ]
      ])
