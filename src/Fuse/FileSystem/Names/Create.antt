-- ===== src/Fuse/FileSystem/Names/Create.antt =====
-- `create` of crates/lnxdrive-fuse/src/filesystem.rs, with the paths of the new file. The walk to the root takes
-- fuel; where it is used up, `create` has no answer.
use Prim.Native.Nat.{bit_and}
use lnxdrive.Prelude.{
  ℕ, zero, suc, ◌%◌, ◌^◌, ◌==◌, true, false, if◌then◌else◌, Option, none, some, List, [], ◌∷◌, ◌++◌,
  reverse, is_empty, Text, codes, ok, err,
}
use lnxdrive.Core.Ids.{UniqueId}
use lnxdrive.Core.ItemState.{modified}
use lnxdrive.Core.RemotePath
use lnxdrive.Core.RemotePath.{RemotePath}
use lnxdrive.Core.SyncItem
use lnxdrive.Core.SyncItem.{SyncItem}
use lnxdrive.Core.SyncPath
use lnxdrive.Core.SyncPath.{PathBuf, SyncPath, relative_components}
use lnxdrive.Core.Time.{DateTime}
use lnxdrive.Core.Transition.{reset_state_for_crash_recovery}
use lnxdrive.Cache.Repository.{Repository}
use lnxdrive.Fuse.Hydration.{answer}
use lnxdrive.Fuse.InodeEntry
use lnxdrive.Fuse.InodeEntry.{
  InodeEntry, FileType, directory, regular_file, increment_lookup, increment_open_handles,
}
use lnxdrive.Fuse.InodeTable
use lnxdrive.Fuse.InodeTable.{InodeTable}
use lnxdrive.Fuse.FileSystem.{
  LnxDriveFs, Mount, Answer, FileAttr, to_file_attr, change_entry, alloc_fh, eio, root_ino,
}
use lnxdrive.Fuse.WriteSerializer.{Reply, save_item, process_operation}
use lnxdrive.Fuse.FileSystem.Names.{
  named, at_table, at_repository, next_inode, parent_error, without_mask,
}

-- The names from an inode up to the root, the last first; an inode that is not there ends them.
abbrev with_name : Text → Option (List Text) → Option (List Text)
with_name name none = none
with_name name (some names) = if is_empty name then some names else some (name ∷ names)

unfoldable pub names_up : InodeTable → ℕ → ℕ → Option (List Text)
names_up table zero ino = none
names_up table (suc fuel) ino = elim (ino == root_ino) [
  | true ↦ some []
  | false ↦ elim (InodeTable.get table ino) [
    | none ↦ some []
    | some entry ↦ with_name entry.name (names_up table fuel entry.parent_ino)
  ]
]

abbrev join_all : PathBuf → List Text → PathBuf
join_all path [] = path
join_all path (name ∷ names) = join_all (path ++ relative_components name) names

abbrev join_slash : List Text → Text
join_slash [] = []
join_slash (name ∷ []) = name
join_slash (name ∷ next ∷ names) = name ++ codes "/" ++ join_slash (next ∷ names)

-- From the names in front of the new one.
abbrev pub local_path_of : Mount → List Text → Text → PathBuf
local_path_of mount names name = join_all mount.mount_point (reverse (name ∷ names))

abbrev pub remote_path_of : List Text → Text → Text
remote_path_of names name = codes "/" ++ join_slash (reverse (name ∷ names))

unfoldable pub build_local_path : Mount → InodeTable → ℕ → ℕ → Text → Option PathBuf
unfolding names_up
build_local_path mount table fuel parent name = elim (names_up table fuel parent) [
  | none ↦ none
  | some names ↦ some (local_path_of mount names name)
]

unfoldable pub build_remote_path : InodeTable → ℕ → ℕ → Text → Option Text
unfolding names_up
build_remote_path table fuel parent name = elim (names_up table fuel parent) [
  | none ↦ none
  | some names ↦ some (remote_path_of names name)
]

abbrev pub created_item : UniqueId → DateTime → SyncPath → RemotePath → ℕ → SyncItem
unfolding SyncItem.new
created_item fresh now local remote ino =
    reset_state_for_crash_recovery
      (SyncItem.set_inode (SyncItem.new fresh now local remote false) (some ino)) modified

abbrev pub created_entry : UniqueId → DateTime → ℕ → Text → ℕ → ℕ → ℕ → InodeEntry
unfolding InodeEntry.new
created_entry fresh now parent name mode umask ino =
    InodeEntry.new ino fresh none parent name regular_file 0
      (bit_and (without_mask mode umask % 2 ^ 16) 0o7777) now now now 1 modified

abbrev pub Created : Type 0
Created = FileAttr × ℕ × ℕ

unfoldable pub entered : Mount → LnxDriveFs → ℕ → InodeEntry → Answer Created
unfolding to_file_attr alloc_fh increment_lookup increment_open_handles
entered mount self flags entry =
    let inserted = at_table self (InodeTable.insert self.inode_table entry) in
    let counted =
      change_entry inserted entry.ino (λ e. increment_open_handles (increment_lookup e)) in
    let handle = alloc_fh counted in
    (handle.0, ok (to_file_attr mount entry, handle.1, flags % 2 ^ 32))

unfoldable pub saved : Mount → LnxDriveFs → ℕ → InodeEntry → Repository × Reply → Answer Created
unfolding entered
saved mount self flags entry (repository, reply) = elim (answer reply) [
  | err e ↦ (at_repository self repository, err eio)
  | ok _ ↦ entered mount (at_repository self repository) flags entry
]

-- With the inode allocated and the paths built.
unfoldable pub create_at :
    Mount
    → LnxDriveFs
    → UniqueId
    → DateTime
    → ℕ
    → Text
    → ℕ
    → ℕ
    → ℕ
    → ℕ
    → PathBuf
    → Text
    → Answer Created
unfolding saved SyncPath.new RemotePath.new
create_at mount self fresh now parent name mode umask flags ino local remote =
    elim (SyncPath.new local) [
      | err e ↦ (self, err eio)
      | ok local_path ↦ elim (RemotePath.new remote) [
        | err e ↦ (self, err eio)
        | ok remote_path ↦
            saved mount self flags (created_entry fresh now parent name mode umask ino) (
              process_operation self.hydrations.repository now
                (save_item (created_item fresh now local_path remote_path ino)))
      ]
    ]

unfoldable pub with_inode :
    Mount
    → UniqueId
    → DateTime
    → ℕ
    → Text
    → ℕ
    → ℕ
    → ℕ
    → ℕ
    → LnxDriveFs × ℕ
    → Option (Answer Created)
unfolding names_up create_at
with_inode mount fresh now parent name mode umask flags fuel (self, ino) =
    elim (names_up self.inode_table fuel parent) [
      | none ↦ none
      | some names ↦ some (
          create_at mount self fresh now parent name mode umask flags ino
            (local_path_of mount names name) (remote_path_of names name))
    ]

unfoldable pub create :
    Mount
    → LnxDriveFs
    → UniqueId
    → DateTime
    → ℕ
    → Option Text
    → ℕ
    → ℕ
    → ℕ
    → ℕ
    → Option (Answer Created)
unfolding with_inode
create mount self fresh now parent os_name mode umask flags fuel =
    named os_name (λ errno. some (self, err errno))
      (λ name. elim (parent_error self.inode_table parent name) [
        | some errno ↦ some (self, err errno)
        | none ↦ with_inode mount fresh now parent name mode umask flags fuel (next_inode self now)
      ])
