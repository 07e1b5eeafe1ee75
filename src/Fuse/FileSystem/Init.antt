-- ===== src/Fuse/FileSystem/Init.antt =====
-- `new`, `init` and the recovery after a crash, in crates/lnxdrive-fuse/src/filesystem.rs. Reading all items
-- does not fail, nor does the allocation of an inode. A time before the epoch is too long a duration.
use lnxdrive.Prelude.{
  ℕ, Bool, true, false, if◌then◌else◌, Option, none, some, List, [], ◌∷◌, reverse, Text, leb_ℤ, pos,
}
use lnxdrive.Core.Ids.{UniqueId, RemoteId}
use lnxdrive.Core.ItemState.{online, hydrating, hydrated}
use lnxdrive.Core.SyncItem.{SyncItem}
use lnxdrive.Core.SyncPath.{PathBuf, Component, normal, root_dir, path_eq}
use lnxdrive.Core.Time.{DateTime}
use lnxdrive.Core.Transition.{reset_state_for_crash_recovery}
use lnxdrive.Cache.Repository
use lnxdrive.Cache.Repository.{Repository, items_of}
use lnxdrive.Fuse.ContentCache.{Files, remove_file, partial_path}
use lnxdrive.Fuse.Hydration.{Hydrations}
use lnxdrive.Fuse.InodeEntry
use lnxdrive.Fuse.InodeEntry.{InodeEntry, FileType, directory, regular_file}
use lnxdrive.Fuse.InodeTable
use lnxdrive.Fuse.InodeTable.{InodeTable}
use lnxdrive.Fuse.FileSystem.{LnxDriveFs, Mount, root_ino}
use lnxdrive.Fuse.FileSystem.Names.{next_inode, at_table}

-- The queue of writes and the cache are there.
unfoldable pub new : Hydrations → LnxDriveFs
unfolding InodeTable.new
new hydrations = record {
  inode_table = InodeTable.new;
  hydrations = hydrations;
  next_fh = 1;
  spawned = [];
  downloads = [];
}

abbrev pub is_stale : SyncItem → Bool
is_stale item = elim item.state [ hydrating ↦ true | _ ↦ false ]

abbrev partial_removed : Mount → Files → Option RemoteId → Files
unfolding remove_file
partial_removed mount files none = files
partial_removed mount files (some remote_id) =
    remove_file files (partial_path mount.hash_remote_id remote_id)

abbrev pub reset_item : SyncItem → SyncItem
unfolding reset_state_for_crash_recovery
reset_item item = reset_state_for_crash_recovery item online

abbrev pub reset_in : Mount → Hydrations → SyncItem → Hydrations
unfolding remove_file reset_state_for_crash_recovery
reset_in mount self item = record self {
  files = partial_removed mount self.files item.remote_id;
  repository = (Repository.save_item self.repository (reset_item item)).0;
}

-- Items that a crash has left hydrating. Where the save fails, this is only logged.
unfoldable pub recover : Mount → Hydrations → List SyncItem → Hydrations × List SyncItem
unfolding remove_file reset_state_for_crash_recovery
recover mount self [] = (self, [])
recover mount self (item ∷ items) = elim (is_stale item) [
  | false ↦ let rest = recover mount self items in (rest.0, item ∷ rest.1)
  | true ↦
      let rest = recover mount (reset_in mount self item) items in
      (rest.0, reset_item item ∷ rest.1)
]

abbrev pub root_entry : UniqueId → DateTime → InodeEntry
unfolding InodeEntry.new
root_entry fresh now =
    InodeEntry.new root_ino fresh none root_ino [] directory 0 0o755 now now now 2 hydrated

-- `checked_add` to the epoch.
abbrev system_time : DateTime → Option DateTime → DateTime
system_time now none = now
system_time now (some t) = if leb_ℤ (pos 0) t then t else now

abbrev name_of : Component → Text
name_of (normal s) = s
name_of _ = []

abbrev last_name : PathBuf → Text
last_name [] = []
last_name (c ∷ path) = name_of c

abbrev behind : PathBuf → Option PathBuf
behind [] = none
behind (root_dir ∷ path) = none
behind (c ∷ path) = some (reverse path)

unfoldable pub sync_item_to_inode_entry : DateTime → SyncItem → ℕ → ℕ → InodeEntry
unfolding InodeEntry.new
sync_item_to_inode_entry now item ino parent_ino =
    let is_directory = item.metadata.is_directory in
    let mtime = system_time now item.last_modified_local in
    InodeEntry.new ino item.id item.remote_id parent_ino (last_name (reverse item.local_path.path))
      (if is_directory then directory else regular_file)
      (if is_directory then 0 else item.size_bytes) (if is_directory then 0o755 else 0o644) mtime
      mtime (system_time now item.last_accessed) 1 item.state

abbrev pub inode_for : LnxDriveFs → DateTime → Option ℕ → LnxDriveFs × ℕ
inode_for self now none = next_inode self now
inode_for self now (some ino) = (self, ino)

-- Each item with the inode that it has, or a new one.
unfoldable pub number_items :
    LnxDriveFs → DateTime → List SyncItem → LnxDriveFs × List (SyncItem × ℕ)
number_items self now [] = (self, [])
number_items self now (item ∷ items) =
    let numbered = inode_for self now item.inode in
    let rest = number_items numbered.0 now items in (rest.0, (item, numbered.1) ∷ rest.1)

-- The map from paths to inodes; a later item with the same path takes the place of an earlier one.
unfoldable pub inode_at : List (SyncItem × ℕ) → PathBuf → Option ℕ
unfolding path_eq
inode_at [] path = none
inode_at ((item, ino) ∷ numbered) path = elim (inode_at numbered path) [
  | some later ↦ some later
  | none ↦ if path_eq item.local_path.path path then some ino else none
]

abbrev or_root : Option ℕ → ℕ
or_root none = root_ino
or_root (some ino) = ino

abbrev pub parent_of : List (SyncItem × ℕ) → PathBuf → ℕ
unfolding inode_at
parent_of numbered path = elim (behind (reverse path)) [
  | none ↦ root_ino
  | some parent ↦ or_root (inode_at numbered parent)
]

unfoldable pub enter_items :
    DateTime → List (SyncItem × ℕ) → InodeTable → List (SyncItem × ℕ) → InodeTable
unfolding InodeTable.insert sync_item_to_inode_entry inode_at
enter_items now numbered table [] = table
enter_items now numbered table ((item, ino) ∷ items) =
    enter_items now numbered
      (InodeTable.insert table
        (sync_item_to_inode_entry now item ino (parent_of numbered item.local_path.path)))
      items

-- `fresh` is the UUID of the root. The periodic sweep that is started then is Dehydration/Sweep.antt.
unfoldable pub init : Mount → LnxDriveFs → UniqueId → DateTime → LnxDriveFs
unfolding recover number_items enter_items InodeTable.insert
init mount self fresh now =
    let recovered = recover mount self.hydrations (items_of self.hydrations.repository.rows) in
    let started = record self { hydrations = recovered.0 } in
    let rooted = at_table started (InodeTable.insert started.inode_table (root_entry fresh now)) in
    let numbered = number_items rooted now recovered.1 in
    at_table numbered.0 (enter_items now numbered.1 numbered.0.inode_table numbered.1)
