-- ===== src/Fuse/FileSystem.antt =====
-- The handlers of crates/lnxdrive-fuse/src/filesystem.rs, as changes of one state: the inode table, the
-- downloads with the repository and the cache, the next file handle, and the tasks that handlers have
-- started and that have not run yet, with the downloads. The kernel calls one handler after the other; an
-- answer is a value or a number of an error. A name that is no UTF-8 is `none`, and offsets are not negative.
-- Here are the state and the handlers that read the inode table only; the others are in the child modules.
use lnxdrive.Prelude.{
  ℕ, ◌+◌, ◌-◌, ◌*◌, ◌/◌, ◌%◌, ◌^◌, ◌==◌, leb, ltb, Bool, true, false, if◌then◌else◌, Option, none,
  some, List, [], ◌∷◌, ◌++◌, Text, byte_len, codes, Result, ok, err,
}
use lnxdrive.Core.Config.{FuseConfig}
use lnxdrive.Core.Ids.{UniqueId, RemoteId}
use lnxdrive.Core.ItemState.{ItemState}
use lnxdrive.Core.SyncPath.{PathBuf}
use lnxdrive.Core.Time.{DateTime}
use lnxdrive.Fuse.ContentCache
use lnxdrive.Fuse.Hydration.{Hydrations, HydrationRequest}
use lnxdrive.Fuse.InodeEntry.{
  InodeEntry, FileType, directory, regular_file, blocks, increment_lookup, decrement_lookup_by,
}
use lnxdrive.Fuse.InodeTable
use lnxdrive.Fuse.InodeTable.{InodeTable}
use lnxdrive.Fuse.Maps
pub mod Handles
pub mod Names
pub mod Attributes
pub mod Init
pub mod Counters
pub mod Numbered
pub mod Mounted
pub mod Steps
pub mod Fresh
pub mod Partial
pub mod Unsaved
pub mod Renames
pub mod Listing
pub mod Mounting
pub mod Started

-- `libc` and `fuser`.
abbrev pub enoent : ℕ
enoent = 2

abbrev pub eio : ℕ
eio = 5

abbrev pub eexist : ℕ
eexist = 17

abbrev pub enotdir : ℕ
enotdir = 20

abbrev pub eisdir : ℕ
eisdir = 21

abbrev pub einval : ℕ
einval = 22

abbrev pub enametoolong : ℕ
enametoolong = 36

abbrev pub enotempty : ℕ
enotempty = 39

abbrev pub fopen_keep_cache : ℕ
fopen_keep_cache = 2

abbrev pub name_max : ℕ
name_max = 255

abbrev pub root_ino : ℕ
root_ino = 1

-- What a handler leaves to the runtime.
pub data Spawned : Type 0 where
  start_hydration : ℕ → UniqueId → RemoteId → ℕ → Spawned
  touch : UniqueId → Spawned
  mark_modified mark_deleted : UniqueId → Spawned
  notify_closed : ℕ → Spawned

pub record LnxDriveFs : Type 0 where
  pub inode_table : InodeTable
  pub hydrations : Hydrations
  pub next_fh : ℕ
  pub spawned : List Spawned
  pub downloads : List HydrationRequest

-- What does not change while the file system is mounted. `mount_point` is the path of the configuration's text, and
-- `hydrates` whether there is a hydration manager.
pub record Mount : Type 0 where
  pub config : FuseConfig
  pub mount_point : PathBuf
  pub hash_remote_id : RemoteId → Text
  pub hydrates : Bool
  pub uid : ℕ
  pub gid : ℕ

abbrev pub Answer : Type 0 → Type 0
Answer A = LnxDriveFs × Result ℕ A

-- The fields of `fuser::FileAttr` that are not constants.
pub record FileAttr : Type 0 where
  pub ino : ℕ
  pub size : ℕ
  pub blocks : ℕ
  pub atime : DateTime
  pub mtime : DateTime
  pub ctime : DateTime
  pub crtime : DateTime
  pub kind : FileType
  pub perm : ℕ
  pub nlink : ℕ
  pub uid : ℕ
  pub gid : ℕ

unfoldable pub to_file_attr : Mount → InodeEntry → FileAttr
unfolding blocks
to_file_attr mount self = record {
  ino = self.ino;
  size = self.size;
  blocks = blocks self;
  atime = self.atime;
  mtime = self.mtime;
  ctime = self.ctime;
  crtime = self.ctime;
  kind = self.kind;
  perm = self.perm;
  nlink = self.nlink;
  uid = mount.uid;
  gid = mount.gid;
}

-- A change of the counters of an entry, which is shared.
abbrev pub change_entry : LnxDriveFs → ℕ → (InodeEntry → InodeEntry) → LnxDriveFs
change_entry self ino f = record self {
  inode_table = record self.inode_table { by_inode = Maps.modify self.inode_table.by_inode ino f };
}

unfoldable pub alloc_fh : LnxDriveFs → LnxDriveFs × ℕ
alloc_fh self = (record self { next_fh = (self.next_fh + 1) % 2 ^ 64 }, self.next_fh)

abbrev pub too_long : Text → Bool
too_long name = ltb name_max (byte_len name)

abbrev looked_up : Mount → LnxDriveFs → Option InodeEntry → Answer FileAttr
looked_up mount self none = (self, err enoent)
looked_up mount self (some entry) =
    (change_entry self entry.ino increment_lookup, ok (to_file_attr mount (increment_lookup entry)))

unfoldable pub lookup : Mount → LnxDriveFs → ℕ → Option Text → Answer FileAttr
unfolding to_file_attr increment_lookup
lookup mount self parent none = (self, err enoent)
lookup mount self parent (some name) =
    if too_long name
    then (self, err enametoolong)
    else looked_up mount self (InodeTable.lookup self.inode_table parent name)

abbrev attr_of : Mount → Option InodeEntry → Result ℕ FileAttr
unfolding to_file_attr
attr_of mount none = err enoent
attr_of mount (some entry) = ok (to_file_attr mount entry)

unfoldable pub getattr : Mount → LnxDriveFs → ℕ → Answer FileAttr
unfolding to_file_attr
getattr mount self ino = (self, attr_of mount (InodeTable.get self.inode_table ino))

-- The changes that are asked for are only logged.
unfoldable pub setattr : Mount → LnxDriveFs → ℕ → Answer FileAttr
unfolding to_file_attr
setattr mount self ino = (self, attr_of mount (InodeTable.get self.inode_table ino))

pub record DirEntry : Type 0 where
  pub ino : ℕ
  pub offset : ℕ
  pub kind : FileType
  pub name : Text

abbrev pub numbered : ℕ → List InodeEntry → List DirEntry
numbered offset [] = []
numbered offset (child ∷ children) =
    record { ino = child.ino; offset = offset; kind = child.kind; name = child.name }
    ∷ numbered (offset + 1) children

-- ".", "..", and the children, each with the offset behind it.
abbrev pub whole_listing : ℕ → ℕ → List InodeEntry → List DirEntry
whole_listing ino parent_ino children =
    record { ino = ino; offset = 1; kind = directory; name = codes "." }
    ∷ record { ino = parent_ino; offset = 2; kind = directory; name = codes ".." }
    ∷ numbered 3 children

-- The loop: entries before the offset are passed over, and the first that does not fit behind those in the
-- buffer ends it. `fits` is the buffer of the reply.
unfoldable pub fill :
    (List DirEntry → DirEntry → Bool) → ℕ → ℕ → List DirEntry → List DirEntry → List DirEntry
fill fits offset current added [] = added
fill fits offset current added (entry ∷ entries) = elim (leb offset current) [
  | false ↦ fill fits offset (current + 1) added entries
  | true ↦ elim (fits added entry) [
    | false ↦ added
    | true ↦ fill fits offset (current + 1) (added ++ entry ∷ []) entries
  ]
]

abbrev listed :
    (List DirEntry → DirEntry → Bool)
    → LnxDriveFs
    → ℕ
    → ℕ
    → Option InodeEntry
    → Result ℕ (List DirEntry)
unfolding fill
listed fits self ino offset none = err enoent
listed fits self ino offset (some entry) = elim entry.kind [
  | regular_file ↦ err enotdir
  | directory ↦
      let parent_ino = if ino == root_ino then root_ino else entry.parent_ino in
      ok (
        fill fits offset 0 []
          (whole_listing ino parent_ino (InodeTable.children self.inode_table ino)))
]

unfoldable pub readdir :
    (List DirEntry → DirEntry → Bool) → LnxDriveFs → ℕ → ℕ → Answer (List DirEntry)
unfolding fill
readdir fits self ino offset =
    (self, listed fits self ino offset (InodeTable.get self.inode_table ino))

pub record Statfs : Type 0 where
  pub blocks : ℕ
  pub bfree : ℕ
  pub bavail : ℕ
  pub files : ℕ
  pub ffree : ℕ
  pub bsize : ℕ
  pub namelen : ℕ
  pub frsize : ℕ

unfoldable pub statfs : Mount → LnxDriveFs → Answer Statfs
statfs mount self =
    let total_blocks = mount.config.cache_max_size_gb * 1024 * 1024 * 1024 / 4096 in
    let used_blocks = ContentCache.disk_usage mount.hash_remote_id self.hydrations.files / 4096 in
    let free_blocks = total_blocks - used_blocks in
    (
      self,
      ok (record {
        blocks = total_blocks;
        bfree = free_blocks;
        bavail = free_blocks;
        files = InodeTable.len self.inode_table;
        ffree = (2 ^ 64 - 1) / 2;
        bsize = 4096;
        namelen = name_max;
        frsize = 4096;
      }),
    )

-- An entry whose counters are zero stays in the table.
unfoldable pub forget : LnxDriveFs → ℕ → ℕ → LnxDriveFs
unfolding decrement_lookup_by
forget self ino nlookup = change_entry self ino (λ entry. (decrement_lookup_by entry nlookup).0)

abbrev opened_dir : LnxDriveFs → Option InodeEntry → Answer (ℕ × ℕ)
unfolding alloc_fh
opened_dir self none = (self, err enoent)
opened_dir self (some entry) = elim entry.kind [
  | regular_file ↦ (self, err enotdir)
  | directory ↦ let next = alloc_fh self in (next.0, ok (next.1, fopen_keep_cache))
]

unfoldable pub opendir : LnxDriveFs → ℕ → Answer (ℕ × ℕ)
unfolding alloc_fh
opendir self ino = opened_dir self (InodeTable.get self.inode_table ino)

unfoldable pub releasedir : LnxDriveFs → ℕ → ℕ → Answer (Unit {0})
releasedir self ino fh = (self, ok tt)

unfoldable pub flush : LnxDriveFs → ℕ → ℕ → Answer (Unit {0})
flush self ino fh = (self, ok tt)
