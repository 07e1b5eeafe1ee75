-- ===== src/Fuse/InodeEntry.antt =====
-- `InodeEntry` of crates/lnxdrive-fuse/src/inode_entry.rs. An `InodeNumber` is its number, and a
-- `SystemTime` the nanoseconds since the epoch; of the kinds of files the code uses two.
use lnxdrive.Prelude.{
  ℕ, ◌+◌, ◌-◌, ◌%◌, ◌/◌, ◌^◌, ◌==◌, Bool, ◌&&◌, ◌≡◌, ◌⊎◌, inl, inr, refl, Option, Text,
}
use lnxdrive.Core.Ids.{UniqueId, RemoteId}
use lnxdrive.Core.ItemState.{ItemState}
use lnxdrive.Core.Time.{DateTime}

pub data FileType : Type 0 where
  directory regular_file : FileType

pub FileType-cases : (kind : FileType) → (kind ≡ directory) ⊎ (kind ≡ regular_file)
FileType-cases directory = inl refl
FileType-cases regular_file = inr refl

pub record InodeEntry : Type 0 where
  pub ino : ℕ
  pub item_id : UniqueId
  pub remote_id : Option RemoteId
  pub parent_ino : ℕ
  pub name : Text
  pub kind : FileType
  pub size : ℕ
  pub perm : ℕ
  pub mtime : DateTime
  pub ctime : DateTime
  pub atime : DateTime
  pub nlink : ℕ
  pub lookup_count : ℕ
  pub open_handles : ℕ
  pub state : ItemState

unfoldable pub new :
    ℕ
    → UniqueId
    → Option RemoteId
    → ℕ
    → Text
    → FileType
    → ℕ
    → ℕ
    → DateTime
    → DateTime
    → DateTime
    → ℕ
    → ItemState
    → InodeEntry
new ino item_id remote_id parent_ino name kind size perm mtime ctime atime nlink state = record {
  ino = ino;
  item_id = item_id;
  remote_id = remote_id;
  parent_ino = parent_ino;
  name = name;
  kind = kind;
  size = size;
  perm = perm;
  mtime = mtime;
  ctime = ctime;
  atime = atime;
  nlink = nlink;
  lookup_count = 0;
  open_handles = 0;
  state = state;
}

-- The blocks of 512 bytes of `to_file_attr`.
unfoldable pub blocks : InodeEntry → ℕ
blocks self = (self.size + 511) / 512

unfoldable pub increment_lookup : InodeEntry → InodeEntry
increment_lookup self = record self { lookup_count = (self.lookup_count + 1) % 2 ^ 64 }

unfoldable pub decrement_lookup_by : InodeEntry → ℕ → InodeEntry × ℕ
decrement_lookup_by self count =
    let left = (self.lookup_count + 2 ^ 64 - count) % 2 ^ 64 in
    (record self { lookup_count = left }, left)

unfoldable pub decrement_lookup : InodeEntry → InodeEntry × ℕ
unfolding decrement_lookup_by
decrement_lookup self = decrement_lookup_by self 1

unfoldable pub increment_open_handles : InodeEntry → InodeEntry
increment_open_handles self = record self { open_handles = (self.open_handles + 1) % 2 ^ 64 }

unfoldable pub decrement_open_handles : InodeEntry → InodeEntry × ℕ
decrement_open_handles self =
    let left = (self.open_handles + 2 ^ 64 - 1) % 2 ^ 64 in
    (record self { open_handles = left }, left)

unfoldable pub is_expired : InodeEntry → Bool
is_expired self = self.lookup_count == 0 && self.open_handles == 0
