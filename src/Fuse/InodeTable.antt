-- ===== src/Fuse/InodeTable.antt =====
-- `InodeTable` of crates/lnxdrive-fuse/src/inode.rs. The two maps are changed one after the other, and
-- an entry is shared, so that its counters are read as they are now. The order of `children` is open.
use lnxdrive.Prelude.{
  ℕ, ◌==◌, Bool, ◌&&◌, if◌then◌else◌, Option, none, some, List, [], ◌∷◌, Text, text_eq, length,
  is_empty,
}
use lnxdrive.Core.Ids.{UniqueId}
use lnxdrive.Fuse.InodeEntry.{InodeEntry}
use lnxdrive.Fuse.Maps
pub mod Agreement

pub record InodeTable : Type 0 where
  pub by_inode : List (ℕ × InodeEntry)
  pub by_item_id : List (UniqueId × ℕ)

unfoldable pub new : InodeTable
new = record { by_inode = []; by_item_id = [] }

unfoldable pub insert : InodeTable → InodeEntry → InodeTable
insert self entry = record {
  by_inode = Maps.insert self.by_inode entry.ino entry;
  by_item_id = Maps.insert self.by_item_id entry.item_id entry.ino;
}

unfoldable pub get : InodeTable → ℕ → Option InodeEntry
get self ino = Maps.get self.by_inode ino

unfoldable pub get_by_item_id : InodeTable → UniqueId → Option ℕ
get_by_item_id self id = Maps.get self.by_item_id id

abbrev removed : InodeTable → ℕ → Option InodeEntry → InodeTable × Option InodeEntry
removed self ino none = (self, none)
removed self ino (some entry) = (
  record {
    by_inode = Maps.remove self.by_inode ino;
    by_item_id = Maps.remove self.by_item_id entry.item_id;
  },
  some entry,
)

unfoldable pub remove : InodeTable → ℕ → InodeTable × Option InodeEntry
remove self ino = removed self ino (Maps.get self.by_inode ino)

abbrev pub children_of : ℕ → List (ℕ × InodeEntry) → List InodeEntry
children_of parent_ino [] = []
children_of parent_ino ((ino, entry) ∷ entries) =
    let rest = children_of parent_ino entries in
    if entry.parent_ino == parent_ino then entry ∷ rest else rest

unfoldable pub children : InodeTable → ℕ → List InodeEntry
children self parent_ino = children_of parent_ino self.by_inode

abbrev find_child : ℕ → Text → List (ℕ × InodeEntry) → Option InodeEntry
find_child parent_ino name [] = none
find_child parent_ino name ((ino, entry) ∷ entries) =
    let rest = find_child parent_ino name entries in
    if entry.parent_ino == parent_ino && text_eq entry.name name then some entry else rest

unfoldable pub lookup : InodeTable → ℕ → Text → Option InodeEntry
lookup self parent_ino name = find_child parent_ino name self.by_inode

unfoldable pub len : InodeTable → ℕ
len self = length self.by_inode
