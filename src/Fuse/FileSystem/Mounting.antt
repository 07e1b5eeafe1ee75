-- ===== src/Fuse/FileSystem/Mounting.antt =====
-- The inode table behind `init` of crates/lnxdrive-fuse/src/filesystem.rs, and the recursive operations of
-- crates/lnxdrive-fuse/src/hydration.rs on it.
use lnxdrive.Prelude.{
  ℕ, ◌<◌, ◌≡◌, ◌==◌, refl, ap, ◌∙◌, Bool, true, false, not, ◌&&◌, ◌||◌, Bool-cases, inl, inr,
  Option, none, some, List, [], ◌∷◌, ltb, is_some, Text, arith,
}
use lnxdrive.Core.Ids.{UniqueId}
use lnxdrive.Core.ItemState.{ItemState}
use lnxdrive.Core.SyncItem.{SyncItem}
use lnxdrive.Core.Time.{DateTime}
use lnxdrive.Core.Transition.{reset_state_for_crash_recovery}
use lnxdrive.Cache.Repository
use lnxdrive.Cache.Repository.{Repository, Row, items_of, sync_item_from_row}
use lnxdrive.Fuse.Hydration.{Hydrations}
use lnxdrive.Fuse.Hydration.Recursive.{pin_recursive, unpin_recursive}
use lnxdrive.Fuse.Hydration.Walks.{any_directory, is_directory, recursion_endless}
use lnxdrive.Fuse.InodeEntry
use lnxdrive.Fuse.InodeEntry.{InodeEntry, FileType, directory}
use lnxdrive.Fuse.InodeTable
use lnxdrive.Fuse.InodeTable.{InodeTable, get, children, children_of, insert}
use lnxdrive.Fuse.Maps
use lnxdrive.Fuse.Maps.{get-insert}
use lnxdrive.Fuse.FileSystem.{LnxDriveFs, Mount, root_ino}
use lnxdrive.Fuse.FileSystem.Counters.{saves_count}
use lnxdrive.Fuse.FileSystem.Init.{
  new, init, recover, is_stale, reset_item, reset_in, root_entry, number_items, inode_for,
  enter_items, sync_item_to_inode_entry, parent_of,
}
use lnxdrive.Fuse.FileSystem.Names.{next_inode}
use lnxdrive.Fuse.WriteSerializer.{process_operation}

-- The root is in the table, as its own child.
record HasRoot (table : InodeTable) : Type 0 where
  root : InodeEntry
  here : get table root_ino ≡ some root
  same_ino : root.ino ≡ root_ino
  is_dir : root.kind ≡ directory
  own_parent : root.parent_ino ≡ root_ino

either_way : (b : Bool) → (b || true) ≡ true
either_way true = refl
either_way false = refl

root_among :
    (entries : List (ℕ × InodeEntry)) (root : InodeEntry)
    → Maps.get entries root_ino ≡ some root
    → root.ino ≡ root_ino
    → root.kind ≡ directory
    → root.parent_ino ≡ root_ino
    → any_directory root_ino (children_of root_ino entries) ≡ true
unfolding Maps.get
root_among [] root h a b c = absurd (cc h)
root_among ((ino, entry) ∷ entries) root h a b c = elim (Bool-cases (ino == root_ino)) [
  | inl e ↦
      let same : entry ≡ root = cc (let found : some entry ≡ some root = rw e at h in found) in
      let at : root.parent_ino == root_ino ≡ true = ground arith in
      let own : root.ino == root_ino ≡ true = ground arith in
      rw (same, at, any_directory, b, own) refl
  | inr e ↦
      let rest = root_among entries root (rw e at h) a b c in
      elim (Bool-cases (entry.parent_ino == root_ino)) [
        | inr d ↦ rw d rest
        | inl d ↦
            rw (d, any_directory, rest) (either_way (is_directory entry && entry.ino == root_ino))
      ]
]

HasRoot-children :
    (table : InodeTable) → HasRoot table → any_directory root_ino (children table root_ino) ≡ true
unfolding children get
HasRoot-children table r = root_among table.by_inode r.root r.here r.same_ino r.is_dir r.own_parent

insert-HasRoot :
    (table : InodeTable) (entry : InodeEntry)
    → root_ino < entry.ino
    → HasRoot table
    → HasRoot (insert table entry)
unfolding get insert
insert-HasRoot table entry other r = record {
  root = r.root;
  here =
      let apart : (entry.ino == root_ino) ≡ false = ground arith in
      rw (get-insert table.by_inode entry.ino root_ino entry, apart) r.here;
  same_ino = r.same_ino;
  is_dir = r.is_dir;
  own_parent = r.own_parent;
}

-- Every inode is behind that of the root.
abbrev are_later : List (SyncItem × ℕ) → Bool
are_later [] = true
are_later ((item, ino) ∷ items) = ltb root_ino ino && are_later items

abbrev pub have_no_inode : List SyncItem → Bool
have_no_inode [] = true
have_no_inode (item ∷ items) = not (is_some item.inode) && have_no_inode items

entered-HasRoot :
    (now : DateTime) (numbered items : List (SyncItem × ℕ)) (table : InodeTable)
    → are_later items ≡ true
    → HasRoot table
    → HasRoot (enter_items now numbered table items)
unfolding enter_items sync_item_to_inode_entry InodeEntry.new
entered-HasRoot now numbered [] table later r = r
entered-HasRoot now numbered ((item, ino) ∷ items) table later r =
    entered-HasRoot now numbered items _ (ground arith) (
      insert-HasRoot table
        (sync_item_to_inode_entry now item ino (parent_of numbered item.local_path.path))
        (ground arith) r)

pub no_inode : (o : Option ℕ) → not (is_some o) ≡ true → o ≡ none
no_inode none h = refl
no_inode (some n) h = absurd (cc h)

pub numbered_later :
    (self : LnxDriveFs) (now : DateTime) (items : List SyncItem)
    → have_no_inode items ≡ true
    → root_ino < self.hydrations.repository.next_inode
    → (are_later (number_items self now items).1 ≡ true)
      × ((number_items self now items).0.inode_table ≡ self.inode_table)
unfolding number_items process_operation Repository.get_next_inode
numbered_later self now [] free up = (refl, refl)
numbered_later self now (item ∷ items) free up =
    let fresh : item.inode ≡ none = no_inode item.inode (ground arith) in
    let at : (inode_for self now item.inode) ≡ next_inode self now =
      ap (inode_for self now) fresh in
    let rest = numbered_later (next_inode self now).0 now items (ground arith) (omega arith) in
    let first : ltb root_ino self.hydrations.repository.next_inode ≡ true = ground arith in
    rw (at, first) rest

pub items_free : (rows : List Row) → have_no_inode (items_of rows) ≡ true
unfolding items_of sync_item_from_row
items_free [] = refl
items_free (row ∷ rows) = ground (arith, items_free rows)

both : {a b : Bool} → a ≡ true → b ≡ true → (a && b) ≡ true
both h k = ground arith

front : (o : Option ℕ) (b : Bool) → (not (is_some o) && b) ≡ true → not (is_some o) ≡ true
front none b h = refl
front (some n) b h = absurd (cc h)

pub recovered_free :
    (mount : Mount) (self : Hydrations) (items : List SyncItem)
    → have_no_inode items ≡ true
    → (have_no_inode (recover mount self items).1 ≡ true)
      × ((recover mount self items).0.repository.next_inode ≡ self.repository.next_inode)
unfolding recover reset_state_for_crash_recovery
recovered_free mount self [] free = (refl, refl)
recovered_free mount self (item ∷ items) free = elim (Bool-cases (is_stale item)) [
  | inr e ↦
      let rest = recovered_free mount self items (ground arith) in
      rw (recover, e) (both (front item.inode _ free) rest.0, rest.1)
  | inl e ↦
      let rest = recovered_free mount (reset_in mount self item) items (ground arith) in
      rw (recover, e)
        (
          both (front item.inode _ free) rest.0,
          rest.1 ∙ saves_count self.repository (reset_item item),
        )
]

rooted_has :
    (fresh : UniqueId) (now : DateTime) → HasRoot (insert InodeTable.new (root_entry fresh now))
unfolding get insert Maps.get Maps.insert InodeEntry.new
rooted_has fresh now = record {
  root = root_entry fresh now;
  here = refl;
  same_ino = refl;
  is_dir = refl;
  own_parent = refl;
}

-- Behind the mount of a new file system whose inodes to hand out are behind that of the root, the root is among its own
-- children, and neither `pin_recursive` nor `unpin_recursive` of it returns, with however much fuel.
pub mounted_endless :
    (mount : Mount) (hydrations : Hydrations) (fresh : UniqueId) (now : DateTime)
    → root_ino < hydrations.repository.next_inode
    → (others : ℕ → Hydrations → Hydrations × List ℕ) (state_text : ItemState → Text)
      (later : DateTime) (fuel : ℕ) (self : Hydrations)
    → let table = (init mount (new hydrations) fresh now).inode_table in
      (any_directory root_ino (children table root_ino) ≡ true)
      × ((pin_recursive others mount.hash_remote_id state_text table later fuel self root_ino).1
          ≡ none)
      × ((unpin_recursive table later fuel self root_ino).1 ≡ none)
unfolding init new
mounted_endless mount hydrations fresh now up others state_text later fuel self =
    let stored = items_of hydrations.repository.rows in
    let (free, same) =
      recovered_free mount hydrations stored (items_free hydrations.repository.rows) in
    let recovered = recover mount hydrations stored in
    let rooted : LnxDriveFs = record (new recovered.0) {
      inode_table = insert InodeTable.new (root_entry fresh now);
    } in
    let (later_all, kept) = numbered_later rooted now recovered.1 free (omega arith) in
    let numbered = number_items rooted now recovered.1 in
    let among = HasRoot-children (init mount (new hydrations) fresh now).inode_table (
      entered-HasRoot now numbered.1 numbered.1 numbered.0.inode_table later_all
        (rw kept (rooted_has fresh now))) in
    let (a, b) =
      recursion_endless others mount.hash_remote_id state_text
        (init mount (new hydrations) fresh now).inode_table later root_ino fuel self among in
    (among, a, b)
