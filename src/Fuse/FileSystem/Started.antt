-- ===== src/Fuse/FileSystem/Started.antt =====
-- The inode table behind `init` of crates/lnxdrive-fuse/src/filesystem.rs, as the runs of the file system find it.
use lnxdrive.Prelude.{
  ℕ, ◌<◌, ◌+◌, ◌≡◌, ◌==◌, refl, ap, ◌∙◌, Bool, true, false, not, ◌&&◌, Bool-cases, inl, inr, List,
  [], ◌∷◌, is_some, every, arith,
}
use lnxdrive.Core.Ids.{UniqueId}
use lnxdrive.Core.SyncItem.{SyncItem}
use lnxdrive.Core.Time.{DateTime}
use lnxdrive.Core.Transition.{reset_state_for_crash_recovery}
use lnxdrive.Cache.Repository
use lnxdrive.Cache.Repository.{items_of}
use lnxdrive.Fuse.Dehydration.{DehydrationPolicy}
use lnxdrive.Fuse.Dehydration.Cached.{Surroundings}
use lnxdrive.Fuse.Hydration.{Hydrations}
use lnxdrive.Fuse.InodeEntry
use lnxdrive.Fuse.InodeEntry.{InodeEntry}
use lnxdrive.Fuse.InodeTable
use lnxdrive.Fuse.InodeTable.Agreement.{new-IsAgreed}
use lnxdrive.Fuse.InodeTable.{InodeTable, get, get_by_item_id, insert}
use lnxdrive.Fuse.Maps
use lnxdrive.Fuse.Maps.{get-insert}
use lnxdrive.Fuse.FileSystem.{LnxDriveFs, Mount, root_ino}
use lnxdrive.Fuse.FileSystem.Handles.{State}
use lnxdrive.Fuse.FileSystem.Init.{
  new, init, recover, is_stale, reset_in, root_entry, number_items, inode_for, enter_items,
  sync_item_to_inode_entry, parent_of,
}
use lnxdrive.Fuse.FileSystem.Mounted.{IsMounted}
use lnxdrive.Fuse.FileSystem.Mounting.{
  have_no_inode, recovered_free, no_inode, numbered_later, items_free,
}
use lnxdrive.Fuse.FileSystem.Names.{next_inode}
use lnxdrive.Fuse.FileSystem.Numbered.{IsNumbered, insert-IsNumbered, next_free, raised}
use lnxdrive.Fuse.FileSystem.Steps.{Steps, steps-IsMounted}
use lnxdrive.Fuse.WriteSerializer.{process_operation}

-- The identifiers of a list of items.
abbrev pub has_none : UniqueId → List SyncItem → Bool
has_none id items = every (λ (item : SyncItem). not (item.id == id)) items

abbrev pub are_distinct : List SyncItem → Bool
are_distinct [] = true
are_distinct (item ∷ items) = has_none item.id items && are_distinct items

-- No item is in the table.
abbrev are_new : InodeTable → List SyncItem → Bool
are_new table items =
    every (λ (item : SyncItem). not (is_some (get_by_item_id table item.id))) items

recovered_none :
    (mount : Mount) (self : Hydrations) (id : UniqueId) (items : List SyncItem)
    → has_none id (recover mount self items).1 ≡ has_none id items
unfolding recover reset_state_for_crash_recovery
recovered_none mount self id [] = refl
recovered_none mount self id (item ∷ items) = elim (Bool-cases (is_stale item)) [
  | inr e ↦
      rw (recover, e) (ap (λ b. not (item.id == id) && b) (recovered_none mount self id items))
  | inl e ↦
      rw (recover, e)
        (ap (λ b. not (item.id == id) && b)
          (recovered_none mount (reset_in mount self item) id items))
]

recovered_distinct :
    (mount : Mount) (self : Hydrations) (items : List SyncItem)
    → are_distinct (recover mount self items).1 ≡ are_distinct items
unfolding recover reset_state_for_crash_recovery
recovered_distinct mount self [] = refl
recovered_distinct mount self (item ∷ items) = elim (Bool-cases (is_stale item)) [
  | inr e ↦
      rw (recover, e, recovered_none mount self item.id items, recovered_distinct mount self items)
        refl
  | inl e ↦
      rw
        (
          recover,
          e,
          recovered_none mount (reset_in mount self item) item.id items,
          recovered_distinct mount (reset_in mount self item) items,
        )
        refl
]

left_true : {a : Bool} (b : Bool) → (a && b) ≡ true → a ≡ true
left_true b h = ground arith

both_true : {a b : Bool} → a ≡ true → b ≡ true → (a && b) ≡ true
both_true h k = ground arith

insert_new :
    (table : InodeTable) (entry : InodeEntry) (items : List SyncItem)
    → has_none entry.item_id items ≡ true
    → are_new table items ≡ true
    → are_new (insert table entry) items ≡ true
unfolding insert get_by_item_id
insert_new table entry [] apart fresh = refl
insert_new table entry (item ∷ items) apart fresh =
    let rest = insert_new table entry items (ground arith) (ground arith) in
    let other : (entry.item_id == item.id) ≡ false = ground arith in
    let same = get-insert table.by_item_id entry.item_id item.id entry.ino in
    rw (same, other) (both_true (left_true _ fresh) rest)

entered_IsNumbered :
    (self : LnxDriveFs) (now : DateTime) (numbered : List (SyncItem × ℕ)) (items : List SyncItem)
    (table : InodeTable)
    → have_no_inode items ≡ true
    → are_distinct items ≡ true
    → are_new table items ≡ true
    → IsNumbered table self.hydrations.repository.next_inode
    → IsNumbered
        (enter_items now numbered table (number_items self now items).1)
        (number_items self now items).0.hydrations.repository.next_inode
unfolding enter_items sync_item_to_inode_entry InodeEntry.new number_items process_operation
    Repository.get_next_inode
entered_IsNumbered self now numbered [] table free distinct fresh v = v
entered_IsNumbered self now numbered (item ∷ items) table free distinct fresh v =
    let at : inode_for self now item.inode ≡ next_inode self now =
      ap (inode_for self now) (no_inode item.inode (ground arith)) in
    let n = self.hydrations.repository.next_inode in
    let entry = sync_item_to_inode_entry now item n (parent_of numbered item.local_path.path) in
    rw at (
      entered_IsNumbered (next_inode self now).0 now numbered items (insert table entry)
        (ground arith) (ground arith) (insert_new table entry items (ground arith) (ground arith))
        (insert-IsNumbered table (n + 1) entry (raised (omega arith) v) (next_free table n v)
          (no_inode (get_by_item_id table item.id) (left_true _ fresh)) (omega arith)))

empty_IsNumbered : (next : ℕ) → IsNumbered InodeTable.new next
unfolding get get_by_item_id Maps.get InodeTable.new
empty_IsNumbered next = record { agreed = new-IsAgreed; below = λ ino e h. absurd (cc h) }

none_in_new : (items : List SyncItem) → are_new InodeTable.new items ≡ true
unfolding get_by_item_id Maps.get InodeTable.new
none_in_new [] = refl
none_in_new (item ∷ items) = none_in_new items

rooted_new :
    (fresh : UniqueId) (now : DateTime) (items : List SyncItem)
    → has_none fresh items ≡ true
    → are_new (insert InodeTable.new (root_entry fresh now)) items ≡ true
unfolding InodeEntry.new
rooted_new fresh now items apart =
    insert_new InodeTable.new (root_entry fresh now) items apart (none_in_new items)

rooted_IsNumbered :
    (next : ℕ) (fresh : UniqueId) (now : DateTime)
    → root_ino < next
    → IsNumbered (insert InodeTable.new (root_entry fresh now)) next
unfolding get get_by_item_id Maps.get InodeTable.new InodeEntry.new
rooted_IsNumbered next fresh now up =
    insert-IsNumbered InodeTable.new next (root_entry fresh now) (empty_IsNumbered next) refl refl
      up

-- Where the items of the repository and the root have different identifiers, and the inodes to hand out are behind that
-- of the root, the two maps of the inode table agree behind the mount of a new file system and behind
-- any calls of the kernel and tasks that follow, and no inode of it is one that is still to be handed out.
pub run_from_mount :
    (around : Surroundings) (mount : Mount) (policy : DehydrationPolicy) (w : around.World)
    (hydrations : Hydrations) (fresh : UniqueId) (now : DateTime) (last : State around mount policy)
    → are_distinct (items_of hydrations.repository.rows) ≡ true
    → has_none fresh (items_of hydrations.repository.rows) ≡ true
    → root_ino < hydrations.repository.next_inode
    → Steps around mount policy (w, init mount (new hydrations) fresh now) last
    → IsMounted last.1
unfolding init new
run_from_mount around mount policy w hydrations fresh now last distinct apart up steps =
    let stored = items_of hydrations.repository.rows in
    let (free, same) =
      recovered_free mount hydrations stored (items_free hydrations.repository.rows) in
    let recovered = recover mount hydrations stored in
    let rooted : LnxDriveFs = record (new recovered.0) {
      inode_table = insert InodeTable.new (root_entry fresh now);
    } in
    let numbered = number_items rooted now recovered.1 in
    let (later, kept) = numbered_later rooted now recovered.1 free (omega arith) in
    let entered =
      entered_IsNumbered rooted now numbered.1 recovered.1
        (insert InodeTable.new (root_entry fresh now)) free
        (recovered_distinct mount hydrations stored ∙ distinct)
        (rooted_new fresh now recovered.1 (recovered_none mount hydrations fresh stored ∙ apart))
        (rooted_IsNumbered recovered.0.repository.next_inode fresh now (omega arith)) in
    steps-IsMounted around mount policy steps (rw kept entered)
