-- ===== src/Fuse/InodeTable/Agreement.antt =====
-- The two maps of the `InodeTable` of crates/lnxdrive-fuse/src/inode.rs agree.
use lnxdrive.Prelude.{
  ℕ, ◌≡◌, ◌==◌, ==_iff, Bool-cases, none, some, Option-cases, inl, inr, refl, arith,
}
use lnxdrive.Core.Ids.{UniqueId}
use lnxdrive.Fuse.InodeEntry.{InodeEntry}
use lnxdrive.Fuse.InodeTable.{InodeTable, new, insert, get, get_by_item_id, remove}
use lnxdrive.Fuse.Maps
use lnxdrive.Fuse.Maps.{get-insert, get-remove}

-- Every inode is that of its entry and is found by the item, and an item's inode has its entry.
pub record IsAgreed (t : InodeTable) : Type 0 where
  pub numbered : (ino : ℕ) (e : InodeEntry) → get t ino ≡ some e → e.ino ≡ ino
  pub forth :
      (ino : ℕ) (e : InodeEntry) → get t ino ≡ some e → get_by_item_id t e.item_id ≡ some ino
  pub back :
      (id : UniqueId) (ino : ℕ)
      → get_by_item_id t id ≡ some ino
      → (e : InodeEntry) × ((get t ino ≡ some e) × (e.item_id ≡ id))

pub new-IsAgreed : IsAgreed new
unfolding new get get_by_item_id Maps.get
new-IsAgreed = record {
  numbered = λ ino e h. absurd (ground arith);
  forth = λ ino e h. absurd (ground arith);
  back = λ id ino h. absurd (ground arith);
}

-- The insertion of an entry whose inode and item are not in the table keeps the two maps in agreement.
pub insert-IsAgreed :
    (t : InodeTable) (entry : InodeEntry)
    → IsAgreed t
    → get t entry.ino ≡ none
    → get_by_item_id t entry.item_id ≡ none
    → IsAgreed (insert t entry)
unfolding insert get get_by_item_id
insert-IsAgreed t entry v free unknown = record {
  numbered = λ ino e h. ground (arith, get-insert t.by_inode entry.ino ino entry, v.numbered ino e);
  forth = λ ino e h. ground (
    arith,
    get-insert t.by_inode entry.ino ino entry,
    get-insert t.by_item_id entry.item_id e.item_id entry.ino,
    v.forth ino e,
  );
  back = λ id ino h. elim (Bool-cases (entry.item_id == id)) [
    | inl same ↦ (
      entry,
      (
        ground (
          arith,
          get-insert t.by_inode entry.ino ino entry,
          get-insert t.by_item_id entry.item_id id entry.ino,
        ),
        (==_iff entry.item_id id).0 same,
      ),
    )
    | inr other ↦
        let known : get_by_item_id t id ≡ some ino =
          ground (arith, get-insert t.by_item_id entry.item_id id entry.ino) in
        let found = v.back id ino known in
        (found.0, (ground (arith, get-insert t.by_inode entry.ino ino entry, found.1.0), found.1.1))
  ];
}

-- A removal keeps the two maps in agreement, and returns the entry that was there.
pub remove-IsAgreed :
    (t : InodeTable) (ino : ℕ)
    → IsAgreed t
    → IsAgreed (remove t ino).0 × ((remove t ino).1 ≡ get t ino)
unfolding remove get get_by_item_id
remove-IsAgreed t ino v = elim (Option-cases (get t ino)) [
  | inl missing ↦ rw missing (v, refl)
  | inr (entry, here) ↦ rw here (
    record {
      numbered = λ k e h. ground (arith, get-remove t.by_inode ino k, v.numbered k e);
      forth = λ k e h. ground (
        arith,
        get-remove t.by_inode ino k,
        get-remove t.by_item_id entry.item_id e.item_id,
        v.forth k e,
        v.forth ino entry here,
      );
      back = λ id k h.
          let known : get_by_item_id t id ≡ some k =
            ground (arith, get-remove t.by_item_id entry.item_id id) in
          let found = v.back id k known in
          (
            found.0,
            (
              ground (
                arith,
                get-remove t.by_inode ino k,
                get-remove t.by_item_id entry.item_id id,
                found.1.0,
                found.1.1,
              ),
              found.1.1,
            ),
          );
    },
    refl,
  )
]
