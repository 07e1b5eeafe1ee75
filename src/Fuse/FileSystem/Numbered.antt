-- ===== src/Fuse/FileSystem/Numbered.antt =====
-- The invariant of the inode table under the handlers of crates/lnxdrive-fuse/src/filesystem.rs: its two maps
-- agree, and the queue of writes hands out no inode that is in it.
use lnxdrive.Prelude.{
  ℕ, ◌≤◌, ◌<◌, ◌≡◌, ◌==◌, ==_refl, refl, sym, ap, ◌∙◌, Bool-cases, inl, inr, Option, none, some,
  Option-cases, arith,
}
use lnxdrive.Fuse.InodeEntry.{InodeEntry}
use lnxdrive.Fuse.InodeTable.{InodeTable, get, get_by_item_id, insert, remove}
use lnxdrive.Fuse.InodeTable.Agreement.{IsAgreed, insert-IsAgreed, remove-IsAgreed}
use lnxdrive.Fuse.Maps
use lnxdrive.Fuse.Maps.{get-insert, get-remove, get-modify, map_option}

-- Every inode of the table is below the next one.
pub record IsNumbered (t : InodeTable) (next : ℕ) : Type 0 where
  pub agreed : IsAgreed t
  pub below : (ino : ℕ) (e : InodeEntry) → get t ino ≡ some e → ino < next

-- A change of counters only.
pub record IsCounting (f : InodeEntry → InodeEntry) : Type 0 where
  pub same_ino : (e : InodeEntry) → (f e).ino ≡ e.ino
  pub same_item_id : (e : InodeEntry) → (f e).item_id ≡ e.item_id

mapped :
    (f : InodeEntry → InodeEntry) (o : Option InodeEntry) (e : InodeEntry)
    → map_option f o ≡ some e
    → (e' : InodeEntry) × (o ≡ some e') × (f e' ≡ e)
mapped f none e h = absurd (cc h)
mapped f (some e') e h = (e', refl, cc h)

-- What the changed table has comes from an entry of the table.
unmodified :
    (t : InodeTable) (k : ℕ) (f : InodeEntry → InodeEntry) (ino : ℕ) (e : InodeEntry)
    → IsCounting f
    → Maps.get (Maps.modify t.by_inode k f) ino ≡ some e
    → (e' : InodeEntry) × (get t ino ≡ some e') × (e.ino ≡ e'.ino) × (e.item_id ≡ e'.item_id)
unfolding get
unmodified t k f ino e c h = elim (Bool-cases (k == ino)) [
  | inl same ↦
      let found =
        mapped f (Maps.get t.by_inode ino) e (rw (get-modify t.by_inode k ino f, same) at h) in
      (
        found.0,
        found.1,
        ap (λ (x : InodeEntry). x.ino) (sym found.2) ∙ c.same_ino found.0,
        ap (λ (x : InodeEntry). x.item_id) (sym found.2) ∙ c.same_item_id found.0,
      )
  | inr other ↦ (e, rw (get-modify t.by_inode k ino f, other) at h, refl, refl)
]

modified_there :
    (t : InodeTable) (k : ℕ) (f : InodeEntry → InodeEntry) (ino : ℕ) (e : InodeEntry)
    → IsCounting f
    → get t ino ≡ some e
    → (e' : InodeEntry) × (Maps.get (Maps.modify t.by_inode k f) ino ≡ some e')
      × (e'.item_id ≡ e.item_id)
unfolding get
modified_there t k f ino e c h = elim (Bool-cases (k == ino)) [
  | inl same ↦ (f e, rw (get-modify t.by_inode k ino f, same, h) refl, c.same_item_id e)
  | inr other ↦ (e, rw (get-modify t.by_inode k ino f, other) h, refl)
]

pub modify-IsNumbered :
    (t : InodeTable) (next k : ℕ) (f : InodeEntry → InodeEntry)
    → IsCounting f
    → IsNumbered t next
    → IsNumbered (record t { by_inode = Maps.modify t.by_inode k f }) next
unfolding get get_by_item_id
modify-IsNumbered t next k f c v = record {
  agreed = record {
    numbered = λ ino e h.
        let (e', here, same, _) = unmodified t k f ino e c h in
        same ∙ v.agreed.numbered ino e' here;
    forth = λ ino e h.
        let (e', here, _, same) = unmodified t k f ino e c h in
        ap (λ id. get_by_item_id t id) same ∙ v.agreed.forth ino e' here;
    back = λ id ino h.
        let found = v.agreed.back id ino h in
        let (e', here, same) = modified_there t k f ino found.0 c found.1.0 in
        (e', (here, same ∙ found.1.1));
  };
  below = λ ino e h. let (e', here, _, _) = unmodified t k f ino e c h in v.below ino e' here;
}

pub insert-IsNumbered :
    (t : InodeTable) (next : ℕ) (entry : InodeEntry)
    → IsNumbered t next
    → get t entry.ino ≡ none
    → get_by_item_id t entry.item_id ≡ none
    → entry.ino < next
    → IsNumbered (insert t entry) next
unfolding get insert
insert-IsNumbered t next entry v free unknown less = record {
  agreed = insert-IsAgreed t entry v.agreed free unknown;
  below = λ ino e h. ground (arith, get-insert t.by_inode entry.ino ino entry, v.below ino e);
}

removed_below :
    (t : InodeTable) (next ino : ℕ)
    → IsNumbered t next
    → (k : ℕ) (e : InodeEntry) → get (remove t ino).0 k ≡ some e
    → k < next
unfolding get remove
removed_below t next ino v k e h = elim (Option-cases (Maps.get t.by_inode ino)) [
  | inl missing ↦ v.below k e (rw missing at h)
  | inr (entry, here) ↦
      let there : Maps.get (Maps.remove t.by_inode ino) k ≡ some e = rw here at h in
      ground (arith, get-remove t.by_inode ino k, v.below k e)
]

pub remove-IsNumbered :
    (t : InodeTable) (next ino : ℕ)
    → IsNumbered t next
    → IsNumbered (remove t ino).0 next × ((remove t ino).1 ≡ get t ino)
unfolding get remove
remove-IsNumbered t next ino v =
    let (agreed, same) = remove-IsAgreed t ino v.agreed in
    (record { agreed = agreed; below = removed_below t next ino v }, same)

-- What a removed entry had is free.
pub removed_gone :
    (t : InodeTable) (ino : ℕ) (entry : InodeEntry)
    → get t ino ≡ some entry
    → (get (remove t ino).0 ino ≡ none) × (get_by_item_id (remove t ino).0 entry.item_id ≡ none)
unfolding get get_by_item_id remove
removed_gone t ino entry here = rw here (
  rw (get-remove t.by_inode ino ino, ==_refl ino) refl,
  rw (get-remove t.by_item_id entry.item_id entry.item_id, ==_refl entry.item_id) refl,
)

pub raised : {t : InodeTable} {n m : ℕ} → n ≤ m → IsNumbered t n → IsNumbered t m
raised up v = record { agreed = v.agreed; below = λ ino e h. omega (arith, v.below ino e h) }

-- No entry has the next inode.
pub next_free : (t : InodeTable) (next : ℕ) → IsNumbered t next → get t next ≡ none
next_free t next v = elim (Option-cases (get t next)) [
  | inl free ↦ free
  | inr (e, taken) ↦ absurd (omega (arith, v.below next e taken))
]
