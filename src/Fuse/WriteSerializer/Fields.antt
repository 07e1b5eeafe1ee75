-- ===== src/Fuse/WriteSerializer/Fields.antt =====
-- crates/lnxdrive-fuse/src/write_serializer.rs: the operations that write one column implement the contract.
use lnxdrive.Prelude.{
  ℕ, ◌≡◌, ◌==◌, ==_iff, ==_refl, true, false, not, ◌&&◌, Bool, Bool-cases, inl, inr, refl, none,
  some, Option-cases, Text, err, ap, sym, ◌∙◌, arith,
}
use lnxdrive.Core.Ids.{UniqueId}
use lnxdrive.Core.SyncItem.{SyncItem}
use lnxdrive.Core.Time.{DateTime}
use lnxdrive.Cache.Repository.{
  Repository, Row, find, has_id, has_inode, updated, update, other_with_inode, get_default_account,
}
use lnxdrive.Fuse.Error.{database_error}
use lnxdrive.Cache.Repository.Columns.{without_columns, find_holds}
use lnxdrive.Cache.Repository.Unique.{IsUnique}
use lnxdrive.Cache.Repository.Reads.{update-IsUnique}
use lnxdrive.Cache.Repository.View.{changed, find_updated, find_unchanged, find_unique, find-none}
use lnxdrive.Cache.Repository
use lnxdrive.Fuse.WriteSerializer.{
  WriteOp, update_inode, done, process_operation, replied, in_database,
}
use lnxdrive.Fuse.WriteSerializer.Contract.{view, column, IsFree, Serves, touches, lacks, taken}
use lnxdrive.Fuse.WriteSerializer.Rows.{put_lem, unchanged, Refined}

-- A statement that writes one column, and finds a row or does not.
pub updated_refines :
    (r : Repository) (now : DateTime) (op : WriteOp) (id : UniqueId) (f : SyncItem → SyncItem)
    → column op ≡ some (id, f)
    → IsFree (view r) op
    → ((item : SyncItem) → without_columns (f item) ≡ without_columns item)
    → IsUnique r.rows
    → Refined r now op (replied (in_database (updated r f id (find (has_id id) r.rows))))
unfolding get_default_account
updated_refines r now op id f writes free hidden u =
    let same : (item : SyncItem) → (f item).id ≡ item.id =
      λ item. ap (λ (x : SyncItem). x.id) (hidden item) in
    elim (Option-cases (find (has_id id) r.rows)) [
      | inl gone ↦ rw gone (lacks writes gone (unchanged (view r)), u)
      | inr (row, found) ↦ rw found (
        touches writes found free (record {
          same_rows = λ k.
              put_lem id k (some (record row { item = f row.item })) (view r).row_of
                (λ j. find (has_id j) (update f id r.rows))
                (find_updated f id r.rows same ∙ ap (changed f) found)
                (find_unchanged f id k r.rows same);
          same_counter = refl;
          same_account = refl;
        }),
        update-IsUnique f id r.rows hidden u,
      )
    ]

-- Nobody else has the inode.
other_with_inode-IsFree :
    (r : Repository) (id : UniqueId) (n : ℕ)
    → other_with_inode r id n ≡ none
    → IsFree (view r) (update_inode id n)
unfolding other_with_inode
other_with_inode-IsFree r id n free k row found has = elim (Bool-cases (row.item.id == id)) [
  | inl e ↦
      let at : row.item.id ≡ k = (==_iff _ _).0 (find_holds (has_id k) r.rows row found) in
      sym at ∙ (==_iff _ _).0 e
  | inr e ↦
      let its : has_inode n row ≡ true = rw (has, ==_refl n) refl in
      let refuted =
        find-none (λ other. has_inode n other && not (has_id id other)) (has_id k) r.rows row free
          found in
      absurd (
        cc (
          let both : (has_inode n row && not (has_id id row)) ≡ true = rw (its, e) refl in
          sym both ∙ refuted))
]

inode_of : (n : ℕ) (row : Row) → has_inode n row ≡ true → row.item.inode ≡ some n
inode_of n row h = elim (Option-cases row.item.inode) [
  | inl free ↦ absurd (cc (rw free at h))
  | inr (m, has) ↦ let same : m ≡ n = (==_iff _ _).0 (rw has at h) in has ∙ ap some same
]

first_holds : {a : Bool} (b : Bool) → (a && b) ≡ true → a ≡ true
first_holds b h = ground arith

second_holds : (a : Bool) {b : Bool} → (a && not b) ≡ true → b ≡ false
second_holds a h = ground arith

-- Somebody else has the inode.
taken_inode :
    (r : Repository) (now : DateTime) (id : UniqueId) (n : ℕ) (other : Row) {message : Text}
    → IsUnique r.rows
    → other_with_inode r id n ≡ some other
    → Serves now (view r) (view r) (update_inode id n) (done (err (database_error message)))
unfolding other_with_inode
taken_inode r now id n other u found =
    let holds = find_holds (λ row. has_inode n row && not (has_id id row)) r.rows other found in
    taken (find_unique (λ row. has_inode n row && not (has_id id row)) r.rows other u found)
      (inode_of n other (first_holds _ holds)) (second_holds _ holds) (unchanged (view r))

pub update_inode_refines :
    (r : Repository) (now : DateTime) (id : UniqueId) (n : ℕ)
    → IsUnique r.rows
    → Refined r now (update_inode id n) (process_operation r now (update_inode id n))
unfolding process_operation Repository.update_inode
update_inode_refines r now id n u = elim (Option-cases (other_with_inode r id n)) [
  | inl free ↦
      rw free
        (updated_refines r now _ id _ refl (other_with_inode-IsFree r id n free) (λ item. refl) u)
  | inr (other, has) ↦ elim (Option-cases (find (has_id id) r.rows)) [
    | inl gone ↦ rw (has, gone) (taken_inode r now id n other u has, u)
    | inr (row, found) ↦ rw (has, found) (taken_inode r now id n other u has, u)
  ]
]
