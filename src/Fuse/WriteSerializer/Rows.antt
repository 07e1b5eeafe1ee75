-- ===== src/Fuse/WriteSerializer/Rows.antt =====
-- crates/lnxdrive-fuse/src/write_serializer.rs: the operations that save a whole row implement the contract.
use lnxdrive.Prelude.{
  ℕ, ◌≡◌, ◌==◌, ==_iff, true, false, not, Bool-cases, inl, inr, refl, Option, none, some,
  Option-cases, ◌∷◌, Text, ok, err, ap, sym, Result-cases, ◌∙◌,
}
use lnxdrive.Core.Ids.{UniqueId, AccountId}
use lnxdrive.Core.ItemState.{ItemState}
use lnxdrive.Core.SyncItem.{SyncItem}
use lnxdrive.Core.Time.{DateTime}
use lnxdrive.Core.Transition.{can_transition, transition_to, recorded, cleared, synced_at}
use lnxdrive.Core.Transition.Diagram.{can_transition_iff}
use lnxdrive.Cache.Repository.{
  Repository, Row, sync_item_from_row, find, select, has_id, get_item, account_for, new_row,
  get_default_account, clashes,
}
use lnxdrive.Cache.Repository.Columns.{find_holds}
use lnxdrive.Cache.Repository.Unique.{IsUnique}
use lnxdrive.Cache.Repository.Reads.{save_item-IsUnique, select_alike}
use lnxdrive.Cache.Repository.View.{find_saved, find_written}
use lnxdrive.Cache.Repository
use lnxdrive.Fuse.WriteSerializer.{
  WriteOp, update_state, save_item, Reply, process_operation, replied, save_moved,
}
use lnxdrive.Fuse.WriteSerializer.Contract.{
  Rows, Table, view, id_of, Becomes, put, put_clear, owner, Serves, moves, refuses, misses, saves,
  homeless,
}

pub put_lem :
    (id k : UniqueId) (row : Option Row) (v w : Rows)
    → w id ≡ row
    → ((id == k) ≡ false → w k ≡ v k)
    → w k ≡ put id row v k
put_lem id k row v w at others = elim (Bool-cases (id == k)) [
  | inl e ↦ let same : id ≡ k = (==_iff _ _).0 e in rw e (ap w (sym same) ∙ at)
  | inr e ↦ rw e (others e)
]

pub unchanged : (v : Table) → Becomes v v v.row_of
unchanged v = record { same_rows = λ k. refl; same_counter = refl; same_account = refl }

-- The operation leaves the unique columns unique, and does what it may.
abbrev pub Refined : Repository → DateTime → WriteOp → Repository × Reply → Type 0
Refined r now op (r', reply) = Serves now (view r) (view r') op reply × IsUnique r'.rows

save_item_as :
    (r : Repository) (item : SyncItem) {account_id : ℕ}
    → account_for r (find (has_id item.id) r.rows) ≡ ok account_id
    → Repository.save_item r item ≡ (
      record r {
        rows =
            new_row account_id item
            ∷ select (λ old. not (clashes (new_row account_id item) old)) r.rows;
      },
      ok tt,
    )
unfolding Repository.save_item
save_item_as r item h = rw h refl

save_item_refused :
    (r : Repository) (item : SyncItem) {message : Text}
    → account_for r (find (has_id item.id) r.rows) ≡ err message
    → Repository.save_item r item ≡ (r, err message)
unfolding Repository.save_item
save_item_refused r item h = rw h refl

-- What is found after a save.
saved_rows :
    (r : Repository) (item : SyncItem) (account_id : ℕ) (k : UniqueId)
    → IsUnique r.rows
    → find (has_id k) (
        new_row account_id item
        ∷ select (λ old. not (clashes (new_row account_id item) old)) r.rows)
      ≡ put_clear (new_row account_id item) (view r).row_of k
unfolding find
saved_rows r item account_id k u = elim (Bool-cases (item.id == k)) [
  | inl e ↦ rw (find, e) refl
  | inr e ↦ rw (find, e) (find_saved (new_row account_id item) k r.rows u)
]

-- The row of an item that is written back with the unique columns that it was read with displaces no other.
written_back :
    (r : Repository) (row : Row) (item : SyncItem) (k : UniqueId)
    → IsUnique r.rows
    → find (has_id row.item.id) r.rows ≡ some row
    → item.id ≡ row.item.id
    → item.local_path ≡ row.item.local_path
    → item.remote_id ≡ row.item.remote_id
    → find (has_id k) (
        new_row row.account_id item
        ∷ select (λ old. not (clashes (new_row row.account_id item) old)) r.rows)
      ≡ put row.item.id (some (new_row row.account_id item)) (view r).row_of k
unfolding find
written_back r row item k u found same_id same_path same_remote_id =
    elim (Bool-cases (row.item.id == k)) [
      | inl e ↦ let here : (item.id == k) ≡ true = rw same_id e in rw (find, here, e) refl
      | inr e ↦
          let other : (item.id == k) ≡ false = rw same_id e in
          rw (find, other, e, select_alike row item r.rows same_id same_path same_remote_id)
            (find_written row row.item.id k r.rows u found e)
    ]

abbrev settled : SyncItem → ItemState → DateTime → SyncItem
settled item target now = record item {
  error_info = recorded target now (cleared item.state item.error_info);
  last_sync = synced_at item.state target now item.last_sync;
  state = target;
}

transition_allowed :
    (item : SyncItem) (target : ItemState) (now : DateTime)
    → can_transition item.state target ≡ true
    → transition_to item target now ≡ (settled item target now, ok tt)
unfolding transition_to
transition_allowed item target now allowed = rw allowed refl

account_found :
    (r : Repository) (row : Row)
    → find (has_id row.item.id) r.rows ≡ some row
    → account_for r (find (has_id row.item.id) r.rows) ≡ ok row.account_id
account_found r row found = rw found refl

update_state_allowed :
    (r : Repository) (now : DateTime) (target : ItemState) (row : Row)
    → IsUnique r.rows
    → find (has_id row.item.id) r.rows ≡ some row
    → can_transition row.item.state target ≡ true
    → Refined r now
        (update_state row.item.id target)
        (replied (save_moved r (transition_to (sync_item_from_row row) target now)))
unfolding sync_item_from_row get_default_account
update_state_allowed r now target row u found allowed =
    let item = sync_item_from_row row in
    let after = settled item target now in
    let h = account_found r row found in
    let transited = transition_allowed item target now allowed in
    let saved = save_item_as r after h in
    let kept = save_item-IsUnique r after u h in
    rw (transited, saved)
      (
        moves found ((can_transition_iff row.item.state target).0 allowed) (
            rw transited (record {
              same_rows = λ k. written_back r row after k u found refl refl refl;
              same_counter = refl;
              same_account = refl;
            })),
        rw saved at kept,
      )

update_state_found :
    (r : Repository) (now : DateTime) (target : ItemState) (row : Row)
    → IsUnique r.rows
    → find (has_id row.item.id) r.rows ≡ some row
    → Refined r now
        (update_state row.item.id target)
        (process_operation r now (update_state row.item.id target))
unfolding process_operation get_item sync_item_from_row transition_to
update_state_found r now target row u found =
    elim (Bool-cases (can_transition row.item.state target)) [
      | inl e ↦ rw found (update_state_allowed r now target row u found e)
      | inr e ↦ rw (found, e) (refuses found e (unchanged (view r)), u)
    ]

pub update_state_refines :
    (r : Repository) (now : DateTime) (id : UniqueId) (target : ItemState)
    → IsUnique r.rows
    → Refined r now (update_state id target) (process_operation r now (update_state id target))
unfolding process_operation get_item
update_state_refines r now id target u = elim (Option-cases (find (has_id id) r.rows)) [
  | inl gone ↦ rw gone (misses gone (unchanged (view r)), u)
  | inr (row, found) ↦
      let at : row.item.id ≡ id = (==_iff _ _).0 (find_holds (has_id id) r.rows row found) in
      let there : find (has_id row.item.id) r.rows ≡ some row =
        ap (λ (x : UniqueId). find (has_id x) r.rows) at ∙ found in
      rw (sym at) (update_state_found r now target row u there)
]

-- The account of a row that is saved.
owner_for :
    (r : Repository) (o : Option Row) {account_id : AccountId}
    → account_for r o ≡ ok account_id
    → owner (id_of (get_default_account r)) o ≡ some account_id
owner_for r (some row) h = cc
owner_for r none h = elim (Option-cases (get_default_account r)) [
  | inl gone ↦ absurd (cc (rw (account_for, gone) at h))
  | inr (account, found) ↦ let same = rw (account_for, found) at h in rw found cc
]

no_owner :
    (r : Repository) (o : Option Row) {message : Text}
    → account_for r o ≡ err message
    → owner (id_of (get_default_account r)) o ≡ none
no_owner r (some row) h = absurd (cc h)
no_owner r none h = elim (Option-cases (get_default_account r)) [
  | inl gone ↦ rw gone refl
  | inr (account, found) ↦ absurd (cc (rw (account_for, found) at h))
]

pub save_item_refines :
    (r : Repository) (now : DateTime) (item : SyncItem)
    → IsUnique r.rows
    → Refined r now (save_item item) (process_operation r now (save_item item))
unfolding process_operation get_default_account
save_item_refines r now item u =
    elim (Result-cases (account_for r (find (has_id item.id) r.rows))) [
      | inl (account_id, h) ↦
          let saved = save_item_as r item h in
          let kept = save_item-IsUnique r item u h in
          rw saved (
            saves (owner_for r (find (has_id item.id) r.rows) h) (record {
              same_rows = λ k. saved_rows r item account_id k u;
              same_counter = refl;
              same_account = refl;
            }),
            rw saved at kept,
          )
      | inr (message, h) ↦
          rw (save_item_refused r item h)
            (homeless (no_owner r (find (has_id item.id) r.rows) h) (unchanged (view r)), u)
    ]
