-- ===== src/Cache/Repository/Reads.antt =====
-- What `get_item` returns under each identifier after the statements of
-- crates/lnxdrive-cache/src/repository.rs.
use lnxdrive.Prelude.{
  ℕ, ◌≡◌, ◌==◌, ==_refl, Bool, true, false, Bool-cases, inl, inr, refl, some, List, [], ◌∷◌, ok,
  every, ap, ◌∙◌, not,
}
use lnxdrive.Core.Ids.{UniqueId}
use lnxdrive.Core.SyncItem.{SyncItem}
use lnxdrive.Cache.Repository.{
  Repository, Row, sync_item_from_row, find, select, update, has_id, clashes, new_row, save_item,
  get_item, item_of, account_for,
}
use lnxdrive.Cache.Repository.Columns.{without_columns}
use lnxdrive.Cache.Repository.Unique.{IsUnique}
use lnxdrive.Cache.Repository.View.{saved-IsUnique}

pub get_item-save_item_self :
    (r : Repository) (item : SyncItem) {account_id : ℕ}
    → account_for r (find (has_id item.id) r.rows) ≡ ok account_id
    → get_item (save_item r item).0 item.id ≡ some (without_columns item)
unfolding save_item get_item find sync_item_from_row
get_item-save_item_self r item h = rw (h, find, ==_refl item.id) refl

pub save_item-IsUnique :
    (r : Repository) (item : SyncItem) {account_id : ℕ}
    → IsUnique r.rows
    → account_for r (find (has_id item.id) r.rows) ≡ ok account_id
    → IsUnique (save_item r item).0.rows
unfolding save_item
save_item-IsUnique r item {account_id} u h =
    rw h (saved-IsUnique (new_row account_id item) r.rows u)

clashes_alike :
    (row : Row) (item : SyncItem) (old : Row)
    → item.id ≡ row.item.id
    → item.local_path ≡ row.item.local_path
    → item.remote_id ≡ row.item.remote_id
    → clashes (new_row row.account_id item) old ≡ clashes row old
clashes_alike row item old same_id same_path same_remote_id =
    rw (same_id, same_path, same_remote_id) refl

pub select_alike :
    (row : Row) (item : SyncItem) (rows : List Row)
    → item.id ≡ row.item.id
    → item.local_path ≡ row.item.local_path
    → item.remote_id ≡ row.item.remote_id
    → select (λ old. not (clashes (new_row row.account_id item) old)) rows
      ≡ select (λ old. not (clashes row old)) rows
unfolding select
select_alike row item [] a b c = refl
select_alike row item (old ∷ rows) a b c =
    rw (clashes_alike row item old a b c, select_alike row item rows a b c) refl

-- A change of the columns that are not read back.
pub update_unread :
    (f : SyncItem → SyncItem) (id k : UniqueId) (rows : List Row)
    → ((item : SyncItem) → without_columns (f item) ≡ without_columns item)
    → item_of (find (has_id k) (update f id rows)) ≡ item_of (find (has_id k) rows)
unfolding find update sync_item_from_row
update_unread f id k [] hidden = refl
update_unread f id k (r ∷ rows) hidden = elim (Bool-cases (has_id id r)) [
  | inl e ↦
      let same : (f r.item).id ≡ r.item.id = ap (λ (x : SyncItem). x.id) (hidden r.item) in
      elim (Bool-cases (has_id k r)) [
        | inl d ↦
            let kept : ((f r.item).id == k) ≡ true = rw same d in
            rw (e, find, kept, d) (ap some (hidden r.item))
        | inr d ↦
            let kept : ((f r.item).id == k) ≡ false = rw same d in
            rw (e, find, kept, d) (update_unread f id k rows hidden)
      ]
  | inr e ↦ elim (Bool-cases (has_id k r)) [
    | inl d ↦ rw (e, find, d) refl
    | inr d ↦ rw (e, find, d) (update_unread f id k rows hidden)
  ]
]

every-update :
    (f : SyncItem → SyncItem) (id : UniqueId) (p : Row → Bool) (rows : List Row)
    → ((row : Row) → p (record row { item = f row.item }) ≡ p row)
    → every p (update f id rows) ≡ every p rows
unfolding update
every-update f id p [] alike = refl
every-update f id p (r ∷ rows) alike = elim (Bool-cases (has_id id r)) [
  | inl e ↦ rw (e, alike r, every-update f id p rows alike) refl
  | inr e ↦ rw (e, every-update f id p rows alike) refl
]

free_of_update :
    (f : SyncItem → SyncItem) (id : UniqueId) (new : Row) (rows : List Row)
    → ((item : SyncItem) → without_columns (f item) ≡ without_columns item)
    → every (λ old. not (clashes new old)) (update f id rows)
      ≡ every (λ old. not (clashes new old)) rows
free_of_update f id new rows hidden =
    every-update f id (λ old. not (clashes new old)) rows
      (λ row. ap (λ (x : SyncItem). not (clashes new (record row { item = x }))) (hidden row.item))

pub update-IsUnique :
    (f : SyncItem → SyncItem) (id : UniqueId) (rows : List Row)
    → ((item : SyncItem) → without_columns (f item) ≡ without_columns item)
    → IsUnique rows
    → IsUnique (update f id rows)
unfolding update
update-IsUnique f id [] hidden u = tt
update-IsUnique f id (r ∷ rows) hidden u = elim (Bool-cases (has_id id r)) [
  | inl e ↦ rw e (
    ap
          (λ (x : SyncItem).
            every (λ old. not (clashes (record r { item = x }) old)) (update f id rows))
          (hidden r.item)
        ∙ free_of_update f id r rows hidden
        ∙ u.0,
    update-IsUnique f id rows hidden u.1,
  )
  | inr e ↦ rw e (free_of_update f id r rows hidden ∙ u.0, update-IsUnique f id rows hidden u.1)
]
