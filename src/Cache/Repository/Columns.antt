-- ===== src/Cache/Repository/Columns.antt =====
-- What the statements of crates/lnxdrive-cache/src/repository.rs keep and lose.
use lnxdrive.Prelude.{
  ℕ, ◌≡◌, ◌==◌, ==_refl, ==_iff, Bool, true, false, not, Bool-cases, inl, inr, refl, none, some,
  List, [], ◌∷◌, ok, every, is_some, arith,
}
use lnxdrive.Core.Account.{Account}
use lnxdrive.Core.Ids.{UniqueId}
use lnxdrive.Core.SyncItem.{SyncItem}
use lnxdrive.Core.Time.{DateTime}
use lnxdrive.Cache.Repository.Accounts.{save_account, is_replaced}
use lnxdrive.Cache.Repository.{
  Repository, Row, sync_item_from_row, find, select, has_id, clashes, new_row, save_item, get_item,
  get_items_for_dehydration, items_of, account_for,
}

pub some_injective : {a b : Row} → some a ≡ some b → a ≡ b
some_injective h = cc

pub find_kept :
    (p q : Row → Bool) (rows : List Row) (row : Row)
    → find p rows ≡ some row
    → q row ≡ true
    → find p (select q rows) ≡ some row
unfolding find select
find_kept p q [] row h k = ground arith
find_kept p q (r ∷ rows) row h k = elim (Bool-cases (p r)) [
  | inl e ↦ ground (arith, find_kept p q rows row)
  | inr e ↦ elim (Bool-cases (q r)) [
    | inl d ↦ rw (d, find, e) (find_kept p q rows row (ground arith) k)
    | inr d ↦ rw d (find_kept p q rows row (ground arith) k)
  ]
]

pub find_holds :
    (p : Row → Bool) (rows : List Row) (row : Row) → find p rows ≡ some row → p row ≡ true
unfolding find
find_holds p [] row h = ground arith
find_holds p (r ∷ rows) row h = elim (Bool-cases (p r)) [
  | inl e ↦ let same : some r ≡ some row = ground arith in rw (← some_injective same) e
  | inr e ↦ find_holds p rows row (ground arith)
]

different_id :
    (rows : List Row) (new : Row) (id : UniqueId) (row : Row)
    → find (has_id id) rows ≡ some row
    → clashes new row ≡ false
    → (new.item.id == id) ≡ false
different_id rows new id row found apart = ground (arith, find_holds (has_id id) rows row found)

-- What reading back a saved item loses.
abbrev pub without_columns : SyncItem → SyncItem
without_columns item = record item { inode = none; last_accessed = none; hydration_progress = none }

-- A save that succeeds makes the item what is read under its identifier, but for its inode, last access
-- and progress, which are lost; and an item whose row does not clash with the new one is read as
-- before.
pub save_item_lem :
    (r : Repository) (item : SyncItem) (id : UniqueId) (row : Row) {account_id : ℕ}
    → account_for r (find (has_id item.id) r.rows) ≡ ok account_id
    → find (has_id id) r.rows ≡ some row
    → clashes (new_row account_id item) row ≡ false
    → (get_item (save_item r item).0 item.id ≡ some (without_columns item))
      × (get_item (save_item r item).0 id ≡ get_item r id)
unfolding save_item get_item sync_item_from_row find
save_item_lem r item id row {account_id} h found apart = (
  rw (h, find, ==_refl item.id) refl,
  rw
      (
        h,
        find,
        different_id r.rows (new_row account_id item) id row found apart,
        find_kept (has_id id) (λ old. not (clashes (new_row account_id item) old)) r.rows row found
            (rw apart refl),
        found,
      )
      refl,
)

items_without_inode :
    (rows : List Row) → every (λ item. not (is_some item.inode)) (items_of rows) ≡ true
unfolding items_of sync_item_from_row
items_without_inode [] = refl
items_without_inode (row ∷ rows) = ground (arith, items_without_inode rows)

-- No item that get_items_for_dehydration returns has an inode.
pub candidates_without_inode :
    (r : Repository) (cutoff : DateTime) (n : ℕ)
    → every (λ item. not (is_some item.inode)) (get_items_for_dehydration r cutoff n) ≡ true
unfolding get_items_for_dehydration
candidates_without_inode r cutoff n = items_without_inode _

cascade_rows :
    (account : Account) (accounts : List Account) (rows : List Row)
    → is_replaced account accounts account.id ≡ true
    → every
        (λ row. not (row.account_id == account.id))
        (select (λ row. not (is_replaced account accounts row.account_id)) rows)
      ≡ true
unfolding select
cascade_rows account accounts [] stored = refl
cascade_rows account accounts (row ∷ rows) stored =
    elim (Bool-cases (row.account_id == account.id)) [
      | inl e ↦
          let same : row.account_id ≡ account.id = (==_iff _ _).0 e in
          rw (same, stored) (cascade_rows account accounts rows stored)
      | inr e ↦ elim (Bool-cases (is_replaced account accounts row.account_id)) [
        | inl gone ↦ rw gone (cascade_rows account accounts rows stored)
        | inr kept ↦ rw (kept, e) (cascade_rows account accounts rows stored)
      ]
    ]

-- Where foreign keys are enforced, saving an account that is stored already removes every item of it.
pub save_account_cascades :
    (r : Repository) (account : Account)
    → r.foreign_keys ≡ true
    → is_replaced account r.accounts account.id ≡ true
    → every (λ row. not (row.account_id == account.id)) (save_account r account).rows ≡ true
unfolding save_account
save_account_cascades r account fk stored = rw fk (cascade_rows account r.accounts r.rows stored)
