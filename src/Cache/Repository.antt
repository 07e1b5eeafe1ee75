-- ===== src/Cache/Repository.antt =====
-- `SqliteStateRepository` of crates/lnxdrive-cache/src/repository.rs, as the tables that its statements
-- read and write: `INSERT OR REPLACE` removes the rows whose unique columns clash with the new row, and
-- where foreign keys are enforced (the default of sqlx, crates/lnxdrive-cache/src/pool.rs) the rows that
-- refer to a removed row with it. Columns hold the values that they are read back as; instants compare
-- as instants. Failures of the database itself, the tables of the audit trail and of conflicts, and what
-- only counts or selects for display are left out. An identifier renders as its number.
use lnxdrive.Prelude.{
  ℕ, zero, suc, ◌+◌, Bool, true, false, not, ◌&&◌, ◌||◌, if◌then◌else◌, ◌==◌, Option, none, some,
  List, [], ◌∷◌, ◌++◌, Text, codes, text_eq, decimal, Result, ok, err, ltb_ℤ, leb_ℤ,
}
use lnxdrive.Core.Account.{Account}
use lnxdrive.Core.Ids.{UniqueId, AccountId, RemoteId, SessionId}
use lnxdrive.Core.ItemState.{ItemState, is_hydrated}
use lnxdrive.Core.Session.{SyncSession}
use lnxdrive.Core.SyncItem.{SyncItem}
use lnxdrive.Core.SyncPath.{SyncPath, PathBuf, path_eq}
use lnxdrive.Core.Time.{DateTime}
pub mod Accounts
pub mod Columns
pub mod Unique
pub mod View
pub mod Reads
pub mod Candidates

-- A row of `sync_items`.
pub record Row : Type 0 where
  pub account_id : AccountId
  pub item : SyncItem

pub record Repository : Type 0 where
  pub accounts : List Account
  pub rows : List Row
  pub sessions : List SyncSession
  pub next_inode : ℕ
  pub foreign_keys : Bool

-- The selection of `sync_item_from_row` leaves out the columns of the file system.
unfoldable pub sync_item_from_row : Row → SyncItem
sync_item_from_row row = record row.item {
  inode = none;
  last_accessed = none;
  hydration_progress = none;
}

-- `WHERE` with one row or none as its answer.
unfoldable pub find : (Row → Bool) → List Row → Option Row
find p [] = none
find p (row ∷ rows) = let rest = find p rows in if p row then some row else rest

unfoldable pub select : (Row → Bool) → List Row → List Row
select p [] = []
select p (row ∷ rows) = let rest = select p rows in if p row then row ∷ rest else rest

abbrev pub has_id : UniqueId → Row → Bool
has_id id row = row.item.id == id

abbrev pub same_remote : Option RemoteId → Option RemoteId → Bool
same_remote (some a) (some b) = text_eq a.text b.text
same_remote _ _ = false

-- The primary key, and the two unique pairs of columns.
abbrev pub clashes : Row → Row → Bool
clashes new old =
    old.item.id == new.item.id
    || (old.account_id == new.account_id
        && (path_eq old.item.local_path.path new.item.local_path.path
            || same_remote old.item.remote_id new.item.remote_id))

-- `ORDER BY created_at ASC LIMIT 1`
abbrev older : Account → Option Account → Account
older a none = a
older a (some b) = if leb_ℤ a.created_at b.created_at then a else b

unfoldable pub first_account : List Account → Option Account
first_account [] = none
first_account (a ∷ accounts) = some (older a (first_account accounts))

unfoldable pub get_default_account : Repository → Option Account
get_default_account self = first_account self.accounts

abbrev pub account_for : Repository → Option Row → Result Text AccountId
account_for self (some row) = ok row.account_id
account_for self none = elim (get_default_account self) [
  | none ↦ err (codes "No account found to associate with sync item")
  | some account ↦ ok account.id
]

-- The statement does not name the columns of the file system, which are null in the new row.
abbrev pub new_row : AccountId → SyncItem → Row
new_row account_id item = record {
  account_id = account_id;
  item = record item { inode = none; last_accessed = none; hydration_progress = none };
}

abbrev pub replaced :
    Repository → SyncItem → Result Text AccountId → Repository × Result Text (Unit {0})
replaced self item (err e) = (self, err e)
replaced self item (ok account_id) =
    let row = new_row account_id item in
    (record self { rows = row ∷ select (λ old. not (clashes row old)) self.rows }, ok tt)

unfoldable pub save_item : Repository → SyncItem → Repository × Result Text (Unit {0})
save_item self item = replaced self item (account_for self (find (has_id item.id) self.rows))

abbrev pub item_of : Option Row → Option SyncItem
item_of none = none
item_of (some row) = some (sync_item_from_row row)

unfoldable pub get_item : Repository → UniqueId → Option SyncItem
get_item self id = item_of (find (has_id id) self.rows)

unfoldable pub get_item_by_path : Repository → SyncPath → Option SyncItem
get_item_by_path self path =
    item_of (find (λ row. path_eq row.item.local_path.path path.path) self.rows)

unfoldable pub get_item_by_remote_id : Repository → RemoteId → Option SyncItem
get_item_by_remote_id self remote_id =
    item_of (find (λ row. same_remote row.item.remote_id (some remote_id)) self.rows)

abbrev pub has_inode : ℕ → Row → Bool
has_inode inode row = elim row.item.inode [ none ↦ false | some n ↦ n == inode ]

unfoldable pub get_item_by_inode : Repository → ℕ → Option SyncItem
get_item_by_inode self inode = item_of (find (has_inode inode) self.rows)

unfoldable pub delete_item : Repository → UniqueId → Repository
delete_item self id = record self { rows = select (λ row. not (has_id id row)) self.rows }

-- `UPDATE sync_items SET .. WHERE id = ?`, and an error where no row has the identifier.
unfoldable pub update : (SyncItem → SyncItem) → UniqueId → List Row → List Row
update f id [] = []
update f id (row ∷ rows) =
    let rest = update f id rows in
    (if has_id id row then record row { item = f row.item } else row) ∷ rest

abbrev pub updated :
    Repository → (SyncItem → SyncItem) → UniqueId → Option Row → Repository × Result Text (Unit {0})
updated self f id none = (self, err (codes "Item not found: " ++ decimal id))
updated self f id (some row) = (record self { rows = update f id self.rows }, ok tt)

unfoldable pub other_with_inode : Repository → UniqueId → ℕ → Option Row
unfolding find
other_with_inode self item_id inode =
    find (λ row. has_inode inode row && not (has_id item_id row)) self.rows

-- The index on inodes is unique.
abbrev pub inode_written :
    Repository → UniqueId → ℕ → Option Row → Option Row → Repository × Result Text (Unit {0})
inode_written self item_id inode none row =
    updated self (λ item. record item { inode = some inode }) item_id row
inode_written self item_id inode (some other) none =
    (self, err (codes "Item not found: " ++ decimal item_id))
inode_written self item_id inode (some other) (some row) =
    (self, err (codes "UNIQUE constraint failed: sync_items.inode"))

unfoldable pub update_inode : Repository → UniqueId → ℕ → Repository × Result Text (Unit {0})
update_inode self item_id inode =
    inode_written self item_id inode (other_with_inode self item_id inode)
      (find (has_id item_id) self.rows)

unfoldable pub update_last_accessed :
    Repository → UniqueId → DateTime → Repository × Result Text (Unit {0})
update_last_accessed self item_id accessed =
    updated self (λ item. record item { last_accessed = some accessed }) item_id
      (find (has_id item_id) self.rows)

unfoldable pub update_hydration_progress :
    Repository → UniqueId → Option ℕ → Repository × Result Text (Unit {0})
update_hydration_progress self item_id progress =
    updated self (λ item. record item { hydration_progress = progress }) item_id
      (find (has_id item_id) self.rows)

unfoldable pub get_next_inode : Repository → Repository × ℕ
get_next_inode self = (record self { next_inode = self.next_inode + 1 }, self.next_inode)

abbrev accessed_before : DateTime → Row → Bool
accessed_before cutoff row = elim row.item.last_accessed [ none ↦ false | some t ↦ ltb_ℤ t cutoff ]

abbrev pub is_candidate : DateTime → Row → Bool
is_candidate cutoff row = is_hydrated row.item.state && accessed_before cutoff row

-- `ORDER BY last_accessed ASC`, of rows that have been accessed.
abbrev not_later : Row → Row → Bool
not_later a b = elim a.item.last_accessed [
  | none ↦ true
  | some t ↦ elim b.item.last_accessed [ none ↦ false | some u ↦ leb_ℤ t u ]
]

unfoldable pub insert_row : Row → List Row → List Row
insert_row row [] = row ∷ []
insert_row row (other ∷ rows) =
    let rest = insert_row row rows in
    if not_later row other then row ∷ other ∷ rows else other ∷ rest

unfoldable pub sort_rows : List Row → List Row
unfolding insert_row
sort_rows [] = []
sort_rows (row ∷ rows) = insert_row row (sort_rows rows)

unfoldable pub limit : ℕ → List Row → List Row
limit zero rows = []
limit (suc n) [] = []
limit (suc n) (row ∷ rows) = row ∷ limit n rows

unfoldable pub items_of : List Row → List SyncItem
items_of [] = []
items_of (row ∷ rows) = sync_item_from_row row ∷ items_of rows

-- `cutoff` is the time that lies `max_age_days` before now.
unfoldable pub get_items_for_dehydration : Repository → DateTime → ℕ → List SyncItem
unfolding select sort_rows limit items_of
get_items_for_dehydration self cutoff n =
    items_of (limit n (sort_rows (select (is_candidate cutoff) self.rows)))
