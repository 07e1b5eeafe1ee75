-- ===== src/Fuse/WriteSerializer/Contract.antt =====
-- crates/lnxdrive-fuse/src/write_serializer.rs, its contract: which answers an operation may give, and
-- which row is then stored under each identifier. The table of items is a map from identifiers to rows.
use lnxdrive.Prelude.{
  ℕ, ◌+◌, ◌≡◌, ◌==◌, false, if◌then◌else◌, Option, none, some, List, [], ◌∷◌, Text, ok, err,
}
use lnxdrive.Core.Account.{Account}
use lnxdrive.Core.Ids.{UniqueId, AccountId}
use lnxdrive.Core.ItemState.{ItemState}
use lnxdrive.Core.SyncItem.{SyncItem}
use lnxdrive.Core.Time.{DateTime}
use lnxdrive.Core.Transition.{can_transition, transition_to}
use lnxdrive.Core.Transition.Diagram.{◌⟶◌}
use lnxdrive.Cache.Repository.{
  Repository, Row, find, has_id, new_row, sync_item_from_row, get_default_account,
}
use lnxdrive.Cache.Repository.View.{unless_clashing}
use lnxdrive.Fuse.Error.{not_found, invalid_argument, database_error}
use lnxdrive.Fuse.WriteSerializer.{
  WriteOp, update_state, update_inode, update_last_accessed, update_hydration_progress,
  increment_inode_counter, save_item, delete_item, Reply, done, inode,
}

abbrev pub Rows : Type 0
Rows = UniqueId → Option Row

-- The row under each identifier, the next inode, and the account that items get that have none yet.
pub record Table : Type 0 where
  pub row_of : Rows
  pub next_inode : ℕ
  pub default_account : Option AccountId

abbrev pub id_of : Option Account → Option AccountId
id_of none = none
id_of (some account) = some account.id

abbrev pub view : Repository → Table
view r = record {
  row_of = λ id. find (has_id id) r.rows;
  next_inode = r.next_inode;
  default_account = id_of (get_default_account r);
}

-- The other table has these rows, and all else as it was.
pub record Becomes (v w : Table) (rows : Rows) : Type 0 where
  pub same_rows : (k : UniqueId) → w.row_of k ≡ rows k
  pub same_counter : w.next_inode ≡ v.next_inode
  pub same_account : w.default_account ≡ v.default_account

abbrev pub put : UniqueId → Option Row → Rows → Rows
put id row rows k = if id == k then row else rows k

-- The new row, and of the others those that share no unique column with it.
abbrev pub put_clear : Row → Rows → Rows
put_clear new rows k = if new.item.id == k then some new else unless_clashing new (rows k)

-- The account of an item that is stored, or the default one.
abbrev pub owner : Option AccountId → Option Row → Option AccountId
owner default none = default
owner default (some row) = some row.account_id

-- The operations that write one column, with the identifier.
abbrev pub column : WriteOp → Option (UniqueId × (SyncItem → SyncItem))
column (update_inode id n) = some (id, λ item. record item { inode = some n })
column (update_last_accessed id accessed) =
    some (id, λ item. record item { last_accessed = some accessed })
column (update_hydration_progress id progress) =
    some (id, λ item. record item { hydration_progress = progress })
column _ = none

-- No other item has the inode that an operation writes.
abbrev pub IsFree : Table → WriteOp → Type 0
IsFree v (update_inode id n) =
    (k : UniqueId) (row : Row) → v.row_of k ≡ some row → row.item.inode ≡ some n → k ≡ id
IsFree v _ = Unit

abbrev pub refused : Text → Reply
refused message = done (err (database_error message))

-- What each operation may answer, and what the table is then.
pub data Serves (now : DateTime) (v w : Table) : WriteOp → Reply → Type 0 where
  moves :
      {id : UniqueId} {row : Row} {target : ItemState}
      → v.row_of id ≡ some row
      → row.item.state ⟶ target
      → Becomes v w (
          put id
            (some (new_row row.account_id (transition_to (sync_item_from_row row) target now).0))
            v.row_of)
      → Serves now v w (update_state id target) (done (ok tt))
  refuses :
      {id : UniqueId} {row : Row} {target : ItemState} {message : Text}
      → v.row_of id ≡ some row
      → can_transition row.item.state target ≡ false
      → Becomes v w v.row_of
      → Serves now v w (update_state id target) (done (err (invalid_argument message)))
  misses :
      {id : UniqueId} {target : ItemState} {message : Text}
      → v.row_of id ≡ none
      → Becomes v w v.row_of
      → Serves now v w (update_state id target) (done (err (not_found message)))
  touches :
      {id : UniqueId} {op : WriteOp} {f : SyncItem → SyncItem} {row : Row}
      → column op ≡ some (id, f)
      → v.row_of id ≡ some row
      → IsFree v op
      → Becomes v w (put id (some (record row { item = f row.item })) v.row_of)
      → Serves now v w op (done (ok tt))
  lacks :
      {id : UniqueId} {op : WriteOp} {f : SyncItem → SyncItem} {message : Text}
      → column op ≡ some (id, f)
      → v.row_of id ≡ none
      → Becomes v w v.row_of
      → Serves now v w op (refused message)
  taken :
      {id k : UniqueId} {n : ℕ} {row : Row} {message : Text}
      → v.row_of k ≡ some row
      → row.item.inode ≡ some n
      → (k == id) ≡ false
      → Becomes v w v.row_of
      → Serves now v w (update_inode id n) (refused message)
  counts :
      ((k : UniqueId) → w.row_of k ≡ v.row_of k)
      → w.next_inode ≡ v.next_inode + 1
      → w.default_account ≡ v.default_account
      → Serves now v w increment_inode_counter (inode v.next_inode)
  saves :
      {item : SyncItem} {account : AccountId}
      → owner v.default_account (v.row_of item.id) ≡ some account
      → Becomes v w (put_clear (new_row account item) v.row_of)
      → Serves now v w (save_item item) (done (ok tt))
  homeless :
      {item : SyncItem} {message : Text}
      → owner v.default_account (v.row_of item.id) ≡ none
      → Becomes v w v.row_of
      → Serves now v w (save_item item) (refused message)
  drops :
      {id : UniqueId}
      → Becomes v w (put id none v.row_of)
      → Serves now v w (delete_item id) (done (ok tt))

-- One operation after the other, each with the time at which it is taken.
pub data Runs : Table → List (DateTime × WriteOp) → List Reply → Table → Type 0 where
  stop : {v : Table} → Runs v [] [] v
  next :
      {v w x : Table} {now : DateTime} {op : WriteOp} {ops : List (DateTime × WriteOp)}
      {reply : Reply} {replies : List Reply}
      → Serves now v w op reply
      → Runs w ops replies x
      → Runs v ((now, op) ∷ ops) (reply ∷ replies) x
