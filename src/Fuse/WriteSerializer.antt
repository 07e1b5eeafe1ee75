-- ===== src/Fuse/WriteSerializer.antt =====
-- `WriteSerializer` of crates/lnxdrive-fuse/src/write_serializer.rs: the queue of writes, which one task
-- takes from a channel and answers in the order in which they were sent. A method of the handle sends
-- one operation and waits for its answer. The clock is read once for each operation. A closed
-- channel is not modelled, nor are failures of the database beyond those of Cache/Repository.antt.
use lnxdrive.Prelude.{
  ℕ, ◌++◌, Option, none, some, List, [], ◌∷◌, Text, codes, decimal, Result, ok, err, map_err,
}
use lnxdrive.Core.Error.{
  DomainError, invalid_path, invalid_email, invalid_hash, validation_failed, path_not_in_sync_root,
  invalid_remote_path, invalid_remote_id, invalid_delta_token, invalid_id, invalid_state,
}
use lnxdrive.Core.Ids.{UniqueId}
use lnxdrive.Core.ItemState.{ItemState}
use lnxdrive.Core.SyncItem.{SyncItem}
use lnxdrive.Core.Time.{DateTime}
use lnxdrive.Core.Transition.{Outcome, transition_to}
use lnxdrive.Cache.Repository
use lnxdrive.Cache.Repository.{Repository}
use lnxdrive.Fuse.Error.{FuseError, not_found, invalid_argument, database_error}
pub mod Rows
pub mod Fields
pub mod Contract
pub mod Refines
pub mod States

pub data WriteOp : Type 0 where
  update_state : UniqueId → ItemState → WriteOp
  update_inode : UniqueId → ℕ → WriteOp
  update_last_accessed : UniqueId → DateTime → WriteOp
  update_hydration_progress : UniqueId → Option ℕ → WriteOp
  increment_inode_counter : WriteOp
  save_item : SyncItem → WriteOp
  delete_item : UniqueId → WriteOp

-- What is sent back.
pub data Reply : Type 0 where
  done : Result FuseError (Unit {0}) → Reply
  inode : ℕ → Reply

-- How a domain error reads; the prose of all but the refused transition is dropped.
unfoldable pub domain_error_text : DomainError → Text
domain_error_text (invalid_state from to) =
    codes "Invalid state transition from " ++ from ++ codes " to " ++ to
domain_error_text invalid_path = codes "Invalid path: "
domain_error_text invalid_email = codes "Invalid email format: "
domain_error_text invalid_hash = codes "Invalid hash format: "
domain_error_text validation_failed = codes "Validation failed: "
domain_error_text path_not_in_sync_root = codes "Path not within sync root: "
domain_error_text invalid_remote_path = codes "Invalid remote path: "
domain_error_text invalid_remote_id = codes "Invalid remote ID: "
domain_error_text invalid_delta_token = codes "Invalid delta token: "
domain_error_text invalid_id = codes "Invalid ID format: "

abbrev pub in_database :
    Repository × Result Text (Unit {0}) → Repository × Result FuseError (Unit {0})
in_database (repository, result) = (repository, map_err database_error result)

abbrev pub save_moved : Repository → Outcome → Repository × Result FuseError (Unit {0})
save_moved self (item, err e) = (self, err (invalid_argument (domain_error_text e)))
save_moved self (item, ok _) = in_database (Repository.save_item self item)

abbrev pub moved :
    Repository
    → UniqueId
    → ItemState
    → DateTime
    → Option SyncItem
    → Repository × Result FuseError (Unit {0})
moved self item_id state now none =
    (self, err (not_found (codes "Item not found: " ++ decimal item_id)))
moved self item_id state now (some item) = save_moved self (transition_to item state now)

abbrev pub replied : Repository × Result FuseError (Unit {0}) → Repository × Reply
replied (repository, result) = (repository, done result)

abbrev counted : Repository × ℕ → Repository × Reply
counted (repository, n) = (repository, inode n)

unfoldable pub process_operation : Repository → DateTime → WriteOp → Repository × Reply
process_operation self now (update_state item_id state) =
    replied (moved self item_id state now (Repository.get_item self item_id))
process_operation self now (update_inode item_id n) =
    replied (in_database (Repository.update_inode self item_id n))
process_operation self now (update_last_accessed item_id accessed) =
    replied (in_database (Repository.update_last_accessed self item_id accessed))
process_operation self now (update_hydration_progress item_id progress) =
    replied (in_database (Repository.update_hydration_progress self item_id progress))
process_operation self now increment_inode_counter = counted (Repository.get_next_inode self)
process_operation self now (save_item item) = replied (in_database (Repository.save_item self item))
process_operation self now (delete_item item_id) =
    (Repository.delete_item self item_id, done (ok tt))

-- Until every sender is gone, with the time at which each operation is taken.
unfoldable pub run : Repository → List (DateTime × WriteOp) → Repository × List Reply
unfolding process_operation
run self [] = (self, [])
run self ((now, op) ∷ ops) =
    let next = process_operation self now op in
    let rest = run next.0 ops in (rest.0, next.1 ∷ rest.1)
