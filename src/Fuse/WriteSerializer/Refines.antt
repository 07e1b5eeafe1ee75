-- ===== src/Fuse/WriteSerializer/Refines.antt =====
-- crates/lnxdrive-fuse/src/write_serializer.rs, implements its contract.
use lnxdrive.Prelude.{not, refl, none, List, [], ◌∷◌}
use lnxdrive.Core.Time.{DateTime}
use lnxdrive.Cache.Repository.{Repository, find, select, has_id, get_default_account}
use lnxdrive.Cache.Repository.Unique.{IsUnique, select-IsUnique}
use lnxdrive.Cache.Repository.View.{find_deleted, find_undeleted}
use lnxdrive.Cache.Repository
use lnxdrive.Fuse.WriteSerializer.{
  WriteOp, update_state, update_inode, update_last_accessed, update_hydration_progress,
  increment_inode_counter, save_item, delete_item, process_operation, run,
}
use lnxdrive.Fuse.WriteSerializer.Contract.{view, counts, drops, Runs, stop, next}
use lnxdrive.Fuse.WriteSerializer.Rows.{put_lem, Refined, update_state_refines, save_item_refines}
use lnxdrive.Fuse.WriteSerializer.Fields.{updated_refines, update_inode_refines}

-- Where the unique columns are unique, every operation of the queue keeps them so, and answers and
-- changes the table as `Serves` allows.
process_operation_refines :
    (r : Repository) (now : DateTime) (op : WriteOp)
    → IsUnique r.rows
    → Refined r now op (process_operation r now op)
unfolding process_operation Repository.update_last_accessed Repository.update_hydration_progress
    Repository.get_next_inode Repository.delete_item get_default_account
process_operation_refines r now (update_state id target) u = update_state_refines r now id target u
process_operation_refines r now (update_inode id n) u = update_inode_refines r now id n u
process_operation_refines r now (update_last_accessed id accessed) u =
    updated_refines r now _ id _ refl tt (λ item. refl) u
process_operation_refines r now (update_hydration_progress id progress) u =
    updated_refines r now _ id _ refl tt (λ item. refl) u
process_operation_refines r now increment_inode_counter u = (counts (λ k. refl) refl refl, u)
process_operation_refines r now (save_item item) u = save_item_refines r now item u
process_operation_refines r now (delete_item id) u = (
  drops (record {
    same_rows = λ k.
        put_lem id k none (view r).row_of
          (λ j. find (has_id j) (select (λ row. not (has_id id row)) r.rows))
          (find_deleted id r.rows) (find_undeleted id k r.rows);
    same_counter = refl;
    same_account = refl;
  }),
  select-IsUnique _ r.rows u,
)

-- From unique columns, a run over any queue is a sequence of the steps of the contract `Serves`, one for each operation
-- in the order of the queue, with its time and its answer, on the map from identifiers to rows, the
-- counter of inodes and the default account; and the columns are unique at the end.
pub run_refines :
    (r : Repository) (ops : List (DateTime × WriteOp))
    → IsUnique r.rows
    → Runs (view r) ops (run r ops).1 (view (run r ops).0) × IsUnique (run r ops).0.rows
unfolding run
run_refines r [] u = (stop, u)
run_refines r ((now, op) ∷ ops) u =
    let first = process_operation_refines r now op u in
    let rest = run_refines (process_operation r now op).0 ops first.1 in
    (next first.0 rest.0, rest.1)
