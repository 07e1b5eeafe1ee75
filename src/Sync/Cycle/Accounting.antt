-- ===== src/Sync/Cycle/Accounting.antt =====
-- What the counters of a cycle of synchronisation say, in crates/lnxdrive-sync/src/engine.rs.
use lnxdrive.Prelude.{
  ℕ, suc, ◌+◌, ◌%◌, ◌≡◌, List, [], ◌∷◌, Text, Result, ok, err, length, length-append, arith,
}
use lnxdrive.Core.Session.{u64_mod, record_success, record_failure}
use lnxdrive.Core.SyncPath.{SyncPath}
use lnxdrive.Sync.Bulk.{SyncEngine}
use lnxdrive.Sync.Cycle.{
  Progress, u32_mod, count_delta, count_change, process_delta_items, process_changes,
  process_change, delta_item_failed, new_file_failed, modified_file_failed, remote_delete_failed,
}
use lnxdrive.Sync.Ports.{Ports, DeltaItem}
use lnxdrive.Sync.Remote.{DeltaAction, downloaded, updated, deleted, skipped, process_delta_item}
use lnxdrive.Sync.Scan.{LocalChange, created, changed, gone}

-- After `n` more outcomes: each is one more item processed, and one more success or error; the
-- counters of files grow as the number of items in sync does.
pub record Counted (n : ℕ) (before after : Progress) : Type 0 where
  pub processed :
      after.session.items_processed % u64_mod ≡ (before.session.items_processed + n) % u64_mod
  pub outcomes :
      (after.session.items_succeeded + length after.result.errors) % u64_mod
      ≡ (before.session.items_succeeded + length before.result.errors + n) % u64_mod
  pub failures :
      (after.session.items_failed + length before.result.errors) % u64_mod
      ≡ (before.session.items_failed + length after.result.errors) % u64_mod
  pub files :
      (after.result.files_downloaded + after.result.files_uploaded + after.result.files_deleted
          + before.items_synced)
        % u32_mod
      ≡ (before.result.files_downloaded + before.result.files_uploaded + before.result.files_deleted
          + after.items_synced)
        % u32_mod

count_delta-Counted :
    (item : DeltaItem) (r : Result Text DeltaAction) (p : Progress)
    → Counted 1 p (count_delta item r p)
unfolding count_delta record_success record_failure
count_delta-Counted item (ok downloaded) p = ground arith
count_delta-Counted item (ok updated) p = ground arith
count_delta-Counted item (ok deleted) p = ground arith
count_delta-Counted item (ok skipped) p = ground arith
count_delta-Counted item (err e) p =
    ground (arith, length-append p.result.errors (delta_item_failed item.name item.id e ∷ []))

count_change-Counted :
    (change : LocalChange) (r : Result Text (Unit {0})) (p : Progress)
    → Counted 1 p (count_change change r p)
unfolding count_change record_success record_failure
count_change-Counted (created path) (ok u) p = ground arith
count_change-Counted (changed path item) (ok u) p = ground arith
count_change-Counted (gone item) (ok u) p = ground arith
count_change-Counted (created path) (err e) p =
    ground (arith, length-append p.result.errors (new_file_failed path e ∷ []))
count_change-Counted (changed path item) (err e) p =
    ground (arith, length-append p.result.errors (modified_file_failed path e ∷ []))
count_change-Counted (gone item) (err e) p =
    ground (arith, length-append p.result.errors (remote_delete_failed item.local_path e ∷ []))

one_more :
    {n : ℕ} {before between after : Progress}
    → Counted 1 before between
    → Counted n between after
    → Counted (suc n) before after
one_more c d = ground arith

module _ (ports : Ports) where
  open ports use {World}

  -- Every remote item is counted exactly once: as processed, and as a success or an error; and the
  -- counters of files grow as the number of items in sync does (modulo 2^64 and 2^32).
  pub process_delta_items-Counted :
      (items : List DeltaItem) (sync_root : SyncPath) (p : Progress) (w : World)
      → Counted (length items) p (process_delta_items ports items sync_root p w).1
  unfolding process_delta_items
  process_delta_items-Counted [] sync_root p w = ground arith
  process_delta_items-Counted (item ∷ items) sync_root p w =
      let r = process_delta_item ports item sync_root w in
      one_more (count_delta-Counted item r.1 p)
        (process_delta_items-Counted items sync_root (count_delta item r.1 p) r.0)

  -- Every local change is counted exactly once: as processed, and as a success or an error; and the
  -- counters of files grow as the number of items in sync does (modulo 2^64 and 2^32).
  pub process_changes-Counted :
      (engine : SyncEngine) (changes : List LocalChange) (sync_root : SyncPath) (p : Progress)
      (w : World)
      → Counted (length changes) p (process_changes ports engine changes sync_root p w).1
  unfolding process_changes
  process_changes-Counted engine [] sync_root p w = ground arith
  process_changes-Counted engine (change ∷ changes) sync_root p w =
      let r = process_change ports engine sync_root change w in
      one_more (count_change-Counted change r.1 p)
        (process_changes-Counted engine changes sync_root (count_change change r.1 p) r.0)
