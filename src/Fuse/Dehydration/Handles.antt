-- ===== src/Fuse/Dehydration/Handles.antt =====
-- What the sweep of crates/lnxdrive-fuse/src/dehydration.rs sees of the open files.
use lnxdrive.Prelude.{
  ℕ, zero, suc, ◌≡◌, true, not, refl, List, [], ◌∷◌, every, arith, is_some, Result-cases,
  Option-cases, inl, inr,
}
use lnxdrive.Core.SyncItem.{SyncItem}
use lnxdrive.Cache.Repository.{Repository, get_items_for_dehydration}
use lnxdrive.Cache.Repository.Columns.{candidates_without_inode}
use lnxdrive.Fuse.InodeTable.{InodeTable}
use lnxdrive.Fuse.Dehydration.{Host, DehydrationPolicy, threshold_bytes}
use lnxdrive.Fuse.Dehydration.Sweep.{
  State, is_skipped, process, process_all, sweep, run_sweep, start, bytes_above,
}

module _ (host : Host) (t u : InodeTable) where
  same_skipped :
      (item : SyncItem)
      → not (is_some item.inode) ≡ true
      → is_skipped host t item ≡ is_skipped host u item
  unfolding is_skipped
  same_skipped item without = elim (Option-cases item.inode) [
    | inl e ↦ rw e refl
    | inr (n, e) ↦ absurd (ground arith)
  ]

  same_all :
      (goal : ℕ) (s : State host) (items : List SyncItem)
      → every (λ item. not (is_some item.inode)) items ≡ true
      → process_all host t goal s items ≡ process_all host u goal s items
  unfolding process_all process
  same_all goal s [] without = refl
  same_all goal s (item ∷ items) without =
      let here : State host = record s { world = (host.shutdown_requested s.world).0 } in
      let same = same_skipped item (ground arith) in
      rw (same, same_all goal (process host u here item) items (ground arith)) refl

  same_sweep :
      (policy : DehydrationPolicy) (goal fuel : ℕ) (s : State host)
      → sweep host t policy goal fuel s ≡ sweep host u policy goal fuel s
  unfolding sweep
  same_sweep policy goal zero s = refl
  same_sweep policy goal (suc fuel) s =
      let cutoff = host.days_before policy.max_age_days (host.shutdown_requested s.world).0 in
      let here : State host = record s { world = cutoff.0 } in
      let candidates = get_items_for_dehydration s.repository cutoff.1 100 in
      let without = candidates_without_inode s.repository cutoff.1 100 in
      rw
        (
          same_all goal here candidates without,
          same_sweep policy goal fuel (process_all host u goal here candidates),
        )
        refl

  -- A sweep does the same whatever the inode table holds, open files included.
  pub run_sweep_same :
      (policy : DehydrationPolicy) (fuel : ℕ) (w : host.World) (r : Repository)
      → run_sweep host t policy fuel w r ≡ run_sweep host u policy fuel w r
  unfolding run_sweep
  run_sweep_same policy fuel w r =
      let threshold = threshold_bytes policy in
      elim (Result-cases (host.disk_usage w)) [
        | inl (usage, read) ↦
            rw (read, same_sweep policy (bytes_above host usage threshold) fuel (start host w r))
              refl
        | inr (e, refused) ↦ rw refused refl
      ]
