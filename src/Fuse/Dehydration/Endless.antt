-- ===== src/Fuse/Dehydration/Endless.antt =====
-- When the loop of `run_sweep`, in crates/lnxdrive-fuse/src/dehydration.rs, does not end.
use lnxdrive.Prelude.{
  ℕ, zero, suc, ◌≡◌, Bool, true, false, not, ◌&&◌, refl, Option, none, some, List, [], ◌∷◌, err,
  leb, is_empty, Bool-cases, inl, inr,
}
use lnxdrive.Core.Ids.{RemoteId}
use lnxdrive.Core.SyncItem.{SyncItem}
use lnxdrive.Core.Time.{DateTime}
use lnxdrive.Cache.Repository.{Repository, get_items_for_dehydration}
use lnxdrive.Fuse.Error.{FuseError}
use lnxdrive.Fuse.InodeTable.{InodeTable}
use lnxdrive.Fuse.Dehydration.{Host, DehydrationPolicy}
use lnxdrive.Fuse.Dehydration.Sweep.{State, is_skipped, process, process_all, sweep, remove_content}

and_false : (b : Bool) → (b && false) ≡ false
and_false true = refl
and_false false = refl

-- A host that is not asked to stop and whose content cannot be removed, in one world.
module _ (host : Host) (table : InodeTable) (policy : DehydrationPolicy) (goal : ℕ) (w : host.World)
    (r : Repository) (freed : ℕ) (cutoff : DateTime) (e : FuseError)
    (runs_on : host.shutdown_requested w ≡ (w, false))
    (at_cutoff : host.days_before policy.max_age_days w ≡ (w, cutoff))
    (refuses : (id : RemoteId) → host.remove id w ≡ (w, err e)) where
  abbrev At : State host → Type 0
  At s = (s.world ≡ w) × (s.repository ≡ r) × (s.total_freed ≡ freed)

  remove_stays :
      (s : State host) (item : SyncItem) (id : Option RemoteId)
      → At s
      → At (remove_content host s item id)
  remove_stays s item none at = at
  remove_stays s item (some id) at = rw (at.0, refuses id) (refl, at.1, at.2)

  process_stays : (s : State host) (item : SyncItem) → At s → At (process host table s item)
  unfolding process
  process_stays s item at = elim (Bool-cases (is_skipped host table item)) [
    | inl d ↦ rw d at
    | inr d ↦ rw d (remove_stays s item item.remote_id at)
  ]

  all_stays :
      (s : State host) (items : List SyncItem)
      → leb goal freed ≡ false
      → At s
      → At (process_all host table goal s items)
  unfolding process_all
  all_stays s [] short at = at
  all_stays s (item ∷ items) short at =
      let here : State host = record s { world = w } in
      let next = process host table here item in
      let there : At next = process_stays here item (refl, at.1, at.2) in
      let stays : (not (is_skipped host table item) && leb goal next.total_freed) ≡ false =
        rw (there.2, short) (and_false _) in
      rw (at.0, runs_on, stays) (all_stays next items short there)

  -- Where no content can be removed, the target is not reached and there are candidates, the loop never
  -- ends.
  pub sweep_endless :
      (fuel : ℕ) (s : State host)
      → leb goal freed ≡ false
      → is_empty (get_items_for_dehydration r cutoff 100) ≡ false
      → s.world ≡ w
      → s.repository ≡ r
      → s.total_freed ≡ freed
      → (sweep host table policy goal fuel s).1 ≡ false
  unfolding sweep
  sweep_endless zero s short more same_world same_repository same_freed = refl
  sweep_endless (suc fuel) s short more same_world same_repository same_freed =
      let candidates = get_items_for_dehydration r cutoff 100 in
      let here : State host = record s { world = w; repository = r; total_freed = freed } in
      let next = process_all host table goal here candidates in
      let at : At next = all_stays here candidates short (refl, refl, refl) in
      rw (same_world, runs_on, at_cutoff, same_repository, same_freed, more, at.2, short)
        (sweep_endless fuel next short more at.0 at.1 at.2)
