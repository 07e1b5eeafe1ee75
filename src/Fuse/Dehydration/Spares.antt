-- ===== src/Fuse/Dehydration/Spares.antt =====
-- What a sweep of crates/lnxdrive-fuse/src/dehydration.rs leaves alone.
use lnxdrive.Prelude.{
  ℕ, zero, suc, ◌≡◌, Bool, true, false, not, ◌&&◌, Bool-cases, inl, inr, refl, Option, none, some,
  Option-cases, List, [], ◌∷◌, Result, ok, err, Result-cases, every, arith, text_eq, leb, is_empty,
  ltb,
}
use lnxdrive.Core.Ids.{RemoteId, UniqueId}
use lnxdrive.Core.ItemState.{online, is_hydrated}
use lnxdrive.Core.SyncItem.{SyncItem}
use lnxdrive.Core.Time.{DateTime}
use lnxdrive.Core.Transition.{can_transition, transition_to}
use lnxdrive.Cache.Repository
use lnxdrive.Cache.Repository.{
  Repository, Row, find, select, has_id, clashes, new_row, same_remote, account_for,
  get_items_for_dehydration, sync_item_from_row, get_item,
}
use lnxdrive.Cache.Repository.Candidates.{every_candidate}
use lnxdrive.Cache.Repository.Unique.{every-select}
use lnxdrive.Fuse.Error.{FuseError}
use lnxdrive.Fuse.InodeTable.{InodeTable}
use lnxdrive.Fuse.WriteSerializer.{update_state, process_operation}
use lnxdrive.Fuse.Dehydration.{Host, DehydrationPolicy, update_state_online, threshold_bytes}
use lnxdrive.Fuse.Dehydration.Sweep.{
  State, settle, settle_removal, remove_content, is_skipped, process, process_all, sweep, run_sweep,
  start, bytes_above,
}

-- No hydrated row has this remote identifier.
abbrev spared : RemoteId → Row → Bool
spared kept row = not (is_hydrated row.item.state && same_remote row.item.remote_id (some kept))

abbrev pub no_hydrated_row : RemoteId → Repository → Bool
no_hydrated_row kept r = every (spared kept) r.rows

abbrev spared_item : RemoteId → SyncItem → Bool
spared_item kept item = not (is_hydrated item.state && same_remote item.remote_id (some kept))

spared_after :
    (kept : RemoteId) (r : Repository) (now : DateTime) (id : UniqueId)
    → no_hydrated_row kept r ≡ true
    → no_hydrated_row kept (process_operation r now (update_state id online)).0 ≡ true
unfolding process_operation get_item sync_item_from_row transition_to Repository.save_item
spared_after kept r now id h = elim (Option-cases (find (has_id id) r.rows)) [
  | inl gone ↦ rw gone h
  | inr (row, found) ↦ elim (Bool-cases (can_transition row.item.state online)) [
    | inl e ↦ elim (Result-cases (account_for r (find (has_id row.item.id) r.rows))) [
      | inl (account_id, ok_account) ↦
          rw (found, e, ok_account) (every-select (spared kept) _ r.rows h)
      | inr (message, no_account) ↦ rw (found, e, no_account) h
    ]
    | inr e ↦ rw (found, e) h
  ]
]

-- `Safe` speaks of the content of `kept`: reading the flag and the clock does not touch it, and removing
-- the content of another identifier neither.
module _ (host : Host) (Safe : host.World → Type 0) (kept : RemoteId)
    (safe_flag : (w : host.World) → Safe w → Safe (host.shutdown_requested w).0)
    (safe_now : (w : host.World) → Safe w → Safe (host.now w).0)
    (safe_days : (n : ℕ) (w : host.World) → Safe w → Safe (host.days_before n w).0)
    (safe_remove : (id : RemoteId) (w : host.World)
      → text_eq id.text kept.text ≡ false
      → Safe w
      → Safe (host.remove id w).0) where
  abbrev Good : State host → Type 0
  Good s = Safe s.world × (no_hydrated_row kept s.repository ≡ true)

  settle_safe :
      (s : State host) (item : SyncItem) (size : ℕ)
      (answer : host.World × Repository × Result FuseError (Unit {0}))
      → Safe answer.0
      → no_hydrated_row kept answer.1 ≡ true
      → Good (settle host s item size answer)
  settle_safe s item size (w, r, ok _) safe clear = (safe, clear)
  settle_safe s item size (w, r, err e) safe clear = (safe, clear)

  removal_safe :
      (s : State host) (item : SyncItem) (size : ℕ)
      (removal : host.World × Result FuseError (Unit {0}))
      → Safe removal.0
      → no_hydrated_row kept s.repository ≡ true
      → Good (settle_removal host s item size removal)
  removal_safe s item size (w, err e) safe clear = (safe, clear)
  removal_safe s item size (w, ok _) safe clear =
      settle_safe s item size (update_state_online host s.repository item.id w) (safe_now w safe)
        (spared_after kept s.repository (host.now w).1 item.id clear)

  content_safe :
      (s : State host) (item : SyncItem) (id : Option RemoteId)
      → same_remote id (some kept) ≡ false
      → Good s
      → Good (remove_content host s item id)
  content_safe s item none other good = good
  content_safe s item (some id) other good =
      removal_safe s item (host.file_size id s.world) (host.remove id s.world)
        (safe_remove id s.world other good.0) good.1

  process_safe :
      (table : InodeTable) (s : State host) (item : SyncItem)
      → spared_item kept item ≡ true
      → Good s
      → Good (process host table s item)
  unfolding process is_skipped
  process_safe table s item spare good = elim (Bool-cases (is_skipped host table item)) [
    | inl e ↦ rw e good
    | inr e ↦ rw e (content_safe s item item.remote_id (ground arith) good)
  ]

  all_safe :
      (table : InodeTable) (goal : ℕ) (s : State host) (items : List SyncItem)
      → every (spared_item kept) items ≡ true
      → Good s
      → Good (process_all host table goal s items)
  unfolding process_all
  all_safe table goal s [] spare good = good
  all_safe table goal s (item ∷ items) spare good =
      let flag = host.shutdown_requested s.world in
      let here : State host = record s { world = flag.0 } in
      let next = process host table here item in
      let after : Good here = (safe_flag s.world good.0, good.1) in
      let done : Good next = process_safe table here item (ground arith) after in
      elim (Bool-cases flag.1) [
        | inl e ↦ rw e after
        | inr e ↦
            elim (Bool-cases (not (is_skipped host table item) && leb goal next.total_freed)) [
              | inl d ↦ rw (e, d) done
              | inr d ↦ rw (e, d) (all_safe table goal next items (ground arith) done)
            ]
      ]

  sweep_safe :
      (table : InodeTable) (policy : DehydrationPolicy) (goal fuel : ℕ) (s : State host)
      → Good s
      → Good (sweep host table policy goal fuel s).0
  unfolding sweep sync_item_from_row
  sweep_safe table policy goal zero s good = good
  sweep_safe table policy goal (suc fuel) s good =
      let flag = host.shutdown_requested s.world in
      let cutoff = host.days_before policy.max_age_days flag.0 in
      let here : State host = record s { world = cutoff.0 } in
      let candidates = get_items_for_dehydration s.repository cutoff.1 100 in
      let next = process_all host table goal here candidates in
      let safe = safe_flag s.world good.0 in
      let after : Good here = (safe_days policy.max_age_days flag.0 safe, good.1) in
      let spare = every_candidate (spared_item kept) s.repository cutoff.1 100 good.1 in
      let all : Good next = all_safe table goal here candidates spare after in
      elim (Bool-cases flag.1) [
        | inl e ↦ rw e (safe, good.1)
        | inr e ↦ elim (Bool-cases (is_empty candidates)) [
          | inl d ↦ rw (e, d) after
          | inr d ↦ elim (Bool-cases (leb goal next.total_freed)) [
            | inl c ↦ rw (e, d, c) all
            | inr c ↦ rw (e, d, c) (sweep_safe table policy goal fuel next all)
          ]
        ]
      ]

  -- Where the usage of the disk can be read, a sweep returns, whether its loop has ended or not, and then
  -- `Safe` holds of the world as before: the content of an identifier that no hydrated row has is left alone.
  pub run_sweep_spares :
      (table : InodeTable) (policy : DehydrationPolicy) (fuel : ℕ) (w : host.World) (r : Repository)
      {usage : ℕ}
      → no_hydrated_row kept r ≡ true
      → Safe w
      → host.disk_usage w ≡ ok usage
      → (swept : State host × Bool) × (run_sweep host table policy fuel w r ≡ ok swept)
        × Safe swept.0.world
  unfolding run_sweep
  run_sweep_spares table policy fuel w r {usage} clear safe read =
      let threshold = threshold_bytes policy in
      let goal = bytes_above host usage threshold in
      elim (Bool-cases (ltb usage threshold)) [
        | inl e ↦ ((start host w r, true), rw (read, e) refl, safe)
        | inr e ↦ (
          sweep host table policy goal fuel (start host w r),
          rw (read, e) refl,
          (sweep_safe table policy goal fuel (start host w r) (safe, clear)).0,
        )
      ]
