-- ===== src/Fuse/Dehydration/Sweep.antt =====
-- `run_sweep` of crates/lnxdrive-fuse/src/dehydration.rs.
use lnxdrive.Prelude.{
  ℕ, zero, suc, ◌+◌, ◌-◌, ◌*◌, ◌/◌, ◌%◌, ◌^◌, ltb, leb, Bool, true, false, not, ◌&&◌, is_empty,
  if◌then◌else◌, Option, none, some, List, [], ◌∷◌, ◌++◌, codes, Result, ok, err, ◌>>=◌,
}
use lnxdrive.Core.Ids.{RemoteId}
use lnxdrive.Core.ItemState.{is_hydrated}
use lnxdrive.Core.SyncItem.{SyncItem}
use lnxdrive.Cache.Repository.{Repository, get_items_for_dehydration}
use lnxdrive.Fuse.Error.{FuseError, to_string}
use lnxdrive.Fuse.InodeEntry.{InodeEntry}
use lnxdrive.Fuse.InodeTable
use lnxdrive.Fuse.InodeTable.{InodeTable}
use lnxdrive.Fuse.Dehydration.{
  Host, DehydrationPolicy, DehydrationReport, empty_report, dehydrated, skipped, failed,
  threshold_bytes, update_state_online,
}

module _ (host : Host) where
  -- The variables of the function.
  pub record State : Type 0 where
    pub world : host.World
    pub repository : Repository
    pub report : DehydrationReport
    pub total_freed : ℕ

  abbrev entry_is_open : Option InodeEntry → Bool
  entry_is_open none = false
  entry_is_open (some entry) = ltb 0 entry.open_handles

  abbrev pub is_open : InodeTable → Option ℕ → Bool
  is_open table none = false
  is_open table (some inode) = entry_is_open (InodeTable.get table inode)

  abbrev pub settle :
      State → SyncItem → ℕ → host.World × Repository × Result FuseError (Unit {0}) → State
  settle s item size (world, repository, ok _) = record {
    world = world;
    repository = repository;
    report = dehydrated s.report size;
    total_freed = s.total_freed + size;
  }
  settle s item size (world, repository, err e) = record {
    world = world;
    repository = repository;
    report = failed s.report (
        codes "State update failed for "
        ++ host.path_text item.local_path.path
        ++ codes ": "
        ++ to_string e);
    total_freed = s.total_freed;
  }

  abbrev pub settle_removal :
      State → SyncItem → ℕ → host.World × Result FuseError (Unit {0}) → State
  settle_removal s item size (world, ok _) =
      settle s item size (update_state_online host s.repository item.id world)
  settle_removal s item size (world, err e) = record s {
    world = world;
    report = failed s.report (
        codes "Cache removal failed for "
        ++ host.path_text item.local_path.path
        ++ codes ": "
        ++ to_string e);
  }

  abbrev pub remove_content : State → SyncItem → Option RemoteId → State
  remove_content s item none = record s { report = skipped s.report }
  remove_content s item (some remote_id) =
      settle_removal s item (host.file_size remote_id s.world) (host.remove remote_id s.world)

  -- Whether `continue` passes over the test at the end of the body.
  unfoldable pub is_skipped : InodeTable → SyncItem → Bool
  is_skipped table item = if is_hydrated item.state then is_open table item.inode else true

  unfoldable pub process : InodeTable → State → SyncItem → State
  unfolding is_skipped
  process table s item =
      if is_skipped table item
      then record s { report = skipped s.report }
      else remove_content s item item.remote_id

  unfoldable pub process_all : InodeTable → ℕ → State → List SyncItem → State
  unfolding process
  process_all table bytes_to_free s [] = s
  process_all table bytes_to_free s (item ∷ items) =
      let flag = host.shutdown_requested s.world in
      let here = record s { world = flag.0 } in
      let next = process table here item in
      let rest = process_all table bytes_to_free next items in
      if flag.1
      then here
      else if not (is_skipped table item) && leb bytes_to_free next.total_freed
      then next
      else rest

  -- Beside the state, whether the loop has ended with the fuel.
  unfoldable pub sweep : InodeTable → DehydrationPolicy → ℕ → ℕ → State → State × Bool
  unfolding process_all
  sweep table policy bytes_to_free zero s = (s, false)
  sweep table policy bytes_to_free (suc fuel) s =
      let flag = host.shutdown_requested s.world in
      let cutoff = host.days_before policy.max_age_days flag.0 in
      let here = record s { world = cutoff.0 } in
      let candidates = get_items_for_dehydration s.repository cutoff.1 100 in
      let next = process_all table bytes_to_free here candidates in
      let again = sweep table policy bytes_to_free fuel next in
      if flag.1
      then (record s { world = flag.0 }, true)
      else if is_empty candidates
      then (here, true)
      else if leb bytes_to_free next.total_freed
      then (next, true)
      else again

  abbrev pub start : host.World → Repository → State
  start world repository = record {
    world = world;
    repository = repository;
    report = empty_report;
    total_freed = 0;
  }

  -- The saturating subtraction is that of ℕ.
  abbrev pub bytes_above : ℕ → ℕ → ℕ
  bytes_above usage threshold = usage - threshold * 80 % 2 ^ 64 / 100

  -- The error is that of `disk_usage`, before anything has changed.
  unfoldable pub run_sweep :
      InodeTable → DehydrationPolicy → ℕ → host.World → Repository → Result FuseError (State × Bool)
  unfolding sweep threshold_bytes
  run_sweep table policy fuel world repository =
      let threshold = threshold_bytes policy in
      do
        usage ← host.disk_usage world
        let swept = sweep table policy (bytes_above usage threshold) fuel (start world repository)
        ok (if ltb usage threshold then (start world repository, true) else swept)
