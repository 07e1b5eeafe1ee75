-- ===== src/Fuse/Dehydration.antt =====
-- Freeing local space: crates/lnxdrive-fuse/src/dehydration.rs. The content cache, the flag that asks
-- to stop, the clock, and how paths and states render are those of a host; what other tasks do to the
-- flag and to the cache shows in its world. A write of the sweep is one operation of Fuse/WriteSerializer.antt,
-- and other writers do not come between. Counters count items, and sums of file sizes stay below `2 ^ 64`.
use lnxdrive.Prelude.{
  ℕ, ◌+◌, ◌-◌, ◌*◌, ◌/◌, ◌%◌, ◌^◌, ltb, leb, ◌==◌, Bool, true, false, not, if◌then◌else◌, Option,
  none, some, List, [], ◌∷◌, ◌++◌, Text, codes, decimal, Result, ok, err,
}
use lnxdrive.Core.Config.{FuseConfig}
use lnxdrive.Core.Ids.{UniqueId, RemoteId}
use lnxdrive.Core.ItemState.{ItemState, online, is_hydrated}
use lnxdrive.Core.SyncPath.{PathBuf}
use lnxdrive.Core.Time.{DateTime}
use lnxdrive.Cache.Repository.{Repository}
use lnxdrive.Fuse.Error.{
  FuseError, not_found, permission_denied, invalid_argument, database_error, to_string,
}
use lnxdrive.Fuse.InodeEntry.{InodeEntry}
use lnxdrive.Fuse.InodeTable
use lnxdrive.Fuse.InodeTable.{InodeTable}
use lnxdrive.Fuse.WriteSerializer.{Reply, done, inode, update_state, process_operation}
pub mod Sweep
pub mod Spares
pub mod Handles
pub mod Endless
pub mod Manual
pub mod Cached

pub record DehydrationPolicy : Type 0 where
  pub cache_max_bytes : ℕ
  pub threshold_percent : ℕ
  pub max_age_days : ℕ
  pub interval_minutes : ℕ

unfoldable pub from_config : FuseConfig → DehydrationPolicy
from_config config = record {
  cache_max_bytes = config.cache_max_size_gb * 1024 * 1024 * 1024 % 2 ^ 64;
  threshold_percent = config.dehydration_threshold_percent;
  max_age_days = config.dehydration_max_age_days;
  interval_minutes = config.dehydration_interval_minutes;
}

-- Wraps around, as in a build that does not check for overflow.
unfoldable pub threshold_bytes : DehydrationPolicy → ℕ
threshold_bytes self = self.cache_max_bytes * self.threshold_percent % 2 ^ 64 / 100

unfoldable pub policy_default : DehydrationPolicy
policy_default = record {
  cache_max_bytes = 10 * 1024 * 1024 * 1024;
  threshold_percent = 80;
  max_age_days = 30;
  interval_minutes = 60;
}

pub record DehydrationReport : Type 0 where
  pub dehydrated_count : ℕ
  pub bytes_freed : ℕ
  pub skipped_count : ℕ
  pub error_count : ℕ
  pub errors : List Text

abbrev pub empty_report : DehydrationReport
empty_report = record {
  dehydrated_count = 0;
  bytes_freed = 0;
  skipped_count = 0;
  error_count = 0;
  errors = [];
}

unfoldable pub merge : DehydrationReport → DehydrationReport → DehydrationReport
merge self other = record {
  dehydrated_count = self.dehydrated_count + other.dehydrated_count;
  bytes_freed = self.bytes_freed + other.bytes_freed;
  skipped_count = self.skipped_count + other.skipped_count;
  error_count = self.error_count + other.error_count;
  errors = self.errors ++ other.errors;
}

-- `file_size` is 0 for a file that is not there or cannot be inspected; `days_before` is the time that
-- lies so many days before now.
pub record Host : Type 1 where
  pub World : Type 0
  pub disk_usage : World → Result FuseError ℕ
  pub file_size : RemoteId → World → ℕ
  pub remove : RemoteId → World → World × Result FuseError (Unit {0})
  pub shutdown_requested : World → World × Bool
  pub now : World → World × DateTime
  pub days_before : ℕ → World → World × DateTime
  pub path_text : PathBuf → Text
  pub state_text : ItemState → Text

abbrev pub dehydrated : DehydrationReport → ℕ → DehydrationReport
dehydrated report size = record report {
  dehydrated_count = report.dehydrated_count + 1;
  bytes_freed = report.bytes_freed + size;
}

abbrev pub skipped : DehydrationReport → DehydrationReport
skipped report = record report { skipped_count = report.skipped_count + 1 }

abbrev pub skipped_with : DehydrationReport → Text → DehydrationReport
skipped_with report message = record report {
  skipped_count = report.skipped_count + 1;
  errors = report.errors ++ message ∷ [];
}

abbrev pub failed : DehydrationReport → Text → DehydrationReport
failed report message = record report {
  error_count = report.error_count + 1;
  errors = report.errors ++ message ∷ [];
}

module _ (host : Host) where
  -- What the handle returns for an update of the state; the other kind of answer does not occur.
  abbrev answer : Reply → Result FuseError (Unit {0})
  answer (done result) = result
  answer (inode n) = ok tt

  abbrev pub update_state_online :
      Repository → UniqueId → host.World → host.World × Repository × Result FuseError (Unit {0})
  update_state_online repository id world =
      let clock = host.now world in
      let next = process_operation repository clock.1 (update_state id online) in
      (clock.0, next.0, answer next.1)

  abbrev Freed : Type 0
  Freed = host.World × Repository × Result FuseError ℕ

  abbrev freed : ℕ → host.World × Repository × Result FuseError (Unit {0}) → Freed
  freed size (world, repository, ok _) = (world, repository, ok size)
  freed size (world, repository, err e) = (world, repository, err (database_error (to_string e)))

  abbrev pub removed : Repository → UniqueId → ℕ → host.World × Result FuseError (Unit {0}) → Freed
  removed repository id size (world, err e) = (world, repository, err e)
  removed repository id size (world, ok _) = freed size (update_state_online repository id world)

  abbrev pub dehydrate_entry : Repository → host.World → InodeEntry → Option RemoteId → Freed
  dehydrate_entry repository world entry none =
      (world, repository, err (invalid_argument (codes "File has no remote ID")))
  dehydrate_entry repository world entry (some remote_id) =
      removed repository entry.item_id (host.file_size remote_id world)
        (host.remove remote_id world)

  abbrev pub dehydrate_found : Repository → host.World → ℕ → Option InodeEntry → Freed
  dehydrate_found repository world ino none =
      (world, repository, err (not_found (codes "Inode " ++ decimal ino ++ codes " not found")))
  dehydrate_found repository world ino (some entry) =
      if ltb 0 entry.open_handles
      then (
        world,
        repository,
        err (
            permission_denied (
              codes "Cannot dehydrate file with "
              ++ decimal entry.open_handles
              ++ codes " open handles")),
      )
      else if not (is_hydrated entry.state)
      then (
        world,
        repository,
        err (
            invalid_argument (
              codes "Cannot dehydrate file in state "
              ++ host.state_text entry.state
              ++ codes ". Only Hydrated files can be dehydrated.")),
      )
      else dehydrate_entry repository world entry entry.remote_id

  unfoldable pub dehydrate_path : InodeTable → Repository → host.World → ℕ → Freed
  dehydrate_path table repository world ino =
      dehydrate_found repository world ino (InodeTable.get table ino)

  abbrev pub counted : DehydrationReport → ℕ → Result FuseError ℕ → DehydrationReport
  counted report ino (ok size) = dehydrated report size
  counted report ino (err (not_found m)) = skipped_with report (codes "Not found: " ++ m)
  counted report ino (err (permission_denied m)) =
      skipped_with report (codes "Permission denied: " ++ m)
  counted report ino (err (invalid_argument m)) = skipped_with report (codes "Invalid state: " ++ m)
  counted report ino (err e) =
      failed report (codes "Error dehydrating " ++ decimal ino ++ codes ": " ++ to_string e)

  unfoldable pub dehydrate_paths :
      InodeTable
      → Repository
      → host.World
      → List ℕ
      → DehydrationReport
      → host.World × Repository × DehydrationReport
  unfolding dehydrate_path
  dehydrate_paths table repository world [] report = (world, repository, report)
  dehydrate_paths table repository world (ino ∷ inos) report =
      let next = dehydrate_path table repository world ino in
      dehydrate_paths table next.1 next.0 inos (counted report ino next.2)

  unfoldable pub notify_file_closed :
      DehydrationPolicy → InodeTable → Repository → host.World → ℕ → host.World × Repository
  unfolding threshold_bytes dehydrate_path
  notify_file_closed policy table repository world ino = elim (host.disk_usage world) [
    | err e ↦ (world, repository)
    | ok usage ↦
        let next = dehydrate_path table repository world ino in
        if ltb (threshold_bytes policy) usage then (next.0, next.1) else (world, repository)
  ]
