-- ===== src/Examples/Sync.antt =====
-- A cloud and a disk for the engine: the world counts requests and seconds, and downloads time out
-- in its first five.
use lnxdrive.Prelude.{
  ℕ, zero, suc, ◌+◌, ◌<◌, ◌≡◌, inr, refl, true, false, if◌then◌else◌, ltb, leb, ◌&&◌, none, some,
  [], ◌∷◌, codes, map, ok, err, is_ok, pos, arith,
}
use lnxdrive.Core.ItemState.{deleted}
use lnxdrive.Core.Session
use lnxdrive.Core.SyncItem.{SyncItem, new_file}
use lnxdrive.Core.SyncPath.{SyncPath, root_dir, normal}
use lnxdrive.Sync.Bulk.{SyncEngine}
use lnxdrive.Sync.Cycle.{Progress, no_result, process_delta_items, process_changes}
use lnxdrive.Sync.Cycle.Accounting.{Counted, process_delta_items-Counted, process_changes-Counted}
use lnxdrive.Sync.Local.{handle_local_delete}
use lnxdrive.Sync.Local.Deletes.{local_delete_fails}
use lnxdrive.Sync.Remote.{process_delta_item}
use lnxdrive.Sync.Remote.Deletes.{remote_delete_fails, disk_only}
use lnxdrive.Core.Ids.{new_remote_id}
use lnxdrive.Sync.Ports.{Ports, DeltaItem}
use lnxdrive.Core.Transition.{can_transition}
use lnxdrive.Sync.Retry.{with_retry, is_transient_error}
use lnxdrive.Sync.Retry.Schedule.{with_retry_schedule, world_at, is_retried}
use lnxdrive.Sync.Scan.{gone, created}

abbrev delta_item : DeltaItem
delta_item = record {
  id = codes "7";
  name = codes "a";
  path = some (codes "/a");
  size = some 1;
  hash = none;
  modified = none;
  is_deleted = false;
  is_directory = false;
  parent_id = none;
}

abbrev ports : Ports
ports = record {
  World = ℕ;
  get_delta = λ token w.
      (w + 1, ok (record { items = delta_item ∷ []; next_link = none; delta_link = none }));
  download_file = λ id w. (w + 1, if ltb w 5 then err (codes "timeout") else ok (1 ∷ []));
  upload_file = λ parent name content w. (w + 1, ok delta_item);
  upload_file_session = λ parent name content w. (w + 1, ok delta_item);
  delete_item = λ id w. (w + 1, ok tt);
  read_file = λ path w. (w, ok (1 ∷ []));
  write_file = λ path content w. (w, ok tt);
  delete_file = λ path w. (w, ok tt);
  get_state = λ path w. (
    w,
    ok (record { exists = true; is_file = true; size = 1; modified = none; is_locked = false }),
  );
  compute_hash = λ path w. (w, err (codes "no hash"));
  create_directory = λ path w. (w, ok tt);
  read_dir = λ path w. (w, ok []);
  save_item = λ item w. (w, ok tt);
  get_item_by_path = λ path w. (w, ok none);
  get_item_by_remote_id = λ id w. (w, ok none);
  query_items = λ w. (w, ok []);
  save_account = λ account w. (w, ok tt);
  get_default_account = λ w. (w, ok none);
  save_session = λ session w. (w, ok tt);
  now = λ w. (w, pos w);
  fresh = λ w. (w + 1, w);
  sleep = λ seconds w. w + seconds;
  to_lowercase = map (λ c. if leb b'A' c && leb c b'Z' then c + 32 else c);
  is_alphanumeric = λ c. leb b'0' c && leb c b'9';
  query_token = λ link. none;
}

abbrev sync_root : SyncPath
sync_root = record { path = root_dir ∷ normal (codes "s") ∷ [] }

abbrev local_path : SyncPath
local_path = record { path = root_dir ∷ normal (codes "s") ∷ normal (codes "a") ∷ [] }

abbrev deleted_item : SyncItem
unfolding new_file
deleted_item = record (new_file 1 (pos 0) local_path (record { text = codes "/a" }) 1 none) {
  state = deleted;
  remote_id = some (record { text = codes "7" });
}

abbrev start : Progress
start = record { result = no_result; items_synced = 0; session = Session.with_id 1 2 (pos 0) }

first_two :
    (k : ℕ)
    → k < 2
    → is_retried ports
        (ports.download_file (record { text = codes "7" }))
        (ports.download_file
          (record { text = codes "7" })
          (world_at ports (ports.download_file (record { text = codes "7" })) 0 k)).1
      ≡ true
unfolding world_at is_transient_error
first_two zero h = refl
first_two (suc zero) h = refl
first_two (suc (suc k)) h = absurd (omega arith)

with_retry_schedule_example :
    with_retry ports (ports.download_file (record { text = codes "7" })) 0
    ≡ ports.download_file
        (record { text = codes "7" })
        (world_at ports (ports.download_file (record { text = codes "7" })) 0 2)
unfolding world_at is_transient_error
with_retry_schedule_example =
    with_retry_schedule ports (ports.download_file (record { text = codes "7" })) 2 0 (omega arith)
      first_two (inr refl)

abbrev engine : SyncEngine
engine = record { large_file_threshold = 100; bulk_mode = false }

process_delta_items-Counted_example :
    Counted 2 start (process_delta_items ports (delta_item ∷ delta_item ∷ []) sync_root start 0).1
process_delta_items-Counted_example =
    process_delta_items-Counted ports (delta_item ∷ delta_item ∷ []) sync_root start 0

process_changes-Counted_example :
    Counted 2 start
      (process_changes ports engine
        (gone deleted_item ∷ created local_path ∷ [])
        sync_root
        start
        0).1
process_changes-Counted_example =
    process_changes-Counted ports engine (gone deleted_item ∷ created local_path ∷ []) sync_root
      start 0

local_delete_fails_example : is_ok (handle_local_delete ports deleted_item 0).1 ≡ false
unfolding new_file can_transition
local_delete_fails_example = local_delete_fails ports deleted_item 0 refl

-- The ports, where the repository knows the deleted item.
abbrev deleted_ports : Ports
deleted_ports = record ports { get_item_by_remote_id = λ id w. (w, ok (some deleted_item)) }

abbrev deletion : DeltaItem
deletion = record delta_item { is_deleted = true }

remote_delete_fails_example :
    ((process_delta_item deleted_ports deletion sync_root 0).0
      ≡ disk_only deleted_ports deleted_item.local_path 0)
    × (is_ok (process_delta_item deleted_ports deletion sync_root 0).1 ≡ false)
unfolding new_file can_transition new_remote_id
remote_delete_fails_example =
    remote_delete_fails deleted_ports deletion sync_root (record { text = codes "7" }) deleted_item
      0 refl refl refl refl
