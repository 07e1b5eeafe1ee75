-- ===== src/Examples/Mounts.antt =====
-- A mounted file system with the root and one file, which is open.
use lnxdrive.Prelude.{
  map, List, Bool, ◌||◌, ◌==◌, if◌then◌else◌, ℕ, is_some, ◌≡◌, refl, true, false, none, some,
  Option, [], ◌∷◌, codes, ok, err, pos, arith,
}
use lnxdrive.Cache.Repository
use lnxdrive.Cache.Repository.{Repository, get_item}
use lnxdrive.Core.Account.{with_id}
use lnxdrive.Core.ItemState.{hydrating, online, modified}
use lnxdrive.Core.SyncItem
use lnxdrive.Core.SyncPath
use lnxdrive.Core.Transition.{reset_state_for_crash_recovery}
use lnxdrive.Core.SyncPath.{root_dir, normal}
use lnxdrive.Fuse.ContentCache
use lnxdrive.Fuse.ContentCache.{find_file, cache_path, write_at}
use lnxdrive.Fuse.Dehydration.{DehydrationPolicy, threshold_bytes}
use lnxdrive.Fuse.FileSystem.Partial.{downloading}
use lnxdrive.Fuse.Hydration.{HydrationRequest, user_open, Hydrations}
use lnxdrive.Fuse.Hydration.Recursive.{pin_recursive, unpin_recursive}
use lnxdrive.Fuse.Hydration.Walks.{any_directory}
use lnxdrive.Fuse.InodeEntry
use lnxdrive.Fuse.Hydration.Download.{Remote, download_chunks}
use lnxdrive.Fuse.InodeEntry.{directory, regular_file, InodeEntry}
use lnxdrive.Fuse.InodeTable
use lnxdrive.Fuse.InodeTable.{InodeTable, get, insert, children}
use lnxdrive.Fuse.Maps
use lnxdrive.Fuse.FileSystem.{LnxDriveFs, Mount, Answer, FileAttr, readdir, eio, root_ino}
use lnxdrive.Fuse.FileSystem.Fresh.{created_unusable}
use lnxdrive.Fuse.FileSystem.Handles.{State, read, write, release, run_spawned}
use lnxdrive.Fuse.FileSystem.Init.{init, new, root_entry}
use lnxdrive.Fuse.FileSystem.Listing.{readdir_whole, read_dir, shown}
use lnxdrive.Fuse.FileSystem.Mounted.{IsMounted}
use lnxdrive.Fuse.FileSystem.Mounting.{mounted_endless}
use lnxdrive.Fuse.FileSystem.Names.{rename, unlink, mkdir}
use lnxdrive.Fuse.FileSystem.Names.Create.{Created, create}
use lnxdrive.Fuse.FileSystem.Started.{run_from_mount}
use lnxdrive.Fuse.FileSystem.Steps.{stop, next, makes_dir, writes, renames}
use lnxdrive.Fuse.FileSystem.Unsaved.{hydrated_unreadable, unsaved_lost}
use lnxdrive.Fuse.WriteSerializer.{process_operation}
use lnxdrive.Fuse.WriteSerializer.States.{stored_state}
use lnxdrive.Examples.Storage.{remote, stored}
use lnxdrive.Examples.Sweeps.{entry, around, policy}

program : Unit {0}
unfolding get insert Maps.get Maps.insert get_item InodeEntry.new read write release create rename
    unlink mkdir init new readdir
program = tt

abbrev mount : Mount
mount = record {
  config = record {
    mount_point = codes "/m";
    auto_mount = false;
    cache_dir = codes "/c";
    cache_max_size_gb = 10;
    dehydration_threshold_percent = 80;
    dehydration_max_age_days = 30;
    dehydration_interval_minutes = 60;
    hydration_concurrency = 4;
  };
  mount_point = root_dir ∷ normal (codes "m") ∷ [];
  hash_remote_id = λ id. id.text;
  hydrates = true;
  uid = 1000;
  gid = 1000;
}

abbrev repository : Repository
unfolding with_id
repository = record stored { next_inode = 5 }

abbrev hydrations : Hydrations
unfolding with_id
hydrations = record { active = []; repository = repository; files = (codes "R", 1 ∷ 2 ∷ []) ∷ [] }

-- The item 7 is stored as hydrated.
abbrev with_file : InodeEntry → LnxDriveFs
unfolding with_id insert Maps.insert InodeEntry.new
with_file file = record {
  inode_table =
      insert (insert (record { by_inode = []; by_item_id = [] }) (root_entry 20 (pos 0))) file;
  hydrations = hydrations;
  next_fh = 2;
  spawned = [];
  downloads = [];
}

abbrev file : InodeEntry
file = entry 3 7 (codes "R") 1

abbrev mounted : LnxDriveFs
unfolding with_id insert Maps.insert InodeEntry.new
mounted = with_file file

-- Behind the mount, a directory is made, and the first file is written and moved into it.
abbrev started : LnxDriveFs
unfolding with_id init new
started = init mount (new hydrations) 20 (pos 5)

abbrev with_dir : LnxDriveFs
unfolding with_id init new InodeEntry.new mkdir
with_dir = (mkdir mount started 21 (pos 5) 1 (some (codes "D")) 493 18).0

abbrev with_bytes : LnxDriveFs
unfolding with_id init new InodeEntry.new mkdir write
with_bytes = (write mount with_dir 5 0 (7 ∷ [])).0

abbrev with_name : LnxDriveFs
unfolding with_id init new InodeEntry.new mkdir write rename
with_name = (rename with_bytes (pos 6) 1 (some (codes "R")) 7 (some (codes "T"))).0

run_from_mount_example : IsMounted with_name
unfolding with_id init new insert Maps.insert InodeEntry.new get Maps.get InodeTable.get_by_item_id
    Maps.remove write rename with_bytes with_dir started Repository.items_of
    Repository.sync_item_from_row
run_from_mount_example =
    run_from_mount around mount policy tt hydrations 20 (pos 5) (tt, with_name) refl refl
      (omega arith)
      (next (makes_dir {w = tt} {self = started} 21 (pos 5) 1 (some (codes "D")) 493 18 refl) (
        next (writes {w = tt} {self = with_dir} 5 0 (7 ∷ [])) (
          next
            (renames {w = tt} {self = with_bytes} (pos 6) 1 (some (codes "R")) 7 (some (codes "T")))
            stop)))

-- The file is in the directory.
moved_there : is_some (InodeTable.lookup with_name.inode_table 7 (codes "T")) ≡ true
unfolding with_name InodeTable.lookup get Maps.get Repository.items_of Repository.sync_item_from_row
    Maps.insert process_operation Repository.get_next_inode Maps.remove InodeTable.remove
moved_there = refl

mounted_endless_example :
    let table = (init mount (new hydrations) 20 (pos 5)).inode_table in
    (any_directory root_ino (children table root_ino) ≡ true)
    × ((pin_recursive
          (λ k h. (h, []))
          mount.hash_remote_id
          (λ state. codes "state")
          table
          (pos 6)
          100
          hydrations
          root_ino).1
        ≡ none)
    × ((unpin_recursive table (pos 6) 100 hydrations root_ino).1 ≡ none)
unfolding with_id
mounted_endless_example =
    mounted_endless mount hydrations 20 (pos 5) (omega arith) (λ k h. (h, []))
      (λ state. codes "state") (pos 6) 100 hydrations

readdir_whole_example :
    map shown (read_dir (λ added e. true) mounted 1 5 0)
    ≡ (1, directory, codes ".")
      ∷ (1, directory, codes "..")
      ∷ (3, regular_file, codes "R")
      ∷ (1, directory, [])
      ∷ []
unfolding with_id get insert Maps.get Maps.insert InodeEntry.new Maps.remove children
readdir_whole_example =
    readdir_whole (λ added e. true) mounted 1 (root_entry 20 (pos 0)) refl refl (λ e. refl)

abbrev after : LnxDriveFs → Option (Answer Created) → LnxDriveFs
after self none = self
after self (some (self', result)) = self'

abbrev nothing : FileAttr
nothing = record {
  ino = 0;
  size = 0;
  blocks = 0;
  atime = pos 0;
  mtime = pos 0;
  ctime = pos 0;
  crtime = pos 0;
  kind = InodeEntry.regular_file;
  perm = 0;
  nlink = 0;
  uid = 0;
  gid = 0;
}

abbrev created : Option (Answer Created) → Created
created none = (nothing, 0, 0)
created (some (self, ok c)) = c
created (some (self, err e)) = (nothing, 0, 0)

abbrev outcome : Option (Answer Created)
unfolding with_id insert Maps.insert InodeEntry.new create
outcome = create mount mounted 21 (pos 5) 1 (some (codes "N")) 420 18 2 3

created_unusable_example :
    (write mount (after mounted outcome) 5 0 (7 ∷ []) ≡ (after mounted outcome, err eio))
    × (read (λ k h. (h, [])) mount (after mounted outcome) (pos 6) 5 0 10
        ≡ (after mounted outcome, err eio))
    × (unlink mount (after mounted outcome) (pos 6) 1 (some (codes "N"))
        ≡ (after mounted outcome, err eio))
unfolding with_id insert Maps.insert InodeEntry.new create get Maps.get Maps.remove
    InodeTable.lookup SyncPath.normalize_path SyncPath.normalize_from SyncPath.normalize_step
    SyncPath.relative_components SyncPath.components_of SyncPath.split process_operation
    Repository.save_item Repository.find Repository.get_next_inode SyncItem.new SyncItem.set_inode
    reset_state_for_crash_recovery Repository.get_default_account Repository.first_account
created_unusable_example =
    created_unusable mount mounted 21 (pos 5) 1 (codes "N") 420 18 2 3 (after mounted outcome)
      (created outcome).0 (created outcome).1 (created outcome).2 refl (λ k h. (h, [])) (pos 6) 0 10
      (7 ∷ [])

-- The entry was made before the download.
abbrev downloaded : LnxDriveFs
unfolding with_id insert Maps.insert InodeEntry.new
downloaded = with_file (record file { state = online })

hydrated_unreadable_example :
    read (λ k h. (h, [])) mount downloaded (pos 6) 3 0 10 ≡ (downloaded, err eio)
unfolding with_id get insert Maps.get Maps.insert InodeEntry.new get_item Repository.find
    Repository.sync_item_from_row
hydrated_unreadable_example =
    hydrated_unreadable mount downloaded 3 (record file { state = online }) (remote (codes "R"))
      refl refl refl refl refl refl (λ k h. (h, [])) (pos 6) 0 10

abbrev small : DehydrationPolicy
small = record policy { cache_max_bytes = 1 }

abbrev written : State around mount small
unfolding with_id insert Maps.insert InodeEntry.new write
written = run_spawned around mount small (tt, (write mount mounted 3 1 (7 ∷ 8 ∷ [])).0)

abbrev closed : State around mount small
unfolding with_id insert Maps.insert InodeEntry.new write release
closed = run_spawned around mount small (written.0, (release written.1 3).0)

unsaved_lost_example :
    ((write mount mounted 3 1 (7 ∷ 8 ∷ [])).1
      ≡ ok (write_at mount.hash_remote_id hydrations.files (remote (codes "R")) 1 (7 ∷ 8 ∷ [])).1)
    × (find_file closed.1.hydrations.files (cache_path mount.hash_remote_id (remote (codes "R")))
        ≡ none)
    × (stored_state closed.1.hydrations.repository 7 ≡ some modified)
unfolding with_id get insert Maps.get Maps.insert InodeEntry.new get_item Repository.find
    Repository.sync_item_from_row InodeEntry.decrement_open_handles threshold_bytes
    ContentCache.disk_usage ContentCache.total_size write_at ContentCache.zeros write release
    run_spawned
unsaved_lost_example =
    unsaved_lost around mount small tt mounted 3 file (remote (codes "R")) 1 (7 ∷ 8 ∷ []) refl refl
      refl refl refl refl refl

-- A download of ten bytes, of which a server gives half.
abbrev wanted : HydrationRequest
wanted = record {
  ino = 3;
  item_id = 7;
  remote_id = remote (codes "R");
  total_size = 10;
  downloaded = 0;
  cache_path = codes "R";
  priority = user_open;
  created_at = pos 0;
  watched = 0;
}

abbrev slow : Remote
slow = record {
  World = Unit;
  now = λ w. (w, pos 9);
  acquire = λ w. (w, true);
  cancelled = λ w. (w, false);
  get_download_url = λ id w. (w, ok (codes "url"));
  fetch = λ url w. (w, ok ([], none));
  fetch_range = λ url header w. (w, ok (1 ∷ 2 ∷ 3 ∷ 4 ∷ 5 ∷ []));
}

abbrev hydrating_fs : LnxDriveFs
unfolding with_id insert Maps.insert InodeEntry.new
hydrating_fs = record (with_file (record file { state = hydrating })) {
  hydrations = record hydrations {
    active = (3, wanted) ∷ [];
    files = (codes "R.partial", 0 ∷ 0 ∷ 0 ∷ 0 ∷ 0 ∷ 0 ∷ 0 ∷ 0 ∷ 0 ∷ 0 ∷ []) ∷ [];
  };
}

abbrev one_chunk : ℕ → Hydrations → Hydrations × List ℕ
unfolding download_chunks
one_chunk = downloading mount slow (codes "url") (remote (codes "R")) wanted tt 1 0 0

-- A directory in the one that was made.
abbrev with_nested : LnxDriveFs
unfolding with_id init new InodeEntry.new mkdir
with_nested = (mkdir mount with_dir 22 (pos 6) 7 (some (codes "E")) 493 18).0

abbrev below_dir : ℕ → Bool
below_dir ino = ino == 7 || ino == 8

abbrev depth : ℕ → ℕ
depth ino = if ino == 7 then 1 else 0
