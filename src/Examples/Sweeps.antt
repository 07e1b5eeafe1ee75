-- ===== src/Examples/Sweeps.antt =====
-- A host for the sweep, whose world lists the identifiers whose content was removed, and the content
-- cache in its place.
use lnxdrive.Prelude.{
  ℕ, ◌≡◌, refl, Bool, false, some, ◌++◌, List, [], ◌∷◌, Text, codes, ok, pos, text_eq, arith,
}
use lnxdrive.Cache.Repository.{get_item}
use lnxdrive.Core.Account.{with_id}
use lnxdrive.Core.Ids.{RemoteId}
use lnxdrive.Core.ItemState.{hydrated}
use lnxdrive.Fuse.Dehydration.{Host, DehydrationPolicy, dehydrate_path}
use lnxdrive.Fuse.Dehydration.Sweep.{State, run_sweep, sweep}
use lnxdrive.Fuse.Dehydration.Cached.{Surroundings, host_of, run_sweep_keeps}
use lnxdrive.Fuse.ContentCache
use lnxdrive.Fuse.ContentCache.{Files, read, write_at, zeros}
use lnxdrive.Fuse.ContentCache.Contents.{read-write_at}
use lnxdrive.Fuse.Dehydration.Handles.{run_sweep_same}
use lnxdrive.Fuse.InodeEntry.{InodeEntry, regular_file}
use lnxdrive.Fuse.InodeTable.{InodeTable}
use lnxdrive.Examples.Storage.{remote, stored}

program : Unit {0}
unfolding sweep run_sweep dehydrate_path get_item
program = tt

abbrev host : Host
host = record {
  World = List RemoteId;
  disk_usage = λ w. ok 100;
  file_size = λ id w. 10;
  remove = λ id w. (id ∷ w, ok tt);
  shutdown_requested = λ w. (w, false);
  now = λ w. (w, pos 9);
  days_before = λ n w. (w, pos 8);
  path_text = λ path. codes "path";
  state_text = λ state. codes "state";
}

abbrev pub policy : DehydrationPolicy
policy = record {
  cache_max_bytes = 50;
  threshold_percent = 80;
  max_age_days = 30;
  interval_minutes = 60;
}

abbrev empty_table : InodeTable
empty_table = record { by_inode = []; by_item_id = [] }

abbrev pub around : Surroundings
around = record {
  World = Unit;
  shutdown_requested = λ w. (w, false);
  now = λ w. (w, pos 9);
  days_before = λ n w. (w, pos 8);
  path_text = λ path. codes "path";
  state_text = λ state. codes "state";
}

-- In place of a hash, the identifier itself, and an ending that no identifier has.
abbrev files : Files
files = (codes "R", 1 ∷ 2 ∷ []) ∷ (codes "S", 3 ∷ 4 ∷ []) ∷ []

unlike_partial : (text : Text) → text_eq (text ++ codes ".partial") (codes "S") ≡ false
unlike_partial [] = refl
unlike_partial (c ∷ []) = ground arith
unlike_partial (c ∷ d ∷ text) = ground arith

run_sweep_keeps_example :
    (swept : State (host_of around (λ id. id.text)) × Bool) × (run_sweep
        (host_of around (λ id. id.text))
        empty_table
        policy
        5
        (files, tt)
        stored
      ≡ ok swept)
    × (read (λ id. id.text) swept.0.world.0 (remote (codes "S")) 0 2
        ≡ read (λ id. id.text) files (remote (codes "S")) 0 2)
unfolding with_id
run_sweep_keeps_example =
    run_sweep_keeps around (λ id. id.text) (remote (codes "S")) empty_table policy 5 files tt stored
      0 2 (λ id other. other) (λ id other. unlike_partial id.text) refl

read-write_at_example :
    (read
        (λ id. id.text)
        (write_at (λ id. id.text) files (remote (codes "S")) 3 (7 ∷ 8 ∷ [])).0
        (remote (codes "S"))
        3
        2
      ≡ ok (7 ∷ 8 ∷ []))
    × (read
          (λ id. id.text)
          (write_at (λ id. id.text) files (remote (codes "S")) 3 (7 ∷ 8 ∷ [])).0
          (remote (codes "S"))
          0
          3
        ≡ ok (3 ∷ 4 ∷ 0 ∷ []))
    × (read
          (λ id. id.text)
          (write_at (λ id. id.text) files (remote (codes "S")) 3 (7 ∷ 8 ∷ [])).0
          (remote (codes "R"))
          0
          2
        ≡ read (λ id. id.text) files (remote (codes "R")) 0 2)
unfolding zeros ContentCache.find_file
read-write_at_example =
    read-write_at (λ id. id.text) files (remote (codes "S")) (remote (codes "R")) 3 0 2 (7 ∷ 8 ∷ [])
      (3 ∷ 4 ∷ []) refl refl refl

-- The first item is open, and its content is removed.
abbrev pub entry : ℕ → ℕ → Text → ℕ → InodeEntry
entry ino id name handles = record {
  ino = ino;
  item_id = id;
  remote_id = some (remote name);
  parent_ino = 1;
  name = name;
  kind = regular_file;
  size = 10;
  perm = 420;
  mtime = pos 0;
  ctime = pos 0;
  atime = pos 0;
  nlink = 1;
  lookup_count = 1;
  open_handles = handles;
  state = hydrated;
}

abbrev open_table : InodeTable
open_table = record { by_inode = (3, entry 3 7 (codes "R") 2) ∷ []; by_item_id = (7, 3) ∷ [] }

run_sweep_same_example :
    run_sweep host open_table policy 5 [] stored ≡ run_sweep host empty_table policy 5 [] stored
run_sweep_same_example = run_sweep_same host open_table empty_table policy 5 [] stored
