-- ===== src/Fuse/Dehydration/Cached.antt =====
-- The sweep of crates/lnxdrive-fuse/src/dehydration.rs over the content cache of
-- crates/lnxdrive-fuse/src/cache.rs, which is the host's; the rest of the host stays a parameter.
use lnxdrive.Prelude.{ℕ, ◌≡◌, refl, Bool, true, false, length, text_eq, Text, ok}
use lnxdrive.Core.Ids.{RemoteId}
use lnxdrive.Core.ItemState.{ItemState}
use lnxdrive.Core.SyncPath.{PathBuf}
use lnxdrive.Core.Time.{DateTime}
use lnxdrive.Cache.Repository.{Repository}
use lnxdrive.Fuse.ContentCache
use lnxdrive.Fuse.ContentCache.{
  Files, cache_path, partial_path, find_file, or_empty, read, remove_file,
}
use lnxdrive.Fuse.ContentCache.Contents.{find_file-remove_file}
use lnxdrive.Fuse.InodeTable.{InodeTable}
use lnxdrive.Fuse.Dehydration.{Host, DehydrationPolicy}
use lnxdrive.Fuse.Dehydration.Sweep.{State, run_sweep}
use lnxdrive.Fuse.Dehydration.Spares.{no_hydrated_row, run_sweep_spares}

pub record Surroundings : Type 1 where
  pub World : Type 0
  pub shutdown_requested : World → World × Bool
  pub now : World → World × DateTime
  pub days_before : ℕ → World → World × DateTime
  pub path_text : PathBuf → Text
  pub state_text : ItemState → Text

module _ (around : Surroundings) (hash : RemoteId → Text) where
  abbrev beside : {A : Type 0} → Files → around.World × A → (Files × around.World) × A
  beside files (w, a) = ((files, w), a)

  abbrev pub host_of : Host
  host_of = record {
    World = Files × around.World;
    disk_usage = λ w. ok (ContentCache.disk_usage hash w.0);
    file_size = λ id w. length (or_empty (find_file w.0 (cache_path hash id)));
    remove = λ id w. ((ContentCache.remove hash w.0 id, w.1), ok tt);
    shutdown_requested = λ w. beside w.0 (around.shutdown_requested w.1);
    now = λ w. beside w.0 (around.now w.1);
    days_before = λ n w. beside w.0 (around.days_before n w.1);
    path_text = around.path_text;
    state_text = around.state_text;
  }

  -- A sweep over the content cache returns, whether its loop has ended or not, and the content of an
  -- identifier that no hydrated row has is read as before, where no other identifier has the hash of this
  -- one, with or without the ending of partial files.
  pub run_sweep_keeps :
      (kept : RemoteId) (table : InodeTable) (policy : DehydrationPolicy) (fuel : ℕ) (files : Files)
      (w : around.World) (r : Repository) (offset size : ℕ)
      → ((id : RemoteId)
          → text_eq id.text kept.text ≡ false
          → text_eq (cache_path hash id) (cache_path hash kept) ≡ false)
      → ((id : RemoteId)
          → text_eq id.text kept.text ≡ false
          → text_eq (partial_path hash id) (cache_path hash kept) ≡ false)
      → no_hydrated_row kept r ≡ true
      → (swept : State host_of × Bool) × (run_sweep host_of table policy fuel (files, w) r
          ≡ ok swept)
        × (read hash swept.0.world.0 kept offset size ≡ read hash files kept offset size)
  unfolding read ContentCache.remove
  run_sweep_keeps kept table policy fuel files w r offset size apart partial clear =
      run_sweep_spares host_of
        (λ v. read hash v.0 kept offset size ≡ read hash files kept offset size) kept
        (λ v safe. safe) (λ v safe. safe) (λ n v safe. safe)
        (λ id v other safe.
          rw
            (
              find_file-remove_file (remove_file v.0 (cache_path hash id)) (partial_path hash id)
                  (cache_path hash kept) (partial id other),
              find_file-remove_file v.0 (cache_path hash id) (cache_path hash kept)
                  (apart id other),
            )
            safe)
        table policy fuel (files, w) r {usage = ContentCache.disk_usage hash files} clear refl refl
