-- ===== src/Fuse/FileSystem/Partial.antt =====
-- Reads while a download goes on, in crates/lnxdrive-fuse/src/filesystem.rs: the download writes to the partial
-- file, and `read` looks for the file of the cache.
use lnxdrive.Prelude.{List, [], ◌∷◌, Text, ℕ}
use lnxdrive.Core.Ids.{RemoteId}
use lnxdrive.Fuse.ContentCache
use lnxdrive.Fuse.ContentCache.{partial_path}
use lnxdrive.Fuse.Hydration.Download.{Remote, Job, download_chunks}
use lnxdrive.Fuse.Hydration.{Hydrations, HydrationRequest}
use lnxdrive.Fuse.InodeEntry.{InodeEntry}
use lnxdrive.Fuse.Maps
use lnxdrive.Fuse.FileSystem.{Mount}

module _ (mount : Mount) (remote : Remote) (url : Text) (id : RemoteId) (request : HydrationRequest)
    (w : remote.World) (fuel from last : ℕ) where
  -- The loop over the chunks, until it ends or the fuel is used up.
  abbrev pub chunks : Hydrations → Job remote.World
  unfolding download_chunks
  chunks h =
      (download_chunks remote url (partial_path mount.hash_remote_id id) request.total_size fuel
        from last
        (record { world = w; repository = h.repository; files = h.files; request = request })).0

  -- What the task does while `read` waits, and the progress that the channel has then.
  abbrev pub downloading : ℕ → Hydrations → Hydrations × List ℕ
  unfolding download_chunks
  downloading ino h = (
    record h { files = (chunks h).files; repository = (chunks h).repository },
    (chunks h).request.watched ∷ [],
  )
