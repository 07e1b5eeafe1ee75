-- ===== src/Fuse/Hydration/Whole.antt =====
-- A whole download task, in crates/lnxdrive-fuse/src/hydration.rs.
use lnxdrive.Prelude.{
  ℕ, ◌^◌, ◌<◌, ◌≡◌, refl, ltb, true, false, inl, inr, Option, none, some, List, length, Bool-cases,
  Text, Result, ok, err,
}
use lnxdrive.Core.Ids.{RemoteId}
use lnxdrive.Fuse.ContentCache.{find_file, cache_path, partial_path}
use lnxdrive.Fuse.Error.{FuseError}
use lnxdrive.Fuse.Hydration.{mark_complete, progress, add_downloaded}
use lnxdrive.Fuse.Hydration.Download.{
  Remote, Job, chunked_download_threshold, download_task, downloaded, download_full,
  download_chunked, moved, moved_chunks, renamed,
}
use lnxdrive.Fuse.Hydration.Chunks.{
  Complete, Serves, find_file-put_file, download_chunked_completes,
}

-- How a task has ended that brought the whole content into the cache.
pub record Cached (remote : Remote) (final : Text) (content : List ℕ)
    (ended : Job remote.World × Option (Result FuseError (Unit {0}))) : Type 0 where
  pub succeeds : ended.1 ≡ some (ok tt)
  pub whole : find_file ended.0.files final ≡ some content
  pub announced : ended.0.request.watched ≡ 100

module _ (remote : Remote) (hash : RemoteId → Text) (content : List ℕ) where
  renamed_whole :
      (partial final : Text) (job : Job remote.World)
      → find_file job.files partial ≡ some content
      → Cached remote final content (
        (moved remote partial final (job, ok tt)).0,
        some (moved remote partial final (job, ok tt)).1,
      )
  unfolding mark_complete
  renamed_whole partial final job here =
      rw (moved, renamed, here)
        (record { succeeds = refl; whole = find_file-put_file _ final content; announced = refl })

  chunks_whole :
      (partial final : Text) (ended : Job remote.World × Option (Result FuseError (Unit {0})))
      → Complete remote partial content ended
      → Cached remote final content (moved_chunks remote partial final ended)
  chunks_whole partial final (job, none) c = absurd (cc c.succeeds)
  chunks_whole partial final (job, some (err e)) c = absurd (cc c.succeeds)
  chunks_whole partial final (job, some (ok _)) c = renamed_whole partial final job c.whole

  full_whole :
      (url partial : Text) (job : Job remote.World)
      → ((w : remote.World) → (remote.cancelled w).1 ≡ false)
      → ((w : remote.World) → (remote.fetch url w).1 ≡ ok (content, none))
      → ((download_full remote url partial job).1 ≡ ok tt)
        × (find_file (download_full remote url partial job).0.files partial ≡ some content)
  unfolding download_full progress add_downloaded
  full_whole url partial job never fetched =
      rw (download_full, never job.world, fetched (remote.cancelled job.world).0)
        (refl, find_file-put_file job.files partial content)

  moved-Cached :
      (partial final : Text) (task : Job remote.World × Result FuseError (Unit {0}))
      → task.1 ≡ ok tt
      → find_file task.0.files partial ≡ some content
      → Cached remote final content
          ((moved remote partial final task).0, some (moved remote partial final task).1)
  moved-Cached partial final (job, ok _) h here = renamed_whole partial final job here
  moved-Cached partial final (job, err e) h here = absurd (cc h)

  chunked_whole :
      (url partial : Text) (fuel total : ℕ) (job : Job remote.World)
      → total ≡ length content
      → length content < 2 ^ 64
      → ((w : remote.World) → (remote.cancelled w).1 ≡ false)
      → Serves remote url content
      → length content < fuel
      → job.request.downloaded ≡ 0
      → Complete remote partial content (download_chunked remote url partial total fuel job)
  chunked_whole url partial fuel total job at small never serves enough fresh = rw at (
      download_chunked_completes remote url partial content small never serves fuel job enough
        fresh)

  -- Where the permit is granted, the token is not cancelled, the address is given, the server answers with the
  -- whole content or with some first bytes of every range that it is asked for, and the request is new
  -- and has the content's length, a task with more fuel than that length succeeds, brings the
  -- whole content into the cache, and announces 100 per cent.
  pub download_task_completes :
      (fuel : ℕ) (job : Job remote.World) (url : Text)
      → length content < 2 ^ 64
      → length content < fuel
      → job.request.total_size ≡ length content
      → job.request.downloaded ≡ 0
      → ((w : remote.World) → (remote.acquire w).1 ≡ true)
      → ((w : remote.World) → (remote.cancelled w).1 ≡ false)
      → ((w : remote.World) → (remote.get_download_url job.request.remote_id w).1 ≡ ok url)
      → ((w : remote.World) → (remote.fetch url w).1 ≡ ok (content, none))
      → Serves remote url content
      → Cached remote
          (cache_path hash job.request.remote_id)
          content
          (download_task remote hash fuel job)
  unfolding download_task downloaded
  download_task_completes fuel job url small enough total fresh granted never addressed fetched
        serves =
      let id = job.request.remote_id in
      let w0 = (remote.acquire job.world).0 in
      let w1 = (remote.cancelled w0).0 in
      let started = record job { world = (remote.get_download_url id w1).0 } in
      elim (Bool-cases (ltb job.request.total_size chunked_download_threshold)) [
        | inl e ↦
            let full = full_whole url (partial_path hash id) started never fetched in
            rw (download_task, granted job.world, never w0, addressed w1, downloaded, e)
              (moved-Cached (partial_path hash id) (cache_path hash id)
                (download_full remote url (partial_path hash id) started) full.0 full.1)
        | inr e ↦
            rw (download_task, granted job.world, never w0, addressed w1, downloaded, e)
              (chunks_whole (partial_path hash id) (cache_path hash id)
                (download_chunked remote url (partial_path hash id) job.request.total_size fuel
                  started)
                (chunked_whole url (partial_path hash id) fuel job.request.total_size started total
                  small never serves enough fresh))
      ]
