-- ===== src/Fuse/Hydration/Download.antt =====
-- The download task of crates/lnxdrive-fuse/src/hydration.rs, with the writes to disk of `download_range` and
-- `download_file_to_disk` in crates/lnxdrive-graph/src/provider.rs. Requests, the clock, the permit and the
-- cancellation token are those of a host. The loop over the chunks takes fuel.
use lnxdrive.Prelude.{
  ℕ, zero, suc, ◌+◌, ◌-◌, ◌*◌, ◌%◌, ◌^◌, ◌==◌, ltb, leb, ◌||◌, min, Bool, true, false, Option, none,
  some, List, ◌++◌, length, Text, codes, decimal, Result, ok, err,
}
use lnxdrive.Core.Ids.{RemoteId}
use lnxdrive.Core.Time.{DateTime}
use lnxdrive.Cache.Repository.{Repository}
use lnxdrive.Fuse.ContentCache.{
  Files, find_file, remove_file, put_file, zeros, written, or_empty, cache_path, partial_path,
}
use lnxdrive.Fuse.Error.{FuseError, hydration_failed}
use lnxdrive.Fuse.Hydration.{HydrationRequest, progress, add_downloaded, mark_complete}
use lnxdrive.Fuse.WriteSerializer.{update_hydration_progress, process_operation}

abbrev pub chunked_download_threshold : ℕ
chunked_download_threshold = 100 * 1024 * 1024

abbrev pub download_chunk_size : ℕ
download_chunk_size = 10 * 1024 * 1024

-- Requests with the errors as the provider reports them. `fetch` answers with what came before the
-- stream ended, or broke with an error.
pub record Remote : Type 1 where
  pub World : Type 0
  pub now : World → World × DateTime
  pub acquire : World → World × Bool
  pub cancelled : World → World × Bool
  pub get_download_url : RemoteId → World → World × Result Text Text
  pub fetch : Text → World → World × Result Text (List ℕ × Option Text)
  pub fetch_range : Text → Text → World → World × Result Text (List ℕ)

-- What the task works on.
pub record Job (World : Type 0) : Type 0 where
  pub world : World
  pub repository : Repository
  pub files : Files
  pub request : HydrationRequest

abbrev pub range_header : ℕ → ℕ → Text
range_header offset len =
    codes "bytes=" ++ decimal offset ++ codes "-" ++ decimal (offset + len - 1)

module _ (remote : Remote) where
  abbrev Task : Type 0
  Task = Job remote.World × Result FuseError (Unit {0})

  -- A failure of this write is only logged.
  abbrev pub report_progress : Job remote.World → ℕ → Job remote.World
  report_progress job value =
      let clock = remote.now job.world in
      record job {
        world = clock.0;
        repository =
            (process_operation job.repository clock.1
              (update_hydration_progress job.request.item_id (some value))).0;
      }

  abbrev pub received : Job remote.World → Text → ℕ → List ℕ → Job remote.World
  received job dest offset bytes = record job {
    files = put_file job.files dest (written offset bytes (or_empty (find_file job.files dest)));
    request = add_downloaded job.request (length bytes);
  }

  -- The progress is written to the database in steps of at least five per cent.
  abbrev pub throttled : ℕ → Job remote.World → Job remote.World × ℕ
  throttled last job =
      let current = progress job.request in
      elim (leb (last + 5) current || current == 100) [
        | true ↦ (report_progress job current, current)
        | false ↦ (job, last)
      ]

  abbrev pub at_world : Job remote.World → remote.World → Job remote.World
  at_world job world = record job { world = world }

  abbrev pub chunk_failed : ℕ → Text → FuseError
  chunk_failed offset message =
      hydration_failed
        (codes "Chunk download failed at offset " ++ decimal offset ++ codes ": " ++ message)

  -- Without a result where the fuel is used up.
  unfoldable pub download_chunks :
      Text
      → Text
      → ℕ
      → ℕ
      → ℕ
      → ℕ
      → Job remote.World
      → Job remote.World × Option (Result FuseError (Unit {0}))
  unfolding find_file remove_file put_file progress add_downloaded
  download_chunks url dest total zero offset last job = (job, none)
  download_chunks url dest total (suc fuel) offset last job = elim (ltb offset total) [
    | false ↦ (job, some (ok tt))
    | true ↦
        let token = remote.cancelled job.world in
        elim token.1 [
          | true ↦ (
            record job { world = token.0; files = remove_file job.files dest },
            some (err (hydration_failed (codes "Cancelled"))),
          )
          | false ↦
              let size = min (total - offset) download_chunk_size in
              let reply = remote.fetch_range url (range_header offset size) token.0 in
              elim reply.1 [
                | err message ↦ (at_world job reply.0, some (err (chunk_failed offset message)))
                | ok bytes ↦
                    let next = throttled last (received (at_world job reply.0) dest offset bytes) in
                    download_chunks url dest total fuel ((offset + length bytes) % 2 ^ 64) next.1
                      next.0
              ]
        ]
  ]

  unfoldable pub download_chunked :
      Text
      → Text
      → ℕ
      → ℕ
      → Job remote.World
      → Job remote.World × Option (Result FuseError (Unit {0}))
  unfolding download_chunks put_file
  download_chunked url dest total fuel job =
      download_chunks url dest total fuel 0 0
        (record job { files = put_file job.files dest (zeros total) })

  abbrev pub cancelled_task : Job remote.World → Task
  cancelled_task job = (job, err (hydration_failed (codes "Cancelled")))

  abbrev pub stored : Job remote.World → Text → List ℕ → Job remote.World
  stored job dest bytes = record job { files = put_file job.files dest bytes }

  abbrev failed : Text → FuseError
  failed message = hydration_failed (codes "Download failed: " ++ message)

  abbrev counted : Job remote.World → ℕ → Job remote.World
  counted job bytes =
      let next = record job { request = add_downloaded job.request bytes } in
      report_progress next (progress next.request)

  unfoldable pub download_full : Text → Text → Job remote.World → Task
  unfolding put_file progress add_downloaded
  download_full url dest job =
      let token = remote.cancelled job.world in
      elim token.1 [
        | true ↦ cancelled_task (at_world job token.0)
        | false ↦
            let reply = remote.fetch url token.0 in
            elim reply.1 [
              | err message ↦ (at_world job reply.0, err (failed message))
              | ok answer ↦ elim answer.1 [
                | some message ↦ (stored (at_world job reply.0) dest answer.0, err (failed message))
                | none ↦
                    (counted (stored (at_world job reply.0) dest answer.0) (length answer.0), ok tt)
              ]
            ]
      ]

  -- `std::fs::rename` of the partial file, and the completed request.
  abbrev pub renamed : Job remote.World → Text → Text → Task
  renamed job partial final = elim (find_file job.files partial) [
    | none ↦ (
      job,
      err (
          hydration_failed
            (codes "Failed to rename partial file: No such file or directory (os error 2)")),
    )
    | some content ↦ (
      record job {
        files = put_file (remove_file job.files partial) final content;
        request = mark_complete job.request;
      },
      ok tt,
    )
  ]

  abbrev pub moved : Text → Text → Task → Task
  moved partial final (job, err e) = (job, err e)
  moved partial final (job, ok _) = renamed job partial final

  abbrev pub moved_chunks :
      Text
      → Text
      → Job remote.World × Option (Result FuseError (Unit {0}))
      → Job remote.World × Option (Result FuseError (Unit {0}))
  moved_chunks partial final (job, none) = (job, none)
  moved_chunks partial final (job, some result) =
      let task = moved partial final (job, result) in (task.0, some task.1)

  abbrev settled : Task → Job remote.World × Option (Result FuseError (Unit {0}))
  settled (job, result) = (job, some result)

  module _ (hash_remote_id : RemoteId → Text) where
    unfoldable pub downloaded :
        ℕ → Text → Job remote.World → Job remote.World × Option (Result FuseError (Unit {0}))
    unfolding find_file remove_file put_file mark_complete download_chunked download_full
    downloaded fuel url job =
        let id = job.request.remote_id in
        let partial = partial_path hash_remote_id id in
        let final = cache_path hash_remote_id id in
        elim (ltb job.request.total_size chunked_download_threshold) [
          | true ↦ settled (moved partial final (download_full url partial job))
          | false ↦
              moved_chunks partial final
                (download_chunked url partial job.request.total_size fuel job)
        ]

    -- The directories of the cache are there.
    unfoldable pub download_task :
        ℕ → Job remote.World → Job remote.World × Option (Result FuseError (Unit {0}))
    unfolding downloaded
    download_task fuel job =
        let permit = remote.acquire job.world in
        elim permit.1 [
          | false ↦
              settled (at_world job permit.0, err (hydration_failed (codes "Semaphore closed")))
          | true ↦
              let token = remote.cancelled permit.0 in
              elim token.1 [
                | true ↦ settled (cancelled_task (at_world job token.0))
                | false ↦
                    let url = remote.get_download_url job.request.remote_id token.0 in
                    elim url.1 [
                      | err message ↦ settled (
                        at_world job url.0,
                        err (hydration_failed (codes "Failed to get download URL: " ++ message)),
                      )
                      | ok address ↦ downloaded fuel address (at_world job url.0)
                    ]
              ]
        ]
