-- ===== src/Fuse/Hydration/Progress.antt =====
-- The percentages of crates/lnxdrive-fuse/src/hydration.rs, and the loop over chunks that bring nothing.
use lnxdrive.Prelude.{
  ℕ, zero, suc, ◌+◌, ◌-◌, ◌*◌, ◌/◌, ◌%◌, ◌^◌, ◌≤◌, ◌<◌, ◌≡◌, ◌↔◌, refl, ◌==◌, min, ltb, true, false,
  inl, inr, Bool-cases, none, [], Text, ok, arith,
}
use native.Mathlib.Nat.{le-div_iff_mul-le, div-mul-le_self, lt-div-mul-add}
use lnxdrive.Fuse.ContentCache.{put_file, zeros}
use lnxdrive.Fuse.Hydration.{HydrationRequest, progress, required_progress}
use lnxdrive.Fuse.Hydration.Download.{
  Remote, Job, range_header, download_chunk_size, download_chunks, download_chunked, throttled,
  received, at_world,
}

-- The percentage, where the product does not wrap around.
percent :
    (r : HydrationRequest)
    → 0 < r.total_size
    → r.downloaded * 100 < 2 ^ 64
    → progress r ≡ min (r.downloaded * 100 / r.total_size) 100
unfolding progress
percent r some_bytes fits =
    let e : (r.total_size == 0) ≡ false = ground arith in
    let whole : r.downloaded * 100 % 2 ^ 64 ≡ r.downloaded * 100 = omega arith in
    rw (progress, e, whole) refl

-- For a file that is not empty, and numbers whose hundredfold has 64 bits, the progress of a request is 100 exactly
-- when all bytes are counted.
pub complete_iff :
    (r : HydrationRequest)
    → 0 < r.total_size
    → r.downloaded * 100 < 2 ^ 64
    → (progress r ≡ 100) ↔ (r.total_size ≤ r.downloaded)
complete_iff r some_bytes fits =
    let e = percent r some_bytes fits in
    let (to, from) =
      le-div_iff_mul-le {k = r.total_size} {x = 100} {y = r.downloaded * 100} some_bytes in
    (
      λ h.
          let at_least : 100 ≤ r.downloaded * 100 / r.total_size = omega arith in
          let enough = to at_least in omega arith,
      λ h. let at_least = from (omega arith) in omega arith,
    )

required :
    (total offset size : ℕ)
    → 0 < total
    → (offset + size) * 100 < 2 ^ 64
    → required_progress total offset size ≡ min ((offset + size) * 100 / total) 100
unfolding required_progress
required total offset size some_bytes fits =
    let e : (total == 0) ≡ false = ground arith in
    let whole : min (offset + size) (2 ^ 64 - 1) * 100 % 2 ^ 64 ≡ (offset + size) * 100 =
      omega arith in
    rw (required_progress, e, whole) refl

-- For a range within a file that is not empty, and numbers whose hundredfold has 64 bits: once all bytes up to the
-- end of the range are counted, the progress is what a reader of the range waits for; and when it is,
-- less than one per cent of the file is missing in front of the end of the range.
pub range_within_percent :
    (r : HydrationRequest) (offset size : ℕ)
    → 0 < r.total_size
    → offset + size ≤ r.total_size
    → r.total_size * 100 < 2 ^ 64
    → r.downloaded ≤ r.total_size
    → (offset + size ≤ r.downloaded → required_progress r.total_size offset size ≤ progress r)
      × (required_progress r.total_size offset size ≤ progress r
          → (offset + size) * 100 < r.downloaded * 100 + r.total_size)
range_within_percent r offset size some_bytes within fits counted =
    let e = percent r some_bytes (omega arith) in
    let d = required r.total_size offset size some_bytes (omega arith) in
    let t = r.total_size in
    let have = r.downloaded * 100 in
    let want = (offset + size) * 100 in
    let (below, above) = le-div_iff_mul-le {k = t} {x = want / t} {y = have} some_bytes in
    let started = div-mul-le_self want t in
    let (over, _) = le-div_iff_mul-le {k = t} {x = 101} {y = want} some_bytes in
    let last : want < want / t * t + t = lt-div-mul-add some_bytes in
    (
      λ h. let enough = above (omega arith) in omega arith,
      λ h. elim (Bool-cases (ltb 100 (want / t))) [
        | inl many ↦ let full = over (ground arith) in absurd (omega arith)
        | inr few ↦ let within = below (ground arith) in omega arith
      ],
    )

module _ (remote : Remote) where
  chunks_endless :
      (url dest : Text) (total fuel last : ℕ) (job : Job remote.World)
      → 0 < total
      → ((w : remote.World) → (remote.cancelled w).1 ≡ false)
      → ((w : remote.World) (offset size : ℕ)
          → (remote.fetch_range url (range_header offset size) w).1 ≡ ok [])
      → (download_chunks remote url dest total fuel 0 last job).1 ≡ none
  unfolding download_chunks
  chunks_endless url dest total zero last job some_bytes never empty = refl
  chunks_endless url dest total (suc fuel) last job some_bytes never empty =
      let world = (remote.cancelled job.world).0 in
      let size = min (total - 0) download_chunk_size in
      let below : ltb 0 total ≡ true = ground arith in
      let got =
        received remote (at_world remote job (remote.fetch_range url (range_header 0 size) world).0)
          dest 0 [] in
      rw (download_chunks, below, never job.world, empty world 0 size)
        (chunks_endless url dest total fuel (throttled remote last got).1
          (throttled remote last got).0 some_bytes never empty)

  -- Where the server answers every request for a range with no bytes, and the token is not cancelled, a chunked
  -- download of a file that is not empty does not return, with however much fuel.
  pub download_endless :
      (url dest : Text) (total fuel : ℕ) (job : Job remote.World)
      → 0 < total
      → ((w : remote.World) → (remote.cancelled w).1 ≡ false)
      → ((w : remote.World) (offset size : ℕ)
          → (remote.fetch_range url (range_header offset size) w).1 ≡ ok [])
      → (download_chunked remote url dest total fuel job).1 ≡ none
  unfolding download_chunked
  download_endless url dest total fuel job some_bytes never empty =
      chunks_endless url dest total fuel 0
        (record job { files = put_file job.files dest (zeros total) }) some_bytes never empty
