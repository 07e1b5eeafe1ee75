-- ===== src/Fuse/Hydration/Chunks.antt =====
-- The chunks of a download, in crates/lnxdrive-fuse/src/hydration.rs.
use lnxdrive.Prelude.{
  ℕ, zero, suc, ◌+◌, ◌-◌, ◌%◌, ◌^◌, ◌≤◌, ◌<◌, ◌≡◌, refl, sym, ap, ◌∙◌, min, ltb, false, inl, inr,
  Option, some, List, [], ◌∷◌, ◌++◌, length, take, drop, length-take, length-drop, length-append,
  is_empty, append-nil, append_assoc, Bool-cases, leb, ◌==◌, ◌||◌, Text, text_eq_refl, Result, ok,
  arith,
}
use lnxdrive.Fuse.ContentCache.{Files, find_file, put_file, zeros, written, or_empty}
use lnxdrive.Fuse.ContentCache.Contents.{length-zeros, take_at}
use lnxdrive.Fuse.Error.{FuseError}
use lnxdrive.Fuse.Hydration.{HydrationRequest, progress, add_downloaded}
use lnxdrive.Fuse.Hydration.Download.{
  Remote, Job, download_chunk_size, range_header, download_chunks, download_chunked, throttled,
  received, at_world,
}

-- What is in the file when the bytes in front of an offset have come.
abbrev pub prefix : ℕ → List ℕ → List ℕ
prefix offset content = take offset content ++ zeros (length content - offset)

take_all : (n : ℕ) (content : List ℕ) → length content ≤ n → take n content ≡ content
take_all zero [] h = refl
take_all zero (b ∷ content) h = absurd (omega arith)
take_all (suc n) [] h = refl
take_all (suc n) (b ∷ content) h = ap (λ x. b ∷ x) (take_all n content (omega arith))

take_nil : (n : ℕ) → take n [] ≡ []
take_nil zero = refl
take_nil (suc n) = refl

take_more :
    (offset n : ℕ) (content : List ℕ)
    → take offset content ++ take n (drop offset content) ≡ take (offset + n) content
take_more zero n content = ground arith
take_more (suc offset) n [] = take_nil n ∙ sym (take_nil (suc offset + n))
take_more (suc offset) n (b ∷ content) =
    let later : suc (offset + n) ≡ suc offset + n = omega arith in
    ap (λ x. b ∷ x) (take_more offset n content) ∙ ap (λ k. take k (b ∷ content)) later

drop_more : (n : ℕ) (s t : List ℕ) → drop (length s + n) (s ++ t) ≡ drop n t
drop_more n [] t = ground arith
drop_more n (b ∷ s) t =
    let later : length (b ∷ s) + n ≡ suc (length s + n) = omega arith in
    ap (λ k. drop k (b ∷ s ++ t)) later ∙ drop_more n s t

pub drop-zeros : (n m : ℕ) → drop n (zeros m) ≡ zeros (m - n)
unfolding zeros
drop-zeros zero m = ground arith
drop-zeros (suc n) zero = ground arith
drop-zeros (suc n) (suc m) = ground (arith, drop-zeros n m)

length-prefix :
    (offset : ℕ) (content : List ℕ)
    → offset ≤ length content
    → length (prefix offset content) ≡ length content
length-prefix offset content h = ground (
  arith,
  length-append (take offset content) (zeros (length content - offset)),
  length-take offset content,
  length-zeros (length content - offset),
)

-- Writing the next bytes gives the longer prefix.
written-prefix :
    (offset n : ℕ) (content : List ℕ)
    → 0 < n
    → offset + n ≤ length content
    → (written offset (take n (drop offset content)) (prefix offset content)
        ≡ prefix (offset + n) content)
      × (length (take n (drop offset content)) ≡ n)
unfolding zeros
written-prefix offset n content some_bytes fits =
    let s = take offset content in
    let bytes = take n (drop offset content) in
    let z = zeros (length content - offset) in
    let length_s : length s ≡ offset = omega (arith, length-take offset content) in
    let length_bytes : length bytes ≡ n =
      omega (arith, length-take n (drop offset content), length-drop offset content) in
    let holes : offset - length (prefix offset content) ≡ 0 =
      omega (arith, length-prefix offset content (omega arith)) in
    let full : is_empty bytes ≡ false = ground arith in
    let after : drop (offset + length bytes) (prefix offset content)
        ≡ zeros (length content - (offset + n)) =
      ap (λ k. drop (k + length bytes) (s ++ z)) (sym length_s)
      ∙ drop_more (length bytes) s z
      ∙ drop-zeros (length bytes) (length content - offset)
      ∙ ap zeros (omega arith) in
    (
      rw (full, after, holes, take_at offset s z length_s)
          (ap (λ x. x ++ (bytes ++ zeros (length content - (offset + n)))) (append-nil s)
            ∙ sym (append_assoc s bytes (zeros (length content - (offset + n))))
            ∙ ap (λ x. x ++ zeros (length content - (offset + n))) (take_more offset n content)),
      length_bytes,
    )

pub find_file-put_file :
    (files : Files) (name : Text) (content : List ℕ)
    → find_file (put_file files name content) name ≡ some content
unfolding find_file put_file
find_file-put_file files name content = rw (text_eq_refl name) refl

no_zeros : (content : List ℕ) → prefix (length content) content ≡ content
unfolding zeros
no_zeros content =
    let left : length content - length content ≡ 0 = omega arith in
    rw left
      (append-nil (take (length content) content) ∙ take_all (length content) content (omega arith))

module _ (remote : Remote) where
  pub throttled_same :
      (last : ℕ) (job : Job remote.World)
      → ((throttled remote last job).0.files ≡ job.files)
        × ((throttled remote last job).0.request ≡ job.request)
  unfolding progress
  throttled_same last job =
      elim (Bool-cases (leb (last + 5) (progress job.request) || progress job.request == 100)) [
        | inl e ↦ rw (throttled, e) (refl, refl)
        | inr e ↦ rw (throttled, e) (refl, refl)
      ]

  -- Whoever has asked for a range gets its bytes, or as many of the first of them as the server likes, but some.
  abbrev pub Serves : Text → List ℕ → Type 0
  Serves url content =
      (w : remote.World) (offset size : ℕ)
      → 0 < size
      → offset + size ≤ length content
      → (n : ℕ) × (0 < n)
        × (n ≤ size)
        × ((remote.fetch_range url (range_header offset size) w).1
            ≡ ok (take n (drop offset content)))

  -- How a download has ended that stored the whole content.
  pub record Complete (dest : Text) (content : List ℕ)
      (ended : Job remote.World × Option (Result FuseError (Unit {0}))) : Type 0 where
    pub succeeds : ended.1 ≡ some (ok tt)
    pub whole : find_file ended.0.files dest ≡ some content
    pub counted : ended.0.request.downloaded ≡ length content

  module _ (url dest : Text) (content : List ℕ) (small : length content < 2 ^ 64)
      (never : (w : remote.World) → (remote.cancelled w).1 ≡ false)
      (serves : Serves url content) where
    pub download_chunks_completes :
        (fuel offset last : ℕ) (job : Job remote.World)
        → offset ≤ length content
        → length content - offset < fuel
        → find_file job.files dest ≡ some (prefix offset content)
        → job.request.downloaded ≡ offset
        → Complete dest content
            (download_chunks remote url dest (length content) fuel offset last job)
    unfolding download_chunks add_downloaded progress
    download_chunks_completes zero offset last job within enough here counted = absurd (omega arith)
    download_chunks_completes (suc fuel) offset last job within enough here counted =
        elim (Bool-cases (ltb offset (length content))) [
          | inr e ↦
              let at_end : offset ≡ length content = ground arith in
              let whole : prefix offset content ≡ content =
                ap (λ k. prefix k content) at_end ∙ no_zeros content in
              rw (download_chunks, e)
                (record {
                  succeeds = refl;
                  whole = here ∙ ap some whole;
                  counted = counted ∙ at_end;
                })
          | inl e ↦
              let world = (remote.cancelled job.world).0 in
              let size = min (length content - offset) download_chunk_size in
              let below : offset < length content = ground arith in
              let (n, some_bytes, few, reply) =
                serves world offset size (omega arith) (omega arith) in
              let bytes = take n (drop offset content) in
              let (next_prefix, length_bytes) =
                written-prefix offset n content some_bytes (omega arith) in
              let got =
                received remote
                  (at_world remote job (remote.fetch_range url (range_header offset size) world).0)
                  dest offset bytes in
              let offset' = (offset + length bytes) % 2 ^ 64 in
              let at : offset' ≡ offset + n = omega arith in
              let same = throttled_same last got in
              let here' : find_file got.files dest ≡ some (prefix offset' content) =
                find_file-put_file job.files dest
                  (written offset bytes (or_empty (find_file job.files dest)))
                ∙ ap (λ x. some (written offset bytes (or_empty x))) here
                ∙ ap some next_prefix
                ∙ ap (λ k. some (prefix k content)) (sym at) in
              rw (download_chunks, e, never job.world, reply)
                (download_chunks_completes fuel offset' (throttled remote last got).1
                  (throttled remote last got).0 (omega arith) (omega arith)
                  (ap (λ files. find_file files dest) same.0 ∙ here')
                  (ap (λ (r : HydrationRequest). r.downloaded) same.1
                    ∙ ap (λ k. (k + length bytes) % 2 ^ 64) counted))
        ]

    -- While the token is not cancelled and the server gives some first bytes of every range that it is asked for, a
    -- chunked download with more fuel than the content is long succeeds, the file holds the whole content,
    -- and all its bytes are counted.
    pub download_chunked_completes :
        (fuel : ℕ) (job : Job remote.World)
        → length content < fuel
        → job.request.downloaded ≡ 0
        → Complete dest content (download_chunked remote url dest (length content) fuel job)
    unfolding download_chunked
    download_chunked_completes fuel job enough fresh =
        download_chunks_completes fuel 0 0
          (record job { files = put_file job.files dest (zeros (length content)) }) (omega arith)
          (omega arith)
          (find_file-put_file job.files dest (zeros (length content))
            ∙ ap (λ n. some (zeros n)) (omega arith))
          fresh
