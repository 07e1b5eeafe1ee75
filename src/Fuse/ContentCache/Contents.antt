-- ===== src/Fuse/ContentCache/Contents.antt =====
-- What can be read of the content cache, crates/lnxdrive-fuse/src/cache.rs, after it was written.
use lnxdrive.Prelude.{
  ℕ, zero, suc, ◌+◌, ◌-◌, ◌≡◌, ◌∙◌, refl, sym, ap, false, Bool-cases, inl, inr, none, some, List,
  [], ◌∷◌, ◌++◌, length, is_empty, take, drop, take-append, drop-append, length-take, text_eq,
  text_eq_refl, text_eq→eq, Text, ok, arith,
}
use lnxdrive.Core.Ids.{RemoteId}
use lnxdrive.Fuse.ContentCache.{
  Files, find_file, remove_file, put_file, zeros, front, written, read, write_at, cache_path,
}

pub find_file-remove_file :
    (files : Files) (name other : Text)
    → text_eq name other ≡ false
    → find_file (remove_file files name) other ≡ find_file files other
unfolding find_file remove_file
find_file-remove_file [] name other apart = refl
find_file-remove_file ((key, content) ∷ files) name other apart =
    elim (Bool-cases (text_eq key name)) [
      | inl e ↦
          let same = text_eq→eq key name e in
          rw (e, same, apart) (find_file-remove_file files name other apart)
      | inr e ↦ rw (e, find_file, find_file-remove_file files name other apart) refl
    ]

pub find_file-removed :
    (files : Files) (name : Text) → find_file (remove_file files name) name ≡ none
unfolding find_file remove_file
find_file-removed [] name = refl
find_file-removed ((key, content) ∷ files) name = elim (Bool-cases (text_eq key name)) [
  | inl e ↦ rw e (find_file-removed files name)
  | inr e ↦ rw (e, find_file, e) (find_file-removed files name)
]

-- A name that is not there is not there after a removal.
pub find_file-absent :
    (files : Files) (name other : Text)
    → find_file files name ≡ none
    → find_file (remove_file files other) name ≡ none
unfolding find_file remove_file
find_file-absent [] name other h = refl
find_file-absent ((key, content) ∷ files) name other h = elim (Bool-cases (text_eq key name)) [
  | inl e ↦ absurd (cc (rw e at h))
  | inr e ↦ elim (Bool-cases (text_eq key other)) [
    | inl d ↦ rw d (find_file-absent files name other (rw e at h))
    | inr d ↦ rw (d, find_file, e) (find_file-absent files name other (rw e at h))
  ]
]

pub length-zeros : (n : ℕ) → length (zeros n) ≡ n
unfolding zeros
length-zeros zero = refl
length-zeros (suc n) = ground (arith, length-zeros n)

length_append : (s t : List ℕ) → length (s ++ t) ≡ length s + length t
length_append [] t = omega arith
length_append (b ∷ s) t = ground (arith, length_append s t)

length-front : (offset : ℕ) (content : List ℕ) → length (front offset content) ≡ offset
length-front offset content = ground (
  arith,
  length_append (take offset content) (zeros (offset - length content)),
  length-take offset content,
  length-zeros (offset - length content),
)

pub drop_at : (n : ℕ) (s t : List ℕ) → length s ≡ n → drop n (s ++ t) ≡ t
drop_at n s t at = ap (λ k. drop k (s ++ t)) (sym at) ∙ drop-append s t

pub take_at : (n : ℕ) (s t : List ℕ) → length s ≡ n → take n (s ++ t) ≡ s
take_at n s t at = ap (λ k. take k (s ++ t)) (sym at) ∙ take-append s t

-- The bytes that are written, and what was in front of them.
slice_written :
    (offset : ℕ) (bytes content : List ℕ)
    → is_empty bytes ≡ false
    → (take (length bytes) (drop offset (written offset bytes content)) ≡ bytes)
      × (take offset (written offset bytes content) ≡ front offset content)
slice_written offset bytes content some_bytes =
    let before = front offset content in
    let after = bytes ++ drop (offset + length bytes) content in
    let at = length-front offset content in
    rw some_bytes (
      rw (drop_at offset before after at)
          (take-append bytes (drop (offset + length bytes) content)),
      take_at offset before after at,
    )

module _ (hash : RemoteId → Text) where
  -- After a write that is not empty, reading as much from the offset gives the bytes that were written, and
  -- reading up to the offset what was there, with zeros up to the offset where the file was shorter; and
  -- the content of an identifier with another hash is read as before.
  pub read-write_at :
      (self : Files) (id other : RemoteId) (offset from size : ℕ) (bytes content : List ℕ)
      → find_file self (cache_path hash id) ≡ some content
      → is_empty bytes ≡ false
      → text_eq (cache_path hash id) (cache_path hash other) ≡ false
      → (read hash (write_at hash self id offset bytes).0 id offset (length bytes) ≡ ok bytes)
        × (read hash (write_at hash self id offset bytes).0 id 0 offset ≡ ok (front offset content))
        × (read hash (write_at hash self id offset bytes).0 other from size
            ≡ read hash self other from size)
  unfolding read write_at find_file put_file
  read-write_at self id other offset from size bytes content found some_bytes apart =
      let slices = slice_written offset bytes content some_bytes in
      (
        rw (found, text_eq_refl (cache_path hash id)) (ap ok slices.0),
        rw (found, text_eq_refl (cache_path hash id)) (ap ok slices.1),
        rw (apart, find_file-remove_file self (cache_path hash id) (cache_path hash other) apart)
            refl,
      )
