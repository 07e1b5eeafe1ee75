-- ===== src/Fuse/ContentCache.antt =====
-- `ContentCache` of crates/lnxdrive-fuse/src/cache.rs, over the files of its directory by name. The
-- directories in front of a name are left out, and so are failures of the disk other than a file that is
-- not there. SHA-256 is a parameter, and lengths are below `2 ^ 64`.
use lnxdrive.Prelude.{
  ℕ, zero, suc, ◌+◌, ◌-◌, ◌%◌, ◌^◌, Bool, true, false, if◌then◌else◌, Option, none, some, List, [],
  ◌∷◌, ◌++◌, length, is_empty, is_some, take, drop, Text, codes, text_eq, Result, ok, err,
}
use lnxdrive.Core.Ids.{RemoteId}
use lnxdrive.Fuse.Error.{FuseError, io_error}
pub mod Contents

abbrev pub Files : Type 0
Files = List (Text × List ℕ)

unfoldable pub find_file : Files → Text → Option (List ℕ)
find_file [] name = none
find_file ((other, content) ∷ files) name =
    let rest = find_file files name in if text_eq other name then some content else rest

unfoldable pub remove_file : Files → Text → Files
remove_file [] name = []
remove_file ((other, content) ∷ files) name =
    let rest = remove_file files name in
    if text_eq other name then rest else (other, content) ∷ rest

unfoldable pub put_file : Files → Text → List ℕ → Files
unfolding remove_file
put_file files name content = (name, content) ∷ remove_file files name

unfoldable pub total_size : Files → ℕ
total_size [] = 0
total_size ((name, content) ∷ files) = length content + total_size files

unfoldable pub zeros : ℕ → List ℕ
zeros zero = []
zeros (suc n) = 0 ∷ zeros n

-- What is in front of an offset, with the hole behind a shorter file filled by zeros.
abbrev pub front : ℕ → List ℕ → List ℕ
front offset content = take offset content ++ zeros (offset - length content)

-- `seek` and `write_all`; nothing is written, and no hole is made, without data.
abbrev pub written : ℕ → List ℕ → List ℕ → List ℕ
written offset bytes content =
    if is_empty bytes
    then content
    else front offset content ++ (bytes ++ drop (offset + length bytes) content)

abbrev pub or_empty : Option (List ℕ) → List ℕ
or_empty none = []
or_empty (some content) = content

abbrev slice : ℕ → ℕ → Option (List ℕ) → Result FuseError (List ℕ)
slice offset size none = err (io_error (codes "No such file or directory (os error 2)"))
slice offset size (some content) = ok (take size (drop offset content))

module _ (hash_remote_id : RemoteId → Text) where
  abbrev pub cache_path : RemoteId → Text
  cache_path remote_id = hash_remote_id remote_id

  abbrev pub partial_path : RemoteId → Text
  partial_path remote_id = cache_path remote_id ++ codes ".partial"

  unfoldable pub store : Files → RemoteId → List ℕ → Files
  store self remote_id bytes = put_file self (cache_path remote_id) bytes

  unfoldable pub read : Files → RemoteId → ℕ → ℕ → Result FuseError (List ℕ)
  read self remote_id offset size = slice offset size (find_file self (cache_path remote_id))

  unfoldable pub exists : Files → RemoteId → Bool
  exists self remote_id = is_some (find_file self (cache_path remote_id))

  unfoldable pub remove : Files → RemoteId → Files
  unfolding remove_file
  remove self remote_id =
      remove_file (remove_file self (cache_path remote_id)) (partial_path remote_id)

  -- The result is the number of bytes, as a `u32`.
  unfoldable pub write_at : Files → RemoteId → ℕ → List ℕ → Files × ℕ
  unfolding find_file put_file
  write_at self remote_id offset bytes =
      let content = or_empty (find_file self (cache_path remote_id)) in
      (put_file self (cache_path remote_id) (written offset bytes content), length bytes % 2 ^ 32)

  unfoldable pub disk_usage : Files → ℕ
  disk_usage self = total_size self
