-- ===== src/Core/RemotePath.antt =====
-- `RemotePath` of crates/lnxdrive-core/src/domain/newtypes.rs: the path of an item on OneDrive.
-- `rfind` with the slice before it, and `rsplit(..).next()`, are the two halves of `rsplit_once`.
use lnxdrive.Prelude.{
  ℕ, ◌<◌, Bool, true, false, not, ◌&&◌, ◌||◌, if◌then◌else◌, ltb, ◌==◌, Option, none, some, List,
  [], ◌∷◌, ◌++◌, Text, codes, text_eq, starts_with, contains, has_char, byte_len, is_empty, Result,
  ok, err,
}
use lnxdrive.Core.Error.{DomainError, invalid_remote_path}
pub mod Split
pub mod Valid
pub mod Family

pub record RemotePath : Type 0 where
  pub text : Text

abbrev pub slash : ℕ
slash = b'/'

-- The text before the last `x` and the text after it.
unfoldable pub rsplit_once : ℕ → Text → Option (Text × Text)
rsplit_once x [] = none
rsplit_once x (c ∷ s) = elim (rsplit_once x s) [
  | some (before, after) ↦ some (c ∷ before, after)
  | none ↦ if c == x then some ([], s) else none
]

unfoldable pub new : Text → Result DomainError RemotePath
new path =
    if not (starts_with path (codes "/"))
    then err invalid_remote_path
    else if ltb 1 (byte_len path) && contains path (codes "//")
    then err invalid_remote_path
    else if contains path (codes "..")
    then err invalid_remote_path
    else ok (record { text = path })

unfoldable pub root : RemotePath
root = record { text = codes "/" }

unfoldable pub join : RemotePath → Text → Result DomainError RemotePath
join self component =
    if is_empty component || has_char component slash || contains component (codes "..")
    then err invalid_remote_path
    else new (
        if text_eq self.text (codes "/") then slash ∷ component else self.text ++ slash ∷ component)

unfoldable pub parent : RemotePath → Option RemotePath
parent self = if text_eq self.text (codes "/") then none else elim (rsplit_once slash self.text) [
  | none ↦ none
  | some (before, _) ↦ some (if is_empty before then root else record { text = before })
]

unfoldable pub file_name : RemotePath → Option Text
file_name self =
    if text_eq self.text (codes "/")
    then none
    else elim (rsplit_once slash self.text) [ none ↦ some self.text | some (_, after) ↦ some after ]
