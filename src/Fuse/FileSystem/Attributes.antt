-- ===== src/Fuse/FileSystem/Attributes.antt =====
-- Extended attributes: crates/lnxdrive-fuse/src/xattr.rs, and the handlers of them in
-- crates/lnxdrive-fuse/src/filesystem.rs. Texts are compared by characters and measured in bytes.
use lnxdrive.Prelude.{
  ℕ, ◌==◌, ltb, ◌%◌, ◌^◌, if◌then◌else◌, Option, none, some, List, [], ◌∷◌, ◌++◌, Text, codes,
  text_eq, byte_len, starts_with, decimal, Result, ok, err,
}
use lnxdrive.Core.Ids.{RemoteId}
use lnxdrive.Core.ItemState.{ItemState, hydrating, name}
use lnxdrive.Fuse.Hydration.{progress_of}
use lnxdrive.Fuse.InodeEntry.{InodeEntry}
use lnxdrive.Fuse.InodeTable
use lnxdrive.Fuse.FileSystem.{LnxDriveFs, Mount, Answer, enoent}

abbrev pub enodata : ℕ
enodata = 61

abbrev pub erange : ℕ
erange = 34

abbrev pub eacces : ℕ
eacces = 13

abbrev pub enotsup : ℕ
enotsup = 95

abbrev pub xattr_state : Text
xattr_state = codes "user.lnxdrive.state"

abbrev pub xattr_size : Text
xattr_size = codes "user.lnxdrive.size"

abbrev pub xattr_remote_id : Text
xattr_remote_id = codes "user.lnxdrive.remote_id"

abbrev pub xattr_progress : Text
xattr_progress = codes "user.lnxdrive.progress"

unfoldable pub list_xattrs : List Text
list_xattrs = xattr_state ∷ xattr_size ∷ xattr_remote_id ∷ xattr_progress ∷ []

abbrev id_text : Option RemoteId → Option Text
id_text none = none
id_text (some id) = some id.text

abbrev percent : Option ℕ → ℕ
percent none = 0
percent (some value) = value

abbrev progress_text : ItemState → Option ℕ → Option Text
progress_text hydrating value = some (decimal (percent value))
progress_text _ value = none

unfoldable pub get_xattr : InodeEntry → Text → Option ℕ → Option Text
unfolding name
get_xattr entry key hydration_progress =
    if text_eq key xattr_state
    then some (name entry.state)
    else if text_eq key xattr_size
    then some (decimal entry.size)
    else if text_eq key xattr_remote_id
    then id_text entry.remote_id
    else if text_eq key xattr_progress
    then progress_text entry.state hydration_progress
    else none

-- Either the size, where the caller asks for it, or the value.
pub data XattrReply : Type 0 where
  xattr_len : ℕ → XattrReply
  value : Text → XattrReply

abbrev pub sized : ℕ → ℕ → Text → Result ℕ XattrReply
sized size len bytes =
    if size == 0
    then ok (xattr_len (len % 2 ^ 32))
    else if ltb size len
    then err erange
    else ok (value bytes)

abbrev found : ℕ → Option Text → Result ℕ XattrReply
found size none = err enodata
found size (some bytes) = sized size (byte_len bytes) bytes

abbrev progress_known : Mount → LnxDriveFs → ℕ → Option ℕ
unfolding progress_of
progress_known mount self ino = if mount.hydrates then progress_of self.hydrations ino else none

unfoldable pub getxattr : Mount → LnxDriveFs → ℕ → Option Text → ℕ → Answer XattrReply
unfolding get_xattr progress_of
getxattr mount self ino none size = (self, err enodata)
getxattr mount self ino (some key) size = elim (InodeTable.get self.inode_table ino) [
  | none ↦ (self, err enoent)
  | some entry ↦ (self, found size (get_xattr entry key (progress_known mount self ino)))
]

-- The names one behind the other, each with a zero behind it.
abbrev separated : List Text → Text
separated [] = []
separated (name ∷ names) = name ++ 0 ∷ separated names

unfoldable pub listxattr : LnxDriveFs → ℕ → ℕ → Answer XattrReply
unfolding list_xattrs
listxattr self ino size = elim (InodeTable.get self.inode_table ino) [
  | none ↦ (self, err enoent)
  | some entry ↦ (self, sized size (byte_len (separated list_xattrs)) (separated list_xattrs))
]

abbrev denied : Option Text → ℕ
denied none = enotsup
denied (some key) = if starts_with key (codes "user.lnxdrive.") then eacces else enotsup

unfoldable pub setxattr : LnxDriveFs → ℕ → Option Text → Answer (Unit {0})
setxattr self ino key = (self, err (denied key))

unfoldable pub removexattr : LnxDriveFs → ℕ → Option Text → Answer (Unit {0})
removexattr self ino key = (self, err (denied key))
