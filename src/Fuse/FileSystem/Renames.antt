-- ===== src/Fuse/FileSystem/Renames.antt =====
-- `rename` of crates/lnxdrive-fuse/src/filesystem.rs, and what it does to a file that is open.
use lnxdrive.Prelude.{ℕ, ◌≡◌, ==_refl, refl, false, inl, inr, none, some, Text, err}
use lnxdrive.Core.Time.{DateTime}
use lnxdrive.Fuse.InodeEntry
use lnxdrive.Fuse.InodeEntry.{InodeEntry, FileType, FileType-cases}
use lnxdrive.Fuse.InodeTable.{InodeTable, get, insert, remove}
use lnxdrive.Fuse.Maps.{get-remove}
use lnxdrive.Fuse.FileSystem.{LnxDriveFs, too_long, enoent}
use lnxdrive.Fuse.FileSystem.Names.{rename, child_of, replaced, kind_error, renamed_entry, at_table}

module _ (self : LnxDriveFs) (now : DateTime) (parent : ℕ) (name : Text) (source : InodeEntry)
    (short : too_long name ≡ false) (found : child_of self parent name ≡ some source)
    (here : get self.inode_table source.ino ≡ some source) where
  removed_source : (remove self.inode_table source.ino).1 ≡ some source
  unfolding remove get
  removed_source = rw here refl

  source_gone : get (remove self.inode_table source.ino).0 source.ino ≡ none
  unfolding remove get
  source_gone =
      rw (here, get-remove self.inode_table.by_inode source.ino source.ino, ==_refl source.ino) refl

  kinds_agree : kind_error source.kind source.kind ≡ none
  kinds_agree = elim (FileType-cases source.kind) [ inl d ↦ rw d refl | inr d ↦ rw d refl ]

  -- A rename of an entry onto itself fails, and takes the entry out of the table.
  pub rename_onto_itself :
      (rename self now parent (some name) parent (some name)
        ≡ (at_table self (remove self.inode_table source.ino).0, err enoent))
      × (get (remove self.inode_table source.ino).0 source.ino ≡ none)
  unfolding rename remove get InodeEntry.new
  rename_onto_itself =
      (rw (short, found, replaced, found, kinds_agree, source_gone) refl, source_gone)

  module _ (newparent : ℕ) (newname : Text) (short' : too_long newname ≡ false)
      (free : child_of self newparent newname ≡ none) where
    abbrev table : InodeTable
    unfolding InodeEntry.new insert
    table =
        insert (remove self.inode_table source.ino).0 (renamed_entry source now newparent newname)
