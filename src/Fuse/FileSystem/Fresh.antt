-- ===== src/Fuse/FileSystem/Fresh.antt =====
-- A file that was just created, in crates/lnxdrive-fuse/src/filesystem.rs.
use lnxdrive.Prelude.{
  ℕ, ◌≡◌, ==_refl, refl, sym, ap, Bool, true, false, Bool-cases, inl, inr, Option, none, some,
  Option-cases, List, Text, text_eq_refl, Result, Result-cases, ok, err,
}
use lnxdrive.Core.Ids.{UniqueId}
use lnxdrive.Core.ItemState.{modified, deleted}
use lnxdrive.Core.RemotePath
use lnxdrive.Core.RemotePath.{RemotePath}
use lnxdrive.Core.SyncPath
use lnxdrive.Core.SyncPath.{PathBuf, SyncPath}
use lnxdrive.Core.SyncItem
use lnxdrive.Core.Time.{DateTime}
use lnxdrive.Core.Transition.{can_transition}
use lnxdrive.Fuse.Hydration.{Hydrations, answer}
use lnxdrive.Fuse.InodeEntry
use lnxdrive.Fuse.InodeEntry.{
  InodeEntry, FileType, regular_file, increment_lookup, increment_open_handles,
}
use lnxdrive.Fuse.InodeTable
use lnxdrive.Fuse.InodeTable.{InodeTable, get}
use lnxdrive.Fuse.Maps
use lnxdrive.Fuse.FileSystem.{
  LnxDriveFs, Mount, Answer, FileAttr, too_long, eio, alloc_fh, to_file_attr,
}
use lnxdrive.Fuse.FileSystem.Handles.{read, write, write_cached, cached_read}
use lnxdrive.Fuse.FileSystem.Names.{unlink, child_of, parent_error, next_inode, at_repository}
use lnxdrive.Fuse.FileSystem.Names.Create.{
  Created, create, names_up, with_inode, create_at, saved, entered, created_item, created_entry,
  local_path_of, remote_path_of,
}
use lnxdrive.Fuse.WriteSerializer.{process_operation, save_item}
use lnxdrive.Fuse.WriteSerializer.States.{stored_state, state_of, saved_back, update_state_keeps}
use lnxdrive.Core.Transition.{reset_state_for_crash_recovery}

-- What there is of a file that was just created: its entry in the table, by number and by name, without a remote
-- identifier, and its item; both are modified.
record IsFresh (self : LnxDriveFs) (parent : ℕ) (name : Text) (attr : FileAttr) : Type 0 where
  entry : InodeEntry
  here : get self.inode_table attr.ino ≡ some entry
  found : child_of self parent name ≡ some entry
  unsynced : entry.remote_id ≡ none
  is_file : entry.kind ≡ regular_file
  state : entry.state ≡ modified
  stored : stored_state self.hydrations.repository entry.item_id ≡ some modified

abbrev attr_in : FileAttr → Result ℕ Created → FileAttr
attr_in attr (ok created) = created.0
attr_in attr (err e) = attr

abbrev fails : Option (Answer Created) → Bool
fails (some (self, err errno)) = true
fails _ = false

module _ (mount : Mount) where
  entered-IsFresh :
      (self : LnxDriveFs) (flags : ℕ) (entry : InodeEntry) (name : Text)
      → entry.remote_id ≡ none
      → entry.kind ≡ regular_file
      → entry.state ≡ modified
      → entry.name ≡ name
      → stored_state self.hydrations.repository entry.item_id ≡ some modified
      → IsFresh (entered mount self flags entry).0 entry.parent_ino name (to_file_attr mount entry)
  unfolding entered alloc_fh to_file_attr InodeTable.lookup get InodeTable.insert Maps.insert
      Maps.modify Maps.get increment_lookup increment_open_handles
  entered-IsFresh self flags entry name unsynced is_file state named stored = record {
    entry = increment_open_handles (increment_lookup entry);
    here = rw (==_refl entry.ino, Maps.get, ==_refl entry.ino) refl;
    found = rw (==_refl entry.ino, ==_refl entry.parent_ino, named, text_eq_refl name) refl;
    unsynced = unsynced;
    is_file = is_file;
    state = state;
    stored = stored;
  }

  saved-IsFresh :
      (self : LnxDriveFs) (fresh : UniqueId) (now : DateTime) (parent : ℕ) (name : Text)
      (mode umask flags ino : ℕ) (local_path : SyncPath) (remote_path : RemotePath)
      (next : LnxDriveFs) (attr : FileAttr) (fh open_flags : ℕ)
      → ◌≡◌ {A = Answer Created}
          (saved mount self flags (created_entry fresh now parent name mode umask ino) (
            process_operation self.hydrations.repository now
              (save_item (created_item fresh now local_path remote_path ino))))
          (next, ok (attr, fh, open_flags))
      → IsFresh next parent name attr
  unfolding saved entered alloc_fh to_file_attr InodeTable.lookup get InodeTable.insert Maps.insert
      Maps.modify Maps.get InodeEntry.new increment_lookup increment_open_handles SyncItem.new
      SyncItem.set_inode reset_state_for_crash_recovery
  saved-IsFresh self fresh now parent name mode umask flags ino local_path remote_path next attr fh
        open_flags h =
      let item = created_item fresh now local_path remote_path ino in
      let written = process_operation self.hydrations.repository now (save_item item) in
      elim (Result-cases (answer written.1)) [
        | inr (e, refused) ↦
            absurd (cc (ap (λ (x : Answer Created). x.1) (rw (saved, refused) at h)))
        | inl (u, saves) ↦
            let h' = rw (saved, saves) at h in
            let next_is = ap (λ (x : Answer Created). x.0) h' in
            let attr_is = ap (λ (x : Answer Created). attr_in attr x.1) h' in
            rw (sym next_is, sym attr_is)
              (entered-IsFresh (at_repository self written.0) flags
                (created_entry fresh now parent name mode umask ino) name refl refl refl refl
                (ap state_of (saved_back self.hydrations.repository now item saves)))
      ]

  abbrev Outcome : Type 0
  Outcome = Answer Created

  refuses :
      {self next : LnxDriveFs} {errno : ℕ} {created : Created}
      → ◌≡◌ {A = Option Outcome} (some (self, err errno)) (some (next, ok created))
      → ⊥
  refuses h = absurd (cc (ap fails h))

  same_outcome : {x y : Outcome} → ◌≡◌ {A = Option Outcome} (some x) (some y) → x ≡ y
  same_outcome h = cc

  created-IsFresh :
      (self : LnxDriveFs) (fresh : UniqueId) (now : DateTime) (parent : ℕ) (name : Text)
      (mode umask flags fuel : ℕ) (next : LnxDriveFs) (attr : FileAttr) (fh open_flags : ℕ)
      → create mount self fresh now parent (some name) mode umask flags fuel
        ≡ some (next, ok (attr, fh, open_flags))
      → (too_long name ≡ false) × IsFresh next parent name attr
  unfolding create with_inode create_at
  created-IsFresh self fresh now parent name mode umask flags fuel next attr fh open_flags h =
      let (numbered, ino) = next_inode self now in
      elim (Bool-cases (too_long name)) [
        | inl e ↦ absurd (refuses (rw e at h))
        | inr e ↦ elim (Option-cases (parent_error self.inode_table parent name)) [
          | inr (errno, refused) ↦ absurd (refuses (rw (e, refused) at h))
          | inl fine ↦ elim (Option-cases (names_up self.inode_table fuel parent)) [
            | inl out ↦ absurd (cc (rw (e, fine, with_inode, out) at h))
            | inr (names, up) ↦
                let made = same_outcome (rw (e, fine, with_inode, up) at h) in
                elim (Result-cases (SyncPath.new (local_path_of mount names name))) [
                  | inr (x, bad) ↦ absurd (refuses (ap some (rw (create_at, bad) at made)))
                  | inl (local_path, fine_local) ↦
                      elim (Result-cases (RemotePath.new (remote_path_of names name))) [
                        | inr (x, bad) ↦
                            absurd (refuses (ap some (rw (create_at, fine_local, bad) at made)))
                        | inl (remote_path, fine_remote) ↦ (
                          e,
                          saved-IsFresh numbered fresh now parent name mode umask flags ino
                              local_path remote_path next attr fh open_flags
                              (rw (create_at, fine_local, fine_remote) at made),
                        )
                      ]
                ]
          ]
        ]
      ]

  -- Behind a `create` that succeeds, writing to the new file fails, reading it fails, and so does removing it by its
  -- name, and each of these leaves everything as it was.
  pub created_unusable :
      (self : LnxDriveFs) (fresh : UniqueId) (now : DateTime) (parent : ℕ) (name : Text)
      (mode umask flags fuel : ℕ) (next : LnxDriveFs) (attr : FileAttr) (fh open_flags : ℕ)
      → create mount self fresh now parent (some name) mode umask flags fuel
        ≡ some (next, ok (attr, fh, open_flags))
      → (others : ℕ → Hydrations → Hydrations × List ℕ) (later : DateTime) (offset size : ℕ)
        (bytes : List ℕ)
      → (write mount next attr.ino offset bytes ≡ (next, err eio))
        × (read others mount next later attr.ino offset size ≡ (next, err eio))
        × (unlink mount next later parent (some name) ≡ (next, err eio))
  unfolding can_transition write write_cached read cached_read unlink
  created_unusable self fresh now parent name mode umask flags fuel next attr fh open_flags h others
        later offset size bytes =
      let (short, is) =
        created-IsFresh self fresh now parent name mode umask flags fuel next attr fh open_flags
          h in
      let (e, refused) =
        update_state_keeps next.hydrations.repository later is.entry.item_id modified deleted
          is.stored refl in
      (
        rw (write, is.here, is.state, write_cached, is.unsynced) refl,
        rw (read, is.here, is.state, cached_read, is.unsynced) refl,
        rw (unlink, short, is.found, is.is_file, refused) refl,
      )
