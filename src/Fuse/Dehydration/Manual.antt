-- ===== src/Fuse/Dehydration/Manual.antt =====
-- `dehydrate_path` of crates/lnxdrive-fuse/src/dehydration.rs, which asks the inode table for the state and
-- writes it to the repository.
use lnxdrive.Prelude.{◌≡◌, ℕ, true, false, refl, some, ok, err, ltb, arith, Result}
use lnxdrive.Core.Error.{invalid_state}
use lnxdrive.Core.Ids.{RemoteId}
use lnxdrive.Core.ItemState.{online, is_hydrated, name}
use lnxdrive.Core.SyncItem.{SyncItem}
use lnxdrive.Core.Time.{DateTime}
use lnxdrive.Core.Transition.{can_transition, transition_to}
use lnxdrive.Cache.Repository.{Repository, get_item}
use lnxdrive.Fuse.Error.{FuseError, database_error, invalid_argument, to_string}
use lnxdrive.Fuse.InodeEntry.{InodeEntry}
use lnxdrive.Fuse.InodeTable
use lnxdrive.Fuse.InodeTable.{InodeTable}
use lnxdrive.Fuse.WriteSerializer.{domain_error_text, process_operation, update_state, done}
use lnxdrive.Fuse.Dehydration.{Host, dehydrate_path, removed}

abbrev pub refusal : SyncItem → FuseError
refusal item = invalid_argument (domain_error_text (invalid_state (name item.state) (name online)))

update_refused :
    (r : Repository) (entry : InodeEntry) (item : SyncItem)
    → get_item r entry.item_id ≡ some item
    → can_transition item.state online ≡ false
    → (now : DateTime)
    → process_operation r now (update_state entry.item_id online) ≡ (r, done (err (refusal item)))
unfolding process_operation transition_to
update_refused r entry item stored stuck now = rw (stored, stuck) refl

module _ (host : Host) where
  removed_refused :
      (r : Repository) (entry : InodeEntry) (item : SyncItem) (size : ℕ)
      (removal : host.World × Result FuseError (Unit {0}))
      → removal.1 ≡ ok tt
      → get_item r entry.item_id ≡ some item
      → can_transition item.state online ≡ false
      → removed host r entry.item_id size removal
        ≡ ((host.now removal.0).0, r, err (database_error (to_string (refusal item))))
  removed_refused r entry item size (w, ok _) h stored stuck =
      rw (update_refused r entry item stored stuck (host.now w).1) refl
  removed_refused r entry item size (w, err e) h stored stuck = absurd (ground arith)

  -- For a closed file that the inode table has as hydrated, while the stored item is in a state from which it
  -- may not become online, `dehydrate_path` returns an error and leaves the repository as it was, after it
  -- has removed the content.
  pub dehydrate_path_refused :
      (table : InodeTable) (r : Repository) (w : host.World) (ino : ℕ) (entry : InodeEntry)
      (id : RemoteId) (item : SyncItem)
      → InodeTable.get table ino ≡ some entry
      → ltb 0 entry.open_handles ≡ false
      → is_hydrated entry.state ≡ true
      → entry.remote_id ≡ some id
      → (host.remove id w).1 ≡ ok tt
      → get_item r entry.item_id ≡ some item
      → can_transition item.state online ≡ false
      → dehydrate_path host table r w ino
        ≡ ((host.now (host.remove id w).0).0, r, err (database_error (to_string (refusal item))))
  unfolding dehydrate_path
  dehydrate_path_refused table r w ino entry id item there closed full remote gone stored stuck =
      rw (there, closed, full, remote)
        (removed_refused r entry item (host.file_size id w) (host.remove id w) gone stored stuck)
