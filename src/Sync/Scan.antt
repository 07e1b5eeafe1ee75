-- ===== src/Sync/Scan.antt =====
-- Scanning the local disk: `scan_local_changes` and `walk_directory` of
-- crates/lnxdrive-sync/src/engine.rs. Log lines are left out.
use lnxdrive.Prelude.{
  ℕ, zero, suc, Bool, true, false, not, ◌&&◌, if◌then◌else◌, Option, none, some, is_some, List, [],
  ◌∷◌, ◌++◌, Text, codes, text_eq, Result, ok, err, leb_ℤ,
}
use lnxdrive.Core.Ids.{FileHash}
use lnxdrive.Core.ItemState.{ItemState, deleted}
use lnxdrive.Core.SyncItem.{SyncItem}
use lnxdrive.Core.SyncPath
use lnxdrive.Core.SyncPath.{
  SyncPath, PathBuf, Component, root_dir, cur_dir, parent_dir, normal, relative_to,
}
use lnxdrive.Core.Time.{DateTime}
use lnxdrive.Sync.Ports.{
  Ports, DirEntry, FileKind, directory, file, other, M, pure, bind, context, attempt, lift,
}

pub data LocalChange : Type 0 where
  created : SyncPath → LocalChange
  changed : SyncPath → SyncItem → LocalChange
  gone : SyncItem → LocalChange

abbrev pub same_content : Option FileHash → FileHash → Bool
same_content (some stored) hash = text_eq hash.text stored.text
same_content none hash = false

-- `unwrap_or(None)`
abbrev pub found : {A : Type 0} → Result Text (Option A) → Option A
found (ok o) = o
found (err e) = none

-- Whether the file is known not to have changed since the last synchronisation.
abbrev pub not_since : Option DateTime → Result Text DateTime → Bool
not_since (some last_sync) (ok time) = leb_ℤ time last_sync
not_since _ _ = false

abbrev pub is_deleted : ItemState → Bool
is_deleted deleted = true
is_deleted _ = false

module _ (ports : Ports) where
  infixl 5 ◌>>=◌ ◌>>◌
  abbrev ◌>>=◌ : {A B : Type 0} → M ports A → (A → M ports B) → M ports B
  ◌>>=◌ = bind ports

  abbrev ◌>>◌ : {A B : Type 0} → M ports A → M ports B → M ports B
  m >> k = m >>= λ _. k

  abbrev pub add_if_untracked : List LocalChange → SyncPath → Option SyncItem → List LocalChange
  add_if_untracked changes path none = changes ++ (created path ∷ [])
  add_if_untracked changes path (some item) = changes

  abbrev pub add_if_changed :
      List LocalChange → SyncPath → SyncItem → Result Text FileHash → List LocalChange
  add_if_changed changes path item (err e) = changes
  add_if_changed changes path item (ok hash) =
      if same_content item.content_hash hash then changes else changes ++ (changed path item ∷ [])

  -- A file of the directory that is read.
  abbrev pub check_file :
      Option DateTime
      → DirEntry
      → SyncPath
      → List LocalChange
      → Option SyncItem
      → M ports (List LocalChange)
  check_file last_sync entry path changes none = pure ports (changes ++ (created path ∷ []))
  check_file last_sync entry path changes (some item) =
      if not_since last_sync entry.modified then pure ports changes else (do
        hash ← attempt ports (ports.compute_hash path)
        pure ports (add_if_changed changes path item hash))

  -- An entry of the directory that is read; `walk` is the recursive call.
  abbrev pub walk_entry :
      (SyncPath → List LocalChange → M ports (List LocalChange))
      → Option DateTime
      → DirEntry
      → SyncPath
      → List LocalChange
      → FileKind
      → M ports (List LocalChange)
  walk_entry walk last_sync entry path changes directory = do
    existing ← attempt ports (ports.get_item_by_path path)
    walk path (add_if_untracked changes path (found existing))
  walk_entry walk last_sync entry path changes file = do
    existing ← attempt ports (ports.get_item_by_path path)
    check_file last_sync entry path changes (found existing)
  walk_entry walk last_sync entry path changes other = pure ports changes

  unfoldable pub walk_entries :
      (SyncPath → List LocalChange → M ports (List LocalChange))
      → Option DateTime
      → List DirEntry
      → List LocalChange
      → M ports (List LocalChange)
  walk_entries walk last_sync [] changes = pure ports changes
  walk_entries walk last_sync (entry ∷ entries) changes = elim (SyncPath.new entry.path) [
    | err e ↦ walk_entries walk last_sync entries changes
    | ok path ↦
        (lift ports (codes "Failed to read metadata") entry.kind >>= λ kind.
        walk_entry walk last_sync entry path changes kind)
        >>= λ more. walk_entries walk last_sync entries more
  ]

  -- The fuel is the depth of directories that are entered.
  unfoldable pub walk_directory :
      ℕ → Option DateTime → SyncPath → List LocalChange → M ports (List LocalChange)
  unfolding walk_entries
  walk_directory zero last_sync dir changes w = (w, err (codes "Directories are too deep"))
  walk_directory (suc depth) last_sync dir changes w =
      (context ports (codes "Failed to read directory") (ports.read_dir dir) >>= λ entries.
      walk_entries (walk_directory depth last_sync) last_sync entries changes)
        w

  -- The items of the repository whose local file is gone, or that are marked as deleted.
  unfoldable pub scan_items : List SyncItem → List LocalChange → M ports (List LocalChange)
  scan_items [] changes = pure ports changes
  scan_items (item ∷ items) changes =
      if is_deleted item.state
      then scan_items items
          (if is_some item.remote_id then changes ++ (gone item ∷ []) else changes)
      else (context ports (codes "Failed to check local state for deletion scan")
            (ports.get_state item.local_path)
          >>= λ fs_state. scan_items items (
              if not fs_state.exists && is_some item.remote_id
              then changes ++ (gone item ∷ [])
              else changes))

  unfoldable pub scan_local_changes : ℕ → SyncPath → Option DateTime → M ports (List LocalChange)
  unfolding walk_directory scan_items
  scan_local_changes depth sync_root last_sync = do
    changes ← walk_directory depth last_sync sync_root []
    all_items ← context ports (codes "Failed to query all sync items") ports.query_items
    scan_items all_items changes
