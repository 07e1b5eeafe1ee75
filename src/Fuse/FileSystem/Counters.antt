-- ===== src/Fuse/FileSystem/Counters.antt =====
-- The inodes that the queue of crates/lnxdrive-fuse/src/write_serializer.rs has handed out.
use lnxdrive.Prelude.{◌≡◌, ℕ, refl, Bool-cases, inl, inr, Option, Option-cases, Result-cases}
use lnxdrive.Core.Ids.{UniqueId}
use lnxdrive.Core.ItemState.{ItemState}
use lnxdrive.Core.SyncItem.{SyncItem}
use lnxdrive.Core.Time.{DateTime}
use lnxdrive.Core.Transition.{can_transition, transition_to}
use lnxdrive.Cache.Repository
use lnxdrive.Cache.Repository.{Repository, Row, find, has_id, account_for, get_item}
use lnxdrive.Fuse.WriteSerializer.{
  update_state, save_item, update_hydration_progress, update_last_accessed, process_operation,
}

pub saves_count :
    (r : Repository) (item : SyncItem) → (Repository.save_item r item).0.next_inode ≡ r.next_inode
unfolding Repository.save_item
saves_count r item = elim (Result-cases (account_for r (find (has_id item.id) r.rows))) [
  | inl (id, h) ↦ rw h refl
  | inr (e, h) ↦ rw h refl
]

pub save_keeps_count :
    (r : Repository) (now : DateTime) (item : SyncItem)
    → (process_operation r now (save_item item)).0.next_inode ≡ r.next_inode
unfolding process_operation
save_keeps_count r now item = saves_count r item

pub state_keeps_count :
    (r : Repository) (now : DateTime) (id : UniqueId) (state : ItemState)
    → (process_operation r now (update_state id state)).0.next_inode ≡ r.next_inode
unfolding process_operation transition_to
state_keeps_count r now id state = elim (Option-cases (get_item r id)) [
  | inl gone ↦ rw gone refl
  | inr (item, found) ↦ elim (Bool-cases (can_transition item.state state)) [
    | inl e ↦ rw (found, e) (saves_count r _)
    | inr e ↦ rw (found, e) refl
  ]
]

pub access_keeps_count :
    (r : Repository) (now at : DateTime) (id : UniqueId)
    → (process_operation r now (update_last_accessed id at)).0.next_inode ≡ r.next_inode
unfolding process_operation Repository.update_last_accessed
access_keeps_count r now at id = elim (Option-cases (find (has_id id) r.rows)) [
  | inl gone ↦ rw gone refl
  | inr (row, found) ↦ rw found refl
]

pub progress_keeps_count :
    (r : Repository) (now : DateTime) (id : UniqueId) (value : Option ℕ)
    → (process_operation r now (update_hydration_progress id value)).0.next_inode ≡ r.next_inode
unfolding process_operation Repository.update_hydration_progress
progress_keeps_count r now id value = elim (Option-cases (find (has_id id) r.rows)) [
  | inl gone ↦ rw gone refl
  | inr (row, found) ↦ rw found refl
]
