-- ===== src/Sync/Local/Deletes.antt =====
-- Local deletions of items whose state may not become deleted, in
-- crates/lnxdrive-sync/src/engine.rs.
use lnxdrive.Prelude.{◌≡◌, false, inl, inr, is_ok, Option-cases, Result-cases, refl}
use lnxdrive.Core.ItemState.{deleted}
use lnxdrive.Core.SyncItem.{SyncItem}
use lnxdrive.Core.Transition.{mark_deleted, transition_to, can_transition}
use lnxdrive.Sync.Local.{handle_local_delete}
use lnxdrive.Sync.Ports.{Ports}
use lnxdrive.Sync.Retry.{with_retry}

module _ (ports : Ports) where
  open ports use {World}

  -- For an item whose state may not become deleted (modified, conflicted, hydrating, deleted),
  -- handle_local_delete fails, whatever the cloud answers.
  pub local_delete_fails :
      (item : SyncItem) (w : World)
      → can_transition item.state deleted ≡ false
      → is_ok (handle_local_delete ports item w).1 ≡ false
  unfolding handle_local_delete mark_deleted with_retry transition_to
  local_delete_fails item w e = elim (Option-cases item.remote_id) [
    | inl none_e ↦ rw none_e refl
    | inr (id, some_e) ↦
        rw some_e (elim (Result-cases (with_retry ports (ports.delete_item id) w).1) [
          | inl (u, answer) ↦ rw (answer, mark_deleted, transition_to, e) refl
          | inr (x, answer) ↦ rw answer refl
        ])
  ]
