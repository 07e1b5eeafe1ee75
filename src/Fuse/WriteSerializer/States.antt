-- ===== src/Fuse/WriteSerializer/States.antt =====
-- Which state an item is stored with after the operations of crates/lnxdrive-fuse/src/write_serializer.rs.
use lnxdrive.Prelude.{
  ◌≡◌, ◌==◌, ==_iff, true, false, inl, inr, refl, ap, ◌∙◌, Option, none, some, Option-cases, ok,
  err, Result, Result-cases, ℕ,
}
use lnxdrive.Core.Error.{invalid_state}
use lnxdrive.Core.Ids.{UniqueId}
use lnxdrive.Core.ItemState.{ItemState, name}
use lnxdrive.Core.SyncItem.{SyncItem}
use lnxdrive.Core.Time.{DateTime}
use lnxdrive.Core.Transition.{can_transition, transition_to}
use lnxdrive.Cache.Repository
use lnxdrive.Cache.Repository.{
  Repository, Row, find, has_id, update, get_item, item_of, sync_item_from_row, new_row,
  account_for,
}
use lnxdrive.Cache.Repository.Columns.{find_holds, without_columns}
use lnxdrive.Cache.Repository.Reads.{get_item-save_item_self, update_unread}
use lnxdrive.Fuse.Error.{FuseError, invalid_argument}
use lnxdrive.Fuse.WriteSerializer.{
  save_item, domain_error_text, process_operation, update_state, update_hydration_progress, Reply,
  done, inode,
}

-- The state of what is read.
abbrev pub state_of : Option SyncItem → Option ItemState
state_of none = none
state_of (some item) = some item.state

abbrev pub stored_state : Repository → UniqueId → Option ItemState
stored_state r id = state_of (get_item r id)

pub state_found :
    (o : Option SyncItem) {state : ItemState}
    → state_of o ≡ some state
    → (item : SyncItem) × (o ≡ some item) × (item.state ≡ state)
state_found none h = absurd (cc h)
state_found (some item) h = (item, refl, cc h)

-- A transition that the table allows is made.
pub update_state_makes :
    (r : Repository) (now : DateTime) (id : UniqueId) (from to : ItemState)
    → stored_state r id ≡ some from
    → can_transition from to ≡ true
    → (stored_state (process_operation r now (update_state id to)).0 id ≡ some to)
      × ((process_operation r now (update_state id to)).1 ≡ done (ok tt))
unfolding process_operation transition_to Repository.save_item get_item find sync_item_from_row
update_state_makes r now id from to stored allowed = elim (Option-cases (find (has_id id) r.rows)) [
  | inl gone ↦ absurd (cc (rw gone at stored))
  | inr (row, found) ↦
      let at : (row.item.id == id) ≡ true = find_holds (has_id id) r.rows row found in
      let same : row.item.id ≡ id = (==_iff _ _).0 at in
      let there : find (has_id row.item.id) r.rows ≡ some row =
        ap (λ x. find (has_id x) r.rows) same ∙ found in
      let state : row.item.state ≡ from = cc (rw found at stored) in
      let allowed' : can_transition row.item.state to ≡ true =
        ap (λ x. can_transition x to) state ∙ allowed in
      rw (found, allowed', there, at) (refl, refl)
]

-- Any other transition changes nothing.
pub update_state_keeps :
    (r : Repository) (now : DateTime) (id : UniqueId) (from to : ItemState)
    → stored_state r id ≡ some from
    → can_transition from to ≡ false
    → (e : FuseError) × (process_operation r now (update_state id to) ≡ (r, done (err e)))
unfolding process_operation transition_to
update_state_keeps r now id from to stored refused =
    let (item, found, state) = state_found (get_item r id) stored in
    let refused' : can_transition item.state to ≡ false =
      ap (λ x. can_transition x to) state ∙ refused in
    (
      invalid_argument (domain_error_text (invalid_state (name item.state) (name to))),
      rw (found, refused') refl,
    )

pub progress_keeps_state :
    (r : Repository) (now : DateTime) (id k : UniqueId) (value : Option ℕ)
    → stored_state (process_operation r now (update_hydration_progress id value)).0 k
      ≡ stored_state r k
unfolding process_operation get_item Repository.update_hydration_progress
progress_keeps_state r now id k value = elim (Option-cases (find (has_id id) r.rows)) [
  | inl gone ↦ rw gone refl
  | inr (row, found) ↦ rw found (ap state_of (update_unread _ id k r.rows (λ item. refl)))
]

abbrev answer : Reply → Result FuseError (Unit {0})
answer (done result) = result
answer (inode n) = ok tt

-- A save that is answered with success is read back, but for the columns of the file system.
pub saved_back :
    (r : Repository) (now : DateTime) (item : SyncItem)
    → answer (process_operation r now (save_item item)).1 ≡ ok tt
    → get_item (process_operation r now (save_item item)).0 item.id ≡ some (without_columns item)
unfolding process_operation Repository.save_item
saved_back r now item h = elim (Result-cases (account_for r (find (has_id item.id) r.rows))) [
  | inl (account_id, e) ↦ get_item-save_item_self r item e
  | inr (message, e) ↦ absurd (cc (rw e at h))
]
